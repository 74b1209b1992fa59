-- ===== src/BiMap/Laws.antt =====
-- The two directions of a map of common/include/bi_map.h agree, where no row overwrites another.
use keybinder.Base.{
  Bool, true, false, ap, not, or_fail, throws, out_of_range, fail, ◌&&◌, ◌≡◌, refl, ◌↔◌, ◌⊎◌, inl,
  inr, List, [], ◌∷◌, Option, none, some, ok, arith, Bool-cases, if◌then◌else◌,
}
use keybinder.BiMap.Keys.{Key}
use keybinder.BiMap.{
  BiMap, lookup, put, contains, insert, insert_all, from_list, find_forward, find_backward,
  contains_forward,
}

module _ {A : Type 0} where
  found :
      (o : Option A)
      → elim o [ none ↦ false | some v ↦ true ] ≡ true
      → (v : A) × (or_fail o (throws out_of_range) ≡ ok v)
  found none h = absurd (cc h)
  found (some v) h = (v, refl)

  either :
      (o : Option A)
      → ((k : A) × (or_fail o (throws out_of_range) ≡ ok k))
        ⊎ (or_fail o (throws out_of_range) ≡ fail (throws out_of_range))
  either none = inr refl
  either (some k) = inl (k, refl)

module _ {A B : Type 0} where
  -- A row of the table.
  abbrev Row : A → B → List (A × B) → Type 0
  Row k v [] = ⊥
  Row k v ((j, w) ∷ rows) = ((j ≡ k) × (w ≡ v)) ⊎ Row k v rows

abbrev pub or_else {ℓ} : {B : Type ℓ} → Option B → Option B → Option B
or_else none o = o
or_else (some v) o = some v

module _ {A B : Type 0} ⦃e : Key A⦄ where
  -- No key stands in two rows.
  abbrev pub distinct : List (A × B) → Bool
  distinct [] = true
  distinct ((k, v) ∷ rows) = not (contains k rows) && distinct rows

  unfoldable pub put_all : List (A × B) → List (A × B) → List (A × B)
  put_all [] m = m
  put_all ((k, v) ∷ rows) m = put_all rows (put k v m)

  pub lookup-put :
      (k j : A) (v : B) (m : List (A × B))
      → lookup j (put k v m) ≡ (if e.beq k j then some v else lookup j m)
  unfolding lookup put
  lookup-put k j v [] = refl
  lookup-put k j v ((i, w) ∷ m) =
      ground (arith, e.beq_iff k j, e.beq_iff i k, e.beq_iff i j, lookup-put k j v m)

  -- Where no key is repeated, the table answers what the rows say.
  pub lookup-put_all :
      (j : A) (rows m : List (A × B))
      → distinct rows ≡ true
      → lookup j (put_all rows m) ≡ or_else (lookup j rows) (lookup j m)
  unfolding put_all lookup
  lookup-put_all j [] m h = refl
  lookup-put_all j ((k, v) ∷ rows) m h =
      ground (arith, lookup-put_all j rows (put k v m), lookup-put k j v m, e.beq_iff k j)

  -- A row written to the table repeats no key.
  pub put-distinct :
      (k : A) (v : B) (m : List (A × B)) → distinct m ≡ true → distinct (put k v m) ≡ true
  unfolding put lookup
  put-distinct k v [] d = refl
  put-distinct k v ((j, w) ∷ m) d =
      ground (arith, put-distinct k v m, lookup-put k j v m, e.beq_iff j k, e.beq_iff k j)

  Row-of_lookup : (k : A) (v : B) (rows : List (A × B)) → lookup k rows ≡ some v → Row k v rows
  unfolding lookup
  Row-of_lookup k v [] h = cc
  Row-of_lookup k v ((j, w) ∷ rows) h = elim (Bool-cases (e.beq j k)) [
    | inl same ↦ inl ((e.beq_iff j k).0 same, ground arith)
    | inr other ↦ inr (Row-of_lookup k v rows (ground arith))
  ]

  lookup_of_Row :
      (k : A) (v : B) (rows : List (A × B))
      → distinct rows ≡ true
      → Row k v rows
      → lookup k rows ≡ some v
  unfolding lookup
  lookup_of_Row k v [] d r = absurd r
  lookup_of_Row k v ((j, w) ∷ rows) d (inl (p, q)) = ground (arith, e.beq_iff j k)
  lookup_of_Row k v ((j, w) ∷ rows) d (inr r) =
      ground (arith, e.beq_iff j k, lookup_of_Row k v rows)

module _ {K V : Type 0} where
  abbrev pub flip : List (K × V) → List (V × K)
  flip [] = []
  flip ((k, v) ∷ rows) = (v, k) ∷ flip rows

  Row-flip : (k : K) (v : V) (rows : List (K × V)) → Row k v rows → Row v k (flip rows)
  Row-flip k v [] r = elim r [ ]
  Row-flip k v ((j, w) ∷ rows) (inl (p, q)) = inl (q, p)
  Row-flip k v ((j, w) ∷ rows) (inr r) = inr (Row-flip k v rows r)

  Row-of_flip : (k : K) (v : V) (rows : List (K × V)) → Row v k (flip rows) → Row k v rows
  Row-of_flip k v [] r = elim r [ ]
  Row-of_flip k v ((j, w) ∷ rows) (inl (p, q)) = inl (q, p)
  Row-of_flip k v ((j, w) ∷ rows) (inr r) = inr (Row-of_flip k v rows r)

module _ {K V : Type 0} ⦃key : Key K⦄ ⦃value : Key V⦄ where
  insert_all-forward :
      (rows : List (K × V)) (m : BiMap K V)
      → (insert_all rows m).forward_map ≡ put_all rows m.forward_map
  unfolding insert_all put_all insert
  insert_all-forward [] m = refl
  insert_all-forward ((k, v) ∷ rows) m = insert_all-forward rows (insert k v m)

  insert_all-backward :
      (rows : List (K × V)) (m : BiMap K V)
      → (insert_all rows m).backward_map ≡ put_all (flip rows) m.backward_map
  unfolding insert_all put_all insert
  insert_all-backward [] m = refl
  insert_all-backward ((k, v) ∷ rows) m = insert_all-backward rows (insert k v m)

  pub forward-rows :
      (rows : List (K × V)) (k : K)
      → distinct rows ≡ true
      → lookup k (from_list rows).forward_map ≡ lookup k rows
  unfolding from_list lookup
  forward-rows rows k d = rw insert_all-forward (rw (lookup-put_all k rows [] d) (ground arith))

  pub backward-rows :
      (rows : List (K × V)) (v : V)
      → distinct (flip rows) ≡ true
      → lookup v (from_list rows).backward_map ≡ lookup v (flip rows)
  unfolding from_list lookup
  backward-rows rows v d =
      rw insert_all-backward (rw (lookup-put_all v (flip rows) [] d) (ground arith))

  -- Where neither a key nor a value is repeated, the two directions are inverse to one another.
  pub find_forward-find_backward :
      (rows : List (K × V)) (k : K) (v : V)
      → distinct rows ≡ true
      → distinct (flip rows) ≡ true
      → (find_forward (from_list rows) k ≡ ok v) ↔ (find_backward (from_list rows) v ≡ ok k)
  unfolding find_forward find_backward
  find_forward-find_backward rows k v d d' =
      rw (forward-rows rows k d, backward-rows rows v d')
        (
          λ found. ground (
            arith,
            lookup_of_Row v k (flip rows) d'
                (Row-flip k v rows (Row-of_lookup k v rows (ground arith))),
          ),
          λ found. ground (
            arith,
            lookup_of_Row k v rows d
                (Row-of_flip k v rows (Row-of_lookup v k (flip rows) (ground arith))),
          ),
        )

  -- `find_forward` does not throw for a key that `contains_forward` has found.
  pub contains_forward-find :
      (m : BiMap K V) (k : K) → contains_forward m k ≡ true → (v : V) × (find_forward m k ≡ ok v)
  unfolding contains_forward find_forward
  contains_forward-find m k h = found (lookup k m.forward_map) h

  -- What `find_backward` throws, if it does.
  pub find_backward-cases :
      (m : BiMap K V) (v : V)
      → ((k : K) × (find_backward m v ≡ ok k)) ⊎ (find_backward m v ≡ fail (throws out_of_range))
  unfolding find_backward
  find_backward-cases m v = either (lookup v m.backward_map)

  -- What the two functions make of the answer of the table.
  pub lookup-forward :
      (m : BiMap K V) (k : K) (o : Option V)
      → lookup k m.forward_map ≡ o
      → (contains_forward m k ≡ elim o [ none ↦ false | some v ↦ true ])
        × (find_forward m k ≡ or_fail o (throws out_of_range))
  unfolding contains_forward find_forward
  lookup-forward m k o e = (
    ap (λ (r : Option V). elim r [ none ↦ false | some v ↦ true ]) e,
    ap (λ (r : Option V). or_fail r (throws out_of_range)) e,
  )
