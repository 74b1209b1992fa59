-- ===== src/KeyCounter/Counts.antt =====
-- What the counts say (common/src/key_counter.cpp), and when they reach the file.
use keybinder.Base.{
  ℕ, ◌+◌, String, ◌≡◌, ◌≢◌, refl, sym, ap, ◌∙◌, Bool, true, false, List, [], ◌∷◌, none, some,
  Returns, Bool-cases, inl, inr, str_eq, eq_iff,
}
use keybinder.KeyCode.{KeyCode}
use keybinder.BiMap.{lookup, put}
use keybinder.BiMap.Keys.{string_key, code_key}
use keybinder.KeyMap.Sendable.{Named, names_complete}
use keybinder.KeyCounter.{KeyCounter, value_of, count_of, increment, save, clear}

lookup-put_same : (k : String) (v : ℕ) (m : List (String × ℕ)) → lookup k (put k v m) ≡ some v
unfolding lookup put
lookup-put_same k v [] = rw ((eq_iff k k).1 refl) refl
lookup-put_same k v ((j, w) ∷ m) = elim (Bool-cases (str_eq j k)) [
  | inl same ↦ rw (same, same) refl
  | inr other ↦ rw (other, other) (lookup-put_same k v m)
]

lookup-put_other :
    (j k : String) (v : ℕ) (m : List (String × ℕ)) → j ≢ k → lookup j (put k v m) ≡ lookup j m
unfolding lookup put
lookup-put_other j k v [] n = elim (Bool-cases (str_eq k j)) [
  | inl same ↦ absurd (n (sym ((eq_iff k j).0 same)))
  | inr other ↦ rw other refl
]
lookup-put_other j k v ((i, w) ∷ m) n = elim (Bool-cases (str_eq i k)) [
  | inl same ↦ elim (Bool-cases (str_eq i j)) [
    | inl also ↦ absurd (n (sym ((eq_iff i j).0 also) ∙ (eq_iff i k).0 same))
    | inr differs ↦ rw (same, differs) refl
  ]
  | inr other ↦ elim (Bool-cases (str_eq i j)) [
    | inl found ↦ rw (other, found) refl
    | inr differs ↦ rw (other, differs) (lookup-put_other j k v m n)
  ]
]

-- What one press does to the counts: one more under the key's name, no other change.
pub record Counted (key : KeyCode) (before after : KeyCounter) : Type 0 where
  pub named : Named key
  pub one_more : count_of named.0 after ≡ count_of named.0 before + 1
  pub others_kept : (name : String) → name ≢ named.0 → count_of name after ≡ count_of name before
  pub marked : after.dirty ≡ true
  pub file_kept : after.file ≡ before.file

-- `increment` finds a name for every key and returns: the key's count is one more, every other count
-- is as before, the counter is marked as changed, and the file is left alone.
pub increment-Counted : (key : KeyCode) (c : KeyCounter) → Returns (Counted key c) (increment key c)
unfolding increment count_of
increment-Counted key c =
    let (name, back, there) = names_complete key in
    rw back (record {
      named = (name, back, there);
      one_more = ap value_of (lookup-put_same name (count_of name c + 1) c.counts);
      others_kept =
          λ other n. ap value_of (lookup-put_other other name (count_of name c + 1) c.counts n);
      marked = refl;
      file_kept = refl;
    })

-- `clear` empties the counts, but on a counter whose counts were saved before it leaves the file as it
-- is, whether the file can be opened or not; on a changed counter it removes the file.
pub clear_keeps_saved_file :
    (can_open : Bool) (c : KeyCounter)
    → ((clear can_open c).counts ≡ [])
      × (c.dirty ≡ false → (clear can_open c).file ≡ c.file)
      × (c.dirty ≡ true → (clear can_open c).file ≡ none)
unfolding clear save
clear_keeps_saved_file can_open c = elim (Bool-cases c.dirty) [
  | inl e ↦ rw e (refl, (λ h. cc), (λ h. refl))
  | inr e ↦ rw e (refl, (λ h. refl), (λ h. cc))
]

-- On a counter that has counts, a `save` that cannot open the file and another `save` behind it, which
-- may be able to, leave the file as it was.
pub failed_save_forgets :
    (can_open : Bool) (c : KeyCounter) (name : String) (n : ℕ) (rest : List (String × ℕ))
    → c.counts ≡ (name, n) ∷ rest
    → (save can_open (save false c)).file ≡ c.file
unfolding save
failed_save_forgets can_open c name n rest e = elim (Bool-cases c.dirty) [
  | inl d ↦ rw (d, e) refl
  | inr d ↦ rw d refl
]
