-- ===== src/BiMap.antt =====
-- common/include/bi_map.h: a map that is read in both directions, over two hash maps. A hash map is
-- an association list, whose `insert` replaces the value of a key that is there.
pub mod Keys
pub mod Laws
use keybinder.Base.{
  Bool, List, [], ◌∷◌, Option, none, some, Result, or_fail, throws, out_of_range, map,
  if◌then◌else◌,
}
use Keys.{Key}

module _ {A B : Type 0} ⦃e : Key A⦄ where
  -- QHash::find
  unfoldable pub lookup : A → List (A × B) → Option B
  lookup k [] = none
  lookup k ((j, v) ∷ m) = if e.beq j k then some v else lookup k m

  -- QHash::insert
  unfoldable pub put : A → B → List (A × B) → List (A × B)
  put k v [] = (k, v) ∷ []
  put k v ((j, w) ∷ m) = if e.beq j k then (j, v) ∷ m else (j, w) ∷ put k v m

  abbrev pub contains : A → List (A × B) → Bool
  contains k m = elim (lookup k m) [ none ↦ Bool.false | some v ↦ Bool.true ]

pub record BiMap (K V : Type 0) : Type 0 where
  pub forward_map : List (K × V)
  pub backward_map : List (V × K)

module _ {K V : Type 0} ⦃key : Key K⦄ ⦃value : Key V⦄ where
  unfoldable pub insert : K → V → BiMap K V → BiMap K V
  unfolding put
  insert k v m = record {
    forward_map = put k v m.forward_map;
    backward_map = put v k m.backward_map;
  }

  unfoldable pub insert_all : List (K × V) → BiMap K V → BiMap K V
  unfolding insert
  insert_all [] m = m
  insert_all ((k, v) ∷ rows) m = insert_all rows (insert k v m)

  -- The constructor from an initializer list.
  unfoldable pub from_list : List (K × V) → BiMap K V
  unfolding insert_all
  from_list rows = insert_all rows (record { forward_map = []; backward_map = [] })

  unfoldable pub find_forward : BiMap K V → K → Result V
  unfolding lookup
  find_forward m k = or_fail (lookup k m.forward_map) (throws out_of_range)

  unfoldable pub contains_forward : BiMap K V → K → Bool
  unfolding lookup
  contains_forward m k = contains k m.forward_map

  unfoldable pub find_backward : BiMap K V → V → Result K
  unfolding lookup
  find_backward m v = or_fail (lookup v m.backward_map) (throws out_of_range)
