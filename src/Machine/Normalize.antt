-- ===== src/Machine/Normalize.antt =====
-- `normailze_sequences` of common/src/state_machine.cpp. Its visitor has an overload for
-- `MinimumWait &`, one for `MaximumWait &` and a generic `auto &`; a reference that is not const does
-- not bind to a const element, so which overload a wait reaches depends on how it is passed.
pub mod Laws
use keybinder.Base.{ℕ, zero, suc, ◌+◌, ◌%◌, ◌^◌, List, [], ◌∷◌, Option, none, some}
use keybinder.Profile.{AdvancedTrigger, SequenceTrigger}

-- How the element is passed to `std::visit`.
pub data Access : Type 0 where
  const_element mutable_element : Access

pub data Overload : Type 0 where
  minimum_overload maximum_overload : ℕ → Overload
  generic_overload : Overload

-- Overload resolution.
unfoldable pub select : Access → AdvancedTrigger → Overload
select Access.mutable_element (AdvancedTrigger.minimum_wait ms) = Overload.minimum_overload ms
select Access.mutable_element (AdvancedTrigger.maximum_wait ms) = Overload.maximum_overload ms
select _ _ = Overload.generic_overload

-- The inner loops over `j`, with the number of elements that they pass. A `size_t` sum wraps.
pub merge_minimum : ℕ → ℕ → List AdvancedTrigger → Option (AdvancedTrigger × ℕ)
merge_minimum ms passed [] = some (AdvancedTrigger.minimum_wait ms, passed)
merge_minimum ms passed (AdvancedTrigger.minimum_wait k ∷ rest) =
    merge_minimum ((ms + k) % 2 ^ 64) (passed + 1) rest
merge_minimum ms passed (AdvancedTrigger.maximum_wait k ∷ rest) = none
merge_minimum ms passed (_ ∷ rest) = some (AdvancedTrigger.minimum_wait ms, passed)

pub merge_maximum : ℕ → ℕ → List AdvancedTrigger → Option (AdvancedTrigger × ℕ)
merge_maximum ms passed [] = some (AdvancedTrigger.maximum_wait ms, passed)
merge_maximum ms passed (AdvancedTrigger.maximum_wait k ∷ rest) =
    merge_maximum ((ms + k) % 2 ^ 64) (passed + 1) rest
merge_maximum ms passed (AdvancedTrigger.minimum_wait k ∷ rest) = merge_maximum ms (passed + 1) rest
merge_maximum ms passed (_ ∷ rest) = none

-- What the chosen overload answers at index `i`, with the elements behind it.
pub visit : Overload → ℕ → AdvancedTrigger → List AdvancedTrigger → Option (AdvancedTrigger × ℕ)
unfolding merge_minimum merge_maximum
visit (Overload.minimum_overload ms) zero x rest = none
visit (Overload.minimum_overload ms) (suc i) x rest = merge_minimum ms 0 rest
visit (Overload.maximum_overload ms) zero x rest = none
visit (Overload.maximum_overload ms) (suc i) x rest = merge_maximum ms 0 rest
visit Overload.generic_overload i x rest = some (x, 0)

-- The loop over `i`: elements that a merge has passed are skipped.
pub normalize_from : Access → ℕ → ℕ → List AdvancedTrigger → Option (List AdvancedTrigger)
unfolding select visit
normalize_from access i skipped [] = some []
normalize_from access i (suc skipped) (x ∷ rest) = normalize_from access (suc i) skipped rest
normalize_from access i zero (x ∷ rest) = elim (visit (select access x) i x rest) [
  | none ↦ none
  | some (y, passed) ↦ elim (normalize_from access (suc i) passed rest) [
    | none ↦ none
    | some ys ↦ some (y ∷ ys)
  ]
]

pub normalize_all : Access → List SequenceTrigger → Option (List SequenceTrigger)
unfolding normalize_from
normalize_all access [] = some []
normalize_all access (s ∷ rest) = elim (normalize_from access 0 0 s.sequence) [
  | none ↦ none
  | some ys ↦ elim (normalize_all access rest) [
    | none ↦ none
    | some others ↦ some (record s { sequence = ys } ∷ others)
  ]
]

-- The sequences come as `const QList &`, so `sequence[i]` is a const element.
unfoldable pub normalize_sequences : List SequenceTrigger → Option (List SequenceTrigger)
unfolding normalize_all
normalize_sequences sequences = normalize_all Access.const_element sequences
