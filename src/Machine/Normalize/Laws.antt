-- ===== src/Machine/Normalize/Laws.antt =====
-- What `normailze_sequences` (common/src/state_machine.cpp) does to the sequences that it is given.
use keybinder.Base.{ℕ, zero, suc, ◌≡◌, refl, List, [], ◌∷◌, none, some, arith}
use keybinder.Profile.{AdvancedTrigger, SequenceTrigger}
use keybinder.Machine.Normalize.{
  Access, Overload, select, visit, merge_maximum, normalize_from, normalize_all,
  normalize_sequences,
}

normalize_from-const :
    (i : ℕ) (xs : List AdvancedTrigger) → normalize_from Access.const_element i 0 xs ≡ some xs
unfolding normalize_from
normalize_from-const i [] = refl
normalize_from-const i (AdvancedTrigger.minimum_wait ms ∷ xs) = rw (normalize_from-const (suc i) xs)
normalize_from-const i (x ∷ xs) = rw (normalize_from-const (suc i) xs)

normalize_all-const :
    (sequences : List SequenceTrigger)
    → normalize_all Access.const_element sequences ≡ some sequences
unfolding normalize_all
normalize_all-const [] = refl
normalize_all-const (s ∷ rest) =
    ground (arith, normalize_from-const 0 s.sequence, normalize_all-const rest)

-- For every list of sequences `normailze_sequences` succeeds and returns the list unchanged: no two
-- waits are merged, and no sequence is rejected.
pub normalize_sequences-id :
    (sequences : List SequenceTrigger) → normalize_sequences sequences ≡ some sequences
unfolding normalize_sequences
normalize_sequences-id sequences = normalize_all-const sequences

-- Were the overload for `MaximumWait &` reached, it would reject every sequence in which a key or a
-- focus event stands somewhere behind the wait and only minimum waits between.
pub maximum_overload_rejects :
    (ms i k : ℕ) (x y : AdvancedTrigger) (rest : List AdvancedTrigger)
    → (select Access.mutable_element y ≡ Overload.generic_overload)
    → (visit (Overload.maximum_overload ms) i x (y ∷ rest) ≡ none)
      × (visit (Overload.maximum_overload ms) i x (AdvancedTrigger.minimum_wait k ∷ y ∷ rest)
          ≡ none)
unfolding visit select merge_maximum
maximum_overload_rejects ms zero k x y rest h = (refl, refl)
maximum_overload_rejects ms (suc i) k x (AdvancedTrigger.minimum_wait j) rest h = cc
maximum_overload_rejects ms (suc i) k x (AdvancedTrigger.maximum_wait j) rest h = cc
maximum_overload_rejects ms (suc i) k x _ rest h = (refl, refl)
