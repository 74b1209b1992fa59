-- ===== src/Machine/Paced.antt =====
-- When `generate_states` (common/src/state_machine.cpp) reads the input event of a wait: the call of
-- `value()` on an empty optional.
use keybinder.Base.{
  ℕ, ◌≡◌, ◌∙◌, ap, refl, Bool, true, false, List, [], ◌∷◌, ◌++◌, Option, none, some, Result, ok,
  fail, throws, bad_optional_access, out_of_range, or_fail, Bool-cases, ◌>>=◌, at, All, get_elem?,
  if◌then◌else◌, ◌⊎◌, inl, inr, nullopt,
}
use keybinder.QtText.{QtText}
use keybinder.Profile.{AdvancedTrigger, Timer, SequenceTrigger, Layer}
use keybinder.Machine.{home_state_idx, State, Transition, find}
use keybinder.Machine.Normalize.Laws.{normalize_sequences-id}
use keybinder.Machine.Build.{Memory, Building, Iteration, generate_home_state, share}
use keybinder.Machine.Generate.{branch, iterate, turn, walk, walk_all, generate_states, is_empty}
use keybinder.Machine.WellFormed.{IsWellFormed, InRange}
use keybinder.Machine.WellFormed.Generated.{generate_states-IsWellFormed, Yields}

abbrev pub IsWait : AdvancedTrigger → Type 0
IsWait (AdvancedTrigger.minimum_wait ms) = Unit
IsWait (AdvancedTrigger.maximum_wait ms) = Unit
IsWait _ = ⊥

-- Each wait stands directly behind a trigger that is none.
abbrev pub IsPaced : List AdvancedTrigger → Type 0
IsPaced [] = Unit
IsPaced (x ∷ []) = ¬ IsWait x
IsPaced (x ∷ AdvancedTrigger.minimum_wait ms ∷ rest) = ¬ IsWait x × IsPaced rest
IsPaced (x ∷ AdvancedTrigger.maximum_wait ms ∷ rest) = ¬ IsWait x × IsPaced rest
IsPaced (x ∷ y ∷ rest) = ¬ IsWait x × IsPaced (y ∷ rest)

abbrev Avoids {ℓ} : {A : Type ℓ} → Result A → Type 0
Avoids (fail (throws bad_optional_access)) = ⊥
Avoids _ = Unit

Avoids-bind {ℓ κ} :
    {A : Type ℓ} {B : Type κ} (m : Result A) (f : A → Result B)
    → Avoids m
    → ((a : A) → Avoids (f a))
    → Avoids (m >>= f)
Avoids-bind (ok a) f h k = k a
Avoids-bind (fail (throws bad_optional_access)) f h k = h
Avoids-bind (fail e) f h k = tt

at-Avoids {ℓ} : {A : Type ℓ} (xs : List A) (i : ℕ) → Avoids (at xs i)
at-Avoids xs i = elim (get_elem? xs i) as (λ o. Avoids (or_fail o (throws out_of_range))) [
  | none ↦ tt
  | some a ↦ tt
]

if-Avoids {ℓ} : {A : Type ℓ} (c : Bool) (a : A) → Avoids (if c then fail nullopt else ok a)
if-Avoids true a = tt
if-Avoids false a = tt

share-Avoids : (it : Iteration) (t : Transition) (b : Building) → Avoids (share it t b)
unfolding share
share-Avoids it t b = elim (Bool-cases it.is_last) [
  | inl last ↦ rw last tt
  | inr more ↦ rw more (
      Avoids-bind (at b.state_metadata t.new_state) _ (at-Avoids b.state_metadata t.new_state)
        (λ md. if-Avoids _ (t.new_state, b)))
]

module _ (qt : QtText) (memory : Memory) where
  branch-Avoids :
      (it : Iteration) (current : ℕ) (s : State) (o : Option Transition) (b : Building)
      → Avoids (branch qt memory it current s o b)
  unfolding branch
  branch-Avoids it current s none b = tt
  branch-Avoids it current s (some t) b = share-Avoids it t b

  iterate-Avoids :
      (it : Iteration) (current : ℕ) (b : Building) → Avoids (iterate qt memory it current b)
  unfolding iterate
  iterate-Avoids it current b =
      Avoids-bind (at b.states current) _ (at-Avoids b.states current) λ s.
        Avoids-bind (branch qt memory it current s (find qt it.input_event s.edges) b) _
          (branch-Avoids it current s (find qt it.input_event s.edges) b)
          λ p. Avoids-bind (at p.1.states p.0) _ (at-Avoids p.1.states p.0) (λ next. tt)

  turn-Avoids :
      (trigger : SequenceTrigger) (seen : List AdvancedTrigger) (x : AdvancedTrigger)
      (timer : Option Timer) (is_last is_second_to_last : Bool) (current : ℕ) (b : Building)
      → ¬ IsWait x
      → Avoids (turn qt memory trigger seen x timer is_last is_second_to_last current b)
  unfolding turn
  turn-Avoids trigger seen (AdvancedTrigger.minimum_wait ms) timer l2 l1 current b h = absurd (h tt)
  turn-Avoids trigger seen (AdvancedTrigger.maximum_wait ms) timer l2 l1 current b h = absurd (h tt)
  turn-Avoids trigger seen _ timer l2 l1 current b h = iterate-Avoids _ current b

  walk-Avoids :
      (trigger : SequenceTrigger) (seen rest : List AdvancedTrigger) (current : ℕ) (b : Building)
      → IsPaced rest
      → Avoids (walk qt memory trigger seen rest current b)
  unfolding walk
  walk-Avoids trigger seen [] current b h = tt
  walk-Avoids trigger seen (x ∷ []) current b h =
      Avoids-bind (turn qt memory trigger (seen ++ x ∷ []) x none true false current b) _
        (turn-Avoids trigger (seen ++ x ∷ []) x none true false current b h) (λ p. tt)
  walk-Avoids trigger seen (x ∷ AdvancedTrigger.minimum_wait ms ∷ rest) current b h =
      Avoids-bind _ _
        (turn-Avoids trigger (seen ++ x ∷ AdvancedTrigger.minimum_wait ms ∷ []) x
          (some (Timer.minimum ms)) false (is_empty rest) current b h.0)
        λ p. walk-Avoids trigger (seen ++ x ∷ AdvancedTrigger.minimum_wait ms ∷ []) rest p.0 p.1 h.1
  walk-Avoids trigger seen (x ∷ AdvancedTrigger.maximum_wait ms ∷ rest) current b h =
      Avoids-bind _ _
        (turn-Avoids trigger (seen ++ x ∷ AdvancedTrigger.maximum_wait ms ∷ []) x
          (some (Timer.maximum ms)) false (is_empty rest) current b h.0)
        λ p. walk-Avoids trigger (seen ++ x ∷ AdvancedTrigger.maximum_wait ms ∷ []) rest p.0 p.1 h.1
  walk-Avoids trigger seen (x ∷ y ∷ rest) current b h =
      Avoids-bind _ _
        (turn-Avoids trigger (seen ++ x ∷ []) x none false (is_empty rest) current b h.0)
        λ p. walk-Avoids trigger (seen ++ x ∷ []) (y ∷ rest) p.0 p.1 h.1

  walk_all-Avoids :
      (sequences : List SequenceTrigger) (b : Building)
      → All (λ s. IsPaced s.sequence) sequences
      → Avoids (walk_all qt memory sequences b)
  unfolding walk_all
  walk_all-Avoids [] b h = tt
  walk_all-Avoids (s ∷ rest) b h =
      Avoids-bind (walk qt memory s [] s.sequence home_state_idx b) _
        (walk-Avoids s [] s.sequence home_state_idx b h.0) λ b'. walk_all-Avoids rest b' h.1

  generate_states-Avoids :
      (layer : Layer)
      → All (λ s. IsPaced s.sequence) layer.sequence_remappings
      → Avoids (generate_states qt memory layer)
  unfolding generate_states
  generate_states-Avoids layer h = rw (normalize_sequences-id layer.sequence_remappings) (
      Avoids-bind (walk_all qt memory layer.sequence_remappings generate_home_state) _
        (walk_all-Avoids layer.sequence_remappings generate_home_state h) (λ b. tt))

-- A well-formed machine, or the report that the layer is invalid.
abbrev pub IsDecided : Result (List State) → Type 0
IsDecided r =
    ((machine : List State) × (r ≡ ok machine) × IsWellFormed machine) ⊎ (r ≡ fail nullopt)

decide_result : (r : Result (List State)) → Yields IsWellFormed r → Avoids r → IsDecided r
decide_result (ok machine) h a = inl (machine, refl, h)
decide_result (fail nullopt) h a = inr refl
decide_result (fail (throws bad_optional_access)) h a = absurd a
decide_result (fail _) h a = absurd h

-- If unwritten memory happens to hold indices of the machine, and in every sequence of the layer each
-- wait stands directly behind a trigger that is no wait, then `generate_states` throws nothing: it
-- returns a machine all of whose transitions lead to states of it, or `nullopt`.
pub generate_states_total :
    (qt : QtText) (memory : Memory) (layer : Layer)
    → InRange memory
    → All (λ s. IsPaced s.sequence) layer.sequence_remappings
    → IsDecided (generate_states qt memory layer)
generate_states_total qt memory layer range h =
    decide_result _ (generate_states-IsWellFormed qt memory range layer)
      (generate_states-Avoids qt memory layer h)

walk-wait :
    (qt : QtText) (memory : Memory) (trigger : SequenceTrigger) (seen : List AdvancedTrigger)
    (x : AdvancedTrigger) (xs : List AdvancedTrigger) (current : ℕ) (b : Building)
    → IsWait x
    → walk qt memory trigger seen (x ∷ xs) current b ≡ fail (throws bad_optional_access)
unfolding walk
walk-wait qt memory trigger seen (AdvancedTrigger.minimum_wait ms) [] current b w = refl
walk-wait qt memory trigger seen (AdvancedTrigger.minimum_wait ms)
      (AdvancedTrigger.minimum_wait k ∷ r) current b w =
    refl
walk-wait qt memory trigger seen (AdvancedTrigger.minimum_wait ms)
      (AdvancedTrigger.maximum_wait k ∷ r) current b w =
    refl
walk-wait qt memory trigger seen (AdvancedTrigger.minimum_wait ms) (y ∷ r) current b w = refl
walk-wait qt memory trigger seen (AdvancedTrigger.maximum_wait ms) [] current b w = refl
walk-wait qt memory trigger seen (AdvancedTrigger.maximum_wait ms)
      (AdvancedTrigger.minimum_wait k ∷ r) current b w =
    refl
walk-wait qt memory trigger seen (AdvancedTrigger.maximum_wait ms)
      (AdvancedTrigger.maximum_wait k ∷ r) current b w =
    refl
walk-wait qt memory trigger seen (AdvancedTrigger.maximum_wait ms) (y ∷ r) current b w = refl
walk-wait qt memory trigger seen _ xs current b w = absurd w

walk_all-wait :
    (qt : QtText) (memory : Memory) (s : SequenceTrigger) (rest : List SequenceTrigger)
    (x : AdvancedTrigger) (xs : List AdvancedTrigger) (b : Building)
    → s.sequence ≡ x ∷ xs
    → IsWait x
    → walk_all qt memory (s ∷ rest) b ≡ fail (throws bad_optional_access)
unfolding walk_all
walk_all-wait qt memory s rest x xs b e w =
    ap (λ (r : Result Building). r >>= (λ b'. walk_all qt memory rest b'))
      (ap (λ (ys : List AdvancedTrigger). walk qt memory s [] ys home_state_idx b) e
        ∙ walk-wait qt memory s [] x xs home_state_idx b w)

-- A layer whose first sequence starts with a wait makes `generate_states` throw
-- `bad_optional_access`, whatever follows.
pub wait_first_throws :
    (qt : QtText) (memory : Memory) (layer : Layer) (s : SequenceTrigger)
    (rest : List SequenceTrigger) (x : AdvancedTrigger) (xs : List AdvancedTrigger)
    → layer.sequence_remappings ≡ s ∷ rest
    → s.sequence ≡ x ∷ xs
    → IsWait x
    → generate_states qt memory layer ≡ fail (throws bad_optional_access)
unfolding generate_states
wait_first_throws qt memory layer s rest x xs e e' w =
    rw (normalize_sequences-id layer.sequence_remappings)
      (rw e (rw (walk_all-wait qt memory s rest x xs generate_home_state e' w)))
