-- ===== src/Machine/WellFormed/Generated.antt =====
-- `generate_states` (common/src/state_machine.cpp) as a whole: it stays inside its vectors, and the
-- machine that it returns is well formed.
use keybinder.Base.{
  ℕ, ◌<◌, ◌≡◌, refl, Bool, true, false, List, [], ◌∷◌, ◌++◌, Option, none, some, length, All,
  All-get_elem?, get_elem?-of_lt, Result, ok, fail, Failure, nullopt, throws, bad_optional_access,
  ◌>>=◌, at, Option-cases, Bool-cases, inl, inr, arith, if◌then◌else◌,
}
use keybinder.QtText.{QtText}
use keybinder.Profile.{AdvancedTrigger, Timer, SequenceTrigger, Layer}
use keybinder.Machine.{home_state_idx, Transition, State, find}
use keybinder.Machine.Normalize.{normalize_sequences}
use keybinder.Machine.Build.{Memory, StateMetadata, Building, Iteration, generate_home_state, share}
use keybinder.Machine.Generate.{branch, iterate, turn, walk, walk_all, generate_states, is_empty}
use keybinder.Machine.WellFormed.{Target, StateOk, IsSound, IsWellFormed, InRange, find-Target}
use keybinder.Machine.WellFormed.Branches.{
  Linked, generate_home_state-IsSound, extend-Linked, arm-Linked,
}

-- The failures that the construction is meant to report: `nullopt`, and the exception of `value()`.
abbrev pub IsReported : Failure → Type 0
IsReported nullopt = Unit
IsReported (throws bad_optional_access) = Unit
IsReported _ = ⊥

-- A value with `P`, or such a failure.
abbrev pub Yields {ℓ} : {A : Type ℓ} → (A → Type 0) → Result A → Type 0
Yields P (ok a) = P a
Yields P (fail e) = IsReported e

Yields-bind {ℓ κ} :
    {A : Type ℓ} {B : Type κ} (P : A → Type 0) (Q : B → Type 0) (m : Result A) (f : A → Result B)
    → Yields P m
    → ((a : A) → P a → Yields Q (f a))
    → Yields Q (m >>= f)
Yields-bind P Q (ok a) f h k = k a h
Yields-bind P Q (fail e) f h k = h

Yields-if {ℓ} :
    {A : Type ℓ} (P : A → Type 0) (c : Bool) (m n : Result A)
    → Yields P m
    → Yields P n
    → Yields P (if c then m else n)
Yields-if P true m n h k = h
Yields-if P false m n h k = k

at-Yields {ℓ} :
    {A : Type ℓ} (P : A → Type 0) (xs : List A) (i : ℕ)
    → i < length xs
    → All P xs
    → Yields P (at xs i)
at-Yields P xs i h a = let (x, e) = get_elem?-of_lt xs i h in rw e (All-get_elem? P xs i e a)

abbrev Any : StateMetadata → Type 0
Any md = Unit

All-Any : (xs : List StateMetadata) → All Any xs
All-Any [] = tt
All-Any (x ∷ xs) = (tt, All-Any xs)

share-Linked :
    (it : Iteration) (t : Transition) (b : Building)
    → IsSound b
    → Target (length b.states) t
    → Yields Linked (share it t b)
unfolding share
share-Linked it t b v h = elim (Bool-cases it.is_last) [
  | inl last ↦ rw last tt
  | inr more ↦ rw more (
      Yields-bind Any Linked (at b.state_metadata t.new_state) _
        (at-Yields Any b.state_metadata t.new_state (omega (arith, v.metadata_ok)) (All-Any _))
        (λ md _. Yields-if Linked _ (fail nullopt) (ok (t.new_state, b)) tt (v, h)))
]

module _ (qt : QtText) (memory : Memory) (range : InRange memory) where
  branch-Linked :
      (it : Iteration) (current : ℕ) (s : State) (o : Option Transition) (b : Building)
      → IsSound b
      → StateOk (length b.states) s
      → find qt it.input_event s.edges ≡ o
      → Yields Linked (branch qt memory it current s o b)
  unfolding branch
  branch-Linked it current s none b v ok_s e = extend-Linked qt memory range it current s b v ok_s
  branch-Linked it current s (some t) b v ok_s e =
      share-Linked it t b v (find-Target qt it.input_event s.edges e ok_s.edges_ok)

  iterate-Linked :
      (it : Iteration) (current : ℕ) (b : Building)
      → IsSound b
      → current < length b.states
      → Yields Linked (iterate qt memory it current b)
  unfolding iterate
  iterate-Linked it current b v h =
      Yields-bind (StateOk (length b.states)) Linked (at b.states current) _
        (at-Yields (StateOk (length b.states)) b.states current h v.states_ok)
        λ s ok_s.
          Yields-bind Linked Linked
            (branch qt memory it current s (find qt it.input_event s.edges) b) _
            (branch-Linked it current s (find qt it.input_event s.edges) b v ok_s refl)
            λ p linked.
              Yields-bind (StateOk (length p.1.states)) Linked (at p.1.states p.0) _
                (at-Yields (StateOk (length p.1.states)) p.1.states p.0 linked.1 linked.0.states_ok)
                λ next ok_next.
                  arm-Linked qt memory range it it.timer p.0 next p.1 linked.0 ok_next linked.1

  turn-Linked :
      (trigger : SequenceTrigger) (seen : List AdvancedTrigger) (x : AdvancedTrigger)
      (timer : Option Timer) (is_last is_second_to_last : Bool) (current : ℕ) (b : Building)
      → IsSound b
      → current < length b.states
      → Yields Linked (turn qt memory trigger seen x timer is_last is_second_to_last current b)
  unfolding turn
  turn-Linked trigger seen (AdvancedTrigger.minimum_wait ms) timer l2 l1 current b v h = tt
  turn-Linked trigger seen (AdvancedTrigger.maximum_wait ms) timer l2 l1 current b v h = tt
  turn-Linked trigger seen _ timer l2 l1 current b v h = iterate-Linked _ current b v h

  walk-IsSound :
      (trigger : SequenceTrigger) (seen rest : List AdvancedTrigger) (current : ℕ) (b : Building)
      → IsSound b
      → current < length b.states
      → Yields IsSound (walk qt memory trigger seen rest current b)
  unfolding walk
  walk-IsSound trigger seen [] current b v h = v
  walk-IsSound trigger seen (x ∷ []) current b v h =
      Yields-bind Linked IsSound
        (turn qt memory trigger (seen ++ x ∷ []) x none true false current b) _
        (turn-Linked trigger (seen ++ x ∷ []) x none true false current b v h) λ p linked. linked.0
  walk-IsSound trigger seen (x ∷ AdvancedTrigger.minimum_wait ms ∷ rest) current b v h =
      Yields-bind Linked IsSound _ _
        (turn-Linked trigger _ x (some (Timer.minimum ms)) false (is_empty rest) current b v h)
        λ p linked.
          walk-IsSound trigger (seen ++ x ∷ AdvancedTrigger.minimum_wait ms ∷ []) rest p.0 p.1
            linked.0 linked.1
  walk-IsSound trigger seen (x ∷ AdvancedTrigger.maximum_wait ms ∷ rest) current b v h =
      Yields-bind Linked IsSound _ _
        (turn-Linked trigger _ x (some (Timer.maximum ms)) false (is_empty rest) current b v h)
        λ p linked.
          walk-IsSound trigger (seen ++ x ∷ AdvancedTrigger.maximum_wait ms ∷ []) rest p.0 p.1
            linked.0 linked.1
  walk-IsSound trigger seen (x ∷ y ∷ rest) current b v h =
      Yields-bind Linked IsSound _ _
        (turn-Linked trigger _ x none false (is_empty rest) current b v h)
        λ p linked. walk-IsSound trigger (seen ++ x ∷ []) (y ∷ rest) p.0 p.1 linked.0 linked.1

  walk_all-IsSound :
      (sequences : List SequenceTrigger) (b : Building)
      → IsSound b
      → Yields IsSound (walk_all qt memory sequences b)
  unfolding walk_all
  walk_all-IsSound [] b v = v
  walk_all-IsSound (s ∷ rest) b v =
      Yields-bind IsSound IsSound (walk qt memory s [] s.sequence home_state_idx b) _
        (walk-IsSound s [] s.sequence home_state_idx b v v.has_home)
        λ b' v'. walk_all-IsSound rest b' v'

  -- If unwritten memory happens to hold indices of the machine, then for any layer
  -- `generate_states` returns a machine with a home state all of whose transitions (edges, fallbacks
  -- and timers) lead to states of it, or `nullopt`, or throws `bad_optional_access`; it never indexes
  -- a vector out of range.
  pub generate_states-IsWellFormed :
      (layer : Layer) → Yields IsWellFormed (generate_states qt memory layer)
  unfolding generate_states
  generate_states-IsWellFormed layer =
      elim (Option-cases (normalize_sequences layer.sequence_remappings)) [
        | inl e ↦ rw e tt
        | inr (sequences, e) ↦ rw e (
            Yields-bind IsSound IsWellFormed (walk_all qt memory sequences generate_home_state) _
              (walk_all-IsSound sequences generate_home_state generate_home_state-IsSound)
              (λ b v. record { has_home = v.has_home; states_ok = v.states_ok }))
      ]
