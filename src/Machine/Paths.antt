-- ===== src/Machine/Paths.antt =====
-- Ways through a machine of common/src/state_machine.cpp, and what the construction keeps of them.
pub mod Links
pub mod Timers
pub mod Turns
pub mod Fresh
pub mod Unread
pub mod Compiled
pub mod Timed
pub mod Way
pub mod Exact
use keybinder.Base.{
  ℕ, zero, suc, ◌≡◌, refl, sym, ap, ◌∙◌, subst, Bool, true, false, List, [], ◌∷◌, ◌++◌, Option,
  none, some, get_elem?, set, Bool-cases, ◌⊎◌, inl, inr, arith, if◌then◌else◌,
}
use keybinder.QtText.{QtText}
use keybinder.Profile.{AdvancedTrigger}
use keybinder.Event.{InputEvent, input_eq, input_eq_self}
use keybinder.Machine.{StateMachineOutputEvent, Transition, State, find, put}
use keybinder.Machine.Build.{trigger_to_input}

module _ (qt : QtText) where
  -- A machine read from state `i` to state `j`: an edge at each key or focus event, the timer's
  -- transition at each minimum wait, and nothing at a maximum wait, which leaves the time enough. The
  -- outputs are those of all the transitions taken.
  pub data Follows (ss : List State)
      : ℕ → List AdvancedTrigger → List StateMachineOutputEvent → ℕ → Type 0 where
    done : {i : ℕ} → Follows ss i [] [] i
    event :
        {i j : ℕ} {rest : List AdvancedTrigger} {outs later : List StateMachineOutputEvent}
        (x : AdvancedTrigger) (e : InputEvent) (s : State) (t : Transition)
        → trigger_to_input x ≡ some e
        → get_elem? ss i ≡ some s
        → find qt e s.edges ≡ some t
        → outs ≡ t.outputs ++ later
        → Follows ss t.new_state rest later j
        → Follows ss i (x ∷ rest) outs j
    waited :
        {i j : ℕ} {rest : List AdvancedTrigger} {outs later : List StateMachineOutputEvent} (ms : ℕ)
        (s : State) (t : Transition)
        → get_elem? ss i ≡ some s
        → s.timer_transition ≡ some t
        → outs ≡ t.outputs ++ later
        → Follows ss t.new_state rest later j
        → Follows ss i (AdvancedTrigger.minimum_wait ms ∷ rest) outs j
    in_time :
        {i j : ℕ} {rest : List AdvancedTrigger} {outs : List StateMachineOutputEvent} (ms : ℕ)
        → Follows ss i rest outs j
        → Follows ss i (AdvancedTrigger.maximum_wait ms ∷ rest) outs j

  -- A state that has grown: no edge and no timer is lost or changed, and the fallback stays.
  pub record Grows (s s' : State) : Type 0 where
    pub edges_kept :
        (e : InputEvent) (t : Transition) → find qt e s.edges ≡ some t → find qt e s'.edges ≡ some t
    pub timer_kept : (t : Transition) → s.timer_transition ≡ some t → s'.timer_transition ≡ some t
    pub fallback_kept : s'.fallback_transition ≡ s.fallback_transition

  abbrev pub Kept : List State → ℕ → State → Type 0
  Kept ss' i s = (s' : State) × (get_elem? ss' i ≡ some s') × Grows s s'

  abbrev pub Extends : List State → List State → Type 0
  Extends ss ss' = (i : ℕ) (s : State) → get_elem? ss i ≡ some s → Kept ss' i s

  pub Grows-refl : (s : State) → Grows s s
  Grows-refl s = record { edges_kept = λ e t h. h; timer_kept = λ t h. h; fallback_kept = refl }

  pub Extends-refl : (ss : List State) → Extends ss ss
  Extends-refl ss i s h = (s, h, Grows-refl s)

  pub Extends-trans : (xs ys zs : List State) → Extends xs ys → Extends ys zs → Extends xs zs
  Extends-trans xs ys zs h k i s e =
      let (s1, e1, g1) = h i s e in
      let (s2, e2, g2) = k i s1 e1 in
      (
        s2,
        e2,
        record {
          edges_kept = λ x t f. g2.edges_kept x t (g1.edges_kept x t f);
          timer_kept = λ t f. g2.timer_kept t (g1.timer_kept t f);
          fallback_kept = g2.fallback_kept ∙ g1.fallback_kept;
        },
      )

  pub append-Extends : (xs ys : List State) → Extends xs (xs ++ ys)
  append-Extends [] ys i s h = cc
  append-Extends (x ∷ xs) ys zero s h = (s, h, Grows-refl s)
  append-Extends (x ∷ xs) ys (suc i) s h = append-Extends xs ys i s h

  pub set-Extends :
      (xs : List State) (i : ℕ) (old new : State)
      → get_elem? xs i ≡ some old
      → Grows old new
      → Extends xs (set xs i new)
  set-Extends [] i old new h g j s e = cc
  set-Extends (x ∷ xs) zero old new h g zero s e =
      let same : old ≡ s = cc (h, e) in (new, refl, subst (λ z. Grows z new) same g)
  set-Extends (x ∷ xs) zero old new h g (suc j) s e = (s, e, Grows-refl s)
  set-Extends (x ∷ xs) (suc i) old new h g zero s e = (s, e, Grows-refl s)
  set-Extends (x ∷ xs) (suc i) old new h g (suc j) s e = set-Extends xs i old new h g j s e

  pub Follows-Extends :
      {ss ss' : List State} {i j : ℕ} {xs : List AdvancedTrigger}
      {outs : List StateMachineOutputEvent}
      → Extends ss ss'
      → Follows ss i xs outs j
      → Follows ss' i xs outs j
  Follows-Extends h done = done
  Follows-Extends h (event {i} x e s t a b c o rest) =
      let (s', b', g) = h i s b in
      event x e s' t a b' (g.edges_kept e t c) o (Follows-Extends h rest)
  Follows-Extends h (waited {i} ms s t b c o rest) =
      let (s', b', g) = h i s b in waited ms s' t b' (g.timer_kept t c) o (Follows-Extends h rest)
  Follows-Extends h (in_time ms rest) = in_time ms (Follows-Extends h rest)

  -- An assignment through `operator[]` at an event that is not there yet.
  pub find-put_new :
      (e : InputEvent) (t : Transition) (es : List (InputEvent × Transition))
      → find qt e es ≡ none
      → find qt e (put qt e t es) ≡ some t
  unfolding find put
  find-put_new e t [] h = rw (input_eq_self qt e) refl
  find-put_new e t ((k, v) ∷ es) h = elim (Bool-cases (input_eq qt k e)) [
    | inl same ↦ cc (rw same at h)
    | inr other ↦ rw (other, other) (find-put_new e t es (rw other at h))
  ]

  pub find-put_old :
      (e x : InputEvent) (t v : Transition) (es : List (InputEvent × Transition))
      → find qt e es ≡ none
      → find qt x es ≡ some v
      → find qt x (put qt e t es) ≡ some v
  unfolding find put
  find-put_old e x t v [] h f = cc
  find-put_old e x t v ((k, w) ∷ es) h f = elim (Bool-cases (input_eq qt k e)) [
    | inl same ↦ ground (arith, same)
    | inr other ↦ elim (Bool-cases (input_eq qt k x)) [
      | inl found ↦ ground (arith, other, found)
      | inr not_here ↦
          rw (other, not_here) (find-put_old e x t v es (rw other at h) (rw not_here at f))
    ]
  ]
