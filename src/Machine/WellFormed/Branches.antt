-- ===== src/Machine/WellFormed/Branches.antt =====
-- Each branch of an iteration of `generate_states` (common/src/state_machine.cpp) keeps the two
-- vectors sound.
use keybinder.Base.{
  ℕ, ◌+◌, ◌<◌, ◌≡◌, refl, sym, ◌∙◌, subst, List, [], ◌∷◌, ◌++◌, Option, none, some, length, set,
  All, All-append, All-set, length-append, length-set, Bool-cases, Option-cases, inl, inr, arith,
}
use keybinder.QtText.{QtText}
use keybinder.Profile.{Timer}
use keybinder.Event.{InputEvent}
use keybinder.Machine.{Transition, State}
use keybinder.Machine.Build.{
  Memory, StateMetadata, Building, Iteration, generate_home_state, add_edge, new_state, extend,
  wait_transition, arm_minimum, arm_maximum, arm,
}
use keybinder.Machine.WellFormed.{
  Target, StateOk, IsSound, InRange, StateOk-mono, states_mono, put-Target,
}

pub generate_home_state-IsSound : IsSound generate_home_state
generate_home_state-IsSound = record {
  has_home = omega arith;
  states_ok = (record { edges_ok = tt; fallback_ok = omega arith; timer_ok = tt }, tt);
  metadata_ok = refl;
}

module _ (n : ℕ) where
  add_edge-StateOk :
      (qt : QtText) (i : ℕ) (s : State) (e : InputEvent) (t : Transition) (ss : List State)
      → StateOk n s
      → Target n t
      → All (StateOk n) ss
      → All (StateOk n) (add_edge qt i s e t ss)
  unfolding add_edge
  add_edge-StateOk qt i s e t ss ok_s ok_t ok_ss =
      All-set (StateOk n) ss i _
        (record {
          edges_ok = put-Target {n = n} qt e t s.edges ok_t ok_s.edges_ok;
          fallback_ok = ok_s.fallback_ok;
          timer_ok = ok_s.timer_ok;
        })
        ok_ss

  new_state-StateOk : (it : Iteration) → 0 < n → StateOk n (new_state it)
  unfolding new_state
  new_state-StateOk it h = record { edges_ok = tt; fallback_ok = h; timer_ok = tt }

  timed-StateOk :
      (i : ℕ) (s : State) (t : Transition) (ss : List State)
      → StateOk n s
      → Target n t
      → All (StateOk n) ss
      → All (StateOk n) (set ss i (record s { timer_transition = some t }))
  timed-StateOk i s t ss ok_s ok_t ok_ss =
      All-set (StateOk n) ss i _
        (record { edges_ok = ok_s.edges_ok; fallback_ok = ok_s.fallback_ok; timer_ok = ok_t }) ok_ss

pub length-add_edge :
    (qt : QtText) (i : ℕ) (s : State) (e : InputEvent) (t : Transition) (ss : List State)
    → length (add_edge qt i s e t ss) ≡ length ss
unfolding add_edge
length-add_edge qt i s e t ss = length-set ss i _

abbrev waiting : State → ℕ → State
waiting s target = record s { timer_transition = some (wait_transition [] target) }

-- What a branch leaves: sound vectors, and a state of them.
abbrev pub Linked : ℕ × Building → Type 0
Linked p = IsSound p.1 × (p.0 < length p.1.states)

-- The vectors grow by one state and its metadata.
grow :
    (b : Building) (ss : List State) (s : State) (md : StateMetadata)
    → IsSound b
    → length ss ≡ length b.states
    → All (StateOk (length b.states + 1)) ss
    → StateOk (length b.states + 1) s
    → Linked (
      length b.states,
      record { states = ss ++ s ∷ []; state_metadata = b.state_metadata ++ md ∷ [] },
    )
grow b ss s md v e ok_ss ok_s = (
  record {
    has_home = omega (arith, length-append ss (s ∷ []));
    states_ok =
        subst (λ k. All (StateOk k) (ss ++ s ∷ [])) (omega (arith, length-append ss (s ∷ [])))
          (All-append (StateOk (length b.states + 1)) ss (s ∷ []) ok_ss (ok_s, tt));
    metadata_ok =
        omega (
          arith,
          length-append ss (s ∷ []),
          length-append b.state_metadata (md ∷ []),
          v.metadata_ok,
        );
  },
  omega (arith, length-append ss (s ∷ [])),
)

-- The vectors keep their length.
keep :
    (b : Building) (ss : List State) (i : ℕ)
    → IsSound b
    → length ss ≡ length b.states
    → All (StateOk (length b.states)) ss
    → i < length ss
    → Linked (i, record b { states = ss })
keep b ss i v e ok_ss h = (
  record {
    has_home = omega (arith, v.has_home);
    states_ok = subst (λ k. All (StateOk k) ss) (sym e) ok_ss;
    metadata_ok = v.metadata_ok ∙ sym e;
  },
  h,
)

module _ (qt : QtText) (memory : Memory) (range : InRange memory) where
  pub extend-Linked :
      (it : Iteration) (current : ℕ) (s : State) (b : Building)
      → IsSound b
      → StateOk (length b.states) s
      → Linked (extend qt memory it current s b)
  unfolding extend
  extend-Linked it current s b v ok_s = elim (Bool-cases it.is_last) [
    | inl last ↦ rw last (
        keep b _ _ v (length-add_edge qt current s it.input_event _ b.states)
          (add_edge-StateOk (length b.states) qt current s it.input_event _ b.states ok_s v.has_home
            v.states_ok)
          (range.next_lt _
            (omega (arith, v.has_home, length-add_edge qt current s it.input_event _ b.states))))
    | inr more ↦ rw more (
        grow b _ _ _ v (length-add_edge qt current s it.input_event _ b.states)
          (add_edge-StateOk (length b.states + 1) qt current s it.input_event _ b.states
            (StateOk-mono s (omega arith) ok_s) (omega arith)
            (states_mono b.states (omega arith) v.states_ok))
          (new_state-StateOk (length b.states + 1) it (omega arith)))
  ]

  arm_maximum-Linked :
      (next : ℕ) (s : State) (b : Building)
      → IsSound b
      → StateOk (length b.states) s
      → next < length b.states
      → Linked (arm_maximum next s b)
  unfolding arm_maximum
  arm_maximum-Linked next s b v ok_s h = elim (Option-cases s.timer_transition) [
    | inl e ↦ rw e (
        keep b _ next v (length-set b.states next _)
          (timed-StateOk (length b.states) next s _ b.states ok_s ok_s.fallback_ok v.states_ok)
          (omega (
            arith,
            length-set b.states next (record s { timer_transition = some s.fallback_transition }),
          )))
    | inr (t, e) ↦ rw e (v, h)
  ]

  arm_minimum-Linked :
      (it : Iteration) (next : ℕ) (s : State) (b : Building)
      → IsSound b
      → StateOk (length b.states) s
      → next < length b.states
      → Linked (arm_minimum memory it next s b)
  unfolding arm_minimum
  arm_minimum-Linked it next s b v ok_s h = elim (Option-cases s.timer_transition) [
    | inr (t, e) ↦ rw e (v, rw e at ok_s.timer_ok)
    | inl e ↦ elim (Bool-cases it.is_second_to_last) [
      | inl second ↦
          rw (e, second)
            (keep b _ next v (length-set b.states next _)
              (timed-StateOk (length b.states) next s _ b.states ok_s v.has_home v.states_ok)
              (rw length-set h))
      | inr more ↦
          rw (e, more)
            (grow b _ _ _ v (length-set b.states next _)
              (timed-StateOk (length b.states + 1) next s _ b.states
                (StateOk-mono s (omega arith) ok_s) (omega arith)
                (states_mono b.states (omega arith) v.states_ok))
              (record {
                edges_ok = tt;
                fallback_ok = omega (
                  arith,
                  range.fallback_le (set b.states next (waiting s (length b.states))),
                  length-set b.states next (waiting s (length b.states)),
                );
                timer_ok = tt;
              }))
    ]
  ]

  pub arm-Linked :
      (it : Iteration) (timer : Option Timer) (next : ℕ) (s : State) (b : Building)
      → IsSound b
      → StateOk (length b.states) s
      → next < length b.states
      → Linked (arm memory it timer next s b)
  unfolding arm
  arm-Linked it none next s b v ok_s h = (v, h)
  arm-Linked it (some (Timer.minimum ms)) next s b v ok_s h =
      arm_minimum-Linked it next s b v ok_s h
  arm-Linked it (some (Timer.maximum ms)) next s b v ok_s h = arm_maximum-Linked next s b v ok_s h
