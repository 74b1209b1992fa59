-- ===== src/Machine/Paths/Timers.antt =====
-- The timers that an iteration of `generate_states` (common/src/state_machine.cpp) sets.
use keybinder.Base.{
  ℕ, ◌≡◌, refl, sym, ap, ◌∙◌, subst, Bool, false, List, [], ◌∷◌, ◌++◌, map, Option, none, some,
  get_elem?, set, length, Option-cases, Bool-cases, inl, inr, if◌then◌else◌,
}
use keybinder.QtText.{QtText}
use keybinder.Profile.{Timer}
use keybinder.Machine.{home_state_idx, StateMachineOutputEvent, Transition, State}
use keybinder.Machine.Build.{
  Memory, Building, Iteration, on_timer, wait_transition, after_wait, arm_minimum, arm_maximum, arm,
}
use keybinder.Machine.Paths.{Extends, Extends-refl, Extends-trans, append-Extends, set-Extends}
use keybinder.Machine.Paths.Links.{get_elem?-set, get_elem?-append}

module _ (qt : QtText) (memory : Memory) where
  -- From the state behind an edge to the one where the next trigger is read.
  -- A minimum wait at the sequence's end leads no further.
  abbrev pub Waits : List State → ℕ → ℕ → Type 0
  Waits ss next final =
      (s : State) × (t : Transition) × (get_elem? ss next ≡ some s)
      × (s.timer_transition ≡ some t)
      × (t.new_state ≡ final)

  abbrev pub After : Option Timer → Bool → List State → ℕ → ℕ → Type 0
  After (some (Timer.minimum ms)) second ss next final = second ≡ false → Waits ss next final
  After _ second ss next final = next ≡ final

  abbrev pub Armed : Option Timer → Bool → ℕ → Building → ℕ × Building → Type 0
  Armed timer second next b p =
      Extends qt b.states p.1.states × After timer second p.1.states next p.0

  timer-Extends :
      (next : ℕ) (s : State) (t : Transition) (ss : List State)
      → get_elem? ss next ≡ some s
      → s.timer_transition ≡ none
      → Extends qt ss (set ss next (record s { timer_transition = some t }))
  timer-Extends next s t ss h e =
      set-Extends qt ss next s _ h
        (record { edges_kept = λ x v k. k; timer_kept = λ v k. cc (e, k); fallback_kept = refl })

  arm_maximum-at :
      (next : ℕ) (s : State) (b : Building) {o : Option Transition}
      → s.timer_transition ≡ o
      → arm_maximum next s b
        ≡ elim o [ some t ↦ (next, b) | none ↦ (next, on_timer next s s.fallback_transition b) ]
  unfolding arm_maximum
  arm_maximum-at next s b e =
      ap
        (λ (o : Option Transition). elim o [
          | some t ↦ (next, b)
          | none ↦ (next, on_timer next s s.fallback_transition b)
        ])
        e

  arm_maximum-Extends :
      (next : ℕ) (s : State) (b : Building)
      → get_elem? b.states next ≡ some s
      → Extends qt b.states (arm_maximum next s b).1.states × (next ≡ (arm_maximum next s b).0)
  unfolding arm_maximum
  arm_maximum-Extends next s b h = elim (Option-cases s.timer_transition) [
    | inl e ↦
        subst (λ p. Extends qt b.states p.1.states × (next ≡ p.0)) (sym (arm_maximum-at next s b e))
          (timer-Extends next s s.fallback_transition b.states h e, refl)
    | inr (t, e) ↦
        subst (λ p. Extends qt b.states p.1.states × (next ≡ p.0)) (sym (arm_maximum-at next s b e))
          (Extends-refl qt b.states, refl)
  ]

  middle_wait : Iteration → ℕ → State → Building → ℕ × Building
  middle_wait it next s b =
      let size = length b.states in
      let waiting = on_timer next s (wait_transition [] size) b in
      (
        size,
        record {
          states = waiting.states ++ after_wait (memory.fallback_state waiting.states) ∷ [];
          state_metadata = b.state_metadata ++ record { timer = none; behavior = it.behavior } ∷ [];
        },
      )

  last_wait : Iteration → ℕ → State → Building → ℕ × Building
  last_wait it next s b = (
    next,
    on_timer next s (wait_transition (map StateMachineOutputEvent.bind it.binds) home_state_idx) b,
  )

  arm_minimum-at :
      (it : Iteration) (next : ℕ) (s : State) (b : Building) {o : Option Transition} {c : Bool}
      → s.timer_transition ≡ o
      → it.is_second_to_last ≡ c
      → arm_minimum memory it next s b ≡ elim o [
        | some t ↦ (t.new_state, b)
        | none ↦ if c then last_wait it next s b else middle_wait it next s b
      ]
  unfolding arm_minimum last_wait middle_wait
  arm_minimum-at it next s b {o} e second =
      ap
        (λ (o : Option Transition). elim o [
          | some t ↦ (t.new_state, b)
          | none ↦ if it.is_second_to_last then last_wait it next s b else middle_wait it next s b
        ])
        e
      ∙ ap
          (λ (c : Bool). elim o [
            | some t ↦ (t.new_state, b)
            | none ↦ if c then last_wait it next s b else middle_wait it next s b
          ])
          second

  arm_minimum-Armed :
      (ms : ℕ) (it : Iteration) (next : ℕ) (s : State) (b : Building)
      → get_elem? b.states next ≡ some s
      → Armed (some (Timer.minimum ms)) it.is_second_to_last next b (arm_minimum memory it next s b)
  unfolding middle_wait last_wait
  arm_minimum-Armed ms it next s b h = elim (Option-cases s.timer_transition) [
    | inr (t, e) ↦
        subst (Armed (some (Timer.minimum ms)) it.is_second_to_last next b)
          (sym (arm_minimum-at it next s b e refl))
          (Extends-refl qt b.states, λ n. (s, t, h, e, refl))
    | inl e ↦ elim (Bool-cases it.is_second_to_last) [
      | inl second ↦
          subst (Armed (some (Timer.minimum ms)) it.is_second_to_last next b)
            (sym (arm_minimum-at it next s b e second))
            (timer-Extends next s _ b.states h e, λ n. cc (n, second))
      | inr more ↦
          subst (Armed (some (Timer.minimum ms)) it.is_second_to_last next b)
            (sym (arm_minimum-at it next s b e more))
            (
              Extends-trans qt b.states _ _
                  (timer-Extends next s (wait_transition [] (length b.states)) b.states h e)
                  (append-Extends qt _ _),
              λ n. (
                _,
                _,
                get_elem?-append _ _ next _ (get_elem?-set b.states next s _ h),
                refl,
                refl,
              ),
            )
    ]
  ]

  pub arm-Armed :
      (it : Iteration) (timer : Option Timer) (next : ℕ) (s : State) (b : Building)
      → get_elem? b.states next ≡ some s
      → Armed timer it.is_second_to_last next b (arm memory it timer next s b)
  unfolding arm
  arm-Armed it none next s b h = (Extends-refl qt b.states, refl)
  arm-Armed it (some (Timer.minimum ms)) next s b h = arm_minimum-Armed ms it next s b h
  arm-Armed it (some (Timer.maximum ms)) next s b h = arm_maximum-Extends next s b h
