-- ===== src/Machine/Paths/Unread.antt =====
-- An event that no sequence walked so far reads has no edge anywhere in the machine of
-- `generate_states` (common/src/state_machine.cpp).
use keybinder.Base.{
  ℕ, ◌≡◌, refl, false, not, ◌||◌, List, [], ◌∷◌, Option, none, some, get_elem?, set, All,
  All-append, All-set, All-get_elem?, at, IfOk, IfOk-bind, IfOk-any, IfOk-if, Option-cases,
  Bool-cases, inl, inr,
}
use keybinder.QtText.{QtText}
use keybinder.Profile.{Timer, SequenceTrigger}
use keybinder.Event.{InputEvent, input_eq}
use keybinder.Machine.{Transition, State, find, put}
use keybinder.Machine.Build.{
  Memory, Building, Iteration, new_state, add_edge, extend, share, arm_minimum, arm_maximum, arm,
  behavior_eq, timers_conflict,
}
use keybinder.Machine.Generate.{branch, iterate}
use keybinder.Machine.Walks.{iteration, FitsAt, Keeps}

module _ (qt : QtText) (event : InputEvent) where
  abbrev pub Unread : State → Type 0
  Unread s = find qt event s.edges ≡ none

  abbrev pub NowhereRead : Building → Type 0
  NowhereRead b = All Unread b.states

  -- An event that a lookup tells apart.
  abbrev pub Other : SequenceTrigger → InputEvent → Type 0
  Other trigger e = input_eq qt e event ≡ false

  -- No trigger of the sequence is the event.
  abbrev pub Avoids : SequenceTrigger → Type 0
  Avoids trigger = All (FitsAt Other trigger) trigger.sequence

  put-Unread :
      (e : InputEvent) (t : Transition) (es : List (InputEvent × Transition))
      → input_eq qt e event ≡ false
      → find qt event es ≡ none
      → find qt event (put qt e t es) ≡ none
  unfolding put find
  put-Unread e t [] h f = rw h refl
  put-Unread e t ((k, v) ∷ es) h f = elim (Bool-cases (input_eq qt k event)) [
    | inl found ↦ cc (rw found at f)
    | inr other ↦ elim (Bool-cases (input_eq qt k e)) [
      | inl same ↦ rw (same, other) (rw other at f)
      | inr differs ↦ rw (differs, other) (put-Unread e t es h (rw other at f))
    ]
  ]

  module _ (memory : Memory) where
    add_edge-Unread :
        (i : ℕ) (s : State) (e : InputEvent) (t : Transition) (ss : List State)
        → input_eq qt e event ≡ false
        → Unread s
        → All Unread ss
        → All Unread (add_edge qt i s e t ss)
    unfolding add_edge
    add_edge-Unread i s e t ss h hs a = All-set Unread ss i _ (put-Unread e t s.edges h hs) a

    timed-Unread :
        (i : ℕ) (s : State) (t : Transition) (ss : List State)
        → Unread s
        → All Unread ss
        → All Unread (set ss i (record s { timer_transition = some t }))
    timed-Unread i s t ss hs a = All-set Unread ss i _ hs a

    extend-Unread :
        (it : Iteration) (current : ℕ) (s : State) (b : Building)
        → input_eq qt it.input_event event ≡ false
        → Unread s
        → NowhereRead b
        → NowhereRead (extend qt memory it current s b).1
    unfolding extend new_state find
    extend-Unread it current s b h hs a = elim (Bool-cases it.is_last) [
      | inl last ↦ rw last (add_edge-Unread current s it.input_event _ b.states h hs a)
      | inr more ↦ rw more (
          All-append Unread _ _ (add_edge-Unread current s it.input_event _ b.states h hs a)
            (refl, tt))
    ]

    arm-Unread :
        (it : Iteration) (timer : Option Timer) (next : ℕ) (s : State) (b : Building)
        → Unread s
        → NowhereRead b
        → NowhereRead (arm memory it timer next s b).1
    unfolding arm arm_minimum arm_maximum find
    arm-Unread it none next s b hs a = a
    arm-Unread it (some (Timer.maximum ms)) next s b hs a = elim (Option-cases s.timer_transition) [
      | inl e ↦ rw e (timed-Unread next s _ b.states hs a)
      | inr (t, e) ↦ rw e a
    ]
    arm-Unread it (some (Timer.minimum ms)) next s b hs a = elim (Option-cases s.timer_transition) [
      | inr (t, e) ↦ rw e a
      | inl e ↦ elim (Bool-cases it.is_second_to_last) [
        | inl second ↦ rw (e, second) (timed-Unread next s _ b.states hs a)
        | inr more ↦
            rw (e, more) (All-append Unread _ _ (timed-Unread next s _ b.states hs a) (refl, tt))
      ]
    ]

    branch-Unread :
        (it : Iteration) (current : ℕ) (s : State) (o : Option Transition) (b : Building)
        → input_eq qt it.input_event event ≡ false
        → Unread s
        → NowhereRead b
        → IfOk (λ p. NowhereRead p.1) (branch qt memory it current s o b)
    unfolding branch share
    branch-Unread it current s none b h hs a = extend-Unread it current s b h hs a
    branch-Unread it current s (some t) b h hs a =
        IfOk-if (λ p. NowhereRead p.1) it.is_last _ _ (λ last. tt)
          (λ more.
            IfOk-bind (λ md. Unit {0}) (λ p. NowhereRead p.1) (at b.state_metadata t.new_state) _
              (IfOk-any (at b.state_metadata t.new_state))
              (λ md u.
                IfOk-if (λ p. NowhereRead p.1)
                  (not (behavior_eq md.behavior it.behavior) || timers_conflict md.timer it.timer) _
                  _ (λ bad. tt) (λ good. a)))

    at-Unread : (ss : List State) (i : ℕ) → All Unread ss → IfOk Unread (at ss i)
    at-Unread ss i a = elim (Option-cases (get_elem? ss i)) [
      | inl e ↦ rw e tt
      | inr (s, e) ↦ rw e (All-get_elem? Unread ss i e a)
    ]

    -- Every iteration of the loops keeps an event unread that it does not read itself.
    pub iterate-Unread : Keeps qt memory NowhereRead Other
    unfolding iterate
    iterate-Unread trigger seen e timer l1 l2 current b h a =
        let it = iteration trigger seen e timer l1 l2 in
        IfOk-bind Unread (λ p. NowhereRead p.1) (at b.states current) _
          (at-Unread b.states current a)
          λ s hs.
            IfOk-bind (λ p. NowhereRead p.1) (λ p. NowhereRead p.1)
              (branch qt memory it current s (find qt e s.edges) b) _
              (branch-Unread it current s (find qt e s.edges) b h hs a)
              λ p hp.
                IfOk-bind Unread (λ p. NowhereRead p.1) (at p.1.states p.0) _
                  (at-Unread p.1.states p.0 hp) λ n hn. arm-Unread it timer p.0 n p.1 hn hp
