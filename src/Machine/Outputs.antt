-- ===== src/Machine/Outputs.antt =====
-- What the transitions of a generated machine (common/src/state_machine.cpp) may put out: a property
-- that holds of every output which the construction writes holds of the whole machine.
pub mod Generated
use keybinder.Base.{
  ℕ, zero, suc, ◌+◌, ◌≡◌, refl, Bool, true, false, List, [], ◌∷◌, ◌++◌, map, Option, none, some,
  length, get_elem?, set, All, All-append, All-set, All-get_elem?, Result, ok, fail, nullopt,
  throws, out_of_range, bad_optional_access, ◌>>=◌, or_fail, at, IfOk, Option-cases, Bool-cases,
  ◌⊎◌, inl, inr, arith, if◌then◌else◌, ◌==◌,
}
use keybinder.QtText.{QtText}
use keybinder.Profile.{SequenceBehavior, AdvancedTrigger, Bind, Timer, SequenceTrigger, Layer}
use keybinder.Event.{InputEvent, input_eq}
use keybinder.Machine.{home_state_idx, StateMachineOutputEvent, Transition, State, find, put}
use keybinder.Machine.Normalize.Laws.{normalize_sequences-id}
use keybinder.Machine.Build.{
  Memory, Building, Iteration, generate_home_state, trigger_to_input, replayed, fallback_outputs,
  released, new_state, add_edge, extend, share, arm_minimum, arm_maximum, arm, on_timer,
  wait_transition, after_wait,
}
use keybinder.Machine.Generate.{branch, iterate, turn, walk, walk_all, generate_states, is_empty}

module _ (P : StateMachineOutputEvent → Type 0) where
  abbrev pub TransitionAll : Transition → Type 0
  TransitionAll t = All P t.outputs

  abbrev pub TimerAll : Option Transition → Type 0
  TimerAll none = Unit
  TimerAll (some t) = TransitionAll t

  pub record StateAll (s : State) : Type 0 where
    pub edges_all : All (λ e. TransitionAll e.1) s.edges
    pub fallback_all : TransitionAll s.fallback_transition
    pub timer_all : TimerAll s.timer_transition

  -- The outputs that a sequence contributes have the property.
  pub record Allows (behavior : SequenceBehavior) (binds : List Bind) : Type 0 where
    pub translated : (o : Option InputEvent) → P (StateMachineOutputEvent.basic_translation o)
    pub again :
        behavior ≡ SequenceBehavior.default
        → (e : InputEvent) → P (StateMachineOutputEvent.process_input (some e))
    pub bound : All (λ b. P (StateMachineOutputEvent.bind b)) binds

  map_bind-All :
      (binds : List Bind)
      → All (λ b. P (StateMachineOutputEvent.bind b)) binds
      → All P (map StateMachineOutputEvent.bind binds)
  map_bind-All [] h = tt
  map_bind-All (b ∷ rest) h = (h.0, map_bind-All rest h.1)

  put-All :
      (qt : QtText) (e : InputEvent) (t : Transition) (es : List (InputEvent × Transition))
      → TransitionAll t
      → All (λ x. TransitionAll x.1) es
      → All (λ x. TransitionAll x.1) (put qt e t es)
  unfolding put
  put-All qt e t [] h a = (h, tt)
  put-All qt e t ((k, v) ∷ es) h a = elim (Bool-cases (input_eq qt k e)) [
    | inl same ↦ rw same (h, a.1)
    | inr other ↦ rw other (a.0, put-All qt e t es h a.1)
  ]

  first-or-again :
      (c : Bool) (e : InputEvent)
      → P (StateMachineOutputEvent.basic_translation (some e))
      → P (StateMachineOutputEvent.process_input (some e))
      → P (
          if c
          then StateMachineOutputEvent.basic_translation (some e)
          else StateMachineOutputEvent.process_input (some e))
  first-or-again true e h k = h
  first-or-again false e h k = k

  replayed-All :
      (j : ℕ) (seen : List AdvancedTrigger)
      → ((o : Option InputEvent) → P (StateMachineOutputEvent.basic_translation o))
      → ((e : InputEvent) → P (StateMachineOutputEvent.process_input (some e)))
      → All P (replayed j seen)
  unfolding replayed
  replayed-All j [] h k = tt
  replayed-All j (AdvancedTrigger.minimum_wait ms ∷ rest) h k = replayed-All (suc j) rest h k
  replayed-All j (AdvancedTrigger.maximum_wait ms ∷ rest) h k = replayed-All (suc j) rest h k
  replayed-All j (x ∷ rest) h k =
      (first-or-again (j == 0) _ (h (some _)) (k _), replayed-All (suc j) rest h k)

  fallback_outputs-All :
      (behavior : SequenceBehavior) (binds : List Bind) (seen : List AdvancedTrigger)
      → Allows behavior binds
      → All P (fallback_outputs behavior seen)
  unfolding fallback_outputs
  fallback_outputs-All SequenceBehavior.capture binds seen h = (h.translated none, tt)
  fallback_outputs-All SequenceBehavior.release binds seen h = (h.translated none, tt)
  fallback_outputs-All SequenceBehavior.default binds seen h =
      All-append P (replayed 0 seen) _ (replayed-All 0 seen h.translated (h.again refl))
        (h.translated none, tt)

  released-All :
      (behavior : SequenceBehavior) (binds : List Bind) (e : InputEvent)
      → Allows behavior binds
      → All P (released behavior e)
  unfolding released
  released-All SequenceBehavior.release binds e h = (h.translated (some e), tt)
  released-All _ binds e h = tt

  abbrev pub StatesAll : Building → Type 0
  StatesAll b = All StateAll b.states

  pub IfOk-bind {ℓ κ} :
      {A : Type ℓ} {B : Type κ} (R : A → Type 0) (Q : B → Type 0) (m : Result A) (f : A → Result B)
      → IfOk R m
      → ((a : A) → R a → IfOk Q (f a))
      → IfOk Q (m >>= f)
  IfOk-bind R Q (ok a) f h k = k a h
  IfOk-bind R Q (fail e) f h k = tt

  pub at-All : (xs : List State) (i : ℕ) → All StateAll xs → IfOk StateAll (at xs i)
  at-All xs i h = elim (Option-cases (get_elem? xs i)) [
    | inl e ↦ rw e tt
    | inr (s, e) ↦ rw e (All-get_elem? StateAll xs i e h)
  ]

  at-any {ℓ} : {A : Type ℓ} (xs : List A) (i : ℕ) → IfOk (λ x. Unit {0}) (at xs i)
  at-any xs i =
      elim (get_elem? xs i) as (λ o. IfOk (λ x. Unit {0}) (or_fail o (throws out_of_range))) [
        | none ↦ tt
        | some a ↦ tt
      ]

  if-All :
      (c : Bool) (m n : Result (ℕ × Building))
      → IfOk (λ p. StatesAll p.1) m
      → IfOk (λ p. StatesAll p.1) n
      → IfOk (λ p. StatesAll p.1) (if c then m else n)
  if-All true m n h k = h
  if-All false m n h k = k

  module _ (qt : QtText) (memory : Memory) where
    add_edge-All :
        (i : ℕ) (s : State) (e : InputEvent) (t : Transition) (ss : List State)
        → StateAll s
        → TransitionAll t
        → All StateAll ss
        → All StateAll (add_edge qt i s e t ss)
    unfolding add_edge
    add_edge-All i s e t ss hs ht h =
        All-set StateAll ss i _
          (record {
            edges_all = put-All qt e t s.edges ht hs.edges_all;
            fallback_all = hs.fallback_all;
            timer_all = hs.timer_all;
          })
          h

    timed-All :
        (i : ℕ) (s : State) (t : Transition) (ss : List State)
        → StateAll s
        → TransitionAll t
        → All StateAll ss
        → All StateAll (set ss i (record s { timer_transition = some t }))
    timed-All i s t ss hs ht h =
        All-set StateAll ss i _
          (record { edges_all = hs.edges_all; fallback_all = hs.fallback_all; timer_all = ht }) h

    pub extend-All :
        (it : Iteration) (current : ℕ) (s : State) (b : Building)
        → Allows it.behavior it.binds
        → StateAll s
        → StatesAll b
        → StatesAll (extend qt memory it current s b).1
    unfolding extend new_state
    extend-All it current s b allows hs h = elim (Bool-cases it.is_last) [
      | inl last ↦ rw last (
          add_edge-All current s it.input_event _ b.states hs
            (All-append P (released it.behavior it.input_event) _
              (released-All it.behavior it.binds it.input_event allows)
              (map_bind-All it.binds allows.bound))
            h)
      | inr more ↦ rw more (
          All-append StateAll _ _
            (add_edge-All current s it.input_event _ b.states hs
              (released-All it.behavior it.binds it.input_event allows) h)
            (
              record {
                edges_all = tt;
                fallback_all = fallback_outputs-All it.behavior it.binds it.seen allows;
                timer_all = tt;
              },
              tt,
            ))
    ]

    arm_maximum-All :
        (next : ℕ) (s : State) (b : Building)
        → StateAll s
        → StatesAll b
        → StatesAll (arm_maximum next s b).1
    unfolding arm_maximum
    arm_maximum-All next s b hs h = elim (Option-cases s.timer_transition) [
      | inl e ↦ rw e (timed-All next s s.fallback_transition b.states hs hs.fallback_all h)
      | inr (t, e) ↦ rw e h
    ]

    arm_minimum-All :
        (it : Iteration) (next : ℕ) (s : State) (b : Building)
        → Allows it.behavior it.binds
        → StateAll s
        → StatesAll b
        → StatesAll (arm_minimum memory it next s b).1
    unfolding arm_minimum
    arm_minimum-All it next s b allows hs h = elim (Option-cases s.timer_transition) [
      | inr (t, e) ↦ rw e h
      | inl e ↦ elim (Bool-cases it.is_second_to_last) [
        | inl second ↦
            rw (e, second) (timed-All next s _ b.states hs (map_bind-All it.binds allows.bound) h)
        | inr more ↦
            rw (e, more)
              (All-append StateAll _ _ (timed-All next s _ b.states hs tt h)
                (record { edges_all = tt; fallback_all = tt; timer_all = tt }, tt))
      ]
    ]

    pub arm-All :
        (it : Iteration) (timer : Option Timer) (next : ℕ) (s : State) (b : Building)
        → Allows it.behavior it.binds
        → StateAll s
        → StatesAll b
        → StatesAll (arm memory it timer next s b).1
    unfolding arm
    arm-All it none next s b allows hs h = h
    arm-All it (some (Timer.minimum ms)) next s b allows hs h =
        arm_minimum-All it next s b allows hs h
    arm-All it (some (Timer.maximum ms)) next s b allows hs h = arm_maximum-All next s b hs h

    pub share-All :
        (it : Iteration) (t : Transition) (b : Building)
        → StatesAll b
        → IfOk (λ p. StatesAll p.1) (share it t b)
    unfolding share
    share-All it t b h = elim (Bool-cases it.is_last) [
      | inl last ↦ rw last tt
      | inr more ↦ rw more (
          IfOk-bind (λ md. Unit {0}) (λ p. StatesAll p.1) (at b.state_metadata t.new_state) _
            (at-any b.state_metadata t.new_state)
            (λ md _. if-All _ (fail nullopt) (ok (t.new_state, b)) tt h))
    ]
