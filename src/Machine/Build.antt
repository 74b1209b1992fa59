-- ===== src/Machine/Build.antt =====
-- The parts of `generate_states` of common/src/state_machine.cpp: its variables, and what one
-- iteration does to the two vectors on each branch.
use keybinder.Base.{
  ℕ, suc, Bool, true, false, not, ◌||◌, ◌==◌, List, [], ◌∷◌, ◌++◌, map, Option, none, some, length,
  set, Result, ok, fail, nullopt, ◌>>=◌, at, if◌then◌else◌,
}
use keybinder.QtText.{QtText}
use keybinder.Profile.{SequenceBehavior, AdvancedTrigger, Timer, Bind}
use keybinder.Event.{InputEvent, KeyEventType}
use keybinder.Machine.{home_state_idx, StateMachineOutputEvent, Transition, State, put}

-- What the code finds in memory that it has not written: `next_state_idx` after the last trigger of
-- a sequence, and the fallback target of a state made for a minimum wait. The machine built so far
-- tells the reads apart.
pub record Memory : Type 0 where
  pub next_state_idx : List State → ℕ
  pub fallback_state : List State → ℕ

pub record StateMetadata : Type 0 where
  pub timer : Option Timer
  pub behavior : SequenceBehavior

-- The two vectors that the loops extend.
pub record Building : Type 0 where
  pub states : List State
  pub state_metadata : List StateMetadata

abbrev pub behavior_eq : SequenceBehavior → SequenceBehavior → Bool
behavior_eq SequenceBehavior.capture SequenceBehavior.capture = true
behavior_eq SequenceBehavior.release SequenceBehavior.release = true
behavior_eq SequenceBehavior.default SequenceBehavior.default = true
behavior_eq _ _ = false

abbrev pub timer_eq : Timer → Timer → Bool
timer_eq (Timer.minimum a) (Timer.minimum b) = a == b
timer_eq (Timer.maximum a) (Timer.maximum b) = a == b
timer_eq _ _ = false

abbrev pub generate_home_state : Building
generate_home_state = record {
  states =
      record {
        edges = [];
        fallback_transition = record {
          timer_ms = none;
          outputs = StateMachineOutputEvent.basic_translation none ∷ [];
          new_state = home_state_idx;
        };
        timer_transition = none;
      }
      ∷ [];
  state_metadata = record { timer = none; behavior = SequenceBehavior.default } ∷ [];
}

abbrev pub trigger_to_input : AdvancedTrigger → Option InputEvent
trigger_to_input (AdvancedTrigger.key_press code) =
    some (InputEvent.key (record { keycode = code; type = KeyEventType.press }))
trigger_to_input (AdvancedTrigger.key_release code) =
    some (InputEvent.key (record { keycode = code; type = KeyEventType.release }))
trigger_to_input (AdvancedTrigger.app_focused name) =
    some (InputEvent.app (record { app_name = name }))
trigger_to_input (AdvancedTrigger.minimum_wait ms) = none
trigger_to_input (AdvancedTrigger.maximum_wait ms) = none

abbrev pub timer_ms : Timer → ℕ
timer_ms (Timer.minimum ms) = ms
timer_ms (Timer.maximum ms) = ms

-- Both have a timer, and the timers differ.
abbrev pub timers_conflict : Option Timer → Option Timer → Bool
timers_conflict (some t) (some u) = not (timer_eq t u)
timers_conflict _ _ = false

-- The events of a prefix of a sequence, given again: the first is translated, the others processed.
unfoldable pub replayed : ℕ → List AdvancedTrigger → List StateMachineOutputEvent
replayed j [] = []
replayed j (x ∷ rest) = elim (trigger_to_input x) [
  | none ↦ replayed (suc j) rest
  | some e ↦
      (if j == 0
        then StateMachineOutputEvent.basic_translation (some e)
        else StateMachineOutputEvent.process_input (some e))
      ∷ replayed (suc j) rest
]

unfoldable pub fallback_outputs :
    SequenceBehavior → List AdvancedTrigger → List StateMachineOutputEvent
unfolding replayed
fallback_outputs SequenceBehavior.default seen =
    replayed 0 seen ++ StateMachineOutputEvent.basic_translation none ∷ []
fallback_outputs _ seen = StateMachineOutputEvent.basic_translation none ∷ []

-- The variables of one iteration over a sequence. `seen` holds `sequence[0..i]`, a consumed timer
-- included.
pub record Iteration : Type 0 where
  pub behavior : SequenceBehavior
  pub binds : List Bind
  pub seen : List AdvancedTrigger
  pub input_event : InputEvent
  pub timer : Option Timer
  pub is_last : Bool
  pub is_second_to_last : Bool

unfoldable pub released : SequenceBehavior → InputEvent → List StateMachineOutputEvent
released SequenceBehavior.release e = StateMachineOutputEvent.basic_translation (some e) ∷ []
released _ e = []

-- The state that a trigger other than the last one leads to.
unfoldable pub new_state : Iteration → State
unfolding fallback_outputs
new_state it = record {
  edges = [];
  fallback_transition = record {
    timer_ms = none;
    outputs = fallback_outputs it.behavior it.seen;
    new_state = home_state_idx;
  };
  timer_transition = none;
}

abbrev pub duration : Option Timer → Option ℕ
duration none = none
duration (some t) = some (timer_ms t)

-- `states.at(current).edges[input_event] = transition`
unfoldable pub add_edge : QtText → ℕ → State → InputEvent → Transition → List State → List State
unfolding put
add_edge qt current s e t states = set states current (record s { edges = put qt e t s.edges })

-- The branch with no edge for the event yet: the machine, and `next_state_idx`.
unfoldable pub extend : QtText → Memory → Iteration → ℕ → State → Building → ℕ × Building
unfolding new_state released add_edge
extend qt memory it current s b =
    if it.is_last
    then (let closed =
          add_edge qt current s it.input_event
            (record {
              timer_ms = duration it.timer;
              outputs =
                  released it.behavior it.input_event ++ map StateMachineOutputEvent.bind it.binds;
              new_state = home_state_idx;
            })
            b.states in
        (memory.next_state_idx closed, record b { states = closed }))
    else (
      length b.states,
      record {
        states =
            add_edge qt current s it.input_event
              (record {
                timer_ms = duration it.timer;
                outputs = released it.behavior it.input_event;
                new_state = length b.states;
              })
              b.states
            ++ new_state it ∷ [];
        state_metadata =
            b.state_metadata ++ record { timer = it.timer; behavior = it.behavior } ∷ [];
      },
    )

-- The branch with an edge for the event: it is shared if the metadata allow it.
unfoldable pub share : Iteration → Transition → Building → Result (ℕ × Building)
share it existing b = if it.is_last then fail nullopt else do
  metadata ← at b.state_metadata existing.new_state
  (if not (behavior_eq metadata.behavior it.behavior) || timers_conflict metadata.timer it.timer
      then fail nullopt
      else ok (existing.new_state, b))

abbrev pub wait_transition : List StateMachineOutputEvent → ℕ → Transition
wait_transition outputs target = record { timer_ms = none; outputs = outputs; new_state = target }

abbrev pub on_timer : ℕ → State → Transition → Building → Building
on_timer next s t b = record b {
  states = set b.states next (record s { timer_transition = some t });
}

-- The state behind a minimum wait in the middle of a sequence: its fallback transition is left as
-- it is constructed, with no outputs and a target that is never written.
abbrev pub after_wait : ℕ → State
after_wait garbage = record {
  edges = [];
  fallback_transition = wait_transition [] garbage;
  timer_transition = none;
}

unfoldable pub arm_minimum : Memory → Iteration → ℕ → State → Building → ℕ × Building
arm_minimum memory it next s b = elim s.timer_transition [
  | some t ↦ (t.new_state, b)
  | none ↦
      if it.is_second_to_last
      then (
        next,
        on_timer next s (wait_transition (map StateMachineOutputEvent.bind it.binds) home_state_idx)
            b,
      )
      else (let size = length b.states in
          let waiting = on_timer next s (wait_transition [] size) b in
          (
            size,
            record {
              states = waiting.states ++ after_wait (memory.fallback_state waiting.states) ∷ [];
              state_metadata =
                  b.state_metadata ++ record { timer = none; behavior = it.behavior } ∷ [];
            },
          ))
]

unfoldable pub arm_maximum : ℕ → State → Building → ℕ × Building
arm_maximum next s b = elim s.timer_transition [
  | some t ↦ (next, b)
  | none ↦ (next, on_timer next s s.fallback_transition b)
]

-- What a consumed timer adds to the next state, and `final_state_idx`.
unfoldable pub arm : Memory → Iteration → Option Timer → ℕ → State → Building → ℕ × Building
unfolding arm_minimum arm_maximum
arm memory it none next s b = (next, b)
arm memory it (some (Timer.minimum ms)) next s b = arm_minimum memory it next s b
arm memory it (some (Timer.maximum ms)) next s b = arm_maximum next s b
