-- ===== src/Machine.antt =====
-- common/include/state_machine.h: the states that a layer's sequences are compiled to.
pub mod Normalize
pub mod Build
pub mod Generate
pub mod Walks
pub mod WellFormed
pub mod Paced
pub mod Outputs
pub mod Paths
use keybinder.Base.{ℕ, List, [], ◌∷◌, Option, none, some, if◌then◌else◌}
use keybinder.QtText.{QtText}
use keybinder.Profile.{Bind}
use keybinder.Event.{InputEvent, input_eq}

abbrev pub home_state_idx : ℕ
home_state_idx = 0

-- A missing event stands for the event that caused the transition.
pub data StateMachineOutputEvent : Type 0 where
  process_input : Option InputEvent → StateMachineOutputEvent
  basic_translation : Option InputEvent → StateMachineOutputEvent
  bind : Bind → StateMachineOutputEvent

pub record Transition : Type 0 where
  pub timer_ms : Option ℕ
  pub outputs : List StateMachineOutputEvent
  pub new_state : ℕ

pub record State : Type 0 where
  pub edges : List (InputEvent × Transition)
  pub fallback_transition : Transition
  pub timer_transition : Option Transition

-- `QHash<InputEvent, V>`: `find` is `contains` with `operator[]`, `put` is an assignment through
-- `operator[]`, which keeps the key that is there.
module _ {V : Type 0} (qt : QtText) where
  unfoldable pub find : InputEvent → List (InputEvent × V) → Option V
  find e [] = none
  find e ((k, v) ∷ m) = if input_eq qt k e then some v else find e m

  unfoldable pub put : InputEvent → V → List (InputEvent × V) → List (InputEvent × V)
  put e v [] = (e, v) ∷ []
  put e v ((k, w) ∷ m) = if input_eq qt k e then (k, v) ∷ m else (k, w) ∷ put e v m
