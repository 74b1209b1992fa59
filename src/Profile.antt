-- ===== src/Profile.antt =====
-- common/include/profile.h: profiles, as they are read from JSON. Each `struct` with a single field
-- is the argument of its alternative in the `std::variant`.
use keybinder.Base.{ℕ, String, List}
use keybinder.KeyCode.{KeyCode}

pub data SequenceBehavior : Type 0 where
  capture release default : SequenceBehavior

pub data BasicTrigger : Type 0 where
  key_press : KeyCode → BasicTrigger
  key_release : KeyCode → BasicTrigger
  app_focused : String → BasicTrigger

-- The waits are in milliseconds.
pub data AdvancedTrigger : Type 0 where
  key_press : KeyCode → AdvancedTrigger
  key_release : KeyCode → AdvancedTrigger
  app_focused : String → AdvancedTrigger
  minimum_wait : ℕ → AdvancedTrigger
  maximum_wait : ℕ → AdvancedTrigger

pub data Timer : Type 0 where
  minimum maximum : ℕ → Timer

pub record RunScript : Type 0 where
  pub interpreter : String
  pub script : String

pub data Bind : Type 0 where
  press_key : KeyCode → Bind
  release_key : KeyCode → Bind
  swap_layer : ℕ → Bind
  wait : ℕ → Bind
  run_script : RunScript → Bind

pub record SequenceTrigger : Type 0 where
  pub behavior : SequenceBehavior
  pub sequence : List AdvancedTrigger
  pub binds : List Bind

pub record Layer : Type 0 where
  pub layer_name : String
  pub basic_remappings : List (BasicTrigger × List Bind)
  pub sequence_remappings : List SequenceTrigger

pub record Profile : Type 0 where
  pub name : String
  pub layers : List Layer
  pub default_layer : ℕ
