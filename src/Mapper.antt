-- ===== src/Mapper.antt =====
-- common/src/mapper.cpp and common/include/mapper.h: the state of the mapper and what it calls.
pub mod Output
pub mod Process
pub mod Control
pub mod Delivery
pub mod Schedule
pub mod Valid
pub mod Safety
pub mod Rounds
pub mod Tables
pub mod Profiles
pub mod Quiet
pub mod Total
pub mod Paused
pub mod Endless
pub mod Frame
pub mod Typing
use mathlib.Core.List.{Perm}
use keybinder.Base.{ℕ, String, Bool, true, false, ◌≡◌, List, [], ◌∷◌, ◌++◌, Option, All}
use keybinder.QtText.{QtText}
use keybinder.KeyCode.{KeyCode}
use keybinder.Profile.{Bind, Profile}
use keybinder.Event.{InputEvent, OutputEvent}
use keybinder.Machine.{State}
use keybinder.Machine.Build.{Memory}

abbrev pub Item : Type 0
Item = ℕ × OutputEvent

-- std::partition: the items of the range that pass the test, then the others, in no order that the
-- standard fixes.
pub record Partition : Type 0 where
  pub split : (Item → Bool) → List Item → List Item × List Item
  pub front_passes : (p : Item → Bool) (xs : List Item) → All (λ x. p x ≡ true) (split p xs).0
  pub back_fails : (p : Item → Bool) (xs : List Item) → All (λ x. p x ≡ false) (split p xs).1
  pub permutes : (p : Item → Bool) (xs : List Item) → Perm ((split p xs).0 ++ (split p xs).1) xs

-- What stands outside: Qt's texts, the answers of successive calls of `current_time_ms`, whether a
-- `layer_changed_callback` was given, the standard library's partition, unwritten memory, and for which
-- outputs `send_outputs` of the daemon does not throw `out_of_range`.
pub record Environment : Type 0 where
  pub qt : QtText
  pub clock : ℕ → ℕ
  pub has_callback : Bool
  pub partition : Partition
  pub memory : Memory
  pub can_send : OutputEvent → Bool

-- The members of `Mapper`, then what it has done to its surroundings: calls of the clock,
-- of `Daemon::send_outputs`, of the callback and of `KeyCounter::increment`, oldest first.
pub record Mapper : Type 0 where
  pub profile : Profile
  pub states : List (List State)
  pub cur_layer_idx : ℕ
  pub cur_state_idx : ℕ
  pub processed_events_count : ℕ
  pub basic_maps : List (List (InputEvent × List Bind))
  pub current_timer : Option ℕ
  pub queued_events : List Item
  pub stopped : Bool
  pub paused : Bool
  pub clock_reads : ℕ
  pub sent : List (List OutputEvent)
  pub announced : List String
  pub counted : List KeyCode

-- `current_time_ms()` at the next call.
abbrev pub now : Environment → Mapper → ℕ
now env m = env.clock m.clock_reads
