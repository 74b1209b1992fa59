-- ===== src/System.antt =====
-- common/src/main.cpp: which profile the program starts with, and the parts at work together. The two
-- threads and the event loop are sequences of steps, since each call of the mapper, the channel, the
-- settings and the counter is a critical section. Locks, signals and the window of the application are
-- the system's and Qt's.
pub mod Sound
pub mod Starting
pub mod Latest
pub mod Shutdown
use keybinder.Base.{
  ℕ, ◌≡◌, String, Bool, true, false, List, [], ◌∷◌, ◌++◌, Option, none, some, Result, ok, fail,
  ◌>>=◌,
}
use keybinder.KeyCode.{KeyCode}
use keybinder.Profile.{Profile}
use keybinder.ReadProfile.{default_profile, from_file, load_latest}
use keybinder.ReadProfile as ReadProfile
use keybinder.ReadProfile.Access.{Fields}
use keybinder.Event.{InputEvent}
use keybinder.KeyChannel.{KeyQueueState, Wait, send_key, wait_key}
use keybinder.KeyCounter.{KeyCounter, increment, save}
use keybinder.Mapper.{Environment, Mapper}
use keybinder.Mapper.Process.{round}
use keybinder.Mapper.Control.{pause, resume}
use keybinder.Settings.{get_log_key_frequency}
use keybinder.Server.{Outside, Shared, handle_line}
use keybinder.Server.Answers.{LineFits}

-- What `main` comes to in front of the threads: a profile, or `std::exit`.
pub data Start : Type 0 where
  starts : Profile → Start
  exits : ℕ → Start

abbrev pub from_latest : Result (Option (Profile × Fields)) → Start
from_latest (ok none) = Start.starts default_profile
from_latest (ok (some (p, obj))) = Start.starts p
from_latest (fail e) = Start.starts default_profile

abbrev pub from_argument : Option (Profile × Fields) → Start
from_argument none = Start.exits 1
from_argument (some (p, obj)) = Start.starts p

-- Without an argument every exception is caught; with one, none is.
unfoldable pub choose_profile : ReadProfile.Outside → Option String → Result Start
unfolding load_latest from_file
choose_profile files none = ok (from_latest (load_latest files))
choose_profile files (some path) = do
  profile_opt ← from_file files path
  ok (from_argument profile_opt)

-- The objects that `main` makes, with what they have done.
pub record System : Type 0 where
  pub shared : Shared
  pub channel : KeyQueueState
  pub tray_pauses : Bool

-- A click on the tray's first action (common/src/tray.cpp), whose text is "Pause" or "Resume", with what
-- `main` connects to its signals.
abbrev pub clicked : Bool → System → System
clicked true s = record s {
  shared = record (s.shared) { mapper = pause s.shared.mapper };
  tray_pauses = false;
}
clicked false s = record s {
  shared = record (s.shared) { mapper = resume s.shared.mapper };
  tray_pauses = true;
}

-- `increment` for each key that a round of the mapper has counted.
unfoldable pub increment_all : List KeyCode → KeyCounter → Result KeyCounter
unfolding increment
increment_all [] c = ok c
increment_all (key ∷ keys) c = do c' ← increment key c; increment_all keys c'

-- One step of the program. `key_arrives` is a daemon's call of `send_key`; `mapper_round` is one round
-- of the mapper's loop, with what the channel has given it; `line_arrives` is a complete line from a
-- client; then there are a click on the tray and the timer of the counter.
pub data Step (env : Environment) (out : Outside) : System → System → Type 0 where
  key_arrives :
      (e : InputEvent) (s : System)
      → Step env out s (record s { channel = (send_key e s.channel).0 })
  mapper_round :
      (depth : ℕ) (has_timeout : Bool) (key_opt : Option InputEvent) (channel : KeyQueueState)
      (m : Mapper) (new : List KeyCode) (c : KeyCounter) (s : System)
      → wait_key has_timeout s.channel ≡ Wait.returns key_opt channel
      → round depth env (get_log_key_frequency s.shared.settings) key_opt s.shared.mapper ≡ ok m
      → m.counted ≡ s.shared.mapper.counted ++ new
      → increment_all new s.shared.key_counter ≡ ok c
      → Step env out s (record s {
        shared = record (s.shared) { mapper = m; key_counter = c };
        channel = channel;
      })
  line_arrives :
      (line : List ℕ) (shared : Shared) (s : System)
      → LineFits out line
      → handle_line env out line s.shared ≡ ok shared
      → Step env out s (record s { shared = shared })
  tray_clicked : (s : System) → Step env out s (clicked s.tray_pauses s)
  counter_saved :
      (can_open : Bool) (s : System)
      → Step env out s (record s {
        shared = record (s.shared) { key_counter = save can_open s.shared.key_counter };
      })

-- Any number of steps.
pub data Reaches (env : Environment) (out : Outside) : System → System → Type 0 where
  here : (s : System) → Reaches env out s s
  next : (s t u : System) → Step env out s t → Reaches env out t u → Reaches env out s u
