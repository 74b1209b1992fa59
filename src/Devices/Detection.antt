-- ===== src/Devices/Detection.antt =====
-- `detect_keyboard_fallback` of linux/src/device_manager.cpp: the keyboard is the one on which the user
-- presses the space bar, within 30 seconds.
use Prim.Native.String.{◌++◌ as joined}
use keybinder.Base.{
  ℕ, zero, suc, ◌+◌, ◌≤◌, ◌≡◌, String, Bool, true, false, ◌&&◌, ◌==◌, leb, List, [], ◌∷◌, Option,
  none, some, Result, ok, fail, too_deep, ◌>>=◌, ◌⊎◌, if◌then◌else◌,
}
use keybinder.Daemon.Linux.{EventKind, RawEvent}
use keybinder.Devices.{
  LineText, ConfigFile, record_eventx, Capabilities, is_full_keyboard, keyboard_candidates,
}

abbrev is_key : EventKind → Bool
is_key EventKind.ev_key = true
is_key _ = false

-- The inner loop over one device: whether the space bar is pressed among its events.
unfoldable pub presses_space : ℕ → List RawEvent → Bool
presses_space key_space [] = false
presses_space key_space (e ∷ rest) =
    let later = presses_space key_space rest in
    if is_key e.type && e.code == key_space && e.value == 1 then true else later

-- The loop over the devices, with `keyb_path` and `found_keyb`. Its `break` leaves the inner loop alone,
-- so that the last such device of a round counts.
unfoldable pub scan : ℕ → (String → List RawEvent) → List String → String × Bool → String × Bool
unfolding presses_space
scan key_space pending [] found = found
scan key_space pending (path ∷ rest) found =
    scan key_space pending rest
      (if presses_space key_space (pending path) then (path, true) else found)

-- What the devices have to read in each round, and the timer's time at its end.
pub record Rounds : Type 0 where
  pub pending : ℕ → String → List RawEvent
  pub elapsed : ℕ → ℕ

-- `while (!found_keyb)`, from a round on.
unfoldable pub listen : ℕ → ℕ → Rounds → List String → ℕ → Result String
unfolding scan
listen zero key_space rounds paths round = fail too_deep
listen (suc fuel) key_space rounds paths round =
    let later = listen fuel key_space rounds paths (round + 1) in
    let found = scan key_space (rounds.pending round) paths ("", false) in
    if found.1 then ok found.0 else if leb 30000 (rounds.elapsed round) then ok found.0 else later

-- The entries whose names begin with "event", as paths.
unfoldable pub event_paths : (String → Bool) → List String → List String
event_paths is_event [] = []
event_paths is_event (name ∷ rest) =
    let later = event_paths is_event rest in
    if is_event name then joined "/dev/input/" name ∷ later else later

-- What the call finds outside: the entries of /dev/input, if it can be opened, which names begin
-- with "event", what libevdev says of a device that can be opened, and whether the configuration file
-- can be.
pub record Surroundings : Type 0 where
  pub entries : Option (List String)
  pub is_event : String → Bool
  pub device : String → Option Capabilities
  pub key_space : ℕ
  pub rounds : Rounds
  pub can_read : Bool
  pub can_write : Bool

module _ (text : LineText) where
  -- The path is recorded, also if none was found.
  unfoldable pub fallback_on :
      ℕ → Surroundings → Option (List String) → ConfigFile → Result (ConfigFile × String)
  unfolding listen event_paths keyboard_candidates record_eventx
  fallback_on fuel env none config = ok (config, "")
  fallback_on fuel env (some entries) config = do
    keyb_path ←
        listen fuel env.key_space env.rounds
          (keyboard_candidates env.device (event_paths env.is_event entries)) 0
    ok ((record_eventx text env.can_read env.can_write keyb_path config).0, keyb_path)

  unfoldable pub detect_keyboard_fallback :
      ℕ → Surroundings → ConfigFile → Result (ConfigFile × String)
  unfolding fallback_on
  detect_keyboard_fallback fuel env config = fallback_on fuel env env.entries config

-- No path, or that of a full keyboard on which the space bar was pressed in one of the rounds.
abbrev pub Pressed : Surroundings → ℕ → String → Type 0
Pressed env n path =
    (path ≡ "")
    ⊎ ((is_full_keyboard (env.device path) ≡ true)
        × (round : ℕ) × (round ≤ n)
        × (presses_space env.key_space (env.rounds.pending round path) ≡ true))

module _ (env : Surroundings) where
  abbrev IsFull : String → Type 0
  IsFull path = is_full_keyboard (env.device path) ≡ true
