-- ===== src/Devices.antt =====
-- linux/src/device_manager.cpp: the configuration file that names the keyboard, and the choice of one
-- among the devices. Enumeration and opening of devices are calls of udev and libevdev.
pub mod Config
pub mod Detection
use Prim.Native.String.{◌++◌ as joined}
use keybinder.Base.{
  ℕ, String, Bool, true, false, ◌&&◌, ◌≡◌, List, [], ◌∷◌, ◌++◌, Option, none, some, Result, ok,
  if◌then◌else◌,
}

-- QString::contains with "keyboard=", and `mid` behind the first "=", of the lines that are read.
pub record LineText : Type 0 where
  pub names_keyboard : String → Bool
  pub behind_equals : String → String
  pub names_own : (path : String) → names_keyboard (joined "keyboard=" path) ≡ true
  pub behind_own : (path : String) → behind_equals (joined "keyboard=" path) ≡ path

-- The file: absent, or its lines.
abbrev pub ConfigFile : Type 0
ConfigFile = Option (List String)

abbrev pub keyboard_line : String → String
keyboard_line eventx_path = joined "keyboard=" eventx_path

module _ (text : LineText) where
  -- The first line that names a keyboard, or no text.
  unfoldable pub find_eventx : List String → String
  find_eventx [] = ""
  find_eventx (line ∷ rest) =
      if text.names_keyboard line then text.behind_equals line else find_eventx rest

  -- A file that cannot be opened is read as one without lines.
  abbrev pub lines_of : Bool → ConfigFile → List String
  lines_of true (some lines) = lines
  lines_of _ _ = []

  unfoldable pub retrieve_eventx : Bool → ConfigFile → String
  unfolding find_eventx
  retrieve_eventx can_read config = find_eventx (lines_of can_read config)

  unfoldable pub replaced : String → List String → List String
  replaced eventx_path [] = []
  replaced eventx_path (line ∷ rest) =
      (if text.names_keyboard line then keyboard_line eventx_path else line)
      ∷ replaced eventx_path rest

  unfoldable pub no_prev_keyb : List String → Bool
  no_prev_keyb [] = true
  no_prev_keyb (line ∷ rest) = if text.names_keyboard line then false else no_prev_keyb rest

  unfoldable pub all_lines : String → List String → List String
  unfolding replaced no_prev_keyb
  all_lines eventx_path lines =
      replaced eventx_path lines
      ++ (if no_prev_keyb lines then keyboard_line eventx_path ∷ [] else [])

  -- The file after the call, and the answer. The two tests are those of QFile::open.
  unfoldable pub record_eventx : Bool → Bool → String → ConfigFile → ConfigFile × Bool
  unfolding all_lines
  record_eventx can_read can_write eventx_path none =
      if can_write then (some (keyboard_line eventx_path ∷ []), true) else (none, false)
  record_eventx can_read can_write eventx_path (some lines) =
      if can_read && can_write
      then (some (all_lines eventx_path lines), true)
      else (some lines, false)

-- What libevdev says of a device: whether it has key events, and which keys.
pub record Capabilities : Type 0 where
  pub has_keys : Bool
  pub has_code : String → Bool

unfoldable pub is_full_keyboard : Option Capabilities → Bool
is_full_keyboard none = false
is_full_keyboard (some dev) =
    dev.has_keys
    && dev.has_code "KEY_A"
    && dev.has_code "KEY_Z"
    && dev.has_code "KEY_SPACE"
    && dev.has_code "KEY_ENTER"
    && dev.has_code "KEY_LEFTSHIFT"

-- The candidates that can be opened and look like a keyboard.
unfoldable pub keyboard_candidates : (String → Option Capabilities) → List String → List String
unfolding is_full_keyboard
keyboard_candidates device [] = []
keyboard_candidates device (path ∷ rest) =
    if is_full_keyboard (device path)
    then path ∷ keyboard_candidates device rest
    else keyboard_candidates device rest

abbrev pub only_one :
    ConfigFile → List String → Result (ConfigFile × String) → Result (ConfigFile × String)
only_one config (path ∷ []) fallback = ok (config, path)
only_one config _ fallback = fallback

-- The configuration file behind the call, and the path. `fallback` is what a call of
-- `detect_keyboard_fallback` gives; no list of candidates is a failed enumeration.
unfoldable pub detect_keyboard :
    (String → Option Capabilities)
    → Option (List String)
    → Result (ConfigFile × String)
    → ConfigFile
    → Result (ConfigFile × String)
unfolding keyboard_candidates
detect_keyboard device none fallback config = fallback
detect_keyboard device (some (path ∷ [])) fallback config = ok (config, path)
detect_keyboard device (some paths) fallback config =
    only_one config (keyboard_candidates device paths) fallback
