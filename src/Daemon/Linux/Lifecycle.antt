-- ===== src/Daemon/Linux/Lifecycle.antt =====
-- The life of the Linux daemon (linux/src/daemon.cpp): its constructor, what `start` does ahead of its
-- loop, with `setup_uinput_device` of linux/src/device_manager.cpp, and `cleanup`.
use keybinder.Base.{
  ℕ, zero, suc, String, str_eq, Bool, true, false, not, ◌||◌, ◌==◌, List, [], ◌∷◌, ◌++◌, Option,
  none, some, Result, ok, ◌>>=◌, if◌then◌else◌,
}
use keybinder.Devices.{LineText, ConfigFile, retrieve_eventx, record_eventx, detect_keyboard}
use keybinder.Devices.Detection.{Surroundings, detect_keyboard_fallback}
use keybinder.Daemon.Linux.{RawEvent, key_frame}

-- `Daemon::Daemon`: the configuration file behind it, and `event_keyb_path`. `candidates` are the
-- keyboards that udev enumerates, and the fuel bounds the rounds of the fallback.
unfoldable pub construct :
    LineText → ℕ → Option (List String) → Surroundings → ConfigFile → Result (ConfigFile × String)
unfolding retrieve_eventx detect_keyboard detect_keyboard_fallback record_eventx
construct text fuel candidates env config =
    let recorded = retrieve_eventx text env.can_read config in
    if str_eq recorded ""
    then (do
      p ←
          detect_keyboard env.device candidates (detect_keyboard_fallback text fuel env config)
            config
      ok ((record_eventx text env.can_read env.can_write p.1 p.0).0, p.1))
    else ok (config, recorded)

-- How the calls of the system end: a descriptor, or whether they succeed.
pub record Answers : Type 0 where
  pub keyboard : Option ℕ
  pub evdev : Bool
  pub grab : Bool
  pub uinput : Option ℕ
  pub dev_setup : Bool
  pub dev_create : Bool

-- The members of `Daemon`, where no descriptor is -1, then what the system keeps for the process:
-- descriptors, the grab, the virtual keyboard with the keys that it may send, and what was written to
-- the keyboard.
pub record Life : Type 0 where
  pub keyb_fd : Option ℕ
  pub uinput_fd : Option ℕ
  pub keyb : Bool
  pub is_running : Bool
  pub open_fds : List ℕ
  pub grabbed : Bool
  pub virtual_keyboard : Bool
  pub key_bits : List ℕ
  pub written : List RawEvent

unfoldable pub close_fd : ℕ → List ℕ → List ℕ
close_fd fd [] = []
close_fd fd (k ∷ fds) = let rest = close_fd fd fds in if k == fd then rest else k ∷ rest

-- `for (int i = 0; i <= KEY_MAX; i++)`
unfoldable pub keys_from : ℕ → ℕ → List ℕ
keys_from zero i = i ∷ []
keys_from (suc n) i = i ∷ keys_from n (suc i)

unfoldable pub release_all : (String → ℕ) → List ℕ → List RawEvent
release_all value [] = []
release_all value (code ∷ rest) = key_frame value code 0 ++ release_all value rest

module _ (value : String → ℕ) (a : Answers) where
  abbrev created : ℕ → Life → Life × Option ℕ
  created fd w =
      if not a.dev_setup || not a.dev_create
      then (record w { open_fds = close_fd fd w.open_fds }, none)
      else (record w { virtual_keyboard = true }, some fd)

  abbrev with_uinput : Option ℕ → Life → Life × Option ℕ
  with_uinput none w = (w, none)
  with_uinput (some fd) w =
      created fd (record w { open_fds = fd ∷ w.open_fds; key_bits = keys_from (value "KEY_MAX") 0 })

  unfoldable pub setup_uinput_device : Life → Life × Option ℕ
  unfolding close_fd keys_from
  setup_uinput_device w = with_uinput a.uinput w

  abbrev set_up : Life × Option ℕ → Life
  set_up (w, none) = record w { uinput_fd = none }
  set_up (w, some fd) = record w { uinput_fd = some fd; is_running = true }

  abbrev grab_device : Life → Life
  grab_device w = if a.grab then set_up (setup_uinput_device (record w { grabbed = true })) else w

  abbrev init_evdev : Life → Life
  init_evdev w =
      if a.evdev
      then grab_device (record w {
        keyb = true;
        written = w.written ++ release_all value (keys_from (value "KEY_MAX") 0);
      })
      else w

  abbrev open_keyboard : Option ℕ → Life → Life
  open_keyboard none w = record w { keyb_fd = none }
  open_keyboard (some fd) w =
      init_evdev (record w { keyb_fd = some fd; open_fds = fd ∷ w.open_fds })

  -- `start` as far as its loop, which it enters if `is_running` is set.
  unfoldable pub start : Life → Life
  unfolding setup_uinput_device release_all
  start w = open_keyboard a.keyboard w

abbrev close_opt : Option ℕ → List ℕ → List ℕ
close_opt none fds = fds
close_opt (some fd) fds = close_fd fd fds

abbrev release_keyboard : Bool → Option ℕ → Life → Life
release_keyboard true (some fd) w = record w {
  grabbed = false;
  open_fds = close_fd fd w.open_fds;
  keyb_fd = none;
  keyb = false;
}
release_keyboard _ _ w = w

-- `uinput_fd` keeps its number.
unfoldable pub cleanup : Life → Life
unfolding close_fd
cleanup w =
    if w.is_running
    then (let destroyed = record w {
      virtual_keyboard = false;
      open_fds = close_opt w.uinput_fd w.open_fds;
      is_running = false;
    } in
        release_keyboard w.keyb w.keyb_fd destroyed)
    else w

-- A daemon as it is constructed, beside descriptors of others.
abbrev pub constructed : List ℕ → Life
constructed fds = record {
  keyb_fd = none;
  uinput_fd = none;
  keyb = false;
  is_running = false;
  open_fds = fds;
  grabbed = false;
  virtual_keyboard = false;
  key_bits = [];
  written = [];
}
