-- ===== src/Tests/Keyboards.antt =====
-- The theorems about the keyboard of the Linux daemon, about a profile that comes to no end, about the
-- end and the next start of the program, and about notices, at test data.
use keybinder.Base.{
  List, ap, not, ltb, lt→ltb, ◌++◌, ◌≡◌, refl, ◌*◌, ◌==◌, String, str_eq, true, false, [], ◌∷◌,
  Option, none, some, ok, fail, too_deep, ◌>>=◌, arith, if◌then◌else◌,
}
use keybinder.KeyCode.{KeyCode, code_eq, index}
use keybinder.Mapper.Control.{new_mapper}
use keybinder.Mapper.Delivery.Order.{stable}
use keybinder.Mapper.Process.{round}
use keybinder.Mapper.Endless.{pressing, endless_profile, endless_env, endless}
use keybinder.Daemon.Mac.Devices.{Finder, length as name_length, long_names_seized, seized}
use keybinder.Daemon.Linux.{RawEvent, EventKind}
use keybinder.Devices.{
  Capabilities, ConfigFile, all_lines, detect_keyboard, find_eventx, is_full_keyboard,
  keyboard_candidates, record_eventx, retrieve_eventx,
}
use keybinder.Devices.Detection.{
  Surroundings, Rounds, detect_keyboard_fallback, event_paths, fallback_on, listen, presses_space,
  scan,
}
use keybinder.Daemon.Linux.Lifecycle.{construct, Answers, constructed, start}
use keybinder.Daemon.Linux.Released.{Outcome, start-Outcome}
use keybinder.Daemon.Linux.Remembered.{construct_remembers}
use keybinder.KeyChannel.{create_channel}
use keybinder.System.{Start, choose_profile}
use keybinder.System.Shutdown.{PlayEnds, Place, Thread, Act, play, ask_to_end, stop_ends}
use keybinder.System.Latest.{Writing, save_latest_json_profile, with_latest, latest_restored}
use keybinder.ReadProfile.{Outside}
use keybinder.ReadProfile.Access.{Json}
use keybinder.ReadProfile.Print.{profile_fields}
use keybinder.Tests.{as_doubles, demo_profile-Exact}
use keybinder.ReadProfile.RoundTrip.{profile_from_json-fields}
use keybinder.Indicator.{IndicatorPosition, Screen, choose_screen, from, ◌+ℤ◌, ◌≤ℤ◌, pos, negsuc}
use keybinder.Indicator.Inside.{Roomy, Source, PlacedOn, place_in_position-Inside}
use keybinder.Tests.{
  all_but_f13, demo_env, demo_profile, demo_mapper, demo_mapper-IsValid, demo_mapper-NoReplay,
}
use keybinder.Tests.Devices.{beginnings}

key_e_not_q : code_eq KeyCode.key_e KeyCode.key_q ≡ false
unfolding code_eq index
key_e_not_q = refl

endless_example :
    (do
      m ← new_mapper (endless_env (λ reads. reads) stable all_but_f13) endless_profile
      m1 ←
          round 1
            (endless_env (λ reads. reads) stable all_but_f13)
            false
            (some (pressing KeyCode.key_c))
            m
      round 40
          (endless_env (λ reads. reads) stable all_but_f13)
          false
          (some (pressing KeyCode.key_q))
          m1)
    ≡ fail too_deep
endless_example = endless (λ reads. reads) stable all_but_f13 40 KeyCode.key_q key_e_not_q

-- Two devices, of which the second is a keyboard; its space bar, key 57, is pressed in round 1.
abbrev device : String → Option Capabilities
device path =
    if str_eq path "/dev/input/event5"
    then some (record { has_keys = true; has_code = λ name. true })
    else some (record { has_keys = false; has_code = λ name. true })

abbrev space : RawEvent
space = record { type = EventKind.ev_key; code = 57; value = 1 }

abbrev in_round_1 : Rounds
in_round_1 = record {
  pending = λ round path. if round == 1 then space ∷ [] else [];
  elapsed = λ round. round * 20000;
}

abbrev two_devices : Surroundings
two_devices = record {
  entries = some ("mice" ∷ "event3" ∷ "event5" ∷ []);
  is_event = λ name. if str_eq name "mice" then false else true;
  device = device;
  key_space = 57;
  rounds = in_round_1;
  can_read = true;
  can_write = true;
}

abbrev recorded : ConfigFile
recorded = some ("keyboard=/dev/input/event5" ∷ [])

two_devices_made : construct beginnings 3 none two_devices none ≡ ok (recorded, "/dev/input/event5")
unfolding construct retrieve_eventx find_eventx detect_keyboard detect_keyboard_fallback fallback_on
    event_paths keyboard_candidates is_full_keyboard listen scan presses_space record_eventx
    all_lines
two_devices_made = refl

abbrev no_devices : Surroundings
no_devices = record two_devices { entries = none }

construct_remembers_example :
    construct beginnings 0 none no_devices recorded ≡ ok (recorded, "/dev/input/event5")
construct_remembers_example =
    construct_remembers beginnings 3 0 none none two_devices no_devices none recorded
      "/dev/input/event5" refl refl refl two_devices_made refl

-- Everything succeeds but the last call.
abbrev no_device_made : Answers
no_device_made = record {
  keyboard = some 7;
  evdev = true;
  grab = true;
  uinput = some 8;
  dev_setup = true;
  dev_create = false;
}

start-Outcome_example :
    Outcome (3 ∷ []) no_device_made (start (λ name. 767) no_device_made (constructed (3 ∷ [])))
start-Outcome_example =
    start-Outcome (λ name. 767) (3 ∷ []) no_device_made ((refl, tt), (refl, (refl, tt)))

-- The thread waits for a key, without a timeout.
abbrev waiting : Thread
waiting = record {
  place = Place.at_wait;
  has_timeout = false;
  interrupted = false;
  mapper = demo_mapper;
  channel = create_channel;
}

abbrev four_acts : List Act
four_acts = Act.own ∷ Act.arrives (pressing KeyCode.key_b) ∷ Act.own ∷ Act.own ∷ []

stop_ends_example :
    PlayEnds 1 demo_env true four_acts
      (ask_to_end true waiting)
      (play 1 demo_env true four_acts (ask_to_end true waiting))
stop_ends_example =
    stop_ends 1 0 demo_env true waiting four_acts demo_mapper-IsValid demo_mapper-NoReplay
      (omega arith)

abbrev reads_demo : Outside
reads_demo = record {
  document = λ bytes. some (Json.object (profile_fields as_doubles demo_profile));
  exists = λ name. false;
  contents = λ name. none;
}

abbrev writes_all : Writing
writes_all = record { can_open = true; can_write = true; partial = ""; to_json = λ obj. "{}" }

latest_restored_example :
    choose_profile
      (with_latest
        (save_latest_json_profile writes_all (profile_fields as_doubles demo_profile) none)
        reads_demo)
      none
    ≡ ok (Start.starts demo_profile)
latest_restored_example =
    latest_restored reads_demo writes_all (profile_fields as_doubles demo_profile)
      (profile_fields as_doubles demo_profile) demo_profile none refl refl refl
      (profile_from_json-fields as_doubles demo_profile demo_profile-Exact)

-- A screen to the left of the origin.
abbrev left_screen : Screen
left_screen = record {
  available_geometry = record { x = negsuc 1919; y = pos 0; width = pos 1920; height = pos 1080 };
  contains_cursor = true;
}

room_beside : pos 300 +ℤ pos 20 ≤ℤ pos 1920
unfolding from
room_beside = omega arith

room_below : pos 60 +ℤ pos 40 ≤ℤ pos 1080
unfolding from
room_below = omega arith

left_Roomy : Roomy (pos 300) (pos 60) left_screen
left_Roomy = (room_beside, room_below)

place_in_position-Inside_example :
    (s : Screen) × Source none (left_screen ∷ []) left_screen s
    × PlacedOn IndicatorPosition.center
        (pos 300)
        (pos 60)
        (choose_screen none (left_screen ∷ []) (some left_screen))
        s
place_in_position-Inside_example =
    place_in_position-Inside IndicatorPosition.center none (left_screen ∷ []) left_screen (pos 300)
      (pos 60) (λ s h. absurd (cc h)) (left_Roomy, tt) left_Roomy

-- What is not longer is found.
abbrev by_length : Finder
by_length = record {
  finds = λ text part. not (ltb (name_length text) (name_length part));
  too_long = λ text part h. ap not (lt→ltb (name_length text) (name_length part) h);
}

abbrev virtual_keyboard : String
virtual_keyboard = "Karabiner DriverKit VirtualHIDKeyboard 1.7.0"

long_names_seized_example :
    seized by_length (none ∷ some virtual_keyboard ∷ some "Mouse" ∷ [])
    ≡ seized by_length (none ∷ []) ++ some virtual_keyboard ∷ seized by_length (some "Mouse" ∷ [])
long_names_seized_example =
    long_names_seized by_length (none ∷ []) (some "Mouse" ∷ []) virtual_keyboard (omega arith)
