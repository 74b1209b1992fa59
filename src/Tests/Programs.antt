-- ===== src/Tests/Programs.antt =====
-- The theorems about the program's parts together, the server, settings, counts and scripts at the test
-- data.
use keybinder.Base.{
  ℕ, ◌≡◌, refl, sym, ap, ◌∙◌, String, Bool, true, false, List, [], ◌∷◌, Option, none, some, ok,
}
use keybinder.KeyCode.{KeyCode}
use keybinder.BiMap.{lookup, contains}
use keybinder.BiMap.Keys.{string_key}
use keybinder.Profile.{Profile}
use keybinder.ReadProfile as ReadProfile
use keybinder.ReadProfile.Access.{Json, Fields, field}
use keybinder.KeyChannel.{create_channel}
use keybinder.KeyCounter.{KeyCounter}
use keybinder.Mapper.Control.{new_mapper}
use keybinder.Settings as Settings
use keybinder.Settings.Kept.{Taken, settings_survive}
use keybinder.Server.{Outside, Shared, handle_line}
use keybinder.Server.Framing.{read_chunks, bytewise, stream, framing}
use keybinder.System.{System, clicked, Step, Reaches, Start, choose_profile}
use keybinder.System.Sound.{Unharmed, reached-Unharmed}
use keybinder.System.Starting.{UpOrDown, start_without_argument}
use keybinder.Scripts.{Files, Temporary, TempFileManager, run_script_unix}
use keybinder.Scripts.Kept.{Holds, Started, run_script-Started}
use keybinder.Tests.{demo_env, demo_mapper, demo_mapper-IsValid, zero_memory-InRange}

-- Two lines, cut in the middle; each asks to pause.
abbrev pause_object : Fields
pause_object = Fields.member "type" (Json.text "pause") Fields.empty

abbrev server_outside : Outside
server_outside = record {
  document = λ bytes. some (Json.object pause_object);
  opens_settings = λ n. true;
  opens_counts = λ n. false;
}

abbrev demo_settings : Settings.Settings
demo_settings = record { log_key_frequency = true; file = none }

abbrev demo_counter : KeyCounter
demo_counter = record {
  counts = ("A", 3) ∷ ("B", 1) ∷ [];
  dirty = true;
  file = some (("A", 2) ∷ []);
}

abbrev demo_shared : Shared
demo_shared = record {
  mapper = demo_mapper;
  settings = demo_settings;
  key_counter = demo_counter;
  responses = [];
}

abbrev chunks : List (List ℕ)
chunks = (123 ∷ []) ∷ (125 ∷ 13 ∷ 10 ∷ 123 ∷ []) ∷ (125 ∷ 10 ∷ 123 ∷ []) ∷ []

framing_example :
    read_chunks demo_env server_outside chunks (record { shared = demo_shared; buffer = [] })
    ≡ bytewise
        (handle_line demo_env server_outside)
        (stream chunks)
        (record { shared = demo_shared; buffer = [] })
framing_example = framing demo_env server_outside chunks demo_shared

abbrev settings_object : Fields
settings_object = Fields.member "log_key_frequency" (Json.boolean false) Fields.empty

settings_survive_example :
    Taken
      (field settings_object "log_key_frequency")
      demo_settings
      (Settings.load_from_json true settings_object demo_settings)
    × (Settings.get_log_key_frequency (
          Settings.new_settings true
            (Settings.load_from_json true settings_object demo_settings).0.file)
        ≡ Settings.get_log_key_frequency
            (Settings.load_from_json true settings_object demo_settings).0)
settings_survive_example = settings_survive true settings_object demo_settings

abbrev demo_system : System
demo_system = record { shared = demo_shared; channel = create_channel; tray_pauses = true }

abbrev paused_system : System
paused_system = clicked true demo_system

reached-Unharmed_example : Unharmed demo_env server_outside paused_system
reached-Unharmed_example =
    reached-Unharmed demo_env server_outside demo_system paused_system zero_memory-InRange
      (1, demo_mapper-IsValid)
      (Reaches.next demo_system paused_system paused_system (Step.tray_clicked demo_system)
        (Reaches.here paused_system))

abbrev no_files : ReadProfile.Outside
no_files = record {
  document = λ bytes. none;
  exists = λ filename. true;
  contents = λ filename. none;
}

start_without_argument_example :
    (p : Profile) × (choose_profile no_files none ≡ ok (Start.starts p))
    × UpOrDown demo_env p (new_mapper demo_env p)
unfolding ReadProfile.load_latest
start_without_argument_example =
    start_without_argument demo_env no_files zero_memory-InRange (λ p saved h. cc h)

-- A disk with room for one more file.
abbrev unless_there : Bool → Option String
unless_there true = none
unless_there false = some "/tmp/runscript_a"

unless_there-new :
    (files : Files) (c : Bool) (path : String)
    → contains "/tmp/runscript_a" files ≡ c
    → unless_there c ≡ some path
    → contains path files ≡ false
unless_there-new files true path e h = absurd (cc h)
unless_there-new files false path e h =
    let same : "/tmp/runscript_a" ≡ path = cc h in
    ap (λ (p : String). contains p files) (sym same) ∙ e

abbrev one_file : Temporary
one_file = record {
  open_new = λ files ext. unless_there (contains "/tmp/runscript_a" files);
  is_new =
      λ files ext path h. unless_there-new files (contains "/tmp/runscript_a" files) path refl h;
}

abbrev no_scripts : TempFileManager
no_scripts = record { temp_files = []; files = ("/tmp/other", "text") ∷ [] }

no_scripts-Holds : Holds no_scripts
unfolding lookup
no_scripts-Holds key path h = absurd (cc h)

run_script-Started_example :
    Started "python" "print(1)" no_scripts (run_script_unix one_file "python" "print(1)" no_scripts)
run_script-Started_example =
    run_script-Started one_file "python" "print(1)" no_scripts no_scripts-Holds
