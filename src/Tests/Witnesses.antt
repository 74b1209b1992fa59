-- ===== src/Tests/Witnesses.antt =====
-- The theorems at the test data.
use keybinder.Base.{
  IfOk, All, ℕ, ◌≡◌, refl, true, List, [], ◌∷◌, ◌++◌, none, some, ok, fail, throws,
  bad_optional_access, out_of_range, ◌↔◌,
}
use keybinder.QtText.{exact_text}
use keybinder.KeyCode.{KeyCode}
use keybinder.BiMap.{find_backward}
use keybinder.BiMap.Keys.{number_key, code_key}
use keybinder.Profile.{AdvancedTrigger}
use keybinder.Machine.Normalize.{normalize_sequences}
use keybinder.Machine.Normalize.Laws.{normalize_sequences-id}
use keybinder.Machine.Generate.{generate_states}
use keybinder.Machine.WellFormed.{IsWellFormed}
use keybinder.Machine.WellFormed.Generated.{Yields, generate_states-IsWellFormed}
use keybinder.Machine.Paced.{IsDecided, generate_states_total, wait_first_throws}
use keybinder.Mapper.Output.{queue_binds, check_queued_events}
use keybinder.Mapper.Process.{emit_all, take_in, round}
use keybinder.Mapper.Rounds.{RoundEnds}
use keybinder.Mapper.Control.{set_profile}
use keybinder.Mapper.Delivery.{Checked, check_queued_events-Delivers}
use keybinder.Mapper.Schedule.{
  timeline, queued, queue_binds-timeline, without_waits, bind_outputs, sequence_waits_ignored,
}
use keybinder.Mapper.Valid.{IsValid}
use keybinder.Mapper.Profiles.{Installed, set_profile-Installed}
use keybinder.KeyMap.Linux.{linux_int_to_keycode}
use keybinder.KeyMap.Mac.{mac_int_to_keycode}
use keybinder.KeyMap.Windows.{windows_int_to_keycode}
use keybinder.KeyMap.Sendable.{
  among, high_function_keys, media_keys, input_method_keys, unsendable, Named, names_complete,
}
use keybinder.ReadProfile.{profile_from_json, from_file, Outside}
use keybinder.ReadProfile.Access.{Json}
use keybinder.ReadProfile.Print.{profile_fields}
use keybinder.Tests.{as_doubles, demo_profile-Exact}
use keybinder.ReadProfile.RoundTrip.{profile_from_json-fields}
use keybinder.ReadProfile.Parses.{Parses}
use keybinder.ReadProfile.Errors.{from_file-Parses}
use keybinder.Machine.Outputs.{StateAll}
use keybinder.Mapper.Quiet.{IsQuiet, NoReplay}
use keybinder.Mapper.Total.{round_total, generate_states-IsQuiet}
use keybinder.Tests.{
  capture_layer, demo_mapper-NoReplay, zero_memory, zero_memory-InRange, demo_env, pressed,
  quick_ab, wait_first, demo_layer, waiting_layer, demo_profile, demo_profile-Fits, demo_mapper,
  demo_mapper-IsValid,
}

abbrev demo_outside : Outside
demo_outside = record {
  document = λ bytes. some (Json.object (profile_fields as_doubles demo_profile));
  exists = λ filename. true;
  contents = λ filename. some "{}";
}

abbrev rows : List (KeyCode × ℕ)
rows = (KeyCode.key_a, 30) ∷ (KeyCode.key_b, 48) ∷ []

normalize_sequences_example :
    normalize_sequences (wait_first ∷ quick_ab ∷ []) ≡ some (wait_first ∷ quick_ab ∷ [])
normalize_sequences_example = normalize_sequences-id (wait_first ∷ quick_ab ∷ [])

generate_states-IsWellFormed_example :
    Yields IsWellFormed (generate_states exact_text zero_memory waiting_layer)
generate_states-IsWellFormed_example =
    generate_states-IsWellFormed exact_text zero_memory zero_memory-InRange waiting_layer

generate_states_total_example : IsDecided (generate_states exact_text zero_memory demo_layer)
generate_states_total_example =
    generate_states_total exact_text zero_memory demo_layer zero_memory-InRange
      (((λ h. h), (λ h. h)), tt)

wait_first_throws_example :
    generate_states exact_text zero_memory waiting_layer ≡ fail (throws bad_optional_access)
wait_first_throws_example =
    wait_first_throws exact_text zero_memory waiting_layer wait_first (quick_ab ∷ [])
      (AdvancedTrigger.minimum_wait 5) (AdvancedTrigger.key_press KeyCode.key_b ∷ []) refl refl tt

check_queued_events_example :
    Checked demo_env demo_mapper (check_queued_events demo_env demo_mapper)
check_queued_events_example = check_queued_events-Delivers demo_env demo_mapper

queue_binds_example :
    queue_binds demo_env quick_ab.binds demo_mapper
    ≡ ok (queued demo_env (timeline 0 quick_ab.binds) demo_mapper)
queue_binds_example =
    queue_binds-timeline demo_env quick_ab.binds demo_mapper ((λ h. h), ((λ h. h), ((λ h. h), tt)))

sequence_waits_ignored_example :
    emit_all demo_env none (bind_outputs quick_ab.binds) demo_mapper []
    ≡ ok (queued demo_env (timeline 0 (without_waits quick_ab.binds)) demo_mapper, [])
sequence_waits_ignored_example =
    sequence_waits_ignored demo_env none quick_ab.binds demo_mapper []
      ((λ h. h), ((λ h. h), ((λ h. h), tt)))

set_profile-Installed_example :
    Installed demo_profile demo_mapper (set_profile demo_env demo_profile demo_mapper)
set_profile-Installed_example =
    set_profile-Installed demo_env demo_profile demo_mapper zero_memory-InRange demo_profile-Fits

unsendable_example :
    ((find_backward (linux_int_to_keycode (λ name. 0)) KeyCode.power ≡ fail (throws out_of_range))
      ↔ (among KeyCode.power high_function_keys ≡ true))
    × ((find_backward mac_int_to_keycode KeyCode.power ≡ fail (throws out_of_range))
        ↔ (among KeyCode.power (media_keys ++ input_method_keys) ≡ true))
    × ((find_backward (windows_int_to_keycode (λ name. 0)) KeyCode.power
          ≡ fail (throws out_of_range))
        ↔ (among KeyCode.power (KeyCode.power ∷ high_function_keys ++ input_method_keys) ≡ true))
unsendable_example = unsendable (λ name. 0) KeyCode.power

names_complete_example : Named KeyCode.f13
names_complete_example = names_complete KeyCode.f13

profile_from_json_example :
    profile_from_json (profile_fields as_doubles demo_profile)
    ≡ ok (demo_profile, profile_fields as_doubles demo_profile)
profile_from_json_example = profile_from_json-fields as_doubles demo_profile demo_profile-Exact

from_file-Parses_example : Parses (from_file demo_outside "a.json")
from_file-Parses_example = from_file-Parses demo_outside "a.json"

round_total_example :
    RoundEnds
      (λ m. IsValid 1 m × NoReplay m)
      ⊥
      demo_env
      (take_in 1 demo_env true (some (pressed KeyCode.key_a)) demo_mapper)
      (round 1 demo_env true (some (pressed KeyCode.key_a)) demo_mapper)
round_total_example =
    round_total 1 demo_env 0 true (some (pressed KeyCode.key_a)) demo_mapper demo_mapper-IsValid
      demo_mapper-NoReplay

generate_states-IsQuiet_example :
    IfOk
      (λ machine. All (StateAll IsQuiet) machine)
      (generate_states exact_text zero_memory capture_layer)
generate_states-IsQuiet_example =
    generate_states-IsQuiet exact_text zero_memory capture_layer ((λ same. cc), tt)
