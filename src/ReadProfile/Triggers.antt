-- ===== src/ReadProfile/Triggers.antt =====
-- Keys, triggers and binds from JSON (common/src/read_profile.cpp).
use Prim.Native.String.{◌++◌ as joined}
use keybinder.Base.{
  ℕ, String, str_eq, List, [], ◌∷◌, Result, ok, fail, throws, invalid_argument, ◌>>=◌,
  if◌then◌else◌,
}
use keybinder.KeyCode.{KeyCode}
use keybinder.KeyCode.Names.{str_to_keycode}
use keybinder.BiMap.{contains_forward, find_forward}
use keybinder.BiMap.Keys.{string_key, code_key}
use keybinder.Profile.{SequenceBehavior, BasicTrigger, AdvancedTrigger, RunScript, Bind}
use keybinder.ReadProfile.Access.{
  Items, Fields, as_size_t, get_value_as_object, get_property_as_string, get_property_as_number,
}

unfoldable pub parse_key : String → Result KeyCode
unfolding contains_forward find_forward
parse_key key =
    if contains_forward str_to_keycode key
    then find_forward str_to_keycode key
    else fail (throws (invalid_argument (joined "Unkown key:" key)))

-- A `from_json` of a struct with a single field gives the field.
unfoldable pub key_from_json : Fields → Result KeyCode
unfolding get_property_as_string parse_key
key_from_json obj = do key ← get_property_as_string obj "value"; parse_key key

unfoldable pub duration_from_json : Fields → Result ℕ
unfolding get_property_as_number
duration_from_json obj = do d ← get_property_as_number obj "duration"; ok (as_size_t d)

unfoldable pub layer_index_from_json : Fields → Result ℕ
unfolding get_property_as_number
layer_index_from_json obj = do d ← get_property_as_number obj "value"; ok (as_size_t d)

unfoldable pub script_from_json : Fields → Result RunScript
unfolding get_property_as_string
script_from_json obj = do
  interpreter ← get_property_as_string obj "interpreter"
  script ← get_property_as_string obj "script"
  ok (record { interpreter = interpreter; script = script })

unfoldable pub app_from_json : Fields → Result String
unfolding get_property_as_string
app_from_json obj = get_property_as_string obj "app_name"

unfoldable pub parse_behavior : String → Result SequenceBehavior
parse_behavior str =
    if str_eq str "capture"
    then ok SequenceBehavior.capture
    else if str_eq str "release"
    then ok SequenceBehavior.release
    else if str_eq str "default"
    then ok SequenceBehavior.default
    else fail (throws (invalid_argument (joined "SequenceBehavior Behavior: " str)))

unfoldable pub parse_basic_trigger : Fields → Result BasicTrigger
unfolding get_property_as_string key_from_json app_from_json
parse_basic_trigger obj = do
  trigger_type ← get_property_as_string obj "type"
  (if str_eq trigger_type "key_press"
      then (do c ← key_from_json obj; ok (BasicTrigger.key_press c))
      else if str_eq trigger_type "key_release"
      then (do c ← key_from_json obj; ok (BasicTrigger.key_release c))
      else if str_eq trigger_type "app_focused"
      then (do a ← app_from_json obj; ok (BasicTrigger.app_focused a))
      else fail (throws (invalid_argument (joined "Invalid trigger type: " trigger_type))))

unfoldable pub parse_advanced_trigger : Fields → Result AdvancedTrigger
unfolding get_property_as_string key_from_json app_from_json duration_from_json
parse_advanced_trigger obj = do
  trigger_type ← get_property_as_string obj "type"
  (if str_eq trigger_type "key_press"
      then (do c ← key_from_json obj; ok (AdvancedTrigger.key_press c))
      else if str_eq trigger_type "key_release"
      then (do c ← key_from_json obj; ok (AdvancedTrigger.key_release c))
      else if str_eq trigger_type "minimum_wait"
      then (do ms ← duration_from_json obj; ok (AdvancedTrigger.minimum_wait ms))
      else if str_eq trigger_type "maximum_wait"
      then (do ms ← duration_from_json obj; ok (AdvancedTrigger.maximum_wait ms))
      else if str_eq trigger_type "app_focused"
      then (do a ← app_from_json obj; ok (AdvancedTrigger.app_focused a))
      else fail (throws (invalid_argument (joined "Invalid trigger type: " trigger_type))))

unfoldable pub parse_triggers : Items → Result (List AdvancedTrigger)
unfolding get_value_as_object parse_advanced_trigger
parse_triggers Items.nil = ok []
parse_triggers (Items.cons j rest) = do
  obj ← get_value_as_object j
  first ← parse_advanced_trigger obj
  others ← parse_triggers rest
  ok (first ∷ others)

unfoldable pub parse_bind : Fields → Result Bind
unfolding get_property_as_string key_from_json duration_from_json layer_index_from_json
    script_from_json
parse_bind obj = do
  bind_type ← get_property_as_string obj "type"
  (if str_eq bind_type "press_key"
      then (do c ← key_from_json obj; ok (Bind.press_key c))
      else if str_eq bind_type "release_key"
      then (do c ← key_from_json obj; ok (Bind.release_key c))
      else if str_eq bind_type "switch_layer"
      then (do n ← layer_index_from_json obj; ok (Bind.swap_layer n))
      else if str_eq bind_type "wait"
      then (do ms ← duration_from_json obj; ok (Bind.wait ms))
      else if str_eq bind_type "run_script"
      then (do s ← script_from_json obj; ok (Bind.run_script s))
      else fail (throws (invalid_argument (joined "Invalid bind type: " bind_type))))

unfoldable pub parse_binds : Items → Result (List Bind)
unfolding get_value_as_object parse_bind
parse_binds Items.nil = ok []
parse_binds (Items.cons j rest) = do
  obj ← get_value_as_object j
  first ← parse_bind obj
  others ← parse_binds rest
  ok (first ∷ others)
