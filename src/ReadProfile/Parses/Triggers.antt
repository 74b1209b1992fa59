-- ===== src/ReadProfile/Parses/Triggers.antt =====
-- Keys, triggers and binds of common/src/read_profile.cpp, read or refused.
use Prim.Native.String.{◌++◌ as joined}
use keybinder.Base.{
  String, true, false, none, some, Result, ok, fail, throws, invalid_argument, out_of_range, ◌>>=◌,
  or_fail, if◌then◌else◌, str_eq,
}
use keybinder.KeyCode.Names.{str_to_keycode}
use keybinder.BiMap.{contains_forward, find_forward, lookup}
use keybinder.BiMap.Keys.{string_key, code_key}
use keybinder.Profile.{SequenceBehavior, BasicTrigger, AdvancedTrigger, Bind}
use keybinder.ReadProfile.Access.{
  as_size_t, Json, Items, Fields, get_value_as_object, get_property_as_string,
}
use keybinder.ReadProfile.Triggers.{
  parse_key, key_from_json, duration_from_json, layer_index_from_json, script_from_json,
  app_from_json, parse_basic_trigger, parse_advanced_trigger, parse_triggers, parse_bind,
  parse_binds, parse_behavior,
}
use keybinder.ReadProfile.Parses.{
  Parses-bind, Parses-if, Parses, ok-Parses, fail-Parses, get_value_as_object-Parses,
  get_string-Parses, get_number-Parses, as-Parses,
}

pub parse_key-Parses : (key : String) → Parses (parse_key key)
unfolding parse_key contains_forward find_forward
parse_key-Parses key =
    elim (lookup key str_to_keycode.forward_map)
      as (λ o. Parses (
        if (elim o [ none ↦ false | some v ↦ true ])
        then or_fail o (throws out_of_range)
        else fail (throws (invalid_argument (joined "Unkown key:" key))))) [
          | none ↦ fail-Parses _ _
          | some v ↦ ok-Parses v
        ]

pub key_from_json-Parses : (obj : Fields) → Parses (key_from_json obj)
unfolding key_from_json
key_from_json-Parses obj =
    Parses-bind (get_property_as_string obj "value") parse_key (get_string-Parses obj "value")
      parse_key-Parses

-- A struct read from an object, and made into an alternative.
pub parse_basic_trigger-Parses : (obj : Fields) → Parses (parse_basic_trigger obj)
unfolding parse_basic_trigger app_from_json
parse_basic_trigger-Parses obj =
    Parses-bind (get_property_as_string obj "type") _ (get_string-Parses obj "type") (λ kind.
      Parses-if (str_eq kind "key_press") _ _
        (as-Parses BasicTrigger.key_press _ (key_from_json-Parses obj))
        (Parses-if (str_eq kind "key_release") _ _
          (as-Parses BasicTrigger.key_release _ (key_from_json-Parses obj))
          (Parses-if (str_eq kind "app_focused") _ _
            (as-Parses BasicTrigger.app_focused _ (get_string-Parses obj "app_name"))
            (fail-Parses BasicTrigger (joined "Invalid trigger type: " kind)))))

pub parse_advanced_trigger-Parses : (obj : Fields) → Parses (parse_advanced_trigger obj)
unfolding parse_advanced_trigger app_from_json duration_from_json
parse_advanced_trigger-Parses obj =
    Parses-bind (get_property_as_string obj "type") _ (get_string-Parses obj "type") (λ kind.
      Parses-if (str_eq kind "key_press") _ _
        (as-Parses AdvancedTrigger.key_press _ (key_from_json-Parses obj))
        (Parses-if (str_eq kind "key_release") _ _
          (as-Parses AdvancedTrigger.key_release _ (key_from_json-Parses obj))
          (Parses-if (str_eq kind "minimum_wait") _ _
            (as-Parses AdvancedTrigger.minimum_wait _
              (as-Parses as_size_t _ (get_number-Parses obj "duration")))
            (Parses-if (str_eq kind "maximum_wait") _ _
              (as-Parses AdvancedTrigger.maximum_wait _
                (as-Parses as_size_t _ (get_number-Parses obj "duration")))
              (Parses-if (str_eq kind "app_focused") _ _
                (as-Parses AdvancedTrigger.app_focused _ (get_string-Parses obj "app_name"))
                (fail-Parses AdvancedTrigger (joined "Invalid trigger type: " kind)))))))

pub script_from_json-Parses : (obj : Fields) → Parses (script_from_json obj)
unfolding script_from_json
script_from_json-Parses obj =
    Parses-bind (get_property_as_string obj "interpreter") _ (get_string-Parses obj "interpreter")
      (λ i.
        Parses-bind (get_property_as_string obj "script") _ (get_string-Parses obj "script")
          (λ s. ok-Parses _))

pub parse_bind-Parses : (obj : Fields) → Parses (parse_bind obj)
unfolding parse_bind duration_from_json layer_index_from_json
parse_bind-Parses obj =
    Parses-bind (get_property_as_string obj "type") _ (get_string-Parses obj "type") (λ kind.
      Parses-if (str_eq kind "press_key") _ _
        (as-Parses Bind.press_key _ (key_from_json-Parses obj))
        (Parses-if (str_eq kind "release_key") _ _
          (as-Parses Bind.release_key _ (key_from_json-Parses obj))
          (Parses-if (str_eq kind "switch_layer") _ _
            (as-Parses Bind.swap_layer _ (as-Parses as_size_t _ (get_number-Parses obj "value")))
            (Parses-if (str_eq kind "wait") _ _
              (as-Parses Bind.wait _ (as-Parses as_size_t _ (get_number-Parses obj "duration")))
              (Parses-if (str_eq kind "run_script") _ _
                (as-Parses Bind.run_script _ (script_from_json-Parses obj))
                (fail-Parses Bind (joined "Invalid bind type: " kind)))))))

-- An array whose elements are read in order.
pub items-Parses {ℓ κ} :
    {A : Type ℓ} {B : Type κ} {C : Type κ} (j : Json) (read : Fields → Result A) (others : Result B)
    (f : A → B → C)
    → ((obj : Fields) → Parses (read obj))
    → Parses others
    → Parses (do obj ← get_value_as_object j; a ← read obj; b ← others; ok (f a b))
items-Parses j read others f h k =
    Parses-bind (get_value_as_object j) _ (get_value_as_object-Parses j)
      (λ obj. Parses-bind (read obj) _ (h obj) (λ a. as-Parses (f a) others k))

pub parse_triggers-Parses : (xs : Items) → Parses (parse_triggers xs)
unfolding parse_triggers
parse_triggers-Parses Items.nil = ok-Parses _
parse_triggers-Parses (Items.cons j rest) =
    items-Parses j parse_advanced_trigger (parse_triggers rest) _ parse_advanced_trigger-Parses
      (parse_triggers-Parses rest)

pub parse_binds-Parses : (xs : Items) → Parses (parse_binds xs)
unfolding parse_binds
parse_binds-Parses Items.nil = ok-Parses _
parse_binds-Parses (Items.cons j rest) =
    items-Parses j parse_bind (parse_binds rest) _ parse_bind-Parses (parse_binds-Parses rest)

pub parse_behavior-Parses : (s : String) → Parses (parse_behavior s)
unfolding parse_behavior
parse_behavior-Parses s = Parses-if (str_eq s "capture") _ _ (ok-Parses SequenceBehavior.capture) (
    Parses-if (str_eq s "release") _ _ (ok-Parses SequenceBehavior.release) (
      Parses-if (str_eq s "default") _ _ (ok-Parses SequenceBehavior.default)
        (fail-Parses SequenceBehavior (joined "SequenceBehavior Behavior: " s))))
