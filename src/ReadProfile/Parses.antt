-- ===== src/ReadProfile/Parses.antt =====
-- A reader of common/src/read_profile.cpp that gives a value or `std::invalid_argument`, and the
-- accessors, which are such readers.
pub mod Triggers
use Prim.Native.String.{◌++◌ as joined}
use keybinder.Base.{
  String, Bool, true, false, Option, none, some, Result, ok, fail, throws, invalid_argument,
  out_of_range, ◌>>=◌, or_fail, if◌then◌else◌, str_eq,
}
use keybinder.KeyCode.Names.{str_to_keycode}
use keybinder.BiMap.{contains_forward, find_forward, lookup}
use keybinder.BiMap.Keys.{string_key, code_key}
use keybinder.Profile.{SequenceBehavior, BasicTrigger, AdvancedTrigger, Bind}
use keybinder.ReadProfile.Access.{
  Json, Items, Fields, field, get_property, get_value_as_object, get_property_as_object,
  get_property_as_string, get_property_as_array, get_property_as_number, as_object, as_string,
  as_array, as_number,
}
use keybinder.ReadProfile.Triggers.{
  parse_key, key_from_json, duration_from_json, layer_index_from_json, script_from_json,
  app_from_json, parse_basic_trigger, parse_advanced_trigger, parse_triggers, parse_bind,
  parse_binds, parse_behavior,
}
use keybinder.ReadProfile.{
  parse_basic_remapping, sequence_from_json, parse_remapping, parse_remappings, layer_from_json,
  parse_layers, profile_from_json, from_document, from_bytes, from_file, Outside,
}

-- A value, or the exception `std::invalid_argument`.
unfoldable pub Parses {ℓ} : {A : Type ℓ} → Result A → Type 0
Parses (ok a) = Unit
Parses (fail (throws (invalid_argument message))) = Unit
Parses (fail _) = ⊥

pub Parses-bind {ℓ κ} :
    {A : Type ℓ} {B : Type κ} (m : Result A) (f : A → Result B)
    → Parses m
    → ((a : A) → Parses (f a))
    → Parses (m >>= f)
unfolding Parses
Parses-bind (ok a) f h k = k a
Parses-bind (fail (throws (invalid_argument message))) f h k = tt
Parses-bind (fail _) f h k = h

pub Parses-if {ℓ} :
    {A : Type ℓ} (c : Bool) (m n : Result A) → Parses m → Parses n → Parses (if c then m else n)
unfolding Parses
Parses-if true m n h k = h
Parses-if false m n h k = k

pub ok-Parses {ℓ} : {A : Type ℓ} (a : A) → Parses (ok a)
unfolding Parses
ok-Parses a = tt

pub fail-Parses {ℓ} :
    (A : Type ℓ) (message : String) → Parses {A = A} (fail (throws (invalid_argument message)))
unfolding Parses
fail-Parses A message = tt

pub or_fail-Parses {ℓ} :
    {A : Type ℓ} (o : Option A) (message : String)
    → Parses (or_fail o (throws (invalid_argument message)))
unfolding Parses
or_fail-Parses none message = tt
or_fail-Parses (some a) message = tt

pub get_value_as_object-Parses : (j : Json) → Parses (get_value_as_object j)
unfolding get_value_as_object Parses
get_value_as_object-Parses (Json.object obj) = tt
get_value_as_object-Parses _ = tt

pub object-Parses : (key : String) (j : Json) → Parses (as_object key j)
unfolding Parses
object-Parses key (Json.object obj) = tt
object-Parses key _ = tt

pub string-Parses : (key : String) (j : Json) → Parses (as_string key j)
unfolding Parses
string-Parses key (Json.text s) = tt
string-Parses key _ = tt

pub array-Parses : (key : String) (j : Json) → Parses (as_array key j)
unfolding Parses
array-Parses key (Json.array xs) = tt
array-Parses key _ = tt

pub number-Parses : (key : String) (j : Json) → Parses (as_number key j)
unfolding Parses
number-Parses key (Json.number n) = tt
number-Parses key _ = tt

pub get_property-Parses : (obj : Fields) (key : String) → Parses (get_property obj key)
unfolding get_property
get_property-Parses obj key = or_fail-Parses (field obj key) _

pub get_object-Parses : (obj : Fields) (key : String) → Parses (get_property_as_object obj key)
unfolding get_property_as_object
get_object-Parses obj key =
    Parses-bind (get_property obj key) (as_object key) (get_property-Parses obj key)
      (object-Parses key)

pub get_string-Parses : (obj : Fields) (key : String) → Parses (get_property_as_string obj key)
unfolding get_property_as_string
get_string-Parses obj key =
    Parses-bind (get_property obj key) (as_string key) (get_property-Parses obj key)
      (string-Parses key)

pub get_array-Parses : (obj : Fields) (key : String) → Parses (get_property_as_array obj key)
unfolding get_property_as_array
get_array-Parses obj key =
    Parses-bind (get_property obj key) (as_array key) (get_property-Parses obj key)
      (array-Parses key)

pub get_number-Parses : (obj : Fields) (key : String) → Parses (get_property_as_number obj key)
unfolding get_property_as_number
get_number-Parses obj key =
    Parses-bind (get_property obj key) (as_number key) (get_property-Parses obj key)
      (number-Parses key)

-- `parse_key` tests for the key that it looks up, so the lookup does not throw.

pub as-Parses {ℓ κ} :
    {A : Type ℓ} {B : Type κ} (f : A → B) (m : Result A) → Parses m → Parses (m >>= (λ a. ok (f a)))
as-Parses f m h = Parses-bind m _ h (λ a. ok-Parses (f a))
