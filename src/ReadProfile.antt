-- ===== src/ReadProfile.antt =====
-- common/src/read_profile.cpp: profiles from JSON. Texts are read by Qt, whose parser is a parameter;
-- warnings in the log are not modelled.
pub mod Access
pub mod Triggers
pub mod Print
pub mod RoundTrip
pub mod Parses
pub mod Errors
use keybinder.Base.{
  ℕ, String, Bool, true, false, str_eq, List, [], ◌∷◌, ◌++◌, Option, none, some, Result, ok, fail,
  throws, invalid_argument, ◌>>=◌, or_fail, if◌then◌else◌,
}
use keybinder.Profile.{BasicTrigger, Bind, SequenceTrigger, Layer, Profile}
use keybinder.ReadProfile.Access.{
  Json, Items, Fields, field, has, get_value_as_object, get_property_as_object,
  get_property_as_string, get_property_as_array, get_property_as_number, as_size_t,
}
use keybinder.ReadProfile.Triggers.{
  parse_basic_trigger, parse_triggers, parse_binds, parse_behavior,
}

unfoldable pub parse_basic_remapping : Fields → Result (BasicTrigger × List Bind)
unfolding get_property_as_object get_property_as_array parse_basic_trigger parse_binds
parse_basic_remapping obj = do
  trigger_obj ← get_property_as_object obj "trigger"
  trigger ← parse_basic_trigger trigger_obj
  bind_arr ← get_property_as_array obj "binds"
  binds ← parse_binds bind_arr
  ok (trigger, binds)

unfoldable pub sequence_from_json : Fields → Result SequenceTrigger
unfolding get_property_as_string get_property_as_array parse_triggers parse_binds parse_behavior
sequence_from_json obj = do
  trigger_arr ← get_property_as_array obj "triggers"
  triggers ← parse_triggers trigger_arr
  bind_arr ← get_property_as_array obj "binds"
  binds ← parse_binds bind_arr
  behavior_text ← get_property_as_string obj "behavior"
  behavior ← parse_behavior behavior_text
  ok (record { behavior = behavior; sequence = triggers; binds = binds })

-- The two lists that a layer's remappings are sorted into.
pub record Remappings : Type 0 where
  pub basic : List (BasicTrigger × List Bind)
  pub sequences : List SequenceTrigger

-- One remapping: a sequence if it has `triggers`, basic if it has `trigger`, and otherwise nothing.
unfoldable pub parse_remapping : Fields → Result Remappings
unfolding has sequence_from_json parse_basic_remapping
parse_remapping obj =
    if has obj "triggers"
    then (do s ← sequence_from_json obj; ok (record { basic = []; sequences = s ∷ [] }))
    else if has obj "trigger"
    then (do b ← parse_basic_remapping obj; ok (record { basic = b ∷ []; sequences = [] }))
    else ok (record { basic = []; sequences = [] })

unfoldable pub parse_remappings : Items → Result Remappings
unfolding get_value_as_object parse_remapping
parse_remappings Items.nil = ok (record { basic = []; sequences = [] })
parse_remappings (Items.cons j rest) = do
  obj ← get_value_as_object j
  first ← parse_remapping obj
  others ← parse_remappings rest
  ok (record {
    basic = first.basic ++ others.basic;
    sequences = first.sequences ++ others.sequences;
  })

unfoldable pub layer_from_json : Fields → Result Layer
unfolding get_property_as_string get_property_as_array parse_remappings
layer_from_json obj = do
  name ← get_property_as_string obj "layer_name"
  arr ← get_property_as_array obj "remappings"
  tables ← parse_remappings arr
  ok (record {
    layer_name = name;
    basic_remappings = tables.basic;
    sequence_remappings = tables.sequences;
  })

unfoldable pub parse_layers : Items → Result (List Layer)
unfolding get_value_as_object layer_from_json
parse_layers Items.nil = ok []
parse_layers (Items.cons j rest) = do
  obj ← get_value_as_object j
  layer ← layer_from_json obj
  layers ← parse_layers rest
  ok (layer ∷ layers)

abbrev pub default_profile : Profile
default_profile = record {
  name = "default";
  layers = record { layer_name = "default"; basic_remappings = []; sequence_remappings = [] } ∷ [];
  default_layer = 0;
}

-- The profile, and the object that `saveLatestJsonProfile` is given to write.
unfoldable pub profile_from_json : Fields → Result (Profile × Fields)
unfolding get_property_as_string get_property_as_number get_property_as_array parse_layers
profile_from_json obj = do
  name ← get_property_as_string obj "profile_name"
  default_layer ← get_property_as_number obj "default_layer"
  arr ← get_property_as_array obj "layers"
  layers ← parse_layers arr
  ok (record { name = name; layers = layers; default_layer = as_size_t default_layer }, obj)

-- A document that is no object, or none at all.
unfoldable pub from_document : Option Json → Result (Profile × Fields)
unfolding profile_from_json
from_document (some (Json.object obj)) = profile_from_json obj
from_document _ = fail (throws (invalid_argument "Invalid JSON document"))

-- `QJsonDocument::fromJson`, and the file system: whether a file exists, and what opening and reading
-- it gives.
pub record Outside : Type 0 where
  pub document : String → Option Json
  pub exists : String → Bool
  pub contents : String → Option String

unfoldable pub from_bytes : Outside → String → Result (Profile × Fields)
unfolding from_document
from_bytes out bytes = from_document (out.document bytes)

unfoldable pub from_file : Outside → String → Result (Option (Profile × Fields))
unfolding from_bytes
from_file out filename =
    if out.exists filename
    then (do
      bytes ← or_fail (out.contents filename) (throws (invalid_argument "Could not open file"))
      read ← from_bytes out bytes
      ok (some read))
    else ok none

unfoldable pub load_latest : Outside → Result (Option (Profile × Fields))
unfolding from_file
load_latest out = from_file out "./last_loaded.profile.json"
