-- ===== src/ReadProfile/Errors.antt =====
-- How reading fails (common/src/read_profile.cpp).
use keybinder.Base.{String, Option, some, throws, invalid_argument, or_fail}
use keybinder.BiMap.Keys.{string_key, code_key}
use keybinder.ReadProfile.Access.{
  Json, Items, Fields, get_property_as_object, get_property_as_string, get_property_as_array,
  get_property_as_number,
}
use keybinder.ReadProfile.Triggers.{
  parse_basic_trigger, parse_triggers, parse_binds, parse_behavior,
}
use keybinder.ReadProfile.{
  parse_basic_remapping, sequence_from_json, parse_remapping, parse_remappings, layer_from_json,
  parse_layers, profile_from_json, from_document, from_bytes, from_file, Outside,
}
use keybinder.ReadProfile.Parses.{
  Parses-bind, Parses-if, Parses, ok-Parses, fail-Parses, or_fail-Parses, get_object-Parses,
  get_string-Parses, get_array-Parses, get_number-Parses, as-Parses,
}
use keybinder.ReadProfile.Parses.Triggers.{
  parse_basic_trigger-Parses, items-Parses, parse_triggers-Parses, parse_binds-Parses,
  parse_behavior-Parses,
}

parse_basic_remapping-Parses : (obj : Fields) → Parses (parse_basic_remapping obj)
unfolding parse_basic_remapping
parse_basic_remapping-Parses obj =
    Parses-bind (get_property_as_object obj "trigger") _ (get_object-Parses obj "trigger") (λ t.
      Parses-bind (parse_basic_trigger t) _ (parse_basic_trigger-Parses t) (λ x.
        Parses-bind (get_property_as_array obj "binds") _ (get_array-Parses obj "binds")
          (λ bs. as-Parses _ (parse_binds bs) (parse_binds-Parses bs))))

sequence_from_json-Parses : (obj : Fields) → Parses (sequence_from_json obj)
unfolding sequence_from_json
sequence_from_json-Parses obj =
    Parses-bind (get_property_as_array obj "triggers") _ (get_array-Parses obj "triggers") (λ ts.
      Parses-bind (parse_triggers ts) _ (parse_triggers-Parses ts) (λ x.
        Parses-bind (get_property_as_array obj "binds") _ (get_array-Parses obj "binds") (λ bs.
          Parses-bind (parse_binds bs) _ (parse_binds-Parses bs) (λ y.
            Parses-bind (get_property_as_string obj "behavior") _ (get_string-Parses obj "behavior")
              (λ b. as-Parses _ (parse_behavior b) (parse_behavior-Parses b))))))

parse_remapping-Parses : (obj : Fields) → Parses (parse_remapping obj)
unfolding parse_remapping
parse_remapping-Parses obj =
    Parses-if _ _ _ (as-Parses _ (sequence_from_json obj) (sequence_from_json-Parses obj)) (
      Parses-if _ _ _ (as-Parses _ (parse_basic_remapping obj) (parse_basic_remapping-Parses obj))
        (ok-Parses _))

parse_remappings-Parses : (xs : Items) → Parses (parse_remappings xs)
unfolding parse_remappings
parse_remappings-Parses Items.nil = ok-Parses _
parse_remappings-Parses (Items.cons j rest) =
    items-Parses j parse_remapping (parse_remappings rest) _ parse_remapping-Parses
      (parse_remappings-Parses rest)

layer_from_json-Parses : (obj : Fields) → Parses (layer_from_json obj)
unfolding layer_from_json
layer_from_json-Parses obj =
    Parses-bind (get_property_as_string obj "layer_name") _ (get_string-Parses obj "layer_name")
      (λ n.
        Parses-bind (get_property_as_array obj "remappings") _ (get_array-Parses obj "remappings")
          (λ xs. as-Parses _ (parse_remappings xs) (parse_remappings-Parses xs)))

parse_layers-Parses : (xs : Items) → Parses (parse_layers xs)
unfolding parse_layers
parse_layers-Parses Items.nil = ok-Parses _
parse_layers-Parses (Items.cons j rest) =
    items-Parses j layer_from_json (parse_layers rest) _ layer_from_json-Parses
      (parse_layers-Parses rest)

pub profile_from_json-Parses : (obj : Fields) → Parses (profile_from_json obj)
unfolding profile_from_json
profile_from_json-Parses obj =
    Parses-bind (get_property_as_string obj "profile_name") _ (get_string-Parses obj "profile_name")
      (λ n.
        Parses-bind (get_property_as_number obj "default_layer") _
          (get_number-Parses obj "default_layer")
          (λ d.
            Parses-bind (get_property_as_array obj "layers") _ (get_array-Parses obj "layers")
              (λ xs. as-Parses _ (parse_layers xs) (parse_layers-Parses xs))))

from_document-Parses : (o : Option Json) → Parses (from_document o)
unfolding from_document
from_document-Parses (some (Json.object obj)) = profile_from_json-Parses obj
from_document-Parses _ = fail-Parses _ _

-- Whatever the file system and the parser answer, `Profile::from_file` returns or throws
-- `std::invalid_argument`; it throws nothing else.
pub from_file-Parses : (out : Outside) (filename : String) → Parses (from_file out filename)
unfolding from_file from_bytes
from_file-Parses out filename =
    Parses-if _ _ _
      (Parses-bind
        (or_fail (out.contents filename) (throws (invalid_argument "Could not open file"))) _
        (or_fail-Parses (out.contents filename) _)
        (λ bytes.
          as-Parses _ (from_document (out.document bytes))
            (from_document-Parses (out.document bytes))))
      (ok-Parses _)
