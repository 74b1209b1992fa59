-- ===== src/ReadProfile/Print.antt =====
-- The JSON of a profile, in the format that the example profiles use: what the readers of
-- common/src/read_profile.cpp are compared with.
use keybinder.Base.{All, ℕ, ◌≤◌, ◌^◌, String, ◌≡◌, true, List, [], ◌∷◌, ok, arith}
use keybinder.KeyCode.{KeyCode}
use keybinder.KeyCode.Names.{str_to_keycode}
use keybinder.BiMap.{BiMap, find_forward, contains_forward}
use keybinder.BiMap.Keys.{string_key, code_key}
use keybinder.KeyMap.Sendable.{names_complete}
use keybinder.Profile.{
  SequenceBehavior, BasicTrigger, AdvancedTrigger, Bind, SequenceTrigger, Layer, Profile,
}
use keybinder.ReadProfile.Access.{Double, Json, Items, Fields}
use keybinder.ReadProfile.Triggers.{parse_key}

unfoldable pub name_of : KeyCode → String
name_of c = (names_complete c).0

found_contains :
    (m : BiMap String KeyCode) (s : String) {c : KeyCode}
    → find_forward m s ≡ ok c
    → contains_forward m s ≡ true
unfolding find_forward contains_forward
found_contains m s h = ground arith

-- The name of a key is read as that key.
pub parse_key-name_of : (c : KeyCode) → parse_key (name_of c) ≡ ok c
unfolding parse_key name_of
parse_key-name_of c =
    let there = (names_complete c).2 in
    rw (found_contains str_to_keycode (names_complete c).0 there) there

abbrev pub typed : String → Fields → Json
typed kind rest = Json.object (Fields.member "type" (Json.text kind) rest)

abbrev pub with_text : String → String → Fields
with_text key s = Fields.member key (Json.text s) Fields.empty

abbrev pub basic_json : BasicTrigger → Json
basic_json (BasicTrigger.key_press c) = typed "key_press" (with_text "value" (name_of c))
basic_json (BasicTrigger.key_release c) = typed "key_release" (with_text "value" (name_of c))
basic_json (BasicTrigger.app_focused a) = typed "app_focused" (with_text "app_name" a)

abbrev pub items {ℓ} : {A : Type ℓ} → (A → Json) → List A → Items
items print [] = Items.nil
items print (a ∷ rest) = Items.cons (print a) (items print rest)

abbrev pub behavior_text : SequenceBehavior → String
behavior_text SequenceBehavior.capture = "capture"
behavior_text SequenceBehavior.release = "release"
behavior_text SequenceBehavior.default = "default"

-- The `double` that Qt makes of a whole number: exact as far as 53 bits go, and else what is nearest.
pub record Doubles : Type 0 where
  pub of : ℕ → Double
  pub exact : (n : ℕ) → n ≤ 2 ^ 53 → of n ≡ Double.whole n

-- What such a `double` says exactly.
abbrev IsExact : ℕ → Type 0
IsExact n = n ≤ 2 ^ 53

abbrev pub ExactTrigger : AdvancedTrigger → Type 0
ExactTrigger (AdvancedTrigger.minimum_wait ms) = IsExact ms
ExactTrigger (AdvancedTrigger.maximum_wait ms) = IsExact ms
ExactTrigger _ = Unit

abbrev pub ExactBind : Bind → Type 0
ExactBind (Bind.swap_layer n) = IsExact n
ExactBind (Bind.wait ms) = IsExact ms
ExactBind _ = Unit

abbrev pub ExactSequence : SequenceTrigger → Type 0
ExactSequence s = All ExactTrigger s.sequence × All ExactBind s.binds

abbrev pub ExactBasic : BasicTrigger × List Bind → Type 0
ExactBasic r = All ExactBind r.1

abbrev pub ExactLayer : Layer → Type 0
ExactLayer l = All ExactBasic l.basic_remappings × All ExactSequence l.sequence_remappings

-- All times and layer indices of the profile are at most 2 ^ 53.
abbrev pub ExactProfile : Profile → Type 0
ExactProfile p = IsExact p.default_layer × All ExactLayer p.layers

module _ (doubles : Doubles) where
  abbrev pub with_number : String → ℕ → Fields
  with_number key n = Fields.member key (Json.number (doubles.of n)) Fields.empty

  abbrev pub trigger_json : AdvancedTrigger → Json
  trigger_json (AdvancedTrigger.key_press c) = typed "key_press" (with_text "value" (name_of c))
  trigger_json (AdvancedTrigger.key_release c) = typed "key_release" (with_text "value" (name_of c))
  trigger_json (AdvancedTrigger.app_focused a) = typed "app_focused" (with_text "app_name" a)
  trigger_json (AdvancedTrigger.minimum_wait ms) = typed "minimum_wait" (with_number "duration" ms)
  trigger_json (AdvancedTrigger.maximum_wait ms) = typed "maximum_wait" (with_number "duration" ms)

  abbrev pub bind_json : Bind → Json
  bind_json (Bind.press_key c) = typed "press_key" (with_text "value" (name_of c))
  bind_json (Bind.release_key c) = typed "release_key" (with_text "value" (name_of c))
  bind_json (Bind.swap_layer n) = typed "switch_layer" (with_number "value" n)
  bind_json (Bind.wait ms) = typed "wait" (with_number "duration" ms)
  bind_json (Bind.run_script s) =
      typed "run_script"
        (Fields.member "interpreter" (Json.text s.interpreter) (with_text "script" s.script))

  abbrev pub basic_remapping_json : BasicTrigger × List Bind → Json
  basic_remapping_json r = Json.object (
      Fields.member "trigger" (basic_json r.0)
        (Fields.member "binds" (Json.array (items bind_json r.1)) Fields.empty))

  abbrev pub sequence_json : SequenceTrigger → Json
  sequence_json s = Json.object (
      Fields.member "triggers" (Json.array (items trigger_json s.sequence)) (
        Fields.member "binds" (Json.array (items bind_json s.binds))
          (with_text "behavior" (behavior_text s.behavior))))

  -- The basic remappings stand before the sequences.
  abbrev pub remapping_items : List (BasicTrigger × List Bind) → List SequenceTrigger → Items
  remapping_items [] sequences = items sequence_json sequences
  remapping_items (r ∷ rest) sequences =
      Items.cons (basic_remapping_json r) (remapping_items rest sequences)

  abbrev pub layer_json : Layer → Json
  layer_json l = Json.object (
      Fields.member "layer_name" (Json.text l.layer_name) (
        Fields.member "remappings"
          (Json.array (remapping_items l.basic_remappings l.sequence_remappings)) Fields.empty))

  abbrev pub profile_fields : Profile → Fields
  profile_fields p = Fields.member "profile_name" (Json.text p.name) (
      Fields.member "default_layer" (Json.number (doubles.of p.default_layer))
        (Fields.member "layers" (Json.array (items layer_json p.layers)) Fields.empty))
