-- ===== src/ReadProfile/RoundTrip.antt =====
-- Reading (common/src/read_profile.cpp) undoes printing.
use keybinder.Base.{All, ◌≡◌, refl, ◌∙◌, ap, List, [], ◌∷◌, Result, ok, fail, ◌>>=◌}
use keybinder.Profile.{
  SequenceBehavior, BasicTrigger, AdvancedTrigger, Bind, SequenceTrigger, Layer, Profile,
}
use keybinder.ReadProfile.Access.{
  field, has, get_property, get_value_as_object, get_property_as_object, get_property_as_string,
  get_property_as_array, get_property_as_number,
}
use keybinder.ReadProfile.Triggers.{
  key_from_json, duration_from_json, layer_index_from_json, script_from_json, app_from_json,
  parse_basic_trigger, parse_advanced_trigger, parse_triggers, parse_bind, parse_binds,
  parse_behavior,
}
use keybinder.ReadProfile.Print.{
  Doubles, ExactTrigger, ExactBind, ExactSequence, ExactBasic, ExactLayer, ExactProfile,
  parse_key-name_of, trigger_json, bind_json, items, behavior_text, basic_remapping_json,
  sequence_json, remapping_items, layer_json, profile_fields,
}
use keybinder.ReadProfile.{
  parse_basic_remapping, sequence_from_json, parse_remapping, parse_remappings, Remappings,
  layer_from_json, parse_layers, profile_from_json,
}

chain {ℓ κ μ} :
    {A : Type ℓ} {B : Type κ} {C : Type μ} (m : Result A) (f : A → Result B) (k : B → Result C)
    {b : B}
    → (m >>= f) ≡ ok b
    → (m >>= (λ a. f a >>= k)) ≡ k b
chain (ok a) f k h = ap (λ (r : Result _). r >>= k) h
chain (fail e) f k h = cc

parse_behavior-text : (x : SequenceBehavior) → parse_behavior (behavior_text x) ≡ ok x
unfolding parse_behavior
parse_behavior-text SequenceBehavior.capture = refl
parse_behavior-text SequenceBehavior.release = refl
parse_behavior-text SequenceBehavior.default = refl

module _ (doubles : Doubles) where
  parse_advanced_trigger-json :
      (t : AdvancedTrigger)
      → ExactTrigger t
      → (get_value_as_object (trigger_json doubles t) >>= parse_advanced_trigger) ≡ ok t
  unfolding get_value_as_object get_property_as_string get_property_as_number get_property field
      parse_advanced_trigger key_from_json app_from_json duration_from_json
  parse_advanced_trigger-json (AdvancedTrigger.key_press c) h = rw (parse_key-name_of c) refl
  parse_advanced_trigger-json (AdvancedTrigger.key_release c) h = rw (parse_key-name_of c) refl
  parse_advanced_trigger-json (AdvancedTrigger.app_focused a) h = refl
  parse_advanced_trigger-json (AdvancedTrigger.minimum_wait ms) h = rw (doubles.exact ms h) refl
  parse_advanced_trigger-json (AdvancedTrigger.maximum_wait ms) h = rw (doubles.exact ms h) refl

  parse_bind-json :
      (b : Bind) → ExactBind b → (get_value_as_object (bind_json doubles b) >>= parse_bind) ≡ ok b
  unfolding get_value_as_object get_property_as_string get_property_as_number get_property field
      parse_bind key_from_json duration_from_json layer_index_from_json script_from_json
  parse_bind-json (Bind.press_key c) h = rw (parse_key-name_of c) refl
  parse_bind-json (Bind.release_key c) h = rw (parse_key-name_of c) refl
  parse_bind-json (Bind.swap_layer n) h = rw (doubles.exact n h) refl
  parse_bind-json (Bind.wait ms) h = rw (doubles.exact ms h) refl
  parse_bind-json (Bind.run_script s) h = refl

  -- What a chain does behind a part that returned a value.
  parse_binds-json :
      (bs : List Bind) → All ExactBind bs → parse_binds (items (bind_json doubles) bs) ≡ ok bs
  unfolding parse_binds
  parse_binds-json [] h = refl
  parse_binds-json (b ∷ rest) h =
      chain (get_value_as_object (bind_json doubles b)) parse_bind _ (parse_bind-json b h.0)
      ∙ ap (λ (r : Result (List Bind)). r >>= (λ others. ok (b ∷ others)))
          (parse_binds-json rest h.1)

  parse_triggers-json :
      (ts : List AdvancedTrigger)
      → All ExactTrigger ts
      → parse_triggers (items (trigger_json doubles) ts) ≡ ok ts
  unfolding parse_triggers
  parse_triggers-json [] h = refl
  parse_triggers-json (t ∷ rest) h =
      chain (get_value_as_object (trigger_json doubles t)) parse_advanced_trigger _
        (parse_advanced_trigger-json t h.0)
      ∙ ap (λ (r : Result (List AdvancedTrigger)). r >>= (λ others. ok (t ∷ others)))
          (parse_triggers-json rest h.1)

  parse_remapping-basic :
      (r : BasicTrigger × List Bind)
      → ExactBasic r
      → (get_value_as_object (basic_remapping_json doubles r) >>= parse_remapping)
        ≡ ok (record { basic = r ∷ []; sequences = [] })
  unfolding get_value_as_object parse_remapping has field parse_basic_remapping
      get_property_as_object get_property_as_array get_property_as_string get_property
      parse_basic_trigger key_from_json app_from_json
  parse_remapping-basic (BasicTrigger.key_press c, bs) h =
      rw (parse_key-name_of c, parse_binds-json bs h) refl
  parse_remapping-basic (BasicTrigger.key_release c, bs) h =
      rw (parse_key-name_of c, parse_binds-json bs h) refl
  parse_remapping-basic (BasicTrigger.app_focused a, bs) h = rw (parse_binds-json bs h) refl

  parse_remapping-sequence :
      (s : SequenceTrigger)
      → ExactSequence s
      → (get_value_as_object (sequence_json doubles s) >>= parse_remapping)
        ≡ ok (record { basic = []; sequences = s ∷ [] })
  unfolding get_value_as_object parse_remapping has field sequence_from_json get_property_as_string
      get_property_as_array get_property
  parse_remapping-sequence s h =
      rw
        (
          parse_triggers-json s.sequence h.0,
          parse_binds-json s.binds h.1,
          parse_behavior-text s.behavior,
        )
        refl

  parse_sequences-json :
      (ss : List SequenceTrigger)
      → All ExactSequence ss
      → parse_remappings (items (sequence_json doubles) ss)
        ≡ ok (record { basic = []; sequences = ss })
  unfolding parse_remappings
  parse_sequences-json [] h = refl
  parse_sequences-json (s ∷ rest) h =
      chain (get_value_as_object (sequence_json doubles s)) parse_remapping _
        (parse_remapping-sequence s h.0)
      ∙ ap
          (λ (r : Result Remappings).
            r
            >>= (λ others. ok (record { basic = others.basic; sequences = s ∷ others.sequences })))
          (parse_sequences-json rest h.1)

  parse_remappings-json :
      (rs : List (BasicTrigger × List Bind)) (ss : List SequenceTrigger)
      → All ExactBasic rs
      → All ExactSequence ss
      → parse_remappings (remapping_items doubles rs ss)
        ≡ ok (record { basic = rs; sequences = ss })
  unfolding parse_remappings
  parse_remappings-json [] ss h k = parse_sequences-json ss k
  parse_remappings-json (r ∷ rest) ss h k =
      chain (get_value_as_object (basic_remapping_json doubles r)) parse_remapping _
        (parse_remapping-basic r h.0)
      ∙ ap
          (λ (x : Result Remappings).
            x
            >>= (λ others. ok (record { basic = r ∷ others.basic; sequences = others.sequences })))
          (parse_remappings-json rest ss h.1 k)

  layer_from_json-json :
      (l : Layer)
      → ExactLayer l
      → (get_value_as_object (layer_json doubles l) >>= layer_from_json) ≡ ok l
  unfolding get_value_as_object layer_from_json field get_property_as_string get_property_as_array
      get_property
  layer_from_json-json l h =
      rw (parse_remappings-json l.basic_remappings l.sequence_remappings h.0 h.1) refl

  parse_layers-json :
      (ls : List Layer) → All ExactLayer ls → parse_layers (items (layer_json doubles) ls) ≡ ok ls
  unfolding parse_layers
  parse_layers-json [] h = refl
  parse_layers-json (l ∷ rest) h =
      chain (get_value_as_object (layer_json doubles l)) layer_from_json _
        (layer_from_json-json l h.0)
      ∙ ap (λ (r : Result (List Layer)). r >>= (λ others. ok (l ∷ others)))
          (parse_layers-json rest h.1)

  -- For every profile whose default layer, times and layer indices are at most 2 ^ 53, which is as far as
  -- a JSON number is exact, `Profile::from_json` reads the profile's JSON as the profile, and gives that
  -- JSON to be saved.
  pub profile_from_json-fields :
      (p : Profile)
      → ExactProfile p
      → profile_from_json (profile_fields doubles p) ≡ ok (p, profile_fields doubles p)
  unfolding profile_from_json field get_property_as_string get_property_as_number
      get_property_as_array get_property
  profile_from_json-fields p h =
      rw (doubles.exact p.default_layer h.0, parse_layers-json p.layers h.1) refl
