-- ===== src/Tests/Typing.antt =====
-- The theorems about typed sequences at the test data.
use keybinder.Base.{
  Returns, ◌≡◌, refl, subst, Bool, true, false, List, [], ◌∷◌, none, some, Result, ok, fail,
}
use keybinder.QtText.{exact_text}
use keybinder.KeyCode.{KeyCode, code_eq, index}
use keybinder.Profile.{SequenceBehavior, AdvancedTrigger, Bind, SequenceTrigger, Layer, Profile}
use keybinder.Event.{InputEvent, input_eq, key_event_eq}
use keybinder.Machine.{Transition, State, find, put}
use keybinder.Machine.Build.{
  add_edge, arm, arm_maximum, arm_minimum, extend, fallback_outputs, new_state, released, replayed,
  share,
}
use keybinder.Machine.Generate.{branch, generate_states, iterate, turn, walk, walk_all}
use keybinder.Machine.Paths.{Follows}
use keybinder.Machine.Paths.Unread.{Avoids}
use keybinder.Mapper.{Mapper}
use keybinder.Mapper.Output.{set_layer_inner}
use keybinder.Mapper.Control.{add_basic, build_tables, install, set_profile}
use keybinder.Mapper.Typing.Loaded.{set_profile-HasTyped}
use keybinder.Mapper.Schedule.{bind_outputs}
use keybinder.Mapper.Paused.{process_all}
use keybinder.Mapper.Typing.Outputs.{typed_events}
use keybinder.Mapper.Typing.{HasTyped, process_all-HasTyped}
use keybinder.Tests.{demo_env, demo_mapper, pressed, quick_ab, demo_layer, home}

-- A, within half a second B, puts out C.
abbrev to_b : Transition
to_b = record { timer_ms = some 500; outputs = []; new_state = 1 }

abbrev typed_binds : List Bind
typed_binds = Bind.press_key KeyCode.key_c ∷ Bind.release_key KeyCode.key_c ∷ []

abbrev to_home : Transition
to_home = record { timer_ms = none; outputs = bind_outputs typed_binds; new_state = 0 }

abbrev at_home : State
at_home = record {
  edges = (pressed KeyCode.key_a, to_b) ∷ [];
  fallback_transition = home;
  timer_transition = none;
}

abbrev behind_a : State
behind_a = record {
  edges = (pressed KeyCode.key_b, to_home) ∷ [];
  fallback_transition = home;
  timer_transition = some home;
}

abbrev ab_machine : List State
ab_machine = at_home ∷ behind_a ∷ []

abbrev ab_mapper : Mapper
ab_mapper = record demo_mapper { states = ab_machine ∷ []; cur_state_idx = 0 }

ab_Follows : Follows exact_text ab_machine 0 quick_ab.sequence (bind_outputs typed_binds) 0
unfolding find input_eq code_eq
ab_Follows =
    Follows.event (AdvancedTrigger.key_press KeyCode.key_a) (pressed KeyCode.key_a) at_home to_b
      refl refl refl refl
      (Follows.in_time 500 (
        Follows.event (AdvancedTrigger.key_press KeyCode.key_b) (pressed KeyCode.key_b) behind_a
          to_home refl refl refl refl Follows.done))

process_all-HasTyped_example :
    Returns
      (HasTyped ab_mapper 0 typed_binds)
      (process_all 1 demo_env (typed_events quick_ab.sequence) ab_mapper)
process_all-HasTyped_example =
    process_all-HasTyped demo_env 0 ab_machine typed_binds 0 0 quick_ab.sequence
      (bind_outputs typed_binds) ab_mapper ab_Follows refl ((λ h. h), ((λ h. h), tt)) tt refl refl
      refl

-- C behind D, then the sequence of A and B.
abbrev after_d : SequenceTrigger
after_d = record {
  behavior = SequenceBehavior.capture;
  sequence = AdvancedTrigger.key_press KeyCode.key_d ∷ AdvancedTrigger.key_press KeyCode.key_c ∷ [];
  binds = [];
}

abbrev two_layer : Layer
two_layer = record demo_layer { sequence_remappings = after_d ∷ quick_ab ∷ [] }

abbrev two_profile : Profile
two_profile = record { name = "two"; layers = two_layer ∷ []; default_layer = 0 }

other_key :
    (e : InputEvent) (code : KeyCode)
    → code_eq code KeyCode.key_a ≡ false
    → pressed code ≡ e
    → input_eq exact_text e (pressed KeyCode.key_a) ≡ false
unfolding input_eq key_event_eq
other_key e code differs same =
    subst (λ x. input_eq exact_text x (pressed KeyCode.key_a) ≡ false) same (rw differs refl)

after_d-Avoids : Avoids exact_text (pressed KeyCode.key_a) after_d
unfolding code_eq
after_d-Avoids = (
  λ e h. other_key e KeyCode.key_d refl (cc h),
  (λ e h. other_key e KeyCode.key_c refl (cc h), tt),
)

abbrev mapper_of : Result (Mapper × Bool) → Mapper
mapper_of (ok p) = p.0
mapper_of (fail e) = demo_mapper

unfoldable two_mapper : Mapper
unfolding set_profile
two_mapper = mapper_of (set_profile demo_env two_profile demo_mapper)

two_profile_set : set_profile demo_env two_profile demo_mapper ≡ ok (two_mapper, true)
unfolding two_mapper set_profile build_tables install set_layer_inner add_basic find put input_eq
    key_event_eq code_eq index generate_states walk_all walk turn iterate branch extend share
    new_state released replayed fallback_outputs add_edge arm arm_minimum arm_maximum
two_profile_set = refl

set_profile-HasTyped_example :
    Returns
      (HasTyped two_mapper 0 quick_ab.binds)
      (process_all 1 demo_env (typed_events quick_ab.sequence) two_mapper)
set_profile-HasTyped_example =
    set_profile-HasTyped demo_env two_profile demo_mapper two_mapper two_layer (after_d ∷ []) []
      quick_ab (pressed KeyCode.key_a) two_profile_set refl refl refl (after_d-Avoids, tt) refl
      (λ h. h) tt (λ e. cc e) ((λ h. h), ((λ h. h), ((λ h. h), tt)))
