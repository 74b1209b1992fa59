-- ===== src/Mapper/Endless.antt =====
-- `process_input` and `apply_transition` of common/src/mapper.cpp call one another for the events that
-- a broken-off sequence gives back: for some profiles they never come to an end.
use keybinder.Base.{
  Bool, ℕ, zero, suc, ◌+◌, ◌≡◌, refl, ap, ◌∙◌, false, List, [], ◌∷◌, Option, none, some, Result, ok,
  fail, too_deep, ◌>>=◌,
}
use keybinder.QtText.{exact_text}
use keybinder.KeyCode.{KeyCode, index, code_eq}
use keybinder.Profile.{SequenceBehavior, AdvancedTrigger, SequenceTrigger, Profile}
use keybinder.Event.{InputEvent, OutputEvent, KeyEventType, key_event_eq, input_eq}
use keybinder.Machine.{StateMachineOutputEvent, Transition, State, find, put}
use keybinder.Machine.Build.{
  add_edge, arm, arm_maximum, arm_minimum, extend, fallback_outputs, new_state, released, replayed,
  share,
}
use keybinder.Machine.Generate.{branch, generate_states, iterate, turn, walk, walk_all}
use keybinder.Mapper.{Environment, Item, Mapper, Partition}
use keybinder.Mapper.Output.{queue_output, set_layer_inner, check_queued_events, check_items}
use keybinder.Mapper.Process.{
  apply_with, current_state, each, emit, emit_all, enter, expire, expire_at, receive, round,
  take_in, count_key, count_press, pass_through, process_input, translate,
}
use keybinder.Mapper.Control.{add_basic, build_tables, install, new_mapper, set_profile}

abbrev press : KeyCode → AdvancedTrigger
press code = AdvancedTrigger.key_press code

abbrev pub pressing : KeyCode → InputEvent
pressing code = InputEvent.key (record { keycode = code; type = KeyEventType.press })

abbrev sequence_of : List AdvancedTrigger → SequenceTrigger
sequence_of keys = record { behavior = SequenceBehavior.default; sequence = keys; binds = [] }

-- P C, D, and P C D C E.
abbrev pub endless_profile : Profile
endless_profile = record {
  name = "endless";
  layers =
      record {
        layer_name = "main";
        basic_remappings = [];
        sequence_remappings =
            sequence_of (press KeyCode.key_p ∷ press KeyCode.key_c ∷ [])
            ∷ sequence_of (press KeyCode.key_d ∷ [])
            ∷ sequence_of (
                press KeyCode.key_p
                ∷ press KeyCode.key_c
                ∷ press KeyCode.key_d
                ∷ press KeyCode.key_c
                ∷ press KeyCode.key_e
                ∷ [])
            ∷ [];
      }
      ∷ [];
  default_layer = 0;
}

abbrev step : List StateMachineOutputEvent → ℕ → Transition
step outputs i = record { timer_ms = none; outputs = outputs; new_state = i }

abbrev translated : StateMachineOutputEvent
translated = StateMachineOutputEvent.basic_translation none

abbrev first_p : StateMachineOutputEvent
first_p = StateMachineOutputEvent.basic_translation (some (pressing KeyCode.key_p))

abbrev again : KeyCode → StateMachineOutputEvent
again code = StateMachineOutputEvent.process_input (some (pressing code))

abbrev state_of : List (InputEvent × Transition) → List StateMachineOutputEvent → State
state_of edges outputs = record {
  edges = edges;
  fallback_transition = step outputs 0;
  timer_transition = none;
}

abbrev broken_off : List StateMachineOutputEvent
broken_off =
    first_p ∷ again KeyCode.key_c ∷ again KeyCode.key_d ∷ again KeyCode.key_c ∷ translated ∷ []

-- The third sequence goes through the home state, since the first one ended there.
abbrev endless_machine : List State
endless_machine =
    state_of
      ((pressing KeyCode.key_p, step [] 1)
        ∷ (pressing KeyCode.key_d, step [] 0)
        ∷ (pressing KeyCode.key_c, step [] 2)
        ∷ [])
      (translated ∷ [])
    ∷ state_of ((pressing KeyCode.key_c, step [] 0) ∷ []) (first_p ∷ translated ∷ [])
    ∷ state_of ((pressing KeyCode.key_e, step [] 0) ∷ []) broken_off
    ∷ []

module _ (clock : ℕ → ℕ) (partition : Partition) (can_send : OutputEvent → Bool) where
  abbrev pub endless_env : Environment
  endless_env = record {
    qt = exact_text;
    clock = clock;
    has_callback = false;
    partition = partition;
    memory = record { next_state_idx = λ xs. 0; fallback_state = λ xs. 0 };
    can_send = can_send;
  }

  abbrev endless_mapper : ℕ → ℕ → List Item → ℕ → Mapper
  endless_mapper i processed queue reads = record {
    profile = endless_profile;
    states = endless_machine ∷ [];
    cur_layer_idx = 0;
    cur_state_idx = i;
    processed_events_count = processed;
    basic_maps = [] ∷ [];
    current_timer = none;
    queued_events = queue;
    stopped = false;
    paused = false;
    clock_reads = reads;
    sent = [];
    announced = [];
    counted = [];
  }

  loaded : new_mapper endless_env endless_profile ≡ ok (endless_mapper 0 0 [] 0)
  unfolding new_mapper set_profile build_tables install set_layer_inner add_basic find put input_eq
      key_event_eq code_eq index generate_states walk_all walk turn iterate branch extend share
      new_state released replayed fallback_outputs add_edge arm arm_minimum arm_maximum
  loaded = refl

  -- D behind C: what the broken-off sequence gives back is C and D again.
  comes_again :
      (depth processed : ℕ) (queue : List Item) (reads : ℕ)
      → process_input depth endless_env
          (pressing KeyCode.key_d)
          (endless_mapper 2 processed queue reads)
        ≡ fail too_deep
  unfolding process_input current_state apply_with enter emit_all emit each translate pass_through
      queue_output find input_eq key_event_eq code_eq index
  comes_again zero processed queue reads = refl
  comes_again (suc zero) processed queue reads = refl
  comes_again (suc (suc depth)) processed queue reads =
      ap
        (λ (r : Result Mapper).
          r >>= (λ m. each (process_input (suc depth) endless_env) (pressing KeyCode.key_c ∷ []) m))
        (comes_again (suc depth) processed _ _)

  back_to_c :
      (depth processed : ℕ) (queue : List Item) (reads : ℕ)
      → process_input
          (suc depth)
          endless_env
          (pressing KeyCode.key_c)
          (endless_mapper 0 processed queue reads)
        ≡ ok (endless_mapper 2 processed queue reads)
  unfolding process_input current_state apply_with enter emit_all each find input_eq key_event_eq
      code_eq index
  back_to_c depth processed queue reads = refl

  -- Behind C, what the sequence gives back comes to no end.
  given_back :
      (depth processed : ℕ) (queue : List Item) (reads : ℕ) (code : KeyCode)
      → apply_with
          (process_input depth endless_env)
          endless_env
          (step broken_off 0)
          (some (pressing code))
          (endless_mapper 2 processed queue reads)
        ≡ fail too_deep
  unfolding process_input apply_with enter emit_all emit each translate pass_through queue_output
      find
  given_back zero processed queue reads code = refl
  given_back (suc depth) processed queue reads code =
      ap
        (λ (r : Result Mapper). r >>= (λ m.
          each (process_input (suc depth) endless_env)
            (pressing KeyCode.key_d ∷ pressing KeyCode.key_c ∷ []) m))
        (back_to_c depth processed _ _)
      ∙ ap
          (λ (r : Result Mapper).
            r
            >>= (λ m. each (process_input (suc depth) endless_env) (pressing KeyCode.key_c ∷ []) m))
          (comes_again (suc depth) processed _ _)

  not_read :
      (code : KeyCode)
      → code_eq KeyCode.key_e code ≡ false
      → find exact_text (pressing code) ((pressing KeyCode.key_e, step [] 0) ∷ []) ≡ none
  unfolding find input_eq key_event_eq
  not_read code other = rw other refl

  breaks_off :
      (depth processed : ℕ) (queue : List Item) (reads : ℕ) (code : KeyCode)
      → code_eq KeyCode.key_e code ≡ false
      → process_input depth endless_env (pressing code) (endless_mapper 2 processed queue reads)
        ≡ fail too_deep
  unfolding process_input current_state
  breaks_off zero processed queue reads code other = refl
  breaks_off (suc depth) processed queue reads code other =
      ap
        (λ (o : Option Transition).
          apply_with (process_input depth endless_env) endless_env
            (elim o [ some t ↦ t | none ↦ step broken_off 0 ]) (some (pressing code))
            (endless_mapper 2 processed queue reads))
        (not_read code other)
      ∙ given_back depth processed queue reads code

  reads_c :
      round 1 endless_env false (some (pressing KeyCode.key_c)) (endless_mapper 0 0 [] 0)
      ≡ ok (endless_mapper 2 1 [] 0)
  unfolding round take_in receive count_key count_press expire expire_at current_state process_input
      apply_with enter emit_all emit each find input_eq key_event_eq code_eq index
      check_queued_events check_items
  reads_c = refl

  round_breaks_off :
      (depth : ℕ) (code : KeyCode)
      → code_eq KeyCode.key_e code ≡ false
      → round depth endless_env false (some (pressing code)) (endless_mapper 2 1 [] 0)
        ≡ fail too_deep
  unfolding round take_in receive count_key count_press expire expire_at current_state
  round_breaks_off depth code other =
      ap
        (λ (r : Result Mapper). do
          m2 ← (do
            m' ← r
            ok (record m' { processed_events_count = m'.processed_events_count + 1 }))
          check_queued_events endless_env m2)
        (breaks_off depth 1 [] 0 code other)

  -- With a profile whose sequences are P C, D and P C D C E, all of the default behavior, a mapper
  -- that has read C and then presses any key but E never comes to an end: for every depth of nested
  -- calls, and whatever the clock says, the round of the loop needs more.
  pub endless :
      (depth : ℕ) (code : KeyCode)
      → code_eq KeyCode.key_e code ≡ false
      → (do
        m ← new_mapper endless_env endless_profile
        m1 ← round 1 endless_env false (some (pressing KeyCode.key_c)) m
        round depth endless_env false (some (pressing code)) m1)
        ≡ fail too_deep
  endless depth code other =
      ap
        (λ (r : Result Mapper). do
          m ← r
          m1 ← round 1 endless_env false (some (pressing KeyCode.key_c)) m
          round depth endless_env false (some (pressing code)) m1)
        loaded
      ∙ ap
          (λ (r : Result Mapper). do
            m1 ← r
            round depth endless_env false (some (pressing code)) m1)
          reads_c
      ∙ round_breaks_off depth code other
