-- ===== src/Tests/Replay.antt =====
-- Behaviours that tests/src checks, run on the test data: the profile is loaded, each event comes in a
-- round of its own, and what the daemon is given is compared.
use keybinder.Base.{◌≡◌, refl, false, List, [], ◌∷◌, some, Result, ok, ◌>>=◌}
use keybinder.KeyCode.{KeyCode, index, code_eq}
use keybinder.Event.{InputEvent, OutputEvent, KeyEventType, key_event_eq, app_eq, input_eq}
use keybinder.Machine.{find, put}
use keybinder.Machine.Build.{
  add_edge, arm, arm_maximum, arm_minimum, extend, fallback_outputs, new_state, released, replayed,
  share,
}
use keybinder.Machine.Generate.{branch, generate_states, iterate, turn, walk, walk_all}
use keybinder.Mapper.{Mapper}
use keybinder.Mapper.Output.{
  all_sendable, check_items, check_queued_events, queue_binds, queue_bind, queue_from, queue_output,
  send_ready, set_layer_inner,
}
use keybinder.Mapper.Process.{
  apply_transition, apply_with, count_key, count_press, current_state, each, emit, emit_all, enter,
  expire, expire_at, forward, pass_through, process_input, receive, round, take_in, translate,
}
use keybinder.Mapper.Control.{add_basic, build_tables, install, new_mapper, set_profile}
use keybinder.Tests.{demo_env, demo_profile, pressed, sent_press}

feed : List InputEvent → Mapper → Result Mapper
feed [] m = ok m
feed (e ∷ rest) m = do m' ← round 3 demo_env false (some e) m; feed rest m'

sent_of : Mapper → Result (List (List OutputEvent))
sent_of m = ok m.sent

play : List InputEvent → Result (List (List OutputEvent))
play es = do m ← new_mapper demo_env demo_profile; m' ← feed es m; sent_of m'

abbrev released_c : OutputEvent
released_c = OutputEvent.key (record { keycode = KeyCode.key_c; type = KeyEventType.release })

-- A remapped key goes out as what it is mapped to, another as it came. A sequence in time gives its
-- binds alone; broken off, it gives what it held back and the translation of what broke it.
replays :
    (play (pressed KeyCode.key_x ∷ []) ≡ ok ((sent_press KeyCode.key_y ∷ []) ∷ []))
    × (play (pressed KeyCode.key_b ∷ []) ≡ ok ((sent_press KeyCode.key_b ∷ []) ∷ []))
    × (play (pressed KeyCode.key_a ∷ pressed KeyCode.key_b ∷ [])
        ≡ ok ((sent_press KeyCode.key_c ∷ released_c ∷ []) ∷ []))
    × (play (pressed KeyCode.key_a ∷ pressed KeyCode.key_x ∷ [])
        ≡ ok ((sent_press KeyCode.key_a ∷ sent_press KeyCode.key_y ∷ []) ∷ []))
unfolding play feed sent_of new_mapper set_profile build_tables install set_layer_inner add_basic
    find put input_eq key_event_eq code_eq index generate_states walk_all walk turn iterate branch
    extend share new_state released replayed fallback_outputs add_edge arm arm_minimum arm_maximum
    round take_in all_sendable current_state expire expire_at receive count_key count_press
    process_input apply_with enter emit emit_all each forward translate pass_through queue_binds
    queue_from queue_bind queue_output check_queued_events check_items send_ready apply_transition
    app_eq
replays = (refl, refl, refl, refl)
