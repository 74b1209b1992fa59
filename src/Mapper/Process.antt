-- ===== src/Mapper/Process.antt =====
-- The input side of common/src/mapper.cpp: `apply_transition`, `process_input` and the loop of
-- `start`. `process_input` and `apply_transition` call one another; the model counts how deep they
-- nest.
use keybinder.Base.{
  ℕ, zero, suc, ◌+◌, ◌%◌, ◌^◌, Bool, true, leb, List, [], ◌∷◌, ◌++◌, Option, none, some, Result, ok,
  fail, too_deep, ◌>>=◌, at, if◌then◌else◌,
}
use keybinder.KeyCode.{KeyCode}
use keybinder.Event.{InputEvent, KeyEventType, OutputEvent}
use keybinder.Machine.{StateMachineOutputEvent, Transition, State, find}
use keybinder.Mapper.{Environment, Mapper, now}
use keybinder.Mapper.Output.{queue_output, queue_binds, check_queued_events}

-- The event that an output names, or else the one behind the transition.
abbrev pub or_previous : Option InputEvent → Option InputEvent → Option InputEvent
or_previous (some e) prev_event = some e
or_previous none prev_event = prev_event

-- A key that no basic map knows goes out as it is; any other event is dropped.
unfoldable pub pass_through : Environment → InputEvent → Mapper → Mapper
unfolding queue_output
pass_through env (InputEvent.key e) m = queue_output env (OutputEvent.key e) 0 m
pass_through env (InputEvent.app e) m = m

unfoldable pub translate : Environment → InputEvent → Mapper → Result Mapper
unfolding pass_through queue_binds find
translate env e m = do
  basic_map ← at m.basic_maps m.cur_layer_idx
  elim (find env.qt e basic_map) [
    | some binds ↦ queue_binds env binds m
    | none ↦ ok (pass_through env e m)
  ]

-- The visitor of one output: the mapper, and `events_to_redo`.
unfoldable pub emit :
    Environment
    → Option InputEvent
    → StateMachineOutputEvent
    → Mapper
    → List InputEvent
    → Result (Mapper × List InputEvent)
unfolding translate queue_binds
emit env prev_event (StateMachineOutputEvent.process_input event) m redo =
    elim (or_previous event prev_event) [ none ↦ ok (m, redo) | some e ↦ ok (m, redo ++ e ∷ []) ]
emit env prev_event (StateMachineOutputEvent.basic_translation event) m redo =
    elim (or_previous event prev_event) [
      | none ↦ ok (m, redo)
      | some e ↦ (do m' ← translate env e m; ok (m', redo))
    ]
emit env prev_event (StateMachineOutputEvent.bind b) m redo = do
  m' ← queue_binds env (b ∷ []) m
  ok (m', redo)

unfoldable pub emit_all :
    Environment
    → Option InputEvent
    → List StateMachineOutputEvent
    → Mapper
    → List InputEvent
    → Result (Mapper × List InputEvent)
unfolding emit
emit_all env prev_event [] m redo = ok (m, redo)
emit_all env prev_event (o ∷ rest) m redo = do
  p ← emit env prev_event o m redo
  emit_all env prev_event rest p.0 p.1

-- The new state, and the timer, for which the clock is read only if there is one.
unfoldable pub enter : Environment → Transition → Mapper → Mapper
enter env t m = elim t.timer_ms [
  | none ↦ record m { cur_state_idx = t.new_state; current_timer = none }
  | some ms ↦ record m {
    cur_state_idx = t.new_state;
    current_timer = some ((ms + now env m) % 2 ^ 64);
    clock_reads = m.clock_reads + 1;
  }
]

unfoldable pub each :
    (InputEvent → Mapper → Result Mapper) → List InputEvent → Mapper → Result Mapper
each f [] m = ok m
each f (e ∷ rest) m = do m' ← f e m; each f rest m'

-- `apply_transition`, over the function that processes an event again.
unfoldable pub apply_with :
    (InputEvent → Mapper → Result Mapper)
    → Environment
    → Transition
    → Option InputEvent
    → Mapper
    → Result Mapper
unfolding enter emit_all each
apply_with process env t prev_event m = do
  p ← emit_all env prev_event t.outputs (enter env t m) []
  each process p.1 p.0

-- While paused a key goes straight to the daemon, and any other event nowhere. A key that a daemon has
-- read is one that it can send.
unfoldable pub forward : InputEvent → Mapper → Mapper
forward (InputEvent.key e) m = record m { sent = m.sent ++ (OutputEvent.key e ∷ []) ∷ [] }
forward (InputEvent.app e) m = m

-- `states.at(cur_layer_idx).at(cur_state_idx)`
unfoldable pub current_state : Mapper → Result State
current_state m = do layer ← at m.states m.cur_layer_idx; at layer m.cur_state_idx

abbrev pub chosen : Environment → State → InputEvent → Transition
chosen env s e = elim (find env.qt e s.edges) [ some t ↦ t | none ↦ s.fallback_transition ]

unfoldable pub process_input : ℕ → Environment → InputEvent → Mapper → Result Mapper
unfolding apply_with forward current_state find
process_input zero env e m = fail too_deep
process_input (suc depth) env e m =
    let continue = (do
      s ← current_state m
      apply_with (process_input depth env) env (chosen env s e) (some e) m) in
    if m.paused then ok (forward e m) else continue

unfoldable pub apply_transition :
    ℕ → Environment → Transition → Option InputEvent → Mapper → Result Mapper
unfolding apply_with process_input
apply_transition depth env t prev_event m = apply_with (process_input depth env) env t prev_event m

-- `current_timer && *current_timer <= current_time_ms() && cur_state.timer_transition`, and the
-- transition; the clock is read whenever a timer is set.
unfoldable pub expire_at : ℕ → Environment → Option ℕ → Option Transition → Mapper → Result Mapper
unfolding apply_transition
expire_at depth env none timer_transition m = ok m
expire_at depth env (some deadline) none m = ok (record m { clock_reads = m.clock_reads + 1 })
expire_at depth env (some deadline) (some t) m =
    let m' = record m { clock_reads = m.clock_reads + 1 } in
    if leb deadline (now env m) then apply_transition depth env t none m' else ok m'

unfoldable pub expire : ℕ → Environment → State → Mapper → Result Mapper
unfolding expire_at
expire depth env s m = expire_at depth env m.current_timer s.timer_transition m

unfoldable pub count_press : Bool → KeyEventType → KeyCode → Mapper → Mapper
count_press true KeyEventType.press code m = record m { counted = m.counted ++ code ∷ [] }
count_press _ _ code m = m

-- Only presses are counted, and only if the settings say so.
unfoldable pub count_key : Bool → InputEvent → Mapper → Mapper
unfolding count_press
count_key log_key_frequency (InputEvent.app e) m = m
count_key log_key_frequency (InputEvent.key e) m = count_press log_key_frequency e.type e.keycode m

unfoldable pub receive : ℕ → Environment → Bool → Option InputEvent → Mapper → Result Mapper
unfolding count_key process_input
receive depth env log_key_frequency none m = ok m
receive depth env log_key_frequency (some e) m = do
  m' ← process_input depth env e (count_key log_key_frequency e m)
  ok (record m' { processed_events_count = m'.processed_events_count + 1 })

-- A round of the loop of `start` as far as `check_queued_events`, with what `wait_key` returned and
-- the setting that it reads.
unfoldable pub take_in : ℕ → Environment → Bool → Option InputEvent → Mapper → Result Mapper
unfolding current_state expire receive
take_in depth env log_key_frequency key_opt m = do
  s ← current_state m
  m1 ← expire depth env s m
  receive depth env log_key_frequency key_opt m1

-- One round of the loop of `start`.
unfoldable pub round : ℕ → Environment → Bool → Option InputEvent → Mapper → Result Mapper
unfolding take_in check_queued_events
round depth env log_key_frequency key_opt m = do
  m2 ← take_in depth env log_key_frequency key_opt m
  check_queued_events env m2

-- The timeout of the next `wait_key`, in milliseconds.
unfoldable pub next_timeout : Mapper → ℕ
next_timeout m = elim m.current_timer [
  | some deadline ↦ 10
  | none ↦ elim m.queued_events [ [] ↦ 1000 | q ∷ rest ↦ 10 ]
]
