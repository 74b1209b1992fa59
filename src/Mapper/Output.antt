-- ===== src/Mapper/Output.antt =====
-- The outputs of common/src/mapper.cpp: `set_layer_inner`, `queue_binds`, `queue_output` and
-- `check_queued_events`.
use keybinder.Base.{
  ℕ, ◌+◌, ◌%◌, ◌^◌, Bool, true, ◌&&◌, ltb, List, [], ◌∷◌, ◌++◌, map, none, get_elem?, Result, ok,
  fail, throws, out_of_range, index_assert, ◌>>=◌, or_fail, if◌then◌else◌,
}
use keybinder.Profile.{Bind}
use keybinder.Event.{KeyEventType, OutputEvent}
use keybinder.Machine.{home_state_idx}
use keybinder.Mapper.{Item, Environment, Mapper, now}

-- The layer's name is looked up only for the callback; nothing checks the index otherwise.
unfoldable pub set_layer_inner : Environment → ℕ → Mapper → Result Mapper
set_layer_inner env new_layer m =
    let m' = record m {
      cur_layer_idx = new_layer;
      cur_state_idx = home_state_idx;
      current_timer = none;
    } in
    if env.has_callback
    then (do
      layer ← or_fail (get_elem? m'.profile.layers new_layer) (throws index_assert)
      ok (record m' { announced = m'.announced ++ layer.layer_name ∷ [] }))
    else ok m'

-- The sum is taken in `uint64_t`.
unfoldable pub queue_output : Environment → OutputEvent → ℕ → Mapper → Mapper
queue_output env e delay m = record m {
  queued_events = m.queued_events ++ ((now env m + delay) % 2 ^ 64, e) ∷ [];
  clock_reads = m.clock_reads + 1;
}

-- The visitor of one bind, with the local `delay_ms`.
unfoldable pub queue_bind : Environment → Bind → ℕ → Mapper → Result (ℕ × Mapper)
unfolding queue_output set_layer_inner
queue_bind env (Bind.press_key code) delay_ms m = ok (
  delay_ms,
  queue_output env (OutputEvent.key (record { keycode = code; type = KeyEventType.press })) delay_ms
      m,
)
queue_bind env (Bind.release_key code) delay_ms m = ok (
  delay_ms,
  queue_output env (OutputEvent.key (record { keycode = code; type = KeyEventType.release }))
      delay_ms m,
)
queue_bind env (Bind.swap_layer new_layer) delay_ms m = do
  m' ← set_layer_inner env new_layer m
  ok (delay_ms, m')
queue_bind env (Bind.wait ms) delay_ms m = ok ((delay_ms + ms) % 2 ^ 64, m)
queue_bind env (Bind.run_script s) delay_ms m =
    ok (delay_ms, queue_output env (OutputEvent.script s) delay_ms m)

unfoldable pub queue_from : Environment → List Bind → ℕ → Mapper → Result Mapper
unfolding queue_bind
queue_from env [] delay_ms m = ok m
queue_from env (b ∷ rest) delay_ms m = do
  p ← queue_bind env b delay_ms m
  queue_from env rest p.0 p.1

unfoldable pub queue_binds : Environment → List Bind → Mapper → Result Mapper
unfolding queue_from
queue_binds env binds m = queue_from env binds 0 m

abbrev pub is_pending : ℕ → Item → Bool
is_pending cur_time item = ltb cur_time item.0

abbrev pub event_of : Item → OutputEvent
event_of item = item.1

-- The items from `mid` on are sent in one call, and the others stay.
unfoldable pub send_ready : List Item → List Item → Mapper → Mapper
send_ready waiting [] m = record m { queued_events = waiting }
send_ready waiting (r ∷ ready) m = record m {
  queued_events = waiting;
  sent = m.sent ++ map event_of (r ∷ ready) ∷ [];
}

-- Whether the daemon can send what these items hold.
unfoldable pub all_sendable : Environment → List Item → Bool
all_sendable env [] = true
all_sendable env (q ∷ rest) = env.can_send (event_of q) && all_sendable env rest

-- The exception of `send_outputs` leaves before the queue is cut. It ends the mapper's thread, so what
-- the daemon had sent until then is not recorded.
unfoldable pub check_items : Environment → List Item → Mapper → Result Mapper
unfolding send_ready all_sendable
check_items env [] m = ok m
check_items env (q ∷ rest) m =
    let parts = env.partition.split (is_pending (now env m)) (q ∷ rest) in
    if all_sendable env parts.1
    then ok (send_ready parts.0 parts.1 (record m { clock_reads = m.clock_reads + 1 }))
    else fail (throws out_of_range)

unfoldable pub check_queued_events : Environment → Mapper → Result Mapper
unfolding check_items
check_queued_events env m = check_items env m.queued_events m
