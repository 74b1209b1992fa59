-- ===== src/Mapper/Rounds.antt =====
-- One round of the loop of `start` (common/src/mapper.cpp) on a valid mapper.
use keybinder.Base.{
  ℕ, ◌+◌, ◌≡◌, refl, subst, Bool, true, false, leb, List, [], ◌∷◌, Option, none, some, length,
  Result, ok, fail, too_deep, nullopt, throws, out_of_range, if◌then◌else◌, ◌>>=◌,
}
use keybinder.Event.{InputEvent, KeyEventType}
use keybinder.Machine.{Transition, State}
use keybinder.Machine.WellFormed.{TimerTarget}
use keybinder.Machine.Outputs.{TimerAll}
use keybinder.KeyCode.{KeyCode}
use keybinder.Mapper.{Item, Environment, Mapper, now}
use keybinder.Mapper.Output.{all_sendable, is_pending, check_queued_events, check_items, send_ready}
use keybinder.Mapper.Delivery.{Refused, Checked, check_queued_events-Delivers}
use keybinder.Mapper.Process.{
  current_state, count_press, process_input, apply_transition, expire, expire_at, count_key,
  receive, take_in, round,
}
use keybinder.Mapper.Valid.{OutputFits, IsValid, Safe, Safe-bind}
use keybinder.Mapper.Safety.{
  elsewhere, Safe-if, StateFits, StateIn-elim, Fits, apply_with-Safe, process_input-Safe,
  current_state-Safe,
}

module _ (n : ℕ) (env : Environment) where
  with_reads : (m : Mapper) (reads : ℕ) → IsValid n m → IsValid n (record m { clock_reads = reads })
  with_reads m reads v =
      elsewhere n env m m.queued_events m.sent reads m.counted m.processed_events_count v

  expire_at-Safe :
      (depth : ℕ) (timer : Option ℕ) (o : Option Transition) (m : Mapper)
      → ((t : Transition) → o ≡ some t → Fits n env m t)
      → IsValid n m
      → Safe (IsValid n) (expire_at depth env timer o m)
  unfolding expire_at apply_transition
  expire_at-Safe depth none o m fits v = v
  expire_at-Safe depth (some deadline) none m fits v = with_reads m (m.clock_reads + 1) v
  expire_at-Safe depth (some deadline) (some t) m fits v =
      let later = with_reads m (m.clock_reads + 1) v in
      Safe-if n env (leb deadline (now env m)) _ _
        (apply_with-Safe n env (process_input depth env) t none
          (record m { clock_reads = m.clock_reads + 1 }) (process_input-Safe n env depth)
          (fits t refl) later)
        later

  timer-Fits :
      (m : Mapper) (s : State) (t : Transition)
      → StateFits n env m s
      → s.timer_transition ≡ some t
      → Fits n env m t
  timer-Fits m s t (machine, found, ok_s, all_s) e = (
    (StateIn-elim n env m machine t.new_state found).1
        (subst (TimerTarget (length machine)) e ok_s.timer_ok),
    subst (TimerAll (OutputFits n)) e all_s.timer_all,
  )

  count_press-IsValid :
      (log : Bool) (type : KeyEventType) (code : KeyCode) (m : Mapper)
      → IsValid n m
      → IsValid n (count_press log type code m)
  unfolding count_press
  count_press-IsValid true KeyEventType.press code m v =
      elsewhere n env m m.queued_events m.sent m.clock_reads _ m.processed_events_count v
  count_press-IsValid _ _ code m v = v

  count_key-IsValid :
      (log : Bool) (e : InputEvent) (m : Mapper) → IsValid n m → IsValid n (count_key log e m)
  unfolding count_key
  count_key-IsValid log (InputEvent.app e) m v = v
  count_key-IsValid log (InputEvent.key e) m v = count_press-IsValid log e.type e.keycode m v

  receive-Safe :
      (depth : ℕ) (log : Bool) (o : Option InputEvent) (m : Mapper)
      → IsValid n m
      → Safe (IsValid n) (receive depth env log o m)
  unfolding receive
  receive-Safe depth log none m v = v
  receive-Safe depth log (some e) m v =
      Safe-bind (IsValid n) (IsValid n) (process_input depth env e (count_key log e m)) _
        (process_input-Safe n env depth e (count_key log e m) (count_key-IsValid log e m v))
        (λ m' w.
          elsewhere n env m' m'.queued_events m'.sent m'.clock_reads m'.counted
            (m'.processed_events_count + 1) w)

  pub send_ready-IsValid :
      (waiting ready : List Item) (reads : ℕ) (m : Mapper)
      → IsValid n m
      → IsValid n (send_ready waiting ready (record m { clock_reads = reads }))
  unfolding send_ready
  send_ready-IsValid waiting [] reads m v =
      elsewhere n env m waiting m.sent reads m.counted m.processed_events_count v
  send_ready-IsValid waiting (r ∷ ready) reads m v =
      elsewhere n env m waiting _ reads m.counted m.processed_events_count v

  pub take_in-Safe :
      (depth : ℕ) (log : Bool) (key_opt : Option InputEvent) (m : Mapper)
      → IsValid n m
      → Safe (IsValid n) (take_in depth env log key_opt m)
  unfolding take_in expire
  take_in-Safe depth log key_opt m v =
      Safe-bind (StateFits n env m) (IsValid n) (current_state m) _ (current_state-Safe n env m v)
        λ s fits.
          Safe-bind (IsValid n) (IsValid n) (expire depth env s m) _
            (expire_at-Safe depth m.current_timer s.timer_transition m
              (λ t e. timer-Fits m s t fits e) v)
            (receive-Safe depth log key_opt)

-- How a round ends, after it has taken in `r`: it leaves such a mapper, it nests deeper than the fuel,
-- where that is allowed, or the daemon throws `out_of_range` for a due item that it cannot send.
abbrev pub RoundEnds :
    (Mapper → Type 0) → Type 0 → Environment → Result Mapper → Result Mapper → Type 0
RoundEnds P deeper env r (ok m) = P m
RoundEnds P deeper env r (fail too_deep) = deeper
RoundEnds P deeper env r (fail (throws out_of_range)) = (m2 : Mapper) × (r ≡ ok m2) × Refused env m2
RoundEnds P deeper env r (fail _) = ⊥

-- What holds behind `send_ready` too holds after the check of the queue.
module _ (P : Mapper → Type 0) (deeper : Type 0) (env : Environment) where
  check_items-Ends :
      (queue : List Item) (r : Result Mapper) (m : Mapper)
      → r ≡ ok m
      → P m
      → ((waiting ready : List Item) (reads : ℕ)
          → P (send_ready waiting ready (record m { clock_reads = reads })))
      → Checked env m (check_items env queue m)
      → RoundEnds P deeper env r (check_items env queue m)
  unfolding check_items
  check_items-Ends [] r m e p sent c = p
  check_items-Ends (q ∷ rest) r m e p sent c =
      let parts = env.partition.split (is_pending (now env m)) (q ∷ rest) in
      chosen (all_sendable env parts.1) (sent parts.0 parts.1 (m.clock_reads + 1)) c
    where
      chosen :
          (b : Bool) {m' : Mapper}
          → P m'
          → Checked env m (if b then ok m' else fail (throws out_of_range))
          → RoundEnds P deeper env r (if b then ok m' else fail (throws out_of_range))
      chosen true p' c = p'
      chosen false p' c = (m, e, c)

  pub check_queued_events-Ends :
      (r : Result Mapper) (m : Mapper)
      → r ≡ ok m
      → P m
      → ((waiting ready : List Item) (reads : ℕ)
          → P (send_ready waiting ready (record m { clock_reads = reads })))
      → RoundEnds P deeper env r (check_queued_events env m)
  unfolding check_queued_events
  check_queued_events-Ends r m e p sent =
      check_items-Ends m.queued_events r m e p sent (check_queued_events-Delivers env m)

safe_to_check :
    (n : ℕ) (env : Environment) (r : Result Mapper)
    → Safe (IsValid n) r
    → RoundEnds (IsValid n) (Unit {0}) env r (do m2 ← r; check_queued_events env m2)
safe_to_check n env (ok m) v =
    check_queued_events-Ends (IsValid n) (Unit {0}) env (ok m) m refl v
      (λ waiting ready reads. send_ready-IsValid n env waiting ready reads m v)
safe_to_check n env (fail too_deep) v = tt
safe_to_check n env (fail nullopt) v = v
safe_to_check n env (fail (throws e)) v = absurd v

-- For every fuel, a round of the loop of `start` on a valid mapper, with or without a key, leaves a
-- valid mapper, or its calls nest deeper than the fuel; what it throws is the daemon's `out_of_range`
-- for a due item that it cannot send, and nothing else.
pub round-Safe :
    (n : ℕ) (env : Environment) (depth : ℕ) (log : Bool) (key_opt : Option InputEvent) (m : Mapper)
    → IsValid n m
    → RoundEnds
        (IsValid n)
        (Unit {0})
        env
        (take_in depth env log key_opt m)
        (round depth env log key_opt m)
unfolding round
round-Safe n env depth log key_opt m v =
    safe_to_check n env (take_in depth env log key_opt m) (take_in-Safe n env depth log key_opt m v)
