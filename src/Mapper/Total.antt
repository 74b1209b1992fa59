-- ===== src/Mapper/Total.antt =====
-- Where no transition puts out an event to process again, `process_input` (common/src/mapper.cpp) does
-- not call itself, and the mapper's rounds return.
use keybinder.Base.{
  ℕ, suc, refl, Bool, true, List, [], ◌∷◌, Option, none, some, All, Result, ok, fail, nullopt, ◌+◌,
  too_deep, throws, at, Option-cases, inl, inr, leb, IfOk, ◌≢◌, ◌>>=◌,
}
use keybinder.QtText.{QtText}
use keybinder.Profile.{Bind, Layer, SequenceBehavior, SequenceTrigger}
use keybinder.Event.{InputEvent, KeyEventType}
use keybinder.KeyCode.{KeyCode}
use keybinder.Machine.{StateMachineOutputEvent, Transition, State, find}
use keybinder.Machine.Build.{Memory}
use keybinder.Machine.Generate.{generate_states}
use keybinder.Machine.Outputs.{TransitionAll, TimerAll, StateAll, Allows}
use keybinder.Machine.Outputs.Generated.{generate_states-All}
use keybinder.Mapper.{Environment, Item, Mapper}
use keybinder.Mapper.Output.{send_ready, check_queued_events}
use keybinder.Mapper.Process.{
  emit_all, enter, each, apply_with, forward, current_state, chosen, process_input,
  apply_transition, expire_at, expire, count_press, count_key, receive, take_in, round,
}
use keybinder.Mapper.Valid.{IsValid, Safe}
use keybinder.Mapper.Safety.{find-All}
use keybinder.Mapper.Rounds.{RoundEnds, send_ready-IsValid, check_queued_events-Ends, take_in-Safe}
use keybinder.Mapper.Quiet.{
  IsQuiet, NoReplay, Shallow, Shallow-bind, Shallow-if, at-Shallow, Done, emit_all-Shallow,
}

module _ (env : Environment) where
  enter-NoReplay : (t : Transition) (m : Mapper) → NoReplay m → NoReplay (enter env t m)
  unfolding enter
  enter-NoReplay t m h = elim (Option-cases t.timer_ms) [ inl e ↦ rw e h | inr (ms, e) ↦ rw e h ]

  apply_with-Shallow :
      (f : InputEvent → Mapper → Result Mapper) (t : Transition) (prev_event : Option InputEvent)
      (m : Mapper)
      → TransitionAll IsQuiet t
      → NoReplay m
      → Shallow NoReplay (apply_with f env t prev_event m)
  unfolding apply_with each
  apply_with-Shallow f t prev_event m q h =
      Shallow-bind (Done []) NoReplay (emit_all env prev_event t.outputs (enter env t m) []) _
        (emit_all-Shallow env prev_event t.outputs (enter env t m) [] q (enter-NoReplay t m h))
        (λ p d. rw d.1 d.0)

  current_state-Shallow : (m : Mapper) → NoReplay m → Shallow (StateAll IsQuiet) (current_state m)
  unfolding current_state
  current_state-Shallow m h =
      Shallow-bind (λ machine. All (StateAll IsQuiet) machine) (StateAll IsQuiet)
        (at m.states m.cur_layer_idx) _
        (at-Shallow (λ machine. All (StateAll IsQuiet) machine) m.states m.cur_layer_idx h)
        (λ machine k. at-Shallow (StateAll IsQuiet) machine m.cur_state_idx k)

  chosen-Quiet :
      (s : State) (e : InputEvent) → StateAll IsQuiet s → TransitionAll IsQuiet (chosen env s e)
  chosen-Quiet s e h = elim (Option-cases (find env.qt e s.edges)) [
    | inl absent ↦ rw (absent, chosen) h.fallback_all
    | inr (t, present) ↦
        rw (present, chosen) (find-All (TransitionAll IsQuiet) env.qt e s.edges present h.edges_all)
  ]

  forward-NoReplay : (e : InputEvent) (m : Mapper) → NoReplay m → NoReplay (forward e m)
  unfolding forward
  forward-NoReplay (InputEvent.app e) m h = h
  forward-NoReplay (InputEvent.key e) m h = h

  process_input-Shallow :
      (depth : ℕ) (e : InputEvent) (m : Mapper)
      → NoReplay m
      → Shallow NoReplay (process_input (suc depth) env e m)
  unfolding process_input
  process_input-Shallow depth e m h =
      Shallow-if m.paused (ok (forward e m)) _ (forward-NoReplay e m h) (
        Shallow-bind (StateAll IsQuiet) NoReplay (current_state m) _ (current_state-Shallow m h)
          (λ s q.
            apply_with-Shallow (process_input depth env) (chosen env s e) (some e) m
              (chosen-Quiet s e q) h))

  expire_at-Shallow :
      (depth : ℕ) (timer : Option ℕ) (o : Option Transition) (m : Mapper)
      → TimerAll IsQuiet o
      → NoReplay m
      → Shallow NoReplay (expire_at depth env timer o m)
  unfolding expire_at apply_transition
  expire_at-Shallow depth none o m q h = h
  expire_at-Shallow depth (some deadline) none m q h = h
  expire_at-Shallow depth (some deadline) (some t) m q h =
      Shallow-if (leb deadline _) _ _
        (apply_with-Shallow (process_input depth env) t none
          (record m { clock_reads = m.clock_reads + 1 }) q h)
        h

  count_key-NoReplay :
      (log : Bool) (e : InputEvent) (m : Mapper) → NoReplay m → NoReplay (count_key log e m)
  unfolding count_key count_press
  count_key-NoReplay log (InputEvent.app e) m h = h
  count_key-NoReplay log (InputEvent.key e) m h = counted log e.type e.keycode m h
    where
      counted :
          (log : Bool) (type : KeyEventType) (code : KeyCode) (m : Mapper)
          → NoReplay m
          → NoReplay (count_press log type code m)
      counted true KeyEventType.press code m h = h
      counted _ _ code m h = h

  receive-Shallow :
      (depth : ℕ) (log : Bool) (o : Option InputEvent) (m : Mapper)
      → NoReplay m
      → Shallow NoReplay (receive (suc depth) env log o m)
  unfolding receive
  receive-Shallow depth log none m h = h
  receive-Shallow depth log (some e) m h =
      Shallow-bind NoReplay NoReplay (process_input (suc depth) env e (count_key log e m)) _
        (process_input-Shallow depth e (count_key log e m) (count_key-NoReplay log e m h))
        (λ m' k. k)

  send_ready-NoReplay :
      (waiting ready : List Item) (reads : ℕ) (m : Mapper)
      → NoReplay m
      → NoReplay (send_ready waiting ready (record m { clock_reads = reads }))
  unfolding send_ready
  send_ready-NoReplay waiting [] reads m h = h
  send_ready-NoReplay waiting (r ∷ ready) reads m h = h

  take_in-Shallow :
      (depth : ℕ) (log : Bool) (o : Option InputEvent) (m : Mapper)
      → NoReplay m
      → Shallow NoReplay (take_in (suc depth) env log o m)
  unfolding take_in expire
  take_in-Shallow depth log o m h =
      Shallow-bind (StateAll IsQuiet) NoReplay (current_state m) _ (current_state-Shallow m h)
        λ s q.
          Shallow-bind NoReplay NoReplay (expire (suc depth) env s m) _
            (expire_at-Shallow (suc depth) m.current_timer s.timer_transition m q.timer_all h)
            (receive-Shallow depth log o)

-- A round that neither throws nor nests too deep before it checks the queue.
returned :
    (n : ℕ) (env : Environment) (r : Result Mapper)
    → Safe (IsValid n) r
    → Shallow NoReplay r
    → RoundEnds (λ m. IsValid n m × NoReplay m) ⊥ env r (do m2 ← r; check_queued_events env m2)
returned n env (ok m) v h =
    check_queued_events-Ends (λ m. IsValid n m × NoReplay m) ⊥ env (ok m) m refl (v, h)
      (λ waiting ready reads. (
        send_ready-IsValid n env waiting ready reads m v,
        send_ready-NoReplay env waiting ready reads m h,
      ))
returned n env (fail too_deep) v h = h
returned n env (fail nullopt) v h = v
returned n env (fail (throws e)) v h = absurd v

-- On a valid mapper none of whose transitions puts out an event to process again, a round of the loop of
-- `start` comes to an end, whether its timer expires or not and whether a key came or not: the mapper
-- that it leaves is valid and of the same kind, or a due item holds an event that the daemon cannot
-- send, and the daemon's `out_of_range` leaves the round.
pub round_total :
    (n : ℕ) (env : Environment) (depth : ℕ) (log : Bool) (key_opt : Option InputEvent) (m : Mapper)
    → IsValid n m
    → NoReplay m
    → RoundEnds
        (λ m'. IsValid n m' × NoReplay m')
        ⊥
        env
        (take_in (suc depth) env log key_opt m)
        (round (suc depth) env log key_opt m)
unfolding round
round_total n env depth log key_opt m v h =
    returned n env (take_in (suc depth) env log key_opt m)
      (take_in-Safe n env (suc depth) log key_opt m v) (take_in-Shallow env depth log key_opt m h)

Allows-IsQuiet :
    (s : SequenceBehavior) (bs : List Bind) → s ≢ SequenceBehavior.default → Allows IsQuiet s bs
Allows-IsQuiet s bs h = record { translated = λ o. tt; again = λ e x. h e; bound = quiet_binds bs }
  where
    quiet_binds : (bs : List Bind) → All (λ b. IsQuiet (StateMachineOutputEvent.bind b)) bs
    quiet_binds [] = tt
    quiet_binds (b ∷ rest) = (tt, quiet_binds rest)

All-IsQuiet :
    (ss : List SequenceTrigger)
    → All (λ s. s.behavior ≢ SequenceBehavior.default) ss
    → All (λ s. Allows IsQuiet s.behavior s.binds) ss
All-IsQuiet [] h = tt
All-IsQuiet (s ∷ rest) h = (Allows-IsQuiet s.behavior s.binds h.0, All-IsQuiet rest h.1)

-- A layer all of whose sequences capture or release gives a machine in which no transition puts out an
-- event to process again.
pub generate_states-IsQuiet :
    (qt : QtText) (memory : Memory) (layer : Layer)
    → All (λ s. s.behavior ≢ SequenceBehavior.default) layer.sequence_remappings
    → IfOk (λ machine. All (StateAll IsQuiet) machine) (generate_states qt memory layer)
generate_states-IsQuiet qt memory layer h =
    generate_states-All IsQuiet qt memory layer tt (All-IsQuiet layer.sequence_remappings h)
