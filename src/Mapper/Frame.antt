-- ===== src/Mapper/Frame.antt =====
-- What a round of the mapper's loop (common/src/mapper.cpp) leaves alone: the profile and its tables, and
-- the flags that other threads set.
use keybinder.Base.{
  ℕ, zero, suc, ◌+◌, ◌%◌, ◌^◌, ◌≡◌, refl, ◌∙◌, Bool, true, false, leb, List, [], ◌∷◌, Option, none,
  some, get_elem?, Result, ok, fail, throws, out_of_range, index_assert, at, or_fail, IfOk,
  IfOk-bind, IfOk-map, IfOk-any, IfOk-if,
}
use keybinder.Profile.{Bind, Profile}
use keybinder.Event.{InputEvent, KeyEventType}
use keybinder.KeyCode.{KeyCode}
use keybinder.Machine.{StateMachineOutputEvent, Transition, State, find}
use keybinder.Mapper.{Environment, Item, Mapper, now}
use keybinder.Mapper.Output.{
  set_layer_inner, queue_output, queue_bind, queue_from, queue_binds, send_ready, is_pending,
  all_sendable, check_items, check_queued_events,
}
use keybinder.Mapper.Process.{
  pass_through, translate, emit, emit_all, enter, each, apply_with, forward, current_state, chosen,
  process_input, apply_transition, expire_at, expire, count_press, count_key, receive, take_in,
  round,
}

-- The members that are set only by calls from other threads.
pub record Settled : Type 0 where
  pub profile : Profile
  pub states : List (List State)
  pub basic_maps : List (List (InputEvent × List Bind))
  pub paused : Bool
  pub stopped : Bool

abbrev pub settled : Mapper → Settled
settled m = record {
  profile = m.profile;
  states = m.states;
  basic_maps = m.basic_maps;
  paused = m.paused;
  stopped = m.stopped;
}

abbrev pub Frame : Mapper → Mapper → Type 0
Frame m m' = settled m' ≡ settled m

-- A step, and what comes behind it.
then_Frame : (a b : Mapper) (r : Result Mapper) → Frame a b → IfOk (Frame b) r → IfOk (Frame a) r
then_Frame a b r f h = IfOk-map (Frame b) (Frame a) r h (λ c g. g ∙ f)

module _ (env : Environment) where
  set_layer_inner-Frame : (i : ℕ) (m : Mapper) → IfOk (Frame m) (set_layer_inner env i m)
  unfolding set_layer_inner
  set_layer_inner-Frame i m =
      IfOk-if (Frame m) env.has_callback _ _
        (λ has.
          IfOk-bind (λ l. Unit {0}) (Frame m)
            (or_fail (get_elem? m.profile.layers i) (throws index_assert)) _
            (IfOk-any (or_fail (get_elem? m.profile.layers i) (throws index_assert))) (λ l u. refl))
        (λ none. refl)

  queue_bind-Frame :
      (b : Bind) (d : ℕ) (m : Mapper) → IfOk (λ p. Frame m p.1) (queue_bind env b d m)
  unfolding queue_bind queue_output
  queue_bind-Frame (Bind.press_key code) d m = refl
  queue_bind-Frame (Bind.release_key code) d m = refl
  queue_bind-Frame (Bind.run_script s) d m = refl
  queue_bind-Frame (Bind.wait ms) d m = refl
  queue_bind-Frame (Bind.swap_layer i) d m =
      IfOk-bind (Frame m) (λ p. Frame m p.1) (set_layer_inner env i m) _ (set_layer_inner-Frame i m)
        (λ m' f. f)

  queue_from-Frame : (bs : List Bind) (d : ℕ) (m : Mapper) → IfOk (Frame m) (queue_from env bs d m)
  unfolding queue_from
  queue_from-Frame [] d m = refl
  queue_from-Frame (b ∷ rest) d m =
      IfOk-bind (λ p. Frame m p.1) (Frame m) (queue_bind env b d m) _ (queue_bind-Frame b d m)
        (λ p f. then_Frame m p.1 _ f (queue_from-Frame rest p.0 p.1))

  queue_binds-Frame : (bs : List Bind) (m : Mapper) → IfOk (Frame m) (queue_binds env bs m)
  unfolding queue_binds
  queue_binds-Frame bs m = queue_from-Frame bs 0 m

  pass_through-Frame : (e : InputEvent) (m : Mapper) → Frame m (pass_through env e m)
  unfolding pass_through queue_output
  pass_through-Frame (InputEvent.key e) m = refl
  pass_through-Frame (InputEvent.app e) m = refl

  translated :
      (e : InputEvent) (o : Option (List Bind)) (m : Mapper)
      → IfOk
          (Frame m)
          (elim o [ some binds ↦ queue_binds env binds m | none ↦ ok (pass_through env e m) ])
  translated e none m = pass_through-Frame e m
  translated e (some binds) m = queue_binds-Frame binds m

  translate-Frame : (e : InputEvent) (m : Mapper) → IfOk (Frame m) (translate env e m)
  unfolding translate
  translate-Frame e m =
      IfOk-bind (λ bm. Unit {0}) (Frame m) (at m.basic_maps m.cur_layer_idx) _
        (IfOk-any (at m.basic_maps m.cur_layer_idx)) (λ bm u. translated e (find env.qt e bm) m)

  abbrev Kept : Mapper → Result (Mapper × List InputEvent) → Type 0
  Kept m r = IfOk (λ p. Frame m p.0) r

  emit-Frame :
      (prev : Option InputEvent) (o : StateMachineOutputEvent) (m : Mapper) (redo : List InputEvent)
      → Kept m (emit env prev o m redo)
  unfolding emit
  emit-Frame (some p) (StateMachineOutputEvent.process_input none) m redo = refl
  emit-Frame none (StateMachineOutputEvent.process_input none) m redo = refl
  emit-Frame prev (StateMachineOutputEvent.process_input (some e)) m redo = refl
  emit-Frame none (StateMachineOutputEvent.basic_translation none) m redo = refl
  emit-Frame (some p) (StateMachineOutputEvent.basic_translation none) m redo =
      IfOk-bind (Frame m) (λ q. Frame m q.0) (translate env p m) _ (translate-Frame p m) (λ m' f. f)
  emit-Frame prev (StateMachineOutputEvent.basic_translation (some e)) m redo =
      IfOk-bind (Frame m) (λ q. Frame m q.0) (translate env e m) _ (translate-Frame e m) (λ m' f. f)
  emit-Frame prev (StateMachineOutputEvent.bind b) m redo =
      IfOk-bind (Frame m) (λ q. Frame m q.0) (queue_binds env (b ∷ []) m) _
        (queue_binds-Frame (b ∷ []) m) (λ m' f. f)

  emit_all-Frame :
      (prev : Option InputEvent) (os : List StateMachineOutputEvent) (m : Mapper)
      (redo : List InputEvent)
      → Kept m (emit_all env prev os m redo)
  unfolding emit_all
  emit_all-Frame prev [] m redo = refl
  emit_all-Frame prev (o ∷ rest) m redo =
      IfOk-bind (λ p. Frame m p.0) (λ p. Frame m p.0) (emit env prev o m redo) _
        (emit-Frame prev o m redo)
        (λ p f.
          IfOk-map (λ q. Frame p.0 q.0) (λ q. Frame m q.0) (emit_all env prev rest p.0 p.1)
            (emit_all-Frame prev rest p.0 p.1) (λ q g. g ∙ f))

  enter-Frame : (t : Transition) (m : Mapper) → Frame m (enter env t m)
  unfolding enter
  enter-Frame t m =
      elim t.timer_ms
        as (λ o. Frame m (elim o [
          | none ↦ record m { cur_state_idx = t.new_state; current_timer = none }
          | some ms ↦ record m {
            cur_state_idx = t.new_state;
            current_timer = some ((ms + now env m) % 2 ^ 64);
            clock_reads = m.clock_reads + 1;
          }
        ])) [ none ↦ refl | some ms ↦ refl ]

  each-Frame :
      (f : InputEvent → Mapper → Result Mapper) (es : List InputEvent) (m : Mapper)
      → ((e : InputEvent) (m : Mapper) → IfOk (Frame m) (f e m))
      → IfOk (Frame m) (each f es m)
  unfolding each
  each-Frame f [] m h = refl
  each-Frame f (e ∷ rest) m h =
      IfOk-bind (Frame m) (Frame m) (f e m) _ (h e m)
        (λ m' g. then_Frame m m' _ g (each-Frame f rest m' h))

  apply_with-Frame :
      (f : InputEvent → Mapper → Result Mapper) (t : Transition) (prev : Option InputEvent)
      (m : Mapper)
      → ((e : InputEvent) (m : Mapper) → IfOk (Frame m) (f e m))
      → IfOk (Frame m) (apply_with f env t prev m)
  unfolding apply_with
  apply_with-Frame f t prev m h = then_Frame m (enter env t m) _ (enter-Frame t m) (
      IfOk-bind (λ p. Frame (enter env t m) p.0) (Frame (enter env t m))
        (emit_all env prev t.outputs (enter env t m) []) _
        (emit_all-Frame prev t.outputs (enter env t m) [])
        (λ p g. then_Frame (enter env t m) p.0 _ g (each-Frame f p.1 p.0 h)))

  process_input-Frame :
      (depth : ℕ) (e : InputEvent) (m : Mapper) → IfOk (Frame m) (process_input depth env e m)
  unfolding process_input forward
  process_input-Frame zero e m = tt
  process_input-Frame (suc depth) e m =
      IfOk-if (Frame m) m.paused _ _ (λ paused. forwarded e)
        (λ awake.
          IfOk-bind (λ s. Unit {0}) (Frame m) (current_state m) _ (IfOk-any (current_state m))
            (λ s u.
              apply_with-Frame (process_input depth env) (chosen env s e) (some e) m
                (process_input-Frame depth)))
    where
      forwarded : (e : InputEvent) → Frame m (forward e m)
      forwarded (InputEvent.key e) = refl
      forwarded (InputEvent.app e) = refl

  expire_at-Frame :
      (depth : ℕ) (timer : Option ℕ) (o : Option Transition) (m : Mapper)
      → IfOk (Frame m) (expire_at depth env timer o m)
  unfolding expire_at apply_transition
  expire_at-Frame depth none o m = refl
  expire_at-Frame depth (some deadline) none m = refl
  expire_at-Frame depth (some deadline) (some t) m =
      let m' = record m { clock_reads = m.clock_reads + 1 } in
      IfOk-if (Frame m) (leb deadline (now env m)) _ _
        (λ due.
          then_Frame m m' _ refl
            (apply_with-Frame (process_input depth env) t none m' (process_input-Frame depth)))
        (λ early. refl)

  count_press-Frame :
      (log : Bool) (type : KeyEventType) (code : KeyCode) (m : Mapper)
      → Frame m (count_press log type code m)
  unfolding count_press
  count_press-Frame true KeyEventType.press code m = refl
  count_press-Frame true KeyEventType.release code m = refl
  count_press-Frame false type code m = refl

  count_key-Frame : (log : Bool) (e : InputEvent) (m : Mapper) → Frame m (count_key log e m)
  unfolding count_key
  count_key-Frame log (InputEvent.app e) m = refl
  count_key-Frame log (InputEvent.key e) m = count_press-Frame log e.type e.keycode m

  receive-Frame :
      (depth : ℕ) (log : Bool) (o : Option InputEvent) (m : Mapper)
      → IfOk (Frame m) (receive depth env log o m)
  unfolding receive
  receive-Frame depth log none m = refl
  receive-Frame depth log (some e) m =
      then_Frame m (count_key log e m) _ (count_key-Frame log e m) (
        IfOk-bind (Frame (count_key log e m)) (Frame (count_key log e m))
          (process_input depth env e (count_key log e m)) _
          (process_input-Frame depth e (count_key log e m)) (λ m' f. f))

  sent-Frame :
      (waiting ready : List Item) (reads : ℕ) (m : Mapper)
      → Frame m (send_ready waiting ready (record m { clock_reads = reads }))
  unfolding send_ready
  sent-Frame waiting [] reads m = refl
  sent-Frame waiting (r ∷ ready) reads m = refl

  checked : (queue : List Item) (m : Mapper) → IfOk (Frame m) (check_items env queue m)
  unfolding check_items
  checked [] m = refl
  checked (q ∷ rest) m =
      let parts = env.partition.split (is_pending (now env m)) (q ∷ rest) in
      IfOk-if (Frame m) (all_sendable env parts.1)
        (ok (send_ready parts.0 parts.1 (record m { clock_reads = m.clock_reads + 1 })))
        (fail (throws out_of_range)) (λ sent. sent-Frame parts.0 parts.1 (m.clock_reads + 1) m)
        (λ refused. tt)

  -- A round of the loop of `start` that returns has changed neither the profile nor the tables made of
  -- it, nor whether the mapper is paused or stopped, whatever it has read and however deep its calls
  -- were.
  pub round-Frame :
      (depth : ℕ) (log : Bool) (key_opt : Option InputEvent) (m : Mapper)
      → IfOk (Frame m) (round depth env log key_opt m)
  unfolding round take_in expire check_queued_events
  round-Frame depth log key_opt m =
      IfOk-bind (Frame m) (Frame m) (take_in depth env log key_opt m) _
        (IfOk-bind (λ s. Unit {0}) (Frame m) (current_state m) _ (IfOk-any (current_state m))
          λ s u.
            IfOk-bind (Frame m) (Frame m) (expire_at depth env m.current_timer s.timer_transition m)
              _ (expire_at-Frame depth m.current_timer s.timer_transition m)
              λ m1 f. then_Frame m m1 _ f (receive-Frame depth log key_opt m1))
        (λ m2 g. then_Frame m m2 _ g (checked m2.queued_events m2))
