-- ===== src/Mapper/Typing.antt =====
-- A sequence typed on the mapper (common/src/mapper.cpp): its binds are queued.
pub mod Outputs
pub mod Loaded
use mathlib.Core.List.{append_assoc, append-nil}
use keybinder.Base.{
  ℕ, suc, ◌+◌, ◌≡◌, refl, sym, ap, ◌∙◌, subst, Bool, false, List, [], ◌∷◌, ◌++◌, map, Option, none,
  some, get_elem?, throws, out_of_range, or_fail, Returns, Returns-map, Result, ok, at, ◌>>=◌,
  Option-cases, inl, inr, if◌then◌else◌,
}
use keybinder.Profile.{AdvancedTrigger, Bind}
use keybinder.Event.{InputEvent, KeyEventType, OutputEvent}
use keybinder.Machine.{StateMachineOutputEvent, Transition, State, find}
use keybinder.Machine.Build.{trigger_to_input}
use keybinder.Machine.Paths.{Follows}
use keybinder.Mapper.{Environment, Item, Mapper}
use keybinder.Mapper.Output.{event_of}
use keybinder.Mapper.Process.{
  apply_with, chosen, current_state, each, emit_all, enter, forward, process_input,
}
use keybinder.Mapper.Schedule.{
  NoSwaps, timeline, stamp, queued, without_waits, bind_outputs, sequence_waits_ignored,
}
use keybinder.Mapper.Paused.{process_all}
use Outputs.{
  outputs_of, typed_events, NoMinimum, typed_events-cons, NoMinimum-tail, outputs_of-append,
  NoSwaps-append, stamp-events, Parted, part,
}

-- What typing leaves: the state, the events that joined the queue, and the rest as it was.
pub record HasTyped (m : Mapper) (j : ℕ) (binds : List Bind) (m' : Mapper) : Type 0 where
  pub state : m'.cur_state_idx ≡ j
  pub layer_kept : m'.cur_layer_idx ≡ m.cur_layer_idx
  pub states_kept : m'.states ≡ m.states
  pub pause_kept : m'.paused ≡ m.paused
  pub sent_kept : m'.sent ≡ m.sent
  pub joined : map event_of m'.queued_events ≡ map event_of m.queued_events ++ outputs_of binds

map-append : (xs ys : List Item) → map event_of (xs ++ ys) ≡ map event_of xs ++ map event_of ys
map-append [] ys = refl
map-append (x ∷ xs) ys = ap (λ (es : List OutputEvent). event_of x ∷ es) (map-append xs ys)

entered :
    (env : Environment) (t : Transition) (m : Mapper) (bs : List Bind)
    → NoSwaps bs
    → HasTyped m t.new_state bs (queued env (timeline 0 (without_waits bs)) (enter env t m))
unfolding enter
entered env t m bs h = elim (Option-cases t.timer_ms) [
  | inl e ↦ rw e (record {
    state = refl;
    layer_kept = refl;
    states_kept = refl;
    pause_kept = refl;
    sent_kept = refl;
    joined =
        map-append m.queued_events _
        ∙ ap (λ (es : List OutputEvent). map event_of m.queued_events ++ es)
            (stamp-events env m.clock_reads 0 bs h);
  })
  | inr (ms, e) ↦ rw e (record {
    state = refl;
    layer_kept = refl;
    states_kept = refl;
    pause_kept = refl;
    sent_kept = refl;
    joined =
        map-append m.queued_events _
        ∙ ap (λ (es : List OutputEvent). map event_of m.queued_events ++ es)
            (stamp-events env (m.clock_reads + 1) 0 bs h);
  })
]

located :
    (machine : List State) (m m1 : Mapper)
    → m1.states ≡ m.states
    → m1.cur_layer_idx ≡ m.cur_layer_idx
    → get_elem? m.states m.cur_layer_idx ≡ some machine
    → get_elem? m1.states m1.cur_layer_idx ≡ some machine
located machine m m1 e f h = (λ i. get_elem? (e i) (f i)) ∙ h

then_typed :
    (m m1 m2 : Mapper) (i j : ℕ) (xs ys : List Bind)
    → HasTyped m i xs m1
    → HasTyped m1 j ys m2
    → HasTyped m j (xs ++ ys) m2
then_typed m m1 m2 i j xs ys h k = record {
  state = k.state;
  layer_kept = k.layer_kept ∙ h.layer_kept;
  states_kept = k.states_kept ∙ h.states_kept;
  pause_kept = k.pause_kept ∙ h.pause_kept;
  sent_kept = k.sent_kept ∙ h.sent_kept;
  joined =
      k.joined
      ∙ ap (λ (es : List OutputEvent). es ++ outputs_of ys) h.joined
      ∙ append_assoc (map event_of m.queued_events) (outputs_of xs) (outputs_of ys)
      ∙ ap (λ (es : List OutputEvent). map event_of m.queued_events ++ es)
          (sym (outputs_of-append xs ys));
}

module _ (env : Environment) (depth : ℕ) where
  current_state-at :
      (m : Mapper) (machine : List State) (s : State)
      → get_elem? m.states m.cur_layer_idx ≡ some machine
      → get_elem? machine m.cur_state_idx ≡ some s
      → current_state m ≡ ok s
  unfolding current_state
  current_state-at m machine s h k =
      ap
        (λ (o : Option (List State)).
          or_fail o (throws out_of_range) >>= (λ layer. at layer m.cur_state_idx))
        h
      ∙ ap (λ (o : Option State). or_fail o (throws out_of_range)) k

  chosen-edge :
      (s : State) (e : InputEvent) {t : Transition}
      → find env.qt e s.edges ≡ some t
      → chosen env s e ≡ t
  chosen-edge s e h =
      ap (λ (o : Option Transition). elim o [ some t ↦ t | none ↦ s.fallback_transition ]) h

  apply_with-binds :
      (f : InputEvent → Mapper → Result Mapper) (e : InputEvent) (t : Transition) (m : Mapper)
      (bs : List Bind)
      → t.outputs ≡ bind_outputs bs
      → NoSwaps bs
      → apply_with f env t (some e) m
        ≡ ok (queued env (timeline 0 (without_waits bs)) (enter env t m))
  unfolding apply_with each
  apply_with-binds f e t m bs o h =
      ap (λ (r : Result (Mapper × List InputEvent)). r >>= (λ p. each f p.1 p.0))
        (ap (λ (os : List StateMachineOutputEvent). emit_all env (some e) os (enter env t m) []) o
          ∙ sequence_waits_ignored env (some e) bs (enter env t m) [] h)

  process_input-edge :
      (e : InputEvent) (m : Mapper) (machine : List State) (s : State) (t : Transition)
      (bs : List Bind)
      → m.paused ≡ false
      → get_elem? m.states m.cur_layer_idx ≡ some machine
      → get_elem? machine m.cur_state_idx ≡ some s
      → find env.qt e s.edges ≡ some t
      → t.outputs ≡ bind_outputs bs
      → NoSwaps bs
      → process_input (suc depth) env e m
        ≡ ok (queued env (timeline 0 (without_waits bs)) (enter env t m))
  unfolding process_input
  process_input-edge e m machine s t bs awake h k f o n =
      ap
        (λ (c : Bool). if c then ok (forward e m) else (do
          s ← current_state m
          apply_with (process_input depth env) env (chosen env s e) (some e) m))
        awake
      ∙ ap
          (λ (r : Result State).
            r >>= (λ s. apply_with (process_input depth env) env (chosen env s e) (some e) m))
          (current_state-at m machine s h k)
      ∙ ap (λ (t : Transition). apply_with (process_input depth env) env t (some e) m)
          (chosen-edge s e f)
      ∙ apply_with-binds (process_input depth env) e t m bs o n

  -- A way through the current machine whose transitions put out binds that swap no layer, and which
  -- has no minimum wait, is what the mapper goes when its events come one after another, with fuel for
  -- a single call: it ends in the way's last state, in the same layer, and the outputs of the binds
  -- have joined the queue, in their order.
  pub process_all-HasTyped :
      (machine : List State) (binds : List Bind) (i j : ℕ) (xs : List AdvancedTrigger)
      (outs : List StateMachineOutputEvent) (m : Mapper)
      → Follows env.qt machine i xs outs j
      → outs ≡ bind_outputs binds
      → NoSwaps binds
      → NoMinimum xs
      → m.paused ≡ false
      → get_elem? m.states m.cur_layer_idx ≡ some machine
      → m.cur_state_idx ≡ i
      → Returns (HasTyped m j binds) (process_all (suc depth) env (typed_events xs) m)
  unfolding process_all
  process_all-HasTyped machine [] i j xs outs m Follows.done o n w awake h c = record {
    state = c;
    layer_kept = refl;
    states_kept = refl;
    pause_kept = refl;
    sent_kept = refl;
    joined = sym (append-nil (map event_of m.queued_events));
  }
  process_all-HasTyped machine (b ∷ binds) i j xs outs m Follows.done o n w awake h c = cc
  process_all-HasTyped machine binds i j xs outs m (Follows.waited ms s t a b p f) o n w awake h c =
      absurd w
  process_all-HasTyped machine binds i j xs outs m (Follows.in_time ms f) o n w awake h c =
      process_all-HasTyped machine binds _ j _ outs m f o n w awake h c
  process_all-HasTyped machine binds i j xs outs m
        (Follows.event {rest} {later} x e s t a there f p g) o n w awake h c =
      let parted = part binds t.outputs later (sym o ∙ p) in
      let (n1, n2) = NoSwaps-append parted.first parted.second (subst NoSwaps parted.whole n) in
      let m1 = queued env (timeline 0 (without_waits parted.first)) (enter env t m) in
      let first = entered env t m parted.first n1 in
      let step =
        process_input-edge e m machine s t parted.first awake h
          (subst (λ k. get_elem? machine k ≡ some s) (sym c) there) f parted.first_outputs n1 in
      let later_typed =
        process_all-HasTyped machine parted.second t.new_state j rest later m1 g
          parted.second_outputs n2 (NoMinimum-tail x rest w) (first.pause_kept ∙ awake)
          (located machine m m1 first.states_kept first.layer_kept h) first.state in
      subst (Returns (HasTyped m j binds))
        (sym (
          ap (λ (es : List InputEvent). process_all (suc depth) env es m)
            (typed_events-cons x e rest a)
          ∙ ap
              (λ (r : Result Mapper).
                r >>= (λ m'. process_all (suc depth) env (typed_events rest) m'))
              step))
        (Returns-map (HasTyped m1 j parted.second) (HasTyped m j binds)
          (process_all (suc depth) env (typed_events rest) m1) later_typed
          (λ m2 second.
            subst (λ bs. HasTyped m j bs m2) (sym parted.whole)
              (then_typed m m1 m2 t.new_state j parted.first parted.second first second)))
