-- ===== src/Mapper/Safety.antt =====
-- `process_input` (common/src/mapper.cpp) throws nothing while the invariant holds.
use keybinder.Base.{
  ℕ, zero, suc, ◌+◌, ◌<◌, ◌≡◌, Bool, true, false, List, [], ◌∷◌, Option, none, some, length,
  get_elem?, get_elem?-of_lt, All, All-get_elem?, Result, ok, at, Bool-cases, Option-cases, inl,
  inr, arith, if◌then◌else◌,
}
use keybinder.Event.{InputEvent, OutputEvent, input_eq}
use keybinder.QtText.{QtText}
use keybinder.Machine.{StateMachineOutputEvent, Transition, State, find}
use keybinder.Machine.WellFormed.{StateOk, find-Target}
use keybinder.Machine.Outputs.{StateAll, TransitionAll}
use keybinder.KeyCode.{KeyCode}
use keybinder.Mapper.{Item, Environment, Mapper}
use keybinder.Mapper.Output.{queue_binds}
use keybinder.Mapper.Process.{
  pass_through, translate, emit, emit_all, enter, each, apply_with, forward, current_state, chosen,
  process_input,
}
use keybinder.Mapper.Valid.{
  BindFits, OutputFits, MachineFits, MapFits, StateIn, IsValid, Safe, Safe-bind, at-Safe,
  queue_output-IsValid, queue_binds-Safe,
}

-- What a table holds under a key has the property that all its values have.
pub find-All :
    {V : Type 0} (P : V → Type 0) (qt : QtText) (e : InputEvent) {v : V} (m : List (InputEvent × V))
    → find qt e m ≡ some v
    → All (λ x. P x.1) m
    → P v
unfolding find
find-All P qt e [] h a = cc
find-All P qt e {v} ((k, w) ∷ m) h a = elim (Bool-cases (input_eq qt k e)) [
  | inl same ↦ ground (arith, same)
  | inr other ↦ find-All P qt e m (rw other at h) a.1
]

module _ (n : ℕ) (env : Environment) where
  pass_through-IsValid :
      (e : InputEvent) (m : Mapper) → IsValid n m → IsValid n (pass_through env e m)
  unfolding pass_through
  pass_through-IsValid (InputEvent.key e) m v = queue_output-IsValid n env (OutputEvent.key e) 0 m v
  pass_through-IsValid (InputEvent.app e) m v = v

  translate-Safe :
      (e : InputEvent) (m : Mapper) → IsValid n m → Safe (IsValid n) (translate env e m)
  unfolding translate
  translate-Safe e m v =
      Safe-bind (MapFits n) (IsValid n) (at m.basic_maps m.cur_layer_idx) _
        (at-Safe (MapFits n) m.basic_maps m.cur_layer_idx (omega (arith, v.maps_count, v.layer_lt))
          v.maps_fit)
        λ basic_map fits. elim (Option-cases (find env.qt e basic_map)) [
          | inl absent ↦ rw absent (pass_through-IsValid e m v)
          | inr (binds, found) ↦ rw found (
              queue_binds-Safe n env binds m
                (find-All (All (BindFits n)) env.qt e basic_map found fits) v)
        ]

  abbrev ValidPair : Mapper × List InputEvent → Type 0
  ValidPair p = IsValid n p.0

  emit-Safe :
      (prev : Option InputEvent) (o : StateMachineOutputEvent) (m : Mapper) (redo : List InputEvent)
      → OutputFits n o
      → IsValid n m
      → Safe ValidPair (emit env prev o m redo)
  unfolding emit
  emit-Safe prev (StateMachineOutputEvent.process_input (some e)) m redo h v = v
  emit-Safe none (StateMachineOutputEvent.process_input none) m redo h v = v
  emit-Safe (some e) (StateMachineOutputEvent.process_input none) m redo h v = v
  emit-Safe prev (StateMachineOutputEvent.basic_translation (some e)) m redo h v =
      Safe-bind (IsValid n) ValidPair (translate env e m) _ (translate-Safe e m v) (λ m' w. w)
  emit-Safe none (StateMachineOutputEvent.basic_translation none) m redo h v = v
  emit-Safe (some e) (StateMachineOutputEvent.basic_translation none) m redo h v =
      Safe-bind (IsValid n) ValidPair (translate env e m) _ (translate-Safe e m v) (λ m' w. w)
  emit-Safe prev (StateMachineOutputEvent.bind b) m redo h v =
      Safe-bind (IsValid n) ValidPair (queue_binds env (b ∷ []) m) _
        (queue_binds-Safe n env (b ∷ []) m (h, tt) v) (λ m' w. w)

  emit_all-Safe :
      (prev : Option InputEvent) (os : List StateMachineOutputEvent) (m : Mapper)
      (redo : List InputEvent)
      → All (OutputFits n) os
      → IsValid n m
      → Safe ValidPair (emit_all env prev os m redo)
  unfolding emit_all
  emit_all-Safe prev [] m redo h v = v
  emit_all-Safe prev (o ∷ rest) m redo h v =
      Safe-bind ValidPair ValidPair (emit env prev o m redo) _ (emit-Safe prev o m redo h.0 v)
        (λ p w. emit_all-Safe prev rest p.0 p.1 h.1 w)

  -- What the invariant does not speak of.
  pub elsewhere :
      (m : Mapper) (queue : List Item) (sent : List (List OutputEvent)) (reads : ℕ)
      (counted : List KeyCode) (processed : ℕ)
      → IsValid n m
      → IsValid n (record m {
        processed_events_count = processed;
        queued_events = queue;
        clock_reads = reads;
        sent = sent;
        counted = counted;
      })
  elsewhere m queue sent reads counted processed v = record {
    count = v.count;
    maps_count = v.maps_count;
    layers_count = v.layers_count;
    layer_lt = v.layer_lt;
    state_in = v.state_in;
    machines_fit = v.machines_fit;
    maps_fit = v.maps_fit;
  }

  entered :
      (m : Mapper) (s : ℕ) (timer : Option ℕ) (reads : ℕ)
      → StateIn m.states m.cur_layer_idx s
      → IsValid n m
      → IsValid n (record m { cur_state_idx = s; current_timer = timer; clock_reads = reads })
  entered m s timer reads h v = record {
    count = v.count;
    maps_count = v.maps_count;
    layers_count = v.layers_count;
    layer_lt = v.layer_lt;
    state_in = h;
    machines_fit = v.machines_fit;
    maps_fit = v.maps_fit;
  }

  -- A transition leads to a state of the current machine.
  abbrev pub Fits : Mapper → Transition → Type 0
  Fits m t = StateIn m.states m.cur_layer_idx t.new_state × TransitionAll (OutputFits n) t

  enter-IsValid : (t : Transition) (m : Mapper) → Fits m t → IsValid n m → IsValid n (enter env t m)
  unfolding enter
  enter-IsValid t m h v = elim (Option-cases t.timer_ms) [
    | inl e ↦ rw e (entered m t.new_state none m.clock_reads h.0 v)
    | inr (ms, e) ↦ rw e (entered m t.new_state _ (m.clock_reads + 1) h.0 v)
  ]

  pub each-Safe :
      (f : InputEvent → Mapper → Result Mapper) (es : List InputEvent) (m : Mapper)
      → ((e : InputEvent) (m' : Mapper) → IsValid n m' → Safe (IsValid n) (f e m'))
      → IsValid n m
      → Safe (IsValid n) (each f es m)
  unfolding each
  each-Safe f [] m h v = v
  each-Safe f (e ∷ rest) m h v =
      Safe-bind (IsValid n) (IsValid n) (f e m) _ (h e m v) (λ m' w. each-Safe f rest m' h w)

  pub apply_with-Safe :
      (f : InputEvent → Mapper → Result Mapper) (t : Transition) (prev : Option InputEvent)
      (m : Mapper)
      → ((e : InputEvent) (m' : Mapper) → IsValid n m' → Safe (IsValid n) (f e m'))
      → Fits m t
      → IsValid n m
      → Safe (IsValid n) (apply_with f env t prev m)
  unfolding apply_with
  apply_with-Safe f t prev m h fits v =
      Safe-bind ValidPair (IsValid n) (emit_all env prev t.outputs (enter env t m) []) _
        (emit_all-Safe prev t.outputs (enter env t m) [] fits.1 (enter-IsValid t m fits v))
        (λ p w. each-Safe f p.1 p.0 h w)

  -- What the current state of a valid mapper offers.
  abbrev pub StateFits : Mapper → State → Type 0
  StateFits m s =
      (machine : List State) × (get_elem? m.states m.cur_layer_idx ≡ some machine)
      × StateOk (length machine) s
      × StateAll (OutputFits n) s

  pub StateIn-elim :
      (m : Mapper) (machine : List State) (i : ℕ)
      → get_elem? m.states m.cur_layer_idx ≡ some machine
      → (StateIn m.states m.cur_layer_idx i → i < length machine)
        × (i < length machine → StateIn m.states m.cur_layer_idx i)
  StateIn-elim m machine i e = rw (e, StateIn) (λ h. h, λ h. h)

  state_of :
      (m : Mapper) (machine : List State)
      → get_elem? m.states m.cur_layer_idx ≡ some machine
      → MachineFits n machine
      → m.cur_state_idx < length machine
      → Safe (StateFits m) (current_state m)
  unfolding current_state
  state_of m machine e fits h =
      let (s, found) = get_elem?-of_lt machine m.cur_state_idx h in
      rw (e, found)
        (
          machine,
          e,
          All-get_elem? (StateOk (length machine)) machine m.cur_state_idx found
              fits.well_formed.states_ok,
          All-get_elem? (StateAll (OutputFits n)) machine m.cur_state_idx found fits.outputs_fit,
        )

  pub current_state-Safe : (m : Mapper) → IsValid n m → Safe (StateFits m) (current_state m)
  current_state-Safe m v =
      let (machine, e) =
        get_elem?-of_lt m.states m.cur_layer_idx (omega (arith, v.count, v.layer_lt)) in
      state_of m machine e (All-get_elem? (MachineFits n) m.states m.cur_layer_idx e v.machines_fit)
        ((StateIn-elim m machine m.cur_state_idx e).0 v.state_in)

  chosen-Fits : (m : Mapper) (s : State) (e : InputEvent) → StateFits m s → Fits m (chosen env s e)
  chosen-Fits m s e (machine, found, ok_s, all_s) = elim (Option-cases (find env.qt e s.edges)) [
    | inl absent ↦
        rw (absent, chosen)
          (
            (StateIn-elim m machine s.fallback_transition.new_state found).1 ok_s.fallback_ok,
            all_s.fallback_all,
          )
    | inr (t, present) ↦
        rw (present, chosen)
          (
            (StateIn-elim m machine t.new_state found).1
                (find-Target {n = length machine} env.qt e s.edges present ok_s.edges_ok),
            find-All (TransitionAll (OutputFits n)) env.qt e s.edges present all_s.edges_all,
          )
  ]

  forward-IsValid : (e : InputEvent) (m : Mapper) → IsValid n m → IsValid n (forward e m)
  unfolding forward
  forward-IsValid (InputEvent.app e) m v = v
  forward-IsValid (InputEvent.key e) m v =
      elsewhere m m.queued_events _ m.clock_reads m.counted m.processed_events_count v

  pub Safe-if :
      (c : Bool) (a b : Result Mapper)
      → Safe (IsValid n) a
      → Safe (IsValid n) b
      → Safe (IsValid n) (if c then a else b)
  Safe-if true a b h k = h
  Safe-if false a b h k = k

  -- For every fuel, `process_input` on a valid mapper throws nothing: it returns a valid mapper, or its
  -- calls nest deeper than the fuel.
  pub process_input-Safe :
      (depth : ℕ) (e : InputEvent) (m : Mapper)
      → IsValid n m
      → Safe (IsValid n) (process_input depth env e m)
  unfolding process_input
  process_input-Safe zero e m v = tt
  process_input-Safe (suc depth) e m v =
      Safe-if m.paused (ok (forward e m)) _ (forward-IsValid e m v) (
        Safe-bind (StateFits m) (IsValid n) (current_state m) _ (current_state-Safe m v) (λ st fits.
          apply_with-Safe (process_input depth env) (chosen env st e) (some e) m
            (process_input-Safe depth) (chosen-Fits m st e fits) v))
