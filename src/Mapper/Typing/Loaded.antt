-- ===== src/Mapper/Typing/Loaded.antt =====
-- From a profile to its outputs: `set_profile` (common/src/mapper.cpp) compiles the layers with
-- `generate_states` (common/src/state_machine.cpp), and the mapper then runs what was compiled.
use mathlib.Core.List.{append_assoc, append-nil}
use keybinder.Base.{
  ℕ, zero, suc, ◌≡◌, ◌≢◌, refl, sym, ap, ◌∙◌, subst, true, false, List, [], ◌∷◌, ◌++◌, map, some,
  get_elem?, All, Result, ok, fail, nullopt, throws, index_assert, too_deep, or_fail, IfOk,
  IfOk-bind, IfOk-map, IfOk-any, IfOk-if, Returns,
}
use keybinder.Profile.{SequenceBehavior, AdvancedTrigger, SequenceTrigger, Layer, Profile}
use keybinder.Event.{InputEvent}
use keybinder.Machine.{home_state_idx, StateMachineOutputEvent, State}
use keybinder.Machine.Build.{released}
use keybinder.Machine.Generate.{generate_states}
use keybinder.Machine.Paths.Timed.{Runs, Runs-Follows}
use keybinder.Machine.Paths.Compiled.{EndsInKey}
use keybinder.Machine.Paths.Unread.{Avoids}
use keybinder.Machine.Paths.Way.{let_through}
use keybinder.Machine.Paths.Exact.{Starts, generate_states-Exact}
use keybinder.Mapper.{Environment, Mapper}
use keybinder.Mapper.Output.{set_layer_inner}
use keybinder.Mapper.Control.{Tables, add_basic, build_tables, answer, install, set_profile}
use keybinder.Mapper.Schedule.{NoSwaps}
use keybinder.Mapper.Paused.{process_all}
use keybinder.Mapper.Typing.{HasTyped, process_all-HasTyped}
use keybinder.Mapper.Typing.Outputs.{typed_events, NoMinimum}

module _ (env : Environment) where
  -- The machines of the layers stand behind those that were there.
  abbrev Machines : List Layer → List (List State) → List (List State) → Type 0
  Machines layers before after =
      (machines : List (List State)) × (after ≡ before ++ machines)
      × ((i : ℕ) (layer : Layer)
          → get_elem? layers i ≡ some layer
          → (machine : List State) × (generate_states env.qt env.memory layer ≡ ok machine)
            × (get_elem? machines i ≡ some machine))

  at_layer :
      (first : Layer) (rest : List Layer) (machine : List State) (machines : List (List State))
      → generate_states env.qt env.memory first ≡ ok machine
      → ((i : ℕ) (layer : Layer)
          → get_elem? rest i ≡ some layer
          → (m : List State) × (generate_states env.qt env.memory layer ≡ ok m)
            × (get_elem? machines i ≡ some m))
      → (i : ℕ) (layer : Layer) → get_elem? (first ∷ rest) i ≡ some layer
      → (m : List State) × (generate_states env.qt env.memory layer ≡ ok m)
        × (get_elem? (machine ∷ machines) i ≡ some m)
  at_layer first rest machine machines made each zero layer h =
      (machine, subst (λ l. generate_states env.qt env.memory l ≡ ok machine) (cc h) made, refl)
  at_layer first rest machine machines made each (suc i) layer h = each i layer h

  IfOk-self {ℓ} : {A : Type ℓ} (r : Result A) → IfOk (λ a. r ≡ ok a) r
  IfOk-self (ok a) = refl
  IfOk-self (fail e) = tt

  build_tables-Machines :
      (layers : List Layer) (t : Tables)
      → IfOk (λ t'. Machines layers t.new_states t'.new_states) (build_tables env layers t)
  unfolding build_tables
  build_tables-Machines [] t = ([], sym (append-nil t.new_states), λ i layer h. cc)
  build_tables-Machines (layer ∷ rest) t =
      IfOk-bind (λ basic_map. Unit {0}) _
        (or_fail (add_basic env.qt layer.basic_remappings []) nullopt) _
        (IfOk-any (or_fail (add_basic env.qt layer.basic_remappings []) nullopt))
        λ basic_map u.
          IfOk-bind (λ machine. generate_states env.qt env.memory layer ≡ ok machine) _
            (generate_states env.qt env.memory layer) _
            (IfOk-self (generate_states env.qt env.memory layer))
            λ machine made.
              IfOk-map _ _ (build_tables env rest _)
                (build_tables-Machines rest (record {
                  new_states = t.new_states ++ machine ∷ [];
                  new_basic_maps = t.new_basic_maps ++ basic_map ∷ [];
                }))
                (λ t' (machines, whole, each). (
                  machine ∷ machines,
                  whole ∙ append_assoc t.new_states (machine ∷ []) machines,
                  λ i. at_layer layer rest machine machines made each i,
                ))

  -- What `install` leaves.
  record Loaded (p : Profile) (m : Mapper) (t : Tables) (m' : Mapper) : Type 0 where
    states : m'.states ≡ t.new_states
    layer : m'.cur_layer_idx ≡ p.default_layer
    state : m'.cur_state_idx ≡ home_state_idx
    pause_kept : m'.paused ≡ m.paused

  install-Loaded : (p : Profile) (m : Mapper) (t : Tables) → IfOk (Loaded p m t) (install env p t m)
  unfolding install set_layer_inner
  install-Loaded p m t =
      IfOk-if (Loaded p m t) env.has_callback _ _
        (λ has.
          IfOk-bind (λ layer. Unit {0}) (Loaded p m t)
            (or_fail (get_elem? p.layers p.default_layer) (throws index_assert)) _
            (IfOk-any (or_fail (get_elem? p.layers p.default_layer) (throws index_assert)))
            (λ layer u. record { states = refl; layer = refl; state = refl; pause_kept = refl }))
        (λ none. record { states = refl; layer = refl; state = refl; pause_kept = refl })

  answered :
      (m m' : Mapper) (P : Mapper → Type 0) (r : Result Mapper)
      → IfOk P r
      → answer m r ≡ ok (m', true)
      → P m'
  answered m m' P (ok a) h e = subst P (cc e) h
  answered m m' P (fail nullopt) h e = absurd (cc e)
  answered m m' P (fail too_deep) h e = absurd (cc e)
  answered m m' P (fail (throws x)) h e = absurd (cc e)

  -- The default layer's machine is what `generate_states` gives for the layer.
  abbrev AtHome : Profile → Mapper → Layer → Mapper → Type 0
  AtHome p m layer m' =
      (machine : List State) × (generate_states env.qt env.memory layer ≡ ok machine)
      × (get_elem? m'.states m'.cur_layer_idx ≡ some machine)
      × (m'.cur_state_idx ≡ home_state_idx)
      × (m'.paused ≡ m.paused)

  set_profile-AtHome :
      (p : Profile) (m m' : Mapper) (layer : Layer)
      → set_profile env p m ≡ ok (m', true)
      → get_elem? p.layers p.default_layer ≡ some layer
      → AtHome p m layer m'
  unfolding set_profile
  set_profile-AtHome p m m' layer set there =
      answered m m' (AtHome p m layer) _
        (IfOk-bind _ (AtHome p m layer)
          (build_tables env p.layers (record { new_states = []; new_basic_maps = [] })) _
          (build_tables-Machines p.layers (record { new_states = []; new_basic_maps = [] }))
          (λ t (machines, whole, each).
            IfOk-map (Loaded p m t) (AtHome p m layer) (install env p t m) (install-Loaded p m t)
              (λ m2 l.
                let (machine, made, found) = each p.default_layer layer there in
                (
                  machine,
                  made,
                  (λ i. get_elem? ((l.states ∙ whole) i) (l.layer i)) ∙ found,
                  l.state,
                  l.pause_kept,
                ))))
        set

  held_back :
      (behavior : SequenceBehavior) (xs : List AdvancedTrigger)
      → behavior ≢ SequenceBehavior.release
      → let_through behavior xs ≡ []
  unfolding let_through released
  held_back behavior [] h = refl
  held_back behavior (AdvancedTrigger.minimum_wait ms ∷ rest) h = held_back behavior rest h
  held_back behavior (AdvancedTrigger.maximum_wait ms ∷ rest) h = held_back behavior rest h
  held_back SequenceBehavior.release (x ∷ rest) h = absurd (h refl)
  held_back SequenceBehavior.capture (x ∷ rest) h = held_back SequenceBehavior.capture rest h
  held_back SequenceBehavior.default (x ∷ rest) h = held_back SequenceBehavior.default rest h

  -- After `set_profile` has answered `true` on a mapper that is not paused, let a sequence of the
  -- default layer begin with a key or focus event that is a trigger of no sequence before it in the
  -- layer, not end in a wait, have no minimum wait and a behavior other than `release`, and let its
  -- binds swap no layer. Then typing its events in time, one after another and with fuel for single
  -- calls, never fails, queues the outputs of its binds, in their order, and nothing else, and leaves
  -- the mapper in the home state of the same layer.
  pub set_profile-HasTyped :
      (p : Profile) (m m' : Mapper) (layer : Layer) (earlier later : List SequenceTrigger)
      (trigger : SequenceTrigger) (e : InputEvent)
      → set_profile env p m ≡ ok (m', true)
      → m.paused ≡ false
      → get_elem? p.layers p.default_layer ≡ some layer
      → layer.sequence_remappings ≡ earlier ++ trigger ∷ later
      → All (Avoids env.qt e) earlier
      → Starts e trigger.sequence
      → EndsInKey trigger.sequence
      → NoMinimum trigger.sequence
      → trigger.behavior ≢ SequenceBehavior.release
      → NoSwaps trigger.binds
      → Returns
          (HasTyped m' home_state_idx trigger.binds)
          (process_all 1 env (typed_events trigger.sequence) m')
  set_profile-HasTyped p m m' layer earlier later trigger e set awake there parts avoids starts ends
        no_minimum held no_swaps =
      let (machine, made, found, at_home, pause) = set_profile-AtHome p m m' layer set there in
      let way =
        subst
          (IfOk (λ machine.
            Runs env.qt machine home_state_idx trigger.sequence
              (let_through trigger.behavior trigger.sequence
                ++ map StateMachineOutputEvent.bind trigger.binds)
              home_state_idx))
          made
          (generate_states-Exact env.qt env.memory layer earlier later trigger e parts avoids starts
            ends) in
      process_all-HasTyped env 0 machine trigger.binds home_state_idx home_state_idx
        trigger.sequence _ m' (Runs-Follows env.qt way)
        (ap
          (λ (os : List StateMachineOutputEvent).
            os ++ map StateMachineOutputEvent.bind trigger.binds)
          (held_back trigger.behavior trigger.sequence held))
        no_swaps no_minimum (pause ∙ awake) found at_home
