-- ===== src/Machine/Outputs/Generated.antt =====
-- `generate_states` (common/src/state_machine.cpp) as a whole: an output property goes from the
-- sequences of a layer to the machine.
use keybinder.Base.{ℕ, List, [], ◌∷◌, Option, none, some, All, at, IfOk}
use keybinder.QtText.{QtText}
use keybinder.Profile.{SequenceTrigger, Layer}
use keybinder.Machine.{StateMachineOutputEvent, Transition, State, find}
use keybinder.Machine.Normalize.Laws.{normalize_sequences-id}
use keybinder.Machine.Build.{Memory, Building, Iteration, generate_home_state}
use keybinder.Machine.Generate.{branch, iterate, walk_all, generate_states}
use keybinder.Machine.Walks.{iteration, FitsAt, All-any, walk_all-keeps}
use keybinder.Machine.Outputs.{
  StateAll, StatesAll, Allows, IfOk-bind, at-All, extend-All, share-All, arm-All,
}

module _ (P : StateMachineOutputEvent → Type 0) (qt : QtText) (memory : Memory) where
  abbrev Kept : ℕ × Building → Type 0
  Kept p = StatesAll P p.1

  branch-All :
      (it : Iteration) (current : ℕ) (s : State) (o : Option Transition) (b : Building)
      → Allows P it.behavior it.binds
      → StateAll P s
      → StatesAll P b
      → IfOk Kept (branch qt memory it current s o b)
  unfolding branch
  branch-All it current s none b allows hs h = extend-All P qt memory it current s b allows hs h
  branch-All it current s (some t) b allows hs h = share-All P qt memory it t b h

  iterate-All :
      (it : Iteration) (current : ℕ) (b : Building)
      → Allows P it.behavior it.binds
      → StatesAll P b
      → IfOk Kept (iterate qt memory it current b)
  unfolding iterate
  iterate-All it current b allows h =
      IfOk-bind P (StateAll P) Kept (at b.states current) _ (at-All P b.states current h) λ s hs.
        IfOk-bind P Kept Kept (branch qt memory it current s (find qt it.input_event s.edges) b) _
          (branch-All it current s (find qt it.input_event s.edges) b allows hs h)
          λ p hp.
            IfOk-bind P (StateAll P) Kept (at p.1.states p.0) _ (at-All P p.1.states p.0 hp)
              λ next hn. arm-All P qt memory it it.timer p.0 next p.1 allows hn hp

  All-FitsAt :
      (sequences : List SequenceTrigger)
      → All (λ s. Allows P s.behavior s.binds) sequences
      → All (λ s. All (FitsAt (λ t e. Allows P t.behavior t.binds) s) s.sequence) sequences
  All-FitsAt [] h = tt
  All-FitsAt (s ∷ rest) h = (All-any (λ x e reads. h.0) s.sequence, All-FitsAt rest h.1)

  -- A property that every sequence of the layer allows holds of all outputs of the machine.
  pub generate_states-All :
      (layer : Layer)
      → P (StateMachineOutputEvent.basic_translation none)
      → All (λ s. Allows P s.behavior s.binds) layer.sequence_remappings
      → IfOk (All (StateAll P)) (generate_states qt memory layer)
  unfolding generate_states
  generate_states-All layer home allows = rw (normalize_sequences-id layer.sequence_remappings) (
      IfOk-bind P (StatesAll P) (All (StateAll P))
        (walk_all qt memory layer.sequence_remappings generate_home_state) _
        (walk_all-keeps qt memory (StatesAll P) (λ t e. Allows P t.behavior t.binds)
          (λ trigger seen e timer l1 l2 current b allowed h.
            iterate-All (iteration trigger seen e timer l1 l2) current b allowed h)
          layer.sequence_remappings generate_home_state
          (All-FitsAt layer.sequence_remappings allows)
          (record { edges_all = tt; fallback_all = (home, tt); timer_all = tt }, tt))
        (λ b h. h))
