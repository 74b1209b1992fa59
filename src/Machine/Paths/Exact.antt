-- ===== src/Machine/Paths/Exact.antt =====
-- `generate_states` (common/src/state_machine.cpp) against its purpose: a sequence whose beginning no
-- earlier sequence reads puts out what it says, and nothing else.
use keybinder.Base.{
  ◌≡◌, refl, subst, List, [], ◌∷◌, ◌++◌, map, none, some, get_elem?, All, All-get_elem?, IfOk,
  IfOk-bind, IfOk-map,
}
use keybinder.QtText.{QtText}
use keybinder.Profile.{AdvancedTrigger, SequenceTrigger, Layer}
use keybinder.Event.{InputEvent}
use keybinder.Machine.{home_state_idx, StateMachineOutputEvent, State, find}
use keybinder.Machine.Normalize.Laws.{normalize_sequences-id}
use keybinder.Machine.Build.{Memory, Building, generate_home_state, trigger_to_input}
use keybinder.Machine.Generate.{walk, walk_all, generate_states}
use keybinder.Machine.Walks.{walk-keeps}
use keybinder.Machine.Paths.Timed.{Runs, Runs-Extends}
use keybinder.Machine.Paths.Compiled.{EndsInKey, Walked, walk-Walked, walk_all-Typed}
use keybinder.Machine.Paths.Unread.{Unread, NowhereRead, Other, Avoids, iterate-Unread}
use keybinder.Machine.Paths.Way.{let_through, IfOk-both, Exact, FirstFree, walk-Exact}

abbrev pub Starts : InputEvent → List AdvancedTrigger → Type 0
Starts e [] = ⊥
Starts e (x ∷ rest) = trigger_to_input x ≡ some e

module _ (qt : QtText) (memory : Memory) where
  Starts-FirstFree :
      (e : InputEvent) (xs : List AdvancedTrigger) (s : State)
      → Starts e xs
      → Unread qt e s
      → FirstFree qt memory xs s
  Starts-FirstFree e [] s h u = tt
  Starts-FirstFree e (x ∷ rest) s h u =
      λ e' reads. let same : e ≡ e' = cc (h, reads) in subst (λ k. find qt k s.edges ≡ none) same u

  module _ (e : InputEvent) (trigger : SequenceTrigger) (later : List SequenceTrigger)
      (starts : Starts e trigger.sequence) (ends : EndsInKey trigger.sequence) where
    walk_all-Exact :
        (earlier : List SequenceTrigger) (s : State) (b : Building)
        → All (Avoids qt e) earlier
        → get_elem? b.states home_state_idx ≡ some s
        → NowhereRead qt e b
        → IfOk
            (Exact qt memory trigger home_state_idx trigger.sequence)
            (walk_all qt memory (earlier ++ trigger ∷ later) b)
    unfolding walk_all
    walk_all-Exact [] s b avoids h u =
        IfOk-bind (Exact qt memory trigger home_state_idx trigger.sequence) _
          (walk qt memory trigger [] trigger.sequence home_state_idx b) _
          (walk-Exact qt memory trigger [] trigger.sequence home_state_idx s b h
            (Starts-FirstFree e trigger.sequence s starts
              (All-get_elem? (Unread qt e) b.states home_state_idx h u))
            ends)
          λ b1 f.
            IfOk-map _ _ (walk_all qt memory later b1) (walk_all-Typed qt memory later b1)
              (λ b2 v. Runs-Extends qt v.0 f)
    walk_all-Exact (r ∷ earlier) s b avoids h u =
        IfOk-bind (λ b1. Walked qt memory r b home_state_idx r.sequence b1 × NowhereRead qt e b1) _
          (walk qt memory r [] r.sequence home_state_idx b) _
          (IfOk-both _ (NowhereRead qt e) (walk qt memory r [] r.sequence home_state_idx b)
            (walk-Walked qt memory r [] r.sequence home_state_idx b)
            (walk-keeps qt memory (NowhereRead qt e) (Other qt e) (iterate-Unread qt e memory) r []
              r.sequence home_state_idx b avoids.0 u))
          λ b1 (w, u1).
            let (s1, there, g) = w.0 home_state_idx s h in
            walk_all-Exact earlier s1 b1 avoids.1 there u1

  pub generate_states-Exact :
      (layer : Layer) (earlier later : List SequenceTrigger) (trigger : SequenceTrigger)
      (e : InputEvent)
      → layer.sequence_remappings ≡ earlier ++ trigger ∷ later
      → All (Avoids qt e) earlier
      → Starts e trigger.sequence
      → EndsInKey trigger.sequence
      → IfOk
          (λ machine.
            Runs qt machine home_state_idx trigger.sequence
              (let_through trigger.behavior trigger.sequence
                ++ map StateMachineOutputEvent.bind trigger.binds)
              home_state_idx)
          (generate_states qt memory layer)
  unfolding generate_states find
  generate_states-Exact layer earlier later trigger e parts avoids starts ends =
      rw (normalize_sequences-id layer.sequence_remappings, parts)
        (IfOk-bind (Exact qt memory trigger home_state_idx trigger.sequence) _
          (walk_all qt memory (earlier ++ trigger ∷ later) generate_home_state) _
          (walk_all-Exact e trigger later starts ends earlier _ generate_home_state avoids refl
            (refl, tt))
          (λ b f. f))
