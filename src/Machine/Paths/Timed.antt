-- ===== src/Machine/Paths/Timed.antt =====
-- Ways through a machine of common/src/state_machine.cpp on which every wait has its timer.
use keybinder.Base.{ℕ, ◌≡◌, sym, ap, ◌∙◌, List, [], ◌∷◌, ◌++◌, Option, none, some, get_elem?}
use keybinder.QtText.{QtText}
use keybinder.Profile.{AdvancedTrigger}
use keybinder.Event.{InputEvent}
use keybinder.Machine.{StateMachineOutputEvent, Transition, State, find}
use keybinder.Machine.Build.{trigger_to_input}
use keybinder.Machine.Paths.{Follows, Extends}

-- The time that comes behind a trigger, if the sequence goes on with a wait.
abbrev pub wait_behind : List AdvancedTrigger → Option ℕ
wait_behind (AdvancedTrigger.minimum_wait ms ∷ rest) = some ms
wait_behind (AdvancedTrigger.maximum_wait ms ∷ rest) = some ms
wait_behind _ = none

module _ (qt : QtText) where
  -- A machine read from state `i` to state `j`. At a key or focus event there is an edge, which starts
  -- the timer of the wait behind the event, and no timer where there is none. At a minimum wait the
  -- state has a transition for that timer, which goes on; at a maximum wait it has one, which does what
  -- its fallback does, and the way goes on in the state itself. The outputs are those of all the
  -- transitions taken.
  pub data Runs (ss : List State)
      : ℕ → List AdvancedTrigger → List StateMachineOutputEvent → ℕ → Type 0 where
    done : {i : ℕ} → Runs ss i [] [] i
    event :
        {i j : ℕ} {rest : List AdvancedTrigger} {outs later : List StateMachineOutputEvent}
        (x : AdvancedTrigger) (e : InputEvent) (s : State) (t : Transition)
        → trigger_to_input x ≡ some e
        → get_elem? ss i ≡ some s
        → find qt e s.edges ≡ some t
        → t.timer_ms ≡ wait_behind rest
        → outs ≡ t.outputs ++ later
        → Runs ss t.new_state rest later j
        → Runs ss i (x ∷ rest) outs j
    waited :
        {i j : ℕ} {rest : List AdvancedTrigger} {outs later : List StateMachineOutputEvent} (ms : ℕ)
        (s : State) (t : Transition)
        → get_elem? ss i ≡ some s
        → s.timer_transition ≡ some t
        → outs ≡ t.outputs ++ later
        → Runs ss t.new_state rest later j
        → Runs ss i (AdvancedTrigger.minimum_wait ms ∷ rest) outs j
    in_time :
        {i j : ℕ} {rest : List AdvancedTrigger} {outs : List StateMachineOutputEvent} (ms : ℕ)
        (s : State)
        → get_elem? ss i ≡ some s
        → s.timer_transition ≡ some s.fallback_transition
        → Runs ss i rest outs j
        → Runs ss i (AdvancedTrigger.maximum_wait ms ∷ rest) outs j

  pub Runs-Follows :
      {ss : List State} {i j : ℕ} {xs : List AdvancedTrigger} {outs : List StateMachineOutputEvent}
      → Runs ss i xs outs j
      → Follows qt ss i xs outs j
  Runs-Follows done = Follows.done
  Runs-Follows (event x e s t a b c timed o rest) =
      Follows.event x e s t a b c o (Runs-Follows rest)
  Runs-Follows (waited ms s t b c o rest) = Follows.waited ms s t b c o (Runs-Follows rest)
  Runs-Follows (in_time ms s b c rest) = Follows.in_time ms (Runs-Follows rest)

  pub Runs-Extends :
      {ss ss' : List State} {i j : ℕ} {xs : List AdvancedTrigger}
      {outs : List StateMachineOutputEvent}
      → Extends qt ss ss'
      → Runs ss i xs outs j
      → Runs ss' i xs outs j
  Runs-Extends h done = done
  Runs-Extends h (event {i} x e s t a b c timed o rest) =
      let (s', b', g) = h i s b in
      event x e s' t a b' (g.edges_kept e t c) timed o (Runs-Extends h rest)
  Runs-Extends h (waited {i} ms s t b c o rest) =
      let (s', b', g) = h i s b in waited ms s' t b' (g.timer_kept t c) o (Runs-Extends h rest)
  Runs-Extends h (in_time {i} ms s b c rest) =
      let (s', b', g) = h i s b in
      in_time ms s' b'
        (g.timer_kept s.fallback_transition c
          ∙ ap (λ (t : Transition). some t) (sym g.fallback_kept))
        (Runs-Extends h rest)
