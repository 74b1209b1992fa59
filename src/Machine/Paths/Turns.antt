-- ===== src/Machine/Paths/Turns.antt =====
-- One iteration of `generate_states` (common/src/state_machine.cpp) as a whole.
use keybinder.Base.{
  ℕ, ◌≡◌, refl, sym, subst, Bool, true, false, List, ◌++◌, map, Option, some, get_elem?, IfOk,
  IfOk-bind, IfOk-at, IfOk-map, or_fail-IfOk, at, or_fail, throws, bad_optional_access,
}
use keybinder.QtText.{QtText}
use keybinder.Profile.{AdvancedTrigger, Timer, SequenceTrigger}
use keybinder.Event.{InputEvent}
use keybinder.Machine.{home_state_idx, StateMachineOutputEvent, Transition, State, find}
use keybinder.Machine.Build.{Memory, Building, Iteration, trigger_to_input, duration}
use keybinder.Machine.Generate.{branch, iterate, turn}
use keybinder.Machine.Walks.{iteration}
use keybinder.Machine.Paths.{Follows, Extends, Extends-trans}
use keybinder.Machine.Paths.Links.{final_outputs, Linked, Progress, branch-Linked}
use keybinder.Machine.Paths.Timers.{After, arm-Armed}

module _ (qt : QtText) (memory : Memory) where
  -- What an iteration leaves: the trigger's edge, and where the walk goes on.
  pub record Turned (it : Iteration) (current : ℕ) (p : ℕ × Building) : Type 0 where
    pub s : State
    pub t : Transition
    pub state_there : get_elem? p.1.states current ≡ some s
    pub edge_there : find qt it.input_event s.edges ≡ some t
    pub goes_on :
        it.is_last ≡ false
        → After qt memory it.timer it.is_second_to_last p.1.states t.new_state p.0
    pub goes_home : it.is_last ≡ true → t.new_state ≡ home_state_idx
    pub puts_out : it.is_last ≡ true → t.outputs ≡ final_outputs it.behavior it.binds it.input_event
    pub timed : it.is_last ≡ true → t.timer_ms ≡ duration it.timer

  turned :
      (it : Iteration) (current : ℕ) (p q : ℕ × Building)
      → Linked qt memory it current p
      → Extends qt p.1.states q.1.states
      → After qt memory it.timer it.is_second_to_last q.1.states p.0 q.0
      → Turned it current q
  turned it current p q l x a =
      let (s', there, g) = x current l.s l.state_there in
      record {
        s = s';
        t = l.t;
        state_there = there;
        edge_there = g.edges_kept it.input_event l.t l.edge_there;
        goes_on = λ n.
            subst (λ k. After qt memory it.timer it.is_second_to_last q.1.states k q.0)
              (sym (l.goes_on n)) a;
        goes_home = l.goes_home;
        puts_out = l.puts_out;
        timed = l.timed;
      }

  iterate-Turned :
      (it : Iteration) (current : ℕ) (b : Building)
      → IfOk (Progress qt memory (Turned it current) b) (iterate qt memory it current b)
  unfolding iterate
  iterate-Turned it current b =
      IfOk-bind (λ s. get_elem? b.states current ≡ some s)
        (Progress qt memory (Turned it current) b) (at b.states current) _
        (IfOk-at b.states current)
        λ s h.
          IfOk-bind (Progress qt memory (Linked qt memory it current) b)
            (Progress qt memory (Turned it current) b)
            (branch qt memory it current s (find qt it.input_event s.edges) b) _
            (branch-Linked qt memory it current s (find qt it.input_event s.edges) b h refl)
            λ p l.
              IfOk-bind (λ n. get_elem? p.1.states p.0 ≡ some n)
                (Progress qt memory (Turned it current) b) (at p.1.states p.0) _
                (IfOk-at p.1.states p.0)
                λ n there.
                  let (x, a) = arm-Armed qt memory it it.timer p.0 n p.1 there in
                  (Extends-trans qt b.states p.1.states _ l.0 x, turned it current p _ l.1 x a)

  -- The sequence's end: the way through the machine ends at home with its binds put out last.
  abbrev pub Types : SequenceTrigger → List State → ℕ → List AdvancedTrigger → Type 0
  Types trigger ss i xs =
      (before : List StateMachineOutputEvent) × Follows qt ss i xs
        (before ++ map StateMachineOutputEvent.bind trigger.binds) home_state_idx

  pub record Read (trigger : SequenceTrigger) (seen : List AdvancedTrigger) (x : AdvancedTrigger)
      (timer : Option Timer) (is_last is_second_to_last : Bool) (current : ℕ) (b : Building)
      (p : ℕ × Building) : Type 0 where
    pub e : InputEvent
    pub reads : trigger_to_input x ≡ some e
    pub extends : Extends qt b.states p.1.states
    pub turned : Turned (iteration trigger seen e timer is_last is_second_to_last) current p

  pub turn-Read :
      (trigger : SequenceTrigger) (seen : List AdvancedTrigger) (x : AdvancedTrigger)
      (timer : Option Timer) (is_last is_second_to_last : Bool) (current : ℕ) (b : Building)
      → IfOk
          (Read trigger seen x timer is_last is_second_to_last current b)
          (turn qt memory trigger seen x timer is_last is_second_to_last current b)
  unfolding turn
  turn-Read trigger seen x timer l1 l2 current b =
      IfOk-bind (λ e. trigger_to_input x ≡ some e) (Read trigger seen x timer l1 l2 current b)
        (or_fail (trigger_to_input x) (throws bad_optional_access)) _
        (or_fail-IfOk (trigger_to_input x) (throws bad_optional_access))
        λ e reads.
          IfOk-map (Progress qt memory (Turned (iteration trigger seen e timer l1 l2) current) b)
            (Read trigger seen x timer l1 l2 current b)
            (iterate qt memory (iteration trigger seen e timer l1 l2) current b)
            (iterate-Turned (iteration trigger seen e timer l1 l2) current b)
            (λ p h. record { e = e; reads = reads; extends = h.0; turned = h.1 })
