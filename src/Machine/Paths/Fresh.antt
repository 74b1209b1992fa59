-- ===== src/Machine/Paths/Fresh.antt =====
-- An iteration of `generate_states` (common/src/state_machine.cpp) at a trigger that the current state
-- does not read yet: all that the way gets there is the sequence's own.
use keybinder.Base.{
  ℕ, zero, suc, ◌≡◌, refl, sym, subst, Bool, false, List, [], ◌∷◌, ◌++◌, Option, none, some, length,
  length-set, get_elem?, set, at, ok, ◌>>=◌, IfOk, IfOk-bind, IfOk-map, IfOk-at, Result, Bool-cases,
  inl, inr, or_fail, or_fail-IfOk, throws, bad_optional_access, arith,
}
use keybinder.QtText.{QtText}
use keybinder.Profile.{AdvancedTrigger, Timer, SequenceTrigger}
use keybinder.Event.{InputEvent}
use keybinder.Machine.{Transition, State, find}
use keybinder.Machine.Build.{
  Memory, Building, Iteration, trigger_to_input, released, new_state, add_edge, extend, arm,
  arm_minimum, arm_maximum, duration,
}
use keybinder.Machine.Generate.{branch, iterate, turn}
use keybinder.Machine.Walks.{iteration}
use keybinder.Machine.Paths.{find-put_new}
use keybinder.Machine.Paths.Links.{get_elem?-set, get_elem?-append}
use keybinder.Machine.Paths.Timers.{arm-Armed}

get_elem?-end :
    (xs : List State) (y : State) (n : ℕ) → n ≡ length xs → get_elem? (xs ++ y ∷ []) n ≡ some y
get_elem?-end [] y zero h = refl
get_elem?-end [] y (suc n) h = absurd (omega (arith, h))
get_elem?-end (x ∷ xs) y zero h = absurd (omega (arith, h))
get_elem?-end (x ∷ xs) y (suc n) h = get_elem?-end xs y n (omega (arith, h))

-- A state from which nothing is read yet.
abbrev pub Blank : List State → ℕ → Type 0
Blank ss i = (s : State) × (get_elem? ss i ≡ some s) × (s.edges ≡ [])

-- From the state behind the edge to the one where the next trigger is read: a minimum wait that
-- does not end the sequence is passed in silence.
abbrev pub Silent : List State → ℕ → ℕ → Type 0
Silent ss next final =
    (s : State) × (t : Transition) × (get_elem? ss next ≡ some s)
    × (s.timer_transition ≡ some t)
    × (t.outputs ≡ [])
    × (t.new_state ≡ final)

-- The state's timer does what its fallback does.
abbrev pub Expires : List State → ℕ → Type 0
Expires ss next =
    (s : State) × (get_elem? ss next ≡ some s) × (s.timer_transition ≡ some s.fallback_transition)

abbrev pub Behind : Option Timer → Bool → List State → ℕ → ℕ → Type 0
Behind (some (Timer.minimum ms)) second ss next final = second ≡ false → Silent ss next final
Behind (some (Timer.maximum ms)) second ss next final = (next ≡ final) × Expires ss next
Behind none second ss next final = next ≡ final

module _ (qt : QtText) (memory : Memory) where
  -- The edge that the iteration made.
  pub record Opened (it : Iteration) (current : ℕ) (p : ℕ × Building) : Type 0 where
    pub s : State
    pub t : Transition
    pub state_there : get_elem? p.1.states current ≡ some s
    pub edge_there : find qt it.input_event s.edges ≡ some t
    pub puts_out : t.outputs ≡ released it.behavior it.input_event
    pub timed : t.timer_ms ≡ duration it.timer
    pub behind : Behind it.timer it.is_second_to_last p.1.states t.new_state p.0
    pub ready : Blank p.1.states p.0

  arm-Behind :
      (it : Iteration) (timer : Option Timer) (next : ℕ) (b : Building)
      → get_elem? b.states next ≡ some (new_state it)
      → let p = arm memory it timer next (new_state it) b in
        Behind timer it.is_second_to_last p.1.states next p.0 × Blank p.1.states p.0
  unfolding arm arm_minimum arm_maximum new_state
  arm-Behind it none next b h = (refl, (new_state it, h, refl))
  arm-Behind it (some (Timer.maximum ms)) next b h = (
    (refl, (_, get_elem?-set b.states next _ _ h, refl)),
    (_, get_elem?-set b.states next _ _ h, refl),
  )
  arm-Behind it (some (Timer.minimum ms)) next b h = elim (Bool-cases it.is_second_to_last) [
    | inl second ↦ rw second (λ n. cc, (_, get_elem?-set b.states next _ _ h, refl))
    | inr more ↦ rw more (
      λ n.
          (_, _, get_elem?-append _ _ next _ (get_elem?-set b.states next _ _ h), refl, refl, refl),
      (
        _,
        get_elem?-end (set b.states next _) _ (length b.states) (sym (length-set b.states next _)),
        refl,
      ),
    )
  ]

  -- The machine behind the branch that adds an edge and a state.
  abbrev grown : Iteration → ℕ → State → Building → Building
  grown it current s b = record {
    states =
        add_edge qt current s it.input_event
          (record {
            timer_ms = duration it.timer;
            outputs = released it.behavior it.input_event;
            new_state = length b.states;
          })
          b.states
        ++ new_state it ∷ [];
    state_metadata = b.state_metadata ++ record { timer = it.timer; behavior = it.behavior } ∷ [];
  }

  armed-Opened :
      (it : Iteration) (current : ℕ) (s : State) (b : Building)
      → get_elem? b.states current ≡ some s
      → find qt it.input_event s.edges ≡ none
      → let n = length b.states in
        let b1 = grown it current s b in
        get_elem? b1.states n ≡ some (new_state it)
        → Opened it current (arm memory it it.timer n (new_state it) b1)
  unfolding add_edge
  armed-Opened it current s b h f there =
      let n = length b.states in
      let b1 = grown it current s b in
      let (behind, ready) = arm-Behind it it.timer n b1 there in
      let kept = arm-Armed qt memory it it.timer n (new_state it) b1 there in
      let old =
        get_elem?-append _ (new_state it ∷ []) current _ (get_elem?-set b.states current s _ h) in
      let (s', there', g) = kept.0 current _ old in
      record {
        s = s';
        t = _;
        state_there = there';
        edge_there = g.edges_kept it.input_event _ (find-put_new qt it.input_event _ s.edges f);
        puts_out = refl;
        timed = refl;
        behind = behind;
        ready = ready;
      }

  -- The rest of an iteration, for what the lookup of the event gave.
  abbrev continued : Iteration → ℕ → State → Building → Option Transition → Result (ℕ × Building)
  continued it current s b o = do
    linked ← branch qt memory it current s o b
    next_state ← at linked.1.states linked.0
    ok (arm memory it it.timer linked.0 next_state linked.1)

  continued-Opened :
      (trigger : SequenceTrigger) (seen : List AdvancedTrigger) (e : InputEvent)
      (timer : Option Timer) (second : Bool) (current : ℕ) (s : State) (b : Building)
      → get_elem? b.states current ≡ some s
      → find qt e s.edges ≡ none
      → let it = iteration trigger seen e timer false second in
        IfOk (Opened it current) (continued it current s b none)
  unfolding branch extend add_edge
  continued-Opened trigger seen e timer second current s b h f =
      let it = iteration trigger seen e timer false second in
      let b1 = grown it current s b in
      let there =
        get_elem?-end (add_edge qt current s e _ b.states) (new_state it) (length b.states)
          (sym (length-set b.states current _)) in
      IfOk-bind (λ n. get_elem? b1.states (length b.states) ≡ some n) (Opened it current)
        (at b1.states (length b.states)) _ (IfOk-at b1.states (length b.states))
        λ n hn.
          let new : new_state it ≡ n = cc (there, hn) in
          subst (λ z. Opened it current (arm memory it timer (length b.states) z b1)) new
            (armed-Opened it current s b h f there)

  iterate-Opened :
      (trigger : SequenceTrigger) (seen : List AdvancedTrigger) (e : InputEvent)
      (timer : Option Timer) (second : Bool) (current : ℕ) (s : State) (b : Building)
      → get_elem? b.states current ≡ some s
      → find qt e s.edges ≡ none
      → let it = iteration trigger seen e timer false second in
        IfOk (Opened it current) (iterate qt memory it current b)
  unfolding iterate
  iterate-Opened trigger seen e timer second current s b h f =
      let it = iteration trigger seen e timer false second in
      IfOk-bind (λ s'. get_elem? b.states current ≡ some s') (Opened it current)
        (at b.states current) _ (IfOk-at b.states current)
        λ s' h'.
          let same : s ≡ s' = cc (h, h') in
          let f' = subst (λ z. find qt e z.edges ≡ none) same f in
          subst (λ o. IfOk (Opened it current) (continued it current s' b o)) (sym f')
            (continued-Opened trigger seen e timer second current s' b h' f')

  -- The state reads no event of the trigger.
  abbrev pub Free : AdvancedTrigger → State → Type 0
  Free x s = (e : InputEvent) → trigger_to_input x ≡ some e → find qt e s.edges ≡ none

  pub record Passed (trigger : SequenceTrigger) (seen : List AdvancedTrigger) (x : AdvancedTrigger)
      (timer : Option Timer) (second : Bool) (current : ℕ) (p : ℕ × Building) : Type 0 where
    pub e : InputEvent
    pub reads : trigger_to_input x ≡ some e
    pub opened : Opened (iteration trigger seen e timer false second) current p

  pub turn-Passed :
      (trigger : SequenceTrigger) (seen : List AdvancedTrigger) (x : AdvancedTrigger)
      (timer : Option Timer) (second : Bool) (current : ℕ) (s : State) (b : Building)
      → get_elem? b.states current ≡ some s
      → Free x s
      → IfOk
          (Passed trigger seen x timer second current)
          (turn qt memory trigger seen x timer false second current b)
  unfolding turn
  turn-Passed trigger seen x timer second current s b h free =
      IfOk-bind (λ e. trigger_to_input x ≡ some e) (Passed trigger seen x timer second current)
        (or_fail (trigger_to_input x) (throws bad_optional_access)) _
        (or_fail-IfOk (trigger_to_input x) (throws bad_optional_access))
        λ e reads.
          let it = iteration trigger seen e timer false second in
          IfOk-map (Opened it current) (Passed trigger seen x timer second current)
            (iterate qt memory it current b)
            (iterate-Opened trigger seen e timer second current s b h (free e reads))
            (λ p o. record { e = e; reads = reads; opened = o })
