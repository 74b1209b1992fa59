-- ===== src/Machine/Paths/Links.antt =====
-- The two branches of an iteration of `generate_states` (common/src/state_machine.cpp), as edges of the
-- machine.
use keybinder.Base.{
  ℕ, zero, suc, ◌≡◌, refl, true, false, List, [], ◌∷◌, ◌++◌, map, Option, none, some, get_elem?,
  set, Bool-cases, inl, inr, IfOk, IfOk-bind, IfOk-if, IfOk-any, not, ◌||◌, at,
}
use keybinder.QtText.{QtText}
use keybinder.Profile.{SequenceBehavior, Bind}
use keybinder.Event.{InputEvent}
use keybinder.Machine.{home_state_idx, StateMachineOutputEvent, Transition, State, find}
use keybinder.Machine.Build.{
  behavior_eq, timers_conflict, Memory, Building, Iteration, released, duration, add_edge, extend,
  share, new_state,
}
use keybinder.Machine.Generate.{branch}
use keybinder.Machine.Paths.{
  Extends, Extends-refl, Extends-trans, append-Extends, set-Extends, find-put_new, find-put_old,
}

-- What the last trigger's transition puts out.
abbrev pub final_outputs : SequenceBehavior → List Bind → InputEvent → List StateMachineOutputEvent
final_outputs behavior binds e = released behavior e ++ map StateMachineOutputEvent.bind binds

pub get_elem?-set :
    (xs : List State) (i : ℕ) (old new : State)
    → get_elem? xs i ≡ some old
    → get_elem? (set xs i new) i ≡ some new
get_elem?-set [] i old new h = cc
get_elem?-set (x ∷ xs) zero old new h = refl
get_elem?-set (x ∷ xs) (suc i) old new h = get_elem?-set xs i old new h

pub get_elem?-append :
    (xs ys : List State) (i : ℕ) (s : State)
    → get_elem? xs i ≡ some s
    → get_elem? (xs ++ ys) i ≡ some s
get_elem?-append [] ys i s h = cc
get_elem?-append (x ∷ xs) ys zero s h = h
get_elem?-append (x ∷ xs) ys (suc i) s h = get_elem?-append xs ys i s h

module _ (qt : QtText) (memory : Memory) where
  -- The edge that a branch made or found, and where it leads.
  pub record Linked (it : Iteration) (current : ℕ) (p : ℕ × Building) : Type 0 where
    pub s : State
    pub t : Transition
    pub state_there : get_elem? p.1.states current ≡ some s
    pub edge_there : find qt it.input_event s.edges ≡ some t
    pub goes_on : it.is_last ≡ false → t.new_state ≡ p.0
    pub goes_home : it.is_last ≡ true → t.new_state ≡ home_state_idx
    pub puts_out : it.is_last ≡ true → t.outputs ≡ final_outputs it.behavior it.binds it.input_event
    pub timed : it.is_last ≡ true → t.timer_ms ≡ duration it.timer

  abbrev pub Progress : (ℕ × Building → Type 0) → Building → ℕ × Building → Type 0
  Progress P b p = Extends qt b.states p.1.states × P p

  share-Linked :
      (it : Iteration) (current : ℕ) (s : State) (t : Transition) (b : Building)
      → get_elem? b.states current ≡ some s
      → find qt it.input_event s.edges ≡ some t
      → IfOk (Progress (Linked it current) b) (share it t b)
  unfolding share
  share-Linked it current s t b h f =
      IfOk-if (Progress (Linked it current) b) it.is_last _ _ (λ last. tt)
        (λ more.
          IfOk-bind (λ md. Unit {0}) (Progress (Linked it current) b)
            (at b.state_metadata t.new_state) _ (IfOk-any (at b.state_metadata t.new_state))
            (λ md u.
              IfOk-if (Progress (Linked it current) b)
                (not (behavior_eq md.behavior it.behavior) || timers_conflict md.timer it.timer) _ _
                (λ bad. tt)
                (λ good. (
                  Extends-refl qt b.states,
                  record {
                    s = s;
                    t = t;
                    state_there = h;
                    edge_there = f;
                    goes_on = λ n. refl;
                    goes_home = λ l. cc (l, more);
                    puts_out = λ l. cc (l, more);
                    timed = λ l. cc (l, more);
                  },
                ))))

  add_edge-Extends :
      (current : ℕ) (s : State) (e : InputEvent) (t : Transition) (ss : List State)
      → get_elem? ss current ≡ some s
      → find qt e s.edges ≡ none
      → Extends qt ss (add_edge qt current s e t ss)
  unfolding add_edge
  add_edge-Extends current s e t ss h f = set-Extends qt ss current s _ h (record {
    edges_kept = λ x v k. find-put_old qt e x t v s.edges f k;
    timer_kept = λ v k. k;
    fallback_kept = refl;
  })

  extend-Linked :
      (it : Iteration) (current : ℕ) (s : State) (b : Building)
      → get_elem? b.states current ≡ some s
      → find qt it.input_event s.edges ≡ none
      → Progress (Linked it current) b (extend qt memory it current s b)
  unfolding extend add_edge
  extend-Linked it current s b h f = elim (Bool-cases it.is_last) [
    | inl last ↦ rw last (
      add_edge-Extends current s it.input_event _ b.states h f,
      record {
        s = _;
        t = _;
        state_there = get_elem?-set b.states current s _ h;
        edge_there = find-put_new qt it.input_event _ s.edges f;
        goes_on = λ n. cc;
        goes_home = λ l. refl;
        puts_out = λ l. refl;
        timed = λ l. refl;
      },
    )
    | inr more ↦ rw more (
      Extends-trans qt b.states _ _ (add_edge-Extends current s it.input_event _ b.states h f)
          (append-Extends qt _ (new_state it ∷ [])),
      record {
        s = _;
        t = _;
        state_there =
            get_elem?-append _ (new_state it ∷ []) current _ (get_elem?-set b.states current s _ h);
        edge_there = find-put_new qt it.input_event _ s.edges f;
        goes_on = λ n. refl;
        goes_home = λ l. cc;
        puts_out = λ l. cc;
        timed = λ l. cc;
      },
    )
  ]

  pub branch-Linked :
      (it : Iteration) (current : ℕ) (s : State) (o : Option Transition) (b : Building)
      → get_elem? b.states current ≡ some s
      → find qt it.input_event s.edges ≡ o
      → IfOk (Progress (Linked it current) b) (branch qt memory it current s o b)
  unfolding branch
  branch-Linked it current s none b h f = extend-Linked it current s b h f
  branch-Linked it current s (some t) b h f = share-Linked it current s t b h f
