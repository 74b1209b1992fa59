-- ===== src/Machine/Paths/Compiled.antt =====
-- What `generate_states` (common/src/state_machine.cpp) makes of each sequence of the layer: edges at its
-- events and timer transitions at its minimum waits. Whether an edge starts the timer is left open here.
use mathlib.Core.List.{append_assoc, append-nil}
use keybinder.Base.{
  ℕ, ◌≡◌, refl, sym, ◌∙◌, subst, Bool, true, false, List, [], ◌∷◌, ◌++◌, map, Option, none, some,
  All, IfOk, IfOk-bind, IfOk-map, ◌>>=◌,
}
use keybinder.QtText.{QtText}
use keybinder.Profile.{AdvancedTrigger, Timer, SequenceTrigger}
use keybinder.Machine.{home_state_idx, StateMachineOutputEvent, State}
use keybinder.Machine.Build.{Memory, Building, released}
use keybinder.Machine.Paced.{IsWait}
use keybinder.Machine.Generate.{turn, walk, walk_all, is_empty}
use keybinder.Machine.Paths.{Follows, Extends, Extends-refl, Extends-trans, Follows-Extends}
use keybinder.Machine.Paths.Timers.{Waits}
use keybinder.Machine.Paths.Turns.{Types, Read, turn-Read}

-- A sequence whose last trigger is no wait.
abbrev pub EndsInKey : List AdvancedTrigger → Type 0
EndsInKey [] = ⊥
EndsInKey (x ∷ []) = ¬ IsWait x
EndsInKey (x ∷ y ∷ rest) = EndsInKey (y ∷ rest)

module _ (qt : QtText) (memory : Memory) where
  last-Types :
      (trigger : SequenceTrigger) (seen : List AdvancedTrigger) (x : AdvancedTrigger)
      (second : Bool) (current : ℕ) (b : Building) (p : ℕ × Building)
      → Read qt memory trigger seen x none true second current b p
      → Types qt memory trigger p.1.states current (x ∷ [])
  last-Types trigger seen x second current b p r = (
    released trigger.behavior r.e,
    Follows.event x r.e r.turned.s r.turned.t r.reads r.turned.state_there r.turned.edge_there
        (sym (append-nil r.turned.t.outputs ∙ r.turned.puts_out refl))
        (subst (λ k. Follows qt p.1.states k [] [] home_state_idx) (sym (r.turned.goes_home refl))
          Follows.done),
  )

  next-Types :
      (trigger : SequenceTrigger) (seen : List AdvancedTrigger) (x : AdvancedTrigger)
      (timer : Option Timer) (second : Bool) (current : ℕ) (b : Building) (p : ℕ × Building)
      (ss : List State) (xs : List AdvancedTrigger)
      → (r : Read qt memory trigger seen x timer false second current b p)
      → Extends qt p.1.states ss
      → Types qt memory trigger ss r.turned.t.new_state xs
      → Types qt memory trigger ss current (x ∷ xs)
  next-Types trigger seen x timer second current b p ss xs r h (before, f) =
      let (s', there, g) = h current r.turned.s r.turned.state_there in
      (
        r.turned.t.outputs ++ before,
        Follows.event x r.e s' r.turned.t r.reads there
            (g.edges_kept r.e r.turned.t r.turned.edge_there)
            (append_assoc r.turned.t.outputs before _) f,
      )

  waited-Types :
      (trigger : SequenceTrigger) (ms i final : ℕ) (xs : List AdvancedTrigger) (us ss : List State)
      → Extends qt us ss
      → Waits qt memory us i final
      → Types qt memory trigger ss final xs
      → Types qt memory trigger ss i (AdvancedTrigger.minimum_wait ms ∷ xs)
  waited-Types trigger ms i final xs us ss h (s, t, there, timer, leads) (before, f) =
      let (s', there', g) = h i s there in
      (
        t.outputs ++ before,
        Follows.waited ms s' t there' (g.timer_kept t timer) (append_assoc t.outputs before _) (
            subst
              (λ k.
                Follows qt ss k xs (before ++ map StateMachineOutputEvent.bind trigger.binds)
                  home_state_idx)
              (sym leads) f),
      )

  abbrev pub Walked : SequenceTrigger → Building → ℕ → List AdvancedTrigger → Building → Type 0
  Walked trigger b i xs b' =
      Extends qt b.states b'.states × (EndsInKey xs → Types qt memory trigger b'.states i xs)

  -- The walk behind one turn.
  behind :
      (trigger : SequenceTrigger) (seen : List AdvancedTrigger) (x : AdvancedTrigger)
      (timer : Option Timer) (second : Bool) (current : ℕ) (b : Building)
      (xs ys : List AdvancedTrigger)
      → ((p : ℕ × Building)
          → IfOk (Walked trigger p.1 p.0 ys) (walk qt memory trigger seen ys p.0 p.1))
      → ((p : ℕ × Building) (b' : Building)
            (r : Read qt memory trigger seen x timer false second current b p)
          → Extends qt p.1.states b'.states
          → (EndsInKey ys → Types qt memory trigger b'.states p.0 ys)
          → EndsInKey xs
          → Types qt memory trigger b'.states r.turned.t.new_state xs)
      → (EndsInKey (x ∷ xs) → EndsInKey xs)
      → IfOk (Walked trigger b current (x ∷ xs)) (do
        final ← turn qt memory trigger seen x timer false second current b
        walk qt memory trigger seen ys final.0 final.1)
  behind trigger seen x timer second current b xs ys walks leads ends =
      IfOk-bind (Read qt memory trigger seen x timer false second current b)
        (Walked trigger b current (x ∷ xs))
        (turn qt memory trigger seen x timer false second current b) _
        (turn-Read qt memory trigger seen x timer false second current b)
        λ p r.
          IfOk-map (Walked trigger p.1 p.0 ys) (Walked trigger b current (x ∷ xs))
            (walk qt memory trigger seen ys p.0 p.1) (walks p)
            (λ b' w. (
              Extends-trans qt b.states p.1.states b'.states r.extends w.0,
              λ h.
                  next-Types trigger seen x timer second current b p b'.states xs r w.0
                    (leads p b' r w.0 w.1 (ends h)),
            ))

  at_wait :
      (trigger : SequenceTrigger) (ms i final : ℕ) (rest : List AdvancedTrigger)
      (us ss : List State)
      → Extends qt us ss
      → (is_empty rest ≡ false → Waits qt memory us i final)
      → (EndsInKey rest → Types qt memory trigger ss final rest)
      → EndsInKey (AdvancedTrigger.minimum_wait ms ∷ rest)
      → Types qt memory trigger ss i (AdvancedTrigger.minimum_wait ms ∷ rest)
  at_wait trigger ms i final [] us ss h a w k = absurd (k tt)
  at_wait trigger ms i final (y ∷ rest) us ss h a w k =
      waited-Types trigger ms i final (y ∷ rest) us ss h (a refl) (w k)

  at_deadline :
      (trigger : SequenceTrigger) (ms i final : ℕ) (rest : List AdvancedTrigger) (ss : List State)
      → i ≡ final
      → (EndsInKey rest → Types qt memory trigger ss final rest)
      → EndsInKey (AdvancedTrigger.maximum_wait ms ∷ rest)
      → Types qt memory trigger ss i (AdvancedTrigger.maximum_wait ms ∷ rest)
  at_deadline trigger ms i final [] ss e w k = absurd (k tt)
  at_deadline trigger ms i final (y ∷ rest) ss e w k =
      let (before, f) = subst (λ j. Types qt memory trigger ss j (y ∷ rest)) (sym e) (w k) in
      (before, Follows.in_time ms f)

  pub walk-Walked :
      (trigger : SequenceTrigger) (seen xs : List AdvancedTrigger) (current : ℕ) (b : Building)
      → IfOk (Walked trigger b current xs) (walk qt memory trigger seen xs current b)
  unfolding walk
  walk-Walked trigger seen [] current b = (Extends-refl qt b.states, λ h. absurd h)
  walk-Walked trigger seen (x ∷ []) current b =
      IfOk-bind (Read qt memory trigger (seen ++ x ∷ []) x none true false current b)
        (Walked trigger b current (x ∷ []))
        (turn qt memory trigger (seen ++ x ∷ []) x none true false current b) _
        (turn-Read qt memory trigger (seen ++ x ∷ []) x none true false current b)
        (λ p r. (r.extends, λ h. last-Types trigger (seen ++ x ∷ []) x false current b p r))
  walk-Walked trigger seen (x ∷ AdvancedTrigger.minimum_wait ms ∷ rest) current b =
      let passed = seen ++ x ∷ AdvancedTrigger.minimum_wait ms ∷ [] in
      behind trigger passed x (some (Timer.minimum ms)) (is_empty rest) current b
        (AdvancedTrigger.minimum_wait ms ∷ rest) rest (λ p. walk-Walked trigger passed rest p.0 p.1)
        (λ p b' r h w k.
          at_wait trigger ms r.turned.t.new_state p.0 rest p.1.states b'.states h
            (r.turned.goes_on refl) w k)
        (λ h. h)
  walk-Walked trigger seen (x ∷ AdvancedTrigger.maximum_wait ms ∷ rest) current b =
      let passed = seen ++ x ∷ AdvancedTrigger.maximum_wait ms ∷ [] in
      behind trigger passed x (some (Timer.maximum ms)) (is_empty rest) current b
        (AdvancedTrigger.maximum_wait ms ∷ rest) rest (λ p. walk-Walked trigger passed rest p.0 p.1)
        (λ p b' r h w k.
          at_deadline trigger ms r.turned.t.new_state p.0 rest b'.states (r.turned.goes_on refl) w
            k)
        (λ h. h)
  walk-Walked trigger seen (x ∷ y ∷ rest) current b =
      behind trigger (seen ++ x ∷ []) x none (is_empty rest) current b (y ∷ rest) (y ∷ rest)
        (λ p. walk-Walked trigger (seen ++ x ∷ []) (y ∷ rest) p.0 p.1)
        (λ p b' r h w k.
          subst (λ j. Types qt memory trigger b'.states j (y ∷ rest)) (sym (r.turned.goes_on refl))
            (w k))
        (λ h. h)

  -- What a machine owes to a sequence.
  abbrev pub Typed : List State → SequenceTrigger → Type 0
  Typed ss s =
      EndsInKey s.sequence
      → (before : List StateMachineOutputEvent) × Follows qt ss home_state_idx s.sequence
          (before ++ map StateMachineOutputEvent.bind s.binds) home_state_idx

  pub walk_all-Typed :
      (sequences : List SequenceTrigger) (b : Building)
      → IfOk
          (λ b'. Extends qt b.states b'.states × All (Typed b'.states) sequences)
          (walk_all qt memory sequences b)
  unfolding walk_all
  walk_all-Typed [] b = (Extends-refl qt b.states, tt)
  walk_all-Typed (s ∷ rest) b =
      IfOk-bind (Walked s b home_state_idx s.sequence) _
        (walk qt memory s [] s.sequence home_state_idx b) _
        (walk-Walked s [] s.sequence home_state_idx b)
        λ b1 w. IfOk-map _ _ (walk_all qt memory rest b1) (walk_all-Typed rest b1) (λ b2 v. (
          Extends-trans qt b.states b1.states b2.states w.0 v.0,
          ((λ h. let (before, f) = w.1 h in (before, Follows-Extends qt v.0 f)), v.1),
        ))
