-- ===== src/Machine/Paths/Way.antt =====
-- A walk of `generate_states` (common/src/state_machine.cpp) from a state that does not read the
-- sequence's beginning yet: what the way there and back puts out.
use mathlib.Core.List.{append_assoc, append-nil}
use keybinder.Base.{
  ℕ, ◌≡◌, refl, sym, ap, ◌∙◌, subst, Bool, true, false, List, [], ◌∷◌, ◌++◌, map, Option, none,
  some, get_elem?, Result, ok, fail, IfOk, IfOk-bind, IfOk-map, ◌>>=◌,
}
use keybinder.QtText.{QtText}
use keybinder.Profile.{SequenceBehavior, AdvancedTrigger, Timer, SequenceTrigger}
use keybinder.Event.{InputEvent}
use keybinder.Machine.{home_state_idx, StateMachineOutputEvent, Transition, State, find}
use keybinder.Machine.Build.{Memory, Building, trigger_to_input, released, duration}
use keybinder.Machine.Generate.{turn, walk, is_empty}
use keybinder.Machine.Paths.{Extends}
use keybinder.Machine.Paths.Timed.{wait_behind, Runs}
use keybinder.Machine.Paths.Turns.{Read, turn-Read}
use keybinder.Machine.Paths.Compiled.{EndsInKey, Walked, walk-Walked}
use keybinder.Machine.Paths.Fresh.{Blank, Behind, Free, Passed, turn-Passed}

-- What the events of a sequence put out on the way: a sequence that releases them gives each one on.
unfoldable pub let_through : SequenceBehavior → List AdvancedTrigger → List StateMachineOutputEvent
let_through behavior [] = []
let_through behavior (x ∷ rest) = elim (trigger_to_input x) [
  | none ↦ let_through behavior rest
  | some e ↦ released behavior e ++ let_through behavior rest
]

abbrev pub promised : SequenceTrigger → List AdvancedTrigger → List StateMachineOutputEvent
promised trigger xs =
    let_through trigger.behavior xs ++ map StateMachineOutputEvent.bind trigger.binds

promised-event :
    (trigger : SequenceTrigger) (x : AdvancedTrigger) (e : InputEvent) (rest : List AdvancedTrigger)
    → trigger_to_input x ≡ some e
    → promised trigger (x ∷ rest) ≡ released trigger.behavior e ++ promised trigger rest
unfolding let_through
promised-event trigger x e rest h =
    ap
      (λ (o : Option InputEvent).
        (elim o [
          | none ↦ let_through trigger.behavior rest
          | some e ↦ released trigger.behavior e ++ let_through trigger.behavior rest
        ])
        ++ map StateMachineOutputEvent.bind trigger.binds)
      h
    ∙ append_assoc (released trigger.behavior e) (let_through trigger.behavior rest) _

pub IfOk-both {ℓ} :
    {A : Type ℓ} (P Q : A → Type 0) (r : Result A) → IfOk P r → IfOk Q r → IfOk (λ a. P a × Q a) r
IfOk-both P Q (ok a) h k = (h, k)
IfOk-both P Q (fail e) h k = tt

-- A wait is not the end.
beyond :
    (x : AdvancedTrigger) (rest : List AdvancedTrigger) (P : Type 0)
    → EndsInKey (x ∷ rest)
    → (¬ EndsInKey (x ∷ []))
    → (EndsInKey rest → P)
    → P
beyond x [] P h n k = absurd (n h)
beyond x (y ∷ rest) P h n k = k h

module _ (qt : QtText) (memory : Memory) where
  abbrev pub Exact : SequenceTrigger → ℕ → List AdvancedTrigger → Building → Type 0
  Exact trigger i xs b = Runs qt b.states i xs (promised trigger xs) home_state_idx

  abbrev pub FirstFree : List AdvancedTrigger → State → Type 0
  FirstFree [] s = Unit
  FirstFree (x ∷ rest) s = Free qt memory x s

  blank-FirstFree : (xs : List AdvancedTrigger) (s : State) → s.edges ≡ [] → FirstFree xs s
  unfolding find
  blank-FirstFree [] s h = tt
  blank-FirstFree (x ∷ rest) s h = λ e reads. rw h refl

  last-Exact :
      (trigger : SequenceTrigger) (seen : List AdvancedTrigger) (x : AdvancedTrigger) (current : ℕ)
      (b : Building) (p : ℕ × Building)
      → Read qt memory trigger seen x none true false current b p
      → Exact trigger current (x ∷ []) p.1
  unfolding let_through
  last-Exact trigger seen x current b p r =
      Runs.event x r.e r.turned.s r.turned.t r.reads r.turned.state_there r.turned.edge_there
        (r.turned.timed refl)
        (promised-event trigger x r.e [] r.reads
          ∙ sym (append-nil r.turned.t.outputs ∙ r.turned.puts_out refl))
        (subst (λ k. Runs qt p.1.states k [] [] home_state_idx) (sym (r.turned.goes_home refl))
          Runs.done)

  -- The walk behind one turn.
  behind-Exact :
      (trigger : SequenceTrigger) (seen : List AdvancedTrigger) (x : AdvancedTrigger)
      (timer : Option Timer) (second : Bool) (current : ℕ) (s : State) (b : Building)
      (xs ys : List AdvancedTrigger)
      → get_elem? b.states current ≡ some s
      → Free qt memory x s
      → duration timer ≡ wait_behind xs
      → ((p : ℕ × Building)
          → Blank p.1.states p.0
          → IfOk (Exact trigger p.0 ys) (walk qt memory trigger seen ys p.0 p.1))
      → ((p : ℕ × Building) (b' : Building)
            (o : Passed qt memory trigger seen x timer second current p)
          → Extends qt p.1.states b'.states
          → Exact trigger p.0 ys b'
          → Exact trigger o.opened.t.new_state xs b')
      → IfOk (Exact trigger current (x ∷ xs)) (do
        final ← turn qt memory trigger seen x timer false second current b
        walk qt memory trigger seen ys final.0 final.1)
  behind-Exact trigger seen x timer second current s b xs ys h free behind walks leads =
      IfOk-bind (Passed qt memory trigger seen x timer second current)
        (Exact trigger current (x ∷ xs))
        (turn qt memory trigger seen x timer false second current b) _
        (turn-Passed qt memory trigger seen x timer second current s b h free)
        λ p r.
          IfOk-map (λ b'. Walked qt memory trigger p.1 p.0 ys b' × Exact trigger p.0 ys b')
            (Exact trigger current (x ∷ xs)) (walk qt memory trigger seen ys p.0 p.1)
            (IfOk-both _ (Exact trigger p.0 ys) (walk qt memory trigger seen ys p.0 p.1)
              (walk-Walked qt memory trigger seen ys p.0 p.1) (walks p r.opened.ready))
            (λ b' w.
              let (s', there, g) = w.0.0 current r.opened.s r.opened.state_there in
              Runs.event x r.e s' r.opened.t r.reads there
                (g.edges_kept r.e r.opened.t r.opened.edge_there) (r.opened.timed ∙ behind)
                (promised-event trigger x r.e xs r.reads
                  ∙ ap (λ (os : List StateMachineOutputEvent). os ++ promised trigger xs)
                      (sym r.opened.puts_out))
                (leads p b' r w.0.0 w.1))

  passed_wait :
      (trigger : SequenceTrigger) (ms i final : ℕ) (rest : List AdvancedTrigger) (b b' : Building)
      → Extends qt b.states b'.states
      → Behind (some (Timer.minimum ms)) false b.states i final
      → Exact trigger final rest b'
      → Exact trigger i (AdvancedTrigger.minimum_wait ms ∷ rest) b'
  unfolding let_through
  passed_wait trigger ms i final rest b b' x behind f =
      let (s, t, there, timer, silent, leads) = behind refl in
      let (s', there', g) = x i s there in
      Runs.waited ms s' t there' (g.timer_kept t timer)
        (ap (λ (os : List StateMachineOutputEvent). os ++ promised trigger rest) (sym silent))
        (subst (λ k. Exact trigger k rest b') (sym leads) f)

  in_time_wait :
      (trigger : SequenceTrigger) (ms i final : ℕ) (rest : List AdvancedTrigger) (b b' : Building)
      → Extends qt b.states b'.states
      → Behind (some (Timer.maximum ms)) false b.states i final
      → Exact trigger final rest b'
      → Exact trigger i (AdvancedTrigger.maximum_wait ms ∷ rest) b'
  unfolding let_through
  in_time_wait trigger ms i final rest b b' x (e, (s, there, expires)) f =
      let (s', there', g) = x i s there in
      Runs.in_time ms s' there'
        (g.timer_kept s.fallback_transition expires
          ∙ ap (λ (t : Transition). some t) (sym g.fallback_kept))
        (subst (λ k. Exact trigger k rest b') (sym e) f)

  pub walk-Exact :
      (trigger : SequenceTrigger) (seen xs : List AdvancedTrigger) (current : ℕ) (s : State)
      (b : Building)
      → get_elem? b.states current ≡ some s
      → FirstFree xs s
      → EndsInKey xs
      → IfOk (Exact trigger current xs) (walk qt memory trigger seen xs current b)
  unfolding walk
  walk-Exact trigger seen [] current s b h free ends = absurd ends
  walk-Exact trigger seen (x ∷ []) current s b h free ends =
      IfOk-bind (Read qt memory trigger (seen ++ x ∷ []) x none true false current b)
        (Exact trigger current (x ∷ []))
        (turn qt memory trigger (seen ++ x ∷ []) x none true false current b) _
        (turn-Read qt memory trigger (seen ++ x ∷ []) x none true false current b)
        (λ p r. last-Exact trigger (seen ++ x ∷ []) x current b p r)
  walk-Exact trigger seen (x ∷ AdvancedTrigger.minimum_wait ms ∷ []) current s b h free ends =
      absurd (ends tt)
  walk-Exact trigger seen (x ∷ AdvancedTrigger.minimum_wait ms ∷ y ∷ rest) current s b h free ends =
      let passed = seen ++ x ∷ AdvancedTrigger.minimum_wait ms ∷ [] in
      behind-Exact trigger passed x (some (Timer.minimum ms)) false current s b
        (AdvancedTrigger.minimum_wait ms ∷ y ∷ rest) (y ∷ rest) h free refl
        (λ p blank.
          walk-Exact trigger passed (y ∷ rest) p.0 blank.0 p.1 blank.1
            (blank-FirstFree (y ∷ rest) blank.0 blank.2) ends)
        (λ p b' o x f.
          passed_wait trigger ms o.opened.t.new_state p.0 (y ∷ rest) p.1 b' x o.opened.behind f)
  walk-Exact trigger seen (x ∷ AdvancedTrigger.maximum_wait ms ∷ []) current s b h free ends =
      absurd (ends tt)
  walk-Exact trigger seen (x ∷ AdvancedTrigger.maximum_wait ms ∷ y ∷ rest) current s b h free ends =
      let passed = seen ++ x ∷ AdvancedTrigger.maximum_wait ms ∷ [] in
      behind-Exact trigger passed x (some (Timer.maximum ms)) false current s b
        (AdvancedTrigger.maximum_wait ms ∷ y ∷ rest) (y ∷ rest) h free refl
        (λ p blank.
          walk-Exact trigger passed (y ∷ rest) p.0 blank.0 p.1 blank.1
            (blank-FirstFree (y ∷ rest) blank.0 blank.2) ends)
        (λ p b' o x f.
          in_time_wait trigger ms o.opened.t.new_state p.0 (y ∷ rest) p.1 b' x o.opened.behind f)
  walk-Exact trigger seen (x ∷ y ∷ rest) current s b h free ends =
      behind-Exact trigger (seen ++ x ∷ []) x none (is_empty rest) current s b (y ∷ rest) (y ∷ rest)
        h free refl
        (λ p blank.
          walk-Exact trigger (seen ++ x ∷ []) (y ∷ rest) p.0 blank.0 p.1 blank.1
            (blank-FirstFree (y ∷ rest) blank.0 blank.2) ends)
        (λ p b' o x f. subst (λ k. Exact trigger k (y ∷ rest) b') (sym o.opened.behind) f)
