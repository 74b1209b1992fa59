-- ===== src/Machine/Walks.antt =====
-- The loops of `generate_states` (common/src/state_machine.cpp) and an invariant of what they build:
-- one that each iteration keeps is kept by them all.
use keybinder.Base.{
  ℕ, ◌≡◌, Bool, true, false, List, [], ◌∷◌, ◌++◌, Option, none, some, All, IfOk, IfOk-bind,
  or_fail-IfOk, or_fail, throws, bad_optional_access,
}
use keybinder.QtText.{QtText}
use keybinder.Profile.{AdvancedTrigger, Timer, SequenceTrigger}
use keybinder.Event.{InputEvent}
use keybinder.Machine.{home_state_idx}
use keybinder.Machine.Build.{Memory, Building, Iteration, trigger_to_input}
use keybinder.Machine.Generate.{iterate, turn, walk, walk_all, is_empty}

abbrev pub iteration :
    SequenceTrigger → List AdvancedTrigger → InputEvent → Option Timer → Bool → Bool → Iteration
iteration trigger seen e timer is_last is_second_to_last = record {
  behavior = trigger.behavior;
  binds = trigger.binds;
  seen = seen;
  input_event = e;
  timer = timer;
  is_last = is_last;
  is_second_to_last = is_second_to_last;
}

-- Whether a sequence fits at a trigger, if there is an event to read.
abbrev pub FitsAt :
    (SequenceTrigger → InputEvent → Type 0) → SequenceTrigger → AdvancedTrigger → Type 0
FitsAt Fits trigger x = (e : InputEvent) → trigger_to_input x ≡ some e → Fits trigger e

pub All-any {ℓ κ} : {A : Type ℓ} {P : A → Type κ} → ((a : A) → P a) → (xs : List A) → All P xs
All-any h [] = tt
All-any h (x ∷ xs) = (h x, All-any h xs)

module _ (qt : QtText) (memory : Memory) (Kept : Building → Type 0)
    (Fits : SequenceTrigger → InputEvent → Type 0) where
  -- Each iteration keeps the property, at a trigger that fits.
  abbrev pub Keeps : Type 0
  Keeps =
      (trigger : SequenceTrigger) (seen : List AdvancedTrigger) (e : InputEvent)
      (timer : Option Timer) (is_last is_second_to_last : Bool) (current : ℕ) (b : Building)
      → Fits trigger e
      → Kept b
      → IfOk (λ p. Kept p.1)
          (iterate qt memory (iteration trigger seen e timer is_last is_second_to_last) current b)

  module _ (keeps : Keeps) where
    turn-keeps :
        (trigger : SequenceTrigger) (seen : List AdvancedTrigger) (x : AdvancedTrigger)
        (timer : Option Timer) (is_last is_second_to_last : Bool) (current : ℕ) (b : Building)
        → FitsAt Fits trigger x
        → Kept b
        → IfOk
            (λ p. Kept p.1)
            (turn qt memory trigger seen x timer is_last is_second_to_last current b)
    unfolding turn
    turn-keeps trigger seen x timer l1 l2 current b fits h =
        IfOk-bind (λ e. trigger_to_input x ≡ some e) (λ p. Kept p.1)
          (or_fail (trigger_to_input x) (throws bad_optional_access)) _
          (or_fail-IfOk (trigger_to_input x) (throws bad_optional_access))
          (λ e reads. keeps trigger seen e timer l1 l2 current b (fits e reads) h)

    pub walk-keeps :
        (trigger : SequenceTrigger) (seen xs : List AdvancedTrigger) (current : ℕ) (b : Building)
        → All (FitsAt Fits trigger) xs
        → Kept b
        → IfOk Kept (walk qt memory trigger seen xs current b)
    unfolding walk
    walk-keeps trigger seen [] current b fits h = h
    walk-keeps trigger seen (x ∷ []) current b fits h =
        IfOk-bind (λ p. Kept p.1) Kept
          (turn qt memory trigger (seen ++ x ∷ []) x none true false current b) _
          (turn-keeps trigger (seen ++ x ∷ []) x none true false current b fits.0 h) (λ p hp. hp)
    walk-keeps trigger seen (x ∷ AdvancedTrigger.minimum_wait ms ∷ rest) current b fits h =
        let passed = seen ++ x ∷ AdvancedTrigger.minimum_wait ms ∷ [] in
        IfOk-bind (λ p. Kept p.1) Kept _ _
          (turn-keeps trigger passed x (some (Timer.minimum ms)) false (is_empty rest) current b
            fits.0 h)
          λ p hp. walk-keeps trigger passed rest p.0 p.1 fits.1.1 hp
    walk-keeps trigger seen (x ∷ AdvancedTrigger.maximum_wait ms ∷ rest) current b fits h =
        let passed = seen ++ x ∷ AdvancedTrigger.maximum_wait ms ∷ [] in
        IfOk-bind (λ p. Kept p.1) Kept _ _
          (turn-keeps trigger passed x (some (Timer.maximum ms)) false (is_empty rest) current b
            fits.0 h)
          λ p hp. walk-keeps trigger passed rest p.0 p.1 fits.1.1 hp
    walk-keeps trigger seen (x ∷ y ∷ rest) current b fits h =
        IfOk-bind (λ p. Kept p.1) Kept _ _
          (turn-keeps trigger (seen ++ x ∷ []) x none false (is_empty rest) current b fits.0 h)
          λ p hp. walk-keeps trigger (seen ++ x ∷ []) (y ∷ rest) p.0 p.1 fits.1 hp

    pub walk_all-keeps :
        (sequences : List SequenceTrigger) (b : Building)
        → All (λ s. All (FitsAt Fits s) s.sequence) sequences
        → Kept b
        → IfOk Kept (walk_all qt memory sequences b)
    unfolding walk_all
    walk_all-keeps [] b fits h = h
    walk_all-keeps (s ∷ rest) b fits h =
        IfOk-bind Kept Kept (walk qt memory s [] s.sequence home_state_idx b) _
          (walk-keeps s [] s.sequence home_state_idx b fits.0 h)
          λ b' h'. walk_all-keeps rest b' fits.1 h'
