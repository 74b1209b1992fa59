-- ===== src/Machine/Generate.antt =====
-- `generate_states` of common/src/state_machine.cpp: one machine for a layer's sequences.
use keybinder.Base.{
  ℕ, Bool, true, false, List, [], ◌∷◌, ◌++◌, Option, none, some, Result, ok, nullopt, throws,
  bad_optional_access, ◌>>=◌, or_fail, at,
}
use keybinder.QtText.{QtText}
use keybinder.Profile.{AdvancedTrigger, Timer, SequenceTrigger, Layer}
use keybinder.Machine.{home_state_idx, Transition, State, find}
use keybinder.Machine.Normalize.{normalize_sequences}
use keybinder.Machine.Build.{
  Memory, Building, Iteration, generate_home_state, trigger_to_input, share, extend, arm,
}

unfoldable pub branch :
    QtText → Memory → Iteration → ℕ → State → Option Transition → Building → Result (ℕ × Building)
unfolding share extend
branch qt memory it current s (some existing) b = share it existing b
branch qt memory it current s none b = ok (extend qt memory it current s b)

-- One iteration, from `current_state_idx` to `final_state_idx`.
unfoldable pub iterate : QtText → Memory → Iteration → ℕ → Building → Result (ℕ × Building)
unfolding branch arm find
iterate qt memory it current b = do
  s ← at b.states current
  linked ← branch qt memory it current s (find qt it.input_event s.edges) b
  next_state ← at linked.1.states linked.0
  ok (arm memory it it.timer linked.0 next_state linked.1)

abbrev pub is_empty {ℓ} : {A : Type ℓ} → List A → Bool
is_empty [] = true
is_empty (x ∷ xs) = false

-- An iteration at the trigger `x`; a wait there has no input event, and `value()` throws.
unfoldable pub turn :
    QtText
    → Memory
    → SequenceTrigger
    → List AdvancedTrigger
    → AdvancedTrigger
    → Option Timer
    → Bool
    → Bool
    → ℕ
    → Building
    → Result (ℕ × Building)
unfolding iterate
turn qt memory trigger seen x timer is_last is_second_to_last current b = do
  e ← or_fail (trigger_to_input x) (throws bad_optional_access)
  iterate qt memory
      (record {
        behavior = trigger.behavior;
        binds = trigger.binds;
        seen = seen;
        input_event = e;
        timer = timer;
        is_last = is_last;
        is_second_to_last = is_second_to_last;
      })
      current b

-- The loop over a sequence. `seen` is the part behind, the list the part ahead; a wait right behind
-- a trigger is consumed with it.
unfoldable pub walk :
    QtText
    → Memory
    → SequenceTrigger
    → List AdvancedTrigger
    → List AdvancedTrigger
    → ℕ
    → Building
    → Result Building
unfolding turn
walk qt memory trigger seen [] current b = ok b
walk qt memory trigger seen (x ∷ []) current b = do
  final ← turn qt memory trigger (seen ++ x ∷ []) x none true false current b
  ok final.1
walk qt memory trigger seen (x ∷ AdvancedTrigger.minimum_wait ms ∷ rest) current b = do
  let passed = seen ++ x ∷ AdvancedTrigger.minimum_wait ms ∷ []
  final ← turn qt memory trigger passed x (some (Timer.minimum ms)) false (is_empty rest) current b
  walk qt memory trigger passed rest final.0 final.1
walk qt memory trigger seen (x ∷ AdvancedTrigger.maximum_wait ms ∷ rest) current b = do
  let passed = seen ++ x ∷ AdvancedTrigger.maximum_wait ms ∷ []
  final ← turn qt memory trigger passed x (some (Timer.maximum ms)) false (is_empty rest) current b
  walk qt memory trigger passed rest final.0 final.1
walk qt memory trigger seen (x ∷ y ∷ rest) current b = do
  let passed = seen ++ x ∷ []
  final ← turn qt memory trigger passed x none false (is_empty rest) current b
  walk qt memory trigger passed (y ∷ rest) final.0 final.1

-- The loop over the sequences of a layer; each starts at home.
unfoldable pub walk_all : QtText → Memory → List SequenceTrigger → Building → Result Building
unfolding walk
walk_all qt memory [] b = ok b
walk_all qt memory (s ∷ rest) b = do
  b' ← walk qt memory s [] s.sequence home_state_idx b
  walk_all qt memory rest b'

unfoldable pub generate_states : QtText → Memory → Layer → Result (List State)
unfolding walk_all normalize_sequences
generate_states qt memory layer = do
  sequences ← or_fail (normalize_sequences layer.sequence_remappings) nullopt
  b ← walk_all qt memory sequences generate_home_state
  ok b.states
