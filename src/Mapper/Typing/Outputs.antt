-- ===== src/Mapper/Typing/Outputs.antt =====
-- The events of a typed sequence, and the outputs of its binds, split as the transitions of
-- common/src/mapper.cpp put them out.
use keybinder.Base.{ℕ, ◌+◌, ◌≡◌, refl, sym, ap, List, [], ◌∷◌, ◌++◌, map, some}
use keybinder.Profile.{AdvancedTrigger, Bind}
use keybinder.Event.{InputEvent, KeyEventType, OutputEvent}
use keybinder.Machine.{StateMachineOutputEvent}
use keybinder.Machine.Build.{trigger_to_input}
use keybinder.Mapper.{Environment}
use keybinder.Mapper.Output.{event_of}
use keybinder.Mapper.Schedule.{NoSwaps, timeline, stamp, without_waits, bind_outputs}

-- What a list of binds gives the daemon.
abbrev pub outputs_of : List Bind → List OutputEvent
outputs_of [] = []
outputs_of (Bind.press_key code ∷ rest) =
    OutputEvent.key (record { keycode = code; type = KeyEventType.press }) ∷ outputs_of rest
outputs_of (Bind.release_key code ∷ rest) =
    OutputEvent.key (record { keycode = code; type = KeyEventType.release }) ∷ outputs_of rest
outputs_of (Bind.run_script s ∷ rest) = OutputEvent.script s ∷ outputs_of rest
outputs_of (_ ∷ rest) = outputs_of rest

-- The events of a sequence typed without letting a maximum wait pass; one with a minimum wait has none.
abbrev pub typed_events : List AdvancedTrigger → List InputEvent
typed_events [] = []
typed_events (AdvancedTrigger.maximum_wait ms ∷ rest) = typed_events rest
typed_events (AdvancedTrigger.minimum_wait ms ∷ rest) = typed_events rest
typed_events (AdvancedTrigger.key_press code ∷ rest) =
    InputEvent.key (record { keycode = code; type = KeyEventType.press }) ∷ typed_events rest
typed_events (AdvancedTrigger.key_release code ∷ rest) =
    InputEvent.key (record { keycode = code; type = KeyEventType.release }) ∷ typed_events rest
typed_events (AdvancedTrigger.app_focused name ∷ rest) =
    InputEvent.app (record { app_name = name }) ∷ typed_events rest

abbrev pub NoMinimum : List AdvancedTrigger → Type 0
NoMinimum [] = Unit
NoMinimum (AdvancedTrigger.minimum_wait ms ∷ rest) = ⊥
NoMinimum (x ∷ rest) = NoMinimum rest

pub typed_events-cons :
    (x : AdvancedTrigger) (e : InputEvent) (rest : List AdvancedTrigger)
    → trigger_to_input x ≡ some e
    → typed_events (x ∷ rest) ≡ e ∷ typed_events rest
typed_events-cons (AdvancedTrigger.key_press code) e rest h = cc
typed_events-cons (AdvancedTrigger.key_release code) e rest h = cc
typed_events-cons (AdvancedTrigger.app_focused name) e rest h = cc
typed_events-cons (AdvancedTrigger.minimum_wait ms) e rest h = cc
typed_events-cons (AdvancedTrigger.maximum_wait ms) e rest h = cc

pub NoMinimum-tail :
    (x : AdvancedTrigger) (rest : List AdvancedTrigger) → NoMinimum (x ∷ rest) → NoMinimum rest
NoMinimum-tail (AdvancedTrigger.minimum_wait ms) rest h = absurd h
NoMinimum-tail _ rest h = h

pub outputs_of-append : (xs ys : List Bind) → outputs_of (xs ++ ys) ≡ outputs_of xs ++ outputs_of ys
outputs_of-append [] ys = refl
outputs_of-append (Bind.press_key code ∷ rest) ys = rw (outputs_of-append rest ys) refl
outputs_of-append (Bind.release_key code ∷ rest) ys = rw (outputs_of-append rest ys) refl
outputs_of-append (Bind.run_script s ∷ rest) ys = rw (outputs_of-append rest ys) refl
outputs_of-append (Bind.swap_layer n ∷ rest) ys = outputs_of-append rest ys
outputs_of-append (Bind.wait ms ∷ rest) ys = outputs_of-append rest ys

pub NoSwaps-append : (xs ys : List Bind) → NoSwaps (xs ++ ys) → NoSwaps xs × NoSwaps ys
NoSwaps-append [] ys h = (tt, h)
NoSwaps-append (x ∷ xs) ys h = let (a, b) = NoSwaps-append xs ys h.1 in ((h.0, a), b)

-- The events that a list of binds without waits is stamped as.
pub stamp-events :
    (env : Environment) (reads d : ℕ) (bs : List Bind)
    → NoSwaps bs
    → map event_of (stamp env reads (timeline d (without_waits bs))) ≡ outputs_of bs
stamp-events env reads d [] h = refl
stamp-events env reads d (Bind.press_key code ∷ rest) h =
    ap
      (λ (xs : List OutputEvent).
        OutputEvent.key (record { keycode = code; type = KeyEventType.press }) ∷ xs)
      (stamp-events env (reads + 1) d rest h.1)
stamp-events env reads d (Bind.release_key code ∷ rest) h =
    ap
      (λ (xs : List OutputEvent).
        OutputEvent.key (record { keycode = code; type = KeyEventType.release }) ∷ xs)
      (stamp-events env (reads + 1) d rest h.1)
stamp-events env reads d (Bind.run_script s ∷ rest) h =
    ap (λ (xs : List OutputEvent). OutputEvent.script s ∷ xs)
      (stamp-events env (reads + 1) d rest h.1)
stamp-events env reads d (Bind.swap_layer n ∷ rest) h = absurd (h.0 tt)
stamp-events env reads d (Bind.wait ms ∷ rest) h = stamp-events env reads d rest h.1

-- Outputs that are binds in all are binds in each part.
pub record Parted (binds : List Bind) (xs ys : List StateMachineOutputEvent) : Type 0 where
  pub first : List Bind
  pub second : List Bind
  pub whole : binds ≡ first ++ second
  pub first_outputs : xs ≡ bind_outputs first
  pub second_outputs : ys ≡ bind_outputs second

pub part :
    (binds : List Bind) (xs ys : List StateMachineOutputEvent)
    → bind_outputs binds ≡ xs ++ ys
    → Parted binds xs ys
part binds [] ys h = record {
  first = [];
  second = binds;
  whole = refl;
  first_outputs = refl;
  second_outputs = sym h;
}
part [] (x ∷ xs) ys h = cc
part (b ∷ binds) (x ∷ xs) ys h =
    let tails : bind_outputs binds ≡ xs ++ ys = cc h in
    let head : StateMachineOutputEvent.bind b ≡ x = cc h in
    let p = part binds xs ys tails in
    record {
      first = b ∷ p.first;
      second = p.second;
      whole = ap (λ (bs : List Bind). b ∷ bs) p.whole;
      first_outputs = (λ i. sym head i ∷ p.first_outputs i);
      second_outputs = p.second_outputs;
    }
