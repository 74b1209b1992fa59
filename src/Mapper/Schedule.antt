-- ===== src/Mapper/Schedule.antt =====
-- When the binds of a remapping go out: `queue_binds` and the outputs of a transition
-- (common/src/mapper.cpp) against the timeline that a list of binds describes.
use native.Mathlib.Nat.{add-zero}
use mathlib.Core.List.{append_assoc, append-nil}
use keybinder.Base.{
  ℕ, suc, ◌+◌, ◌%◌, ◌^◌, ◌≡◌, sym, ap, ◌∙◌, List, [], ◌∷◌, ◌++◌, map, Option, length, ok, arith,
}
use keybinder.Profile.{Bind}
use keybinder.Event.{InputEvent, KeyEventType, OutputEvent}
use keybinder.Machine.{StateMachineOutputEvent}
use keybinder.Mapper.{Item, Environment, Mapper, now}
use keybinder.Mapper.Output.{queue_output, queue_from, queue_binds}
use keybinder.Mapper.Process.{emit_all}

abbrev pub IsSwap : Bind → Type 0
IsSwap (Bind.swap_layer n) = Unit
IsSwap _ = ⊥

abbrev pub NoSwaps : List Bind → Type 0
NoSwaps [] = Unit
NoSwaps (b ∷ rest) = ¬ IsSwap b × NoSwaps rest

-- What binds describe: each output with its distance from the start, a wait moving all behind it.
-- Distances are kept in 64 bits.
abbrev pub timeline : ℕ → List Bind → List (ℕ × OutputEvent)
timeline delay [] = []
timeline delay (Bind.press_key code ∷ rest) =
    (delay, OutputEvent.key (record { keycode = code; type = KeyEventType.press }))
    ∷ timeline delay rest
timeline delay (Bind.release_key code ∷ rest) =
    (delay, OutputEvent.key (record { keycode = code; type = KeyEventType.release }))
    ∷ timeline delay rest
timeline delay (Bind.swap_layer n ∷ rest) = timeline delay rest
timeline delay (Bind.wait ms ∷ rest) = timeline ((delay + ms) % 2 ^ 64) rest
timeline delay (Bind.run_script s ∷ rest) = (delay, OutputEvent.script s) ∷ timeline delay rest

-- Each entry is stamped with a fresh reading of the clock.
abbrev pub stamp : Environment → ℕ → List (ℕ × OutputEvent) → List Item
stamp env reads [] = []
stamp env reads ((distance, e) ∷ rest) =
    ((env.clock reads + distance) % 2 ^ 64, e) ∷ stamp env (reads + 1) rest

-- The mapper after some entries are queued.
abbrev pub queued : Environment → List (ℕ × OutputEvent) → Mapper → Mapper
queued env entries m = record m {
  queued_events = m.queued_events ++ stamp env m.clock_reads entries;
  clock_reads = m.clock_reads + length entries;
}

queued-nil : (env : Environment) (m : Mapper) → queued env [] m ≡ m
queued-nil env m = λ i. record m {
  queued_events = append-nil m.queued_events i;
  clock_reads = add-zero m.clock_reads i;
}

queued-cons :
    (env : Environment) (d : ℕ) (e : OutputEvent) (rest : List (ℕ × OutputEvent)) (m : Mapper)
    → queued env rest (queue_output env e d m) ≡ queued env ((d, e) ∷ rest) m
unfolding queue_output
queued-cons env d e rest m =
    let reads : m.clock_reads + 1 + length rest ≡ m.clock_reads + suc (length rest) = omega arith in
    λ i. record m {
      queued_events =
          append_assoc m.queued_events (((now env m + d) % 2 ^ 64, e) ∷ [])
            (stamp env (m.clock_reads + 1) rest) i;
      clock_reads = reads i;
    }

queue_from-timeline :
    (env : Environment) (binds : List Bind) (delay : ℕ) (m : Mapper)
    → NoSwaps binds
    → queue_from env binds delay m ≡ ok (queued env (timeline delay binds) m)
unfolding queue_from
queue_from-timeline env [] delay m h = sym (ap ok (queued-nil env m))
queue_from-timeline env (Bind.press_key code ∷ rest) delay m h =
    queue_from-timeline env rest delay _ h.1
    ∙ ap ok (queued-cons env delay _ (timeline delay rest) m)
queue_from-timeline env (Bind.release_key code ∷ rest) delay m h =
    queue_from-timeline env rest delay _ h.1
    ∙ ap ok (queued-cons env delay _ (timeline delay rest) m)
queue_from-timeline env (Bind.swap_layer n ∷ rest) delay m h = absurd (h.0 tt)
queue_from-timeline env (Bind.wait ms ∷ rest) delay m h =
    queue_from-timeline env rest ((delay + ms) % 2 ^ 64) m h.1
queue_from-timeline env (Bind.run_script s ∷ rest) delay m h =
    queue_from-timeline env rest delay _ h.1
    ∙ ap ok (queued-cons env delay _ (timeline delay rest) m)

-- `queue_binds` on binds that swap no layer appends to the queue exactly the outputs of their
-- timeline, in order: each wait moves the outputs behind it, and each output's time is a fresh
-- reading of the clock plus its distance (modulo 2^64). Nothing else of the mapper changes but the
-- number of readings.
pub queue_binds-timeline :
    (env : Environment) (binds : List Bind) (m : Mapper)
    → NoSwaps binds
    → queue_binds env binds m ≡ ok (queued env (timeline 0 binds) m)
unfolding queue_binds
queue_binds-timeline env binds m h = queue_from-timeline env binds 0 m h

abbrev pub without_waits : List Bind → List Bind
without_waits [] = []
without_waits (Bind.wait ms ∷ rest) = without_waits rest
without_waits (b ∷ rest) = b ∷ without_waits rest

-- The outputs of a transition that a sequence's binds become.
abbrev pub bind_outputs : List Bind → List StateMachineOutputEvent
bind_outputs binds = map StateMachineOutputEvent.bind binds

-- The binds of a sequence are queued one by one, each from distance 0: a transition with them, if
-- they swap no layer, queues what the same binds with every wait left out describe, all at once.
pub sequence_waits_ignored :
    (env : Environment) (prev_event : Option InputEvent) (binds : List Bind) (m : Mapper)
    (redo : List InputEvent)
    → NoSwaps binds
    → emit_all env prev_event (bind_outputs binds) m redo
      ≡ ok (queued env (timeline 0 (without_waits binds)) m, redo)
unfolding emit_all
sequence_waits_ignored env prev_event [] m redo h =
    sym (ap (λ (x : Mapper). ok (x, redo)) (queued-nil env m))
sequence_waits_ignored env prev_event (Bind.press_key code ∷ rest) m redo h =
    sequence_waits_ignored env prev_event rest _ redo h.1
    ∙ ap (λ (x : Mapper). ok (x, redo)) (queued-cons env 0 _ (timeline 0 (without_waits rest)) m)
sequence_waits_ignored env prev_event (Bind.release_key code ∷ rest) m redo h =
    sequence_waits_ignored env prev_event rest _ redo h.1
    ∙ ap (λ (x : Mapper). ok (x, redo)) (queued-cons env 0 _ (timeline 0 (without_waits rest)) m)
sequence_waits_ignored env prev_event (Bind.swap_layer n ∷ rest) m redo h = absurd (h.0 tt)
sequence_waits_ignored env prev_event (Bind.wait ms ∷ rest) m redo h =
    sequence_waits_ignored env prev_event rest m redo h.1
sequence_waits_ignored env prev_event (Bind.run_script s ∷ rest) m redo h =
    sequence_waits_ignored env prev_event rest _ redo h.1
    ∙ ap (λ (x : Mapper). ok (x, redo)) (queued-cons env 0 _ (timeline 0 (without_waits rest)) m)
