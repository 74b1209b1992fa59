-- ===== src/Mapper/Paused.antt =====
-- The mapper while it is paused (common/src/mapper.cpp).
use mathlib.Core.List.{append_assoc, append-nil}
use keybinder.Base.{
  ℕ, suc, ◌≡◌, refl, sym, ◌∙◌, true, false, List, [], ◌∷◌, ◌++◌, none, Result, ok, ◌>>=◌,
}
use keybinder.Event.{InputEvent, OutputEvent}
use keybinder.Mapper.{Environment, Mapper}
use keybinder.Mapper.Process.{process_input, forward}
use keybinder.Mapper.Control.{pause, resume, is_paused, waiting_for_timer}

-- The calls of `send_outputs` with which the daemon gets keys back as they came; focus events are
-- dropped.
abbrev pub passed_on : List InputEvent → List (List OutputEvent)
passed_on [] = []
passed_on (InputEvent.key e ∷ rest) = (OutputEvent.key e ∷ []) ∷ passed_on rest
passed_on (InputEvent.app e ∷ rest) = passed_on rest

-- Several events, one after another.
unfoldable pub process_all : ℕ → Environment → List InputEvent → Mapper → Result Mapper
unfolding process_input
process_all depth env [] m = ok m
process_all depth env (e ∷ rest) m = do
  m' ← process_input depth env e m
  process_all depth env rest m'

forwarded :
    (depth : ℕ) (env : Environment) (es : List InputEvent) (m : Mapper)
    → m.paused ≡ true
    → process_all (suc depth) env es m ≡ ok (record m { sent = m.sent ++ passed_on es })
unfolding process_all process_input forward
forwarded depth env [] m h = λ i. ok (record m { sent = sym (append-nil m.sent) i })
forwarded depth env (InputEvent.key e ∷ rest) m h = rw h (
    forwarded depth env rest
      (record m { sent = m.sent ++ (OutputEvent.key e ∷ []) ∷ []; paused = true }) refl
    ∙ (λ i. ok (record m {
      sent = append_assoc m.sent ((OutputEvent.key e ∷ []) ∷ []) (passed_on rest) i;
      paused = true;
    })))
forwarded depth env (InputEvent.app e ∷ rest) m h =
    rw h (forwarded depth env rest (record m { paused = true }) refl)

-- After `pause` nothing waits to be sent and no timer runs. Until `resume`, every key goes to the
-- daemon at once, alone and as it came, focus events go nowhere, and nothing else of the mapper changes;
-- `resume` then gives the mapper as it was when it was paused, but for the queue and the timer that
-- were dropped.
pub paused_passes_on :
    (depth : ℕ) (env : Environment) (es : List InputEvent) (m : Mapper)
    → (process_all (suc depth) env es (pause m)
        ≡ ok (record m {
          paused = true;
          queued_events = [];
          current_timer = none;
          sent = m.sent ++ passed_on es;
        }))
      × (is_paused (pause m) ≡ true)
      × (waiting_for_timer (pause m) ≡ false)
      × (resume (pause m) ≡ record m { paused = false; queued_events = []; current_timer = none })
unfolding pause resume is_paused waiting_for_timer
paused_passes_on depth env es m = (forwarded depth env es (pause m) refl, refl, refl, refl)
