-- ===== src/Daemon/Linux/RoundTrip.antt =====
-- What `send_outputs` of the Linux daemon writes, as the loop of the daemon would read it, and what
-- stops it.
use mathlib.Core.List.{append_assoc, append-nil}
use keybinder.Base.{
  ℕ, String, Bool, true, ◌≡◌, refl, sym, ap, ◌∙◌, false, List, [], ◌∷◌, ◌++◌, Result, ok, fail,
  Returns, throws, out_of_range,
}
use keybinder.KeyCode.{KeyCode, code_eq}
use keybinder.BiMap.{lookup, find_backward}
use keybinder.BiMap.Keys.{number_key, code_key}
use keybinder.BiMap.Laws.{distinct, find_forward-find_backward}
use keybinder.Event.{InputEvent, KeyEventType, OutputEvent}
use keybinder.KeyMap.Linux.{linux_rows, linux_int_to_keycode}
use keybinder.KeyMap.Sendable.{among, high_function_keys, linux_unsendable}
use keybinder.KeyChannel.{KeyQueueState}
use keybinder.Daemon.Linux.{
  RawEvent, Step, Sink, key_frame, event_type, state_of, write_key, handle_all, send_output,
  send_outputs,
}
use keybinder.Daemon.Sending.{Sending, and_then, and_then-sent, done_by}
use keybinder.Daemon.Linux.Laws.{key_of, keys_in, enqueue, linux_loop_splits}

-- The key events among the outputs.
unfoldable pub keys_out : List OutputEvent → List InputEvent
keys_out [] = []
keys_out (OutputEvent.key e ∷ rest) = InputEvent.key e ∷ keys_out rest
keys_out (OutputEvent.script s ∷ rest) = keys_out rest

abbrev pub nothing_sent : Sink
nothing_sent = record { written = []; scripts = [] }

keys_in-append :
    (value : String → ℕ) (xs ys : List RawEvent)
    → keys_in value (xs ++ ys) ≡ keys_in value xs ++ keys_in value ys
unfolding keys_in
keys_in-append value [] ys = refl
keys_in-append value (e ∷ xs) ys =
    rw (keys_in-append value xs ys) (
      sym (append_assoc (key_of value e.type e.code e.value) (keys_in value xs) (keys_in value ys)))

event_type-state_of : (t : KeyEventType) → event_type (state_of t) ≡ t
event_type-state_of KeyEventType.press = refl
event_type-state_of KeyEventType.release = refl

keys_in-frame :
    (value : String → ℕ) (c : KeyCode) (t : KeyEventType) (code : ℕ)
    → distinct (linux_rows value) ≡ true
    → find_backward (linux_int_to_keycode value) c ≡ ok code
    → keys_in value (key_frame value code (state_of t))
      ≡ InputEvent.key (record { keycode = c; type = t }) ∷ []
unfolding keys_in linux_int_to_keycode lookup code_eq
keys_in-frame value c t code d e =
    rw ((find_forward-find_backward (linux_rows value) code c d refl).1 e, event_type-state_of t)
      refl

written_key :
    (value : String → ℕ) (c : KeyCode) (t : KeyEventType) (r : Result ℕ) (s u : Sink)
    → distinct (linux_rows value) ≡ true
    → find_backward (linux_int_to_keycode value) c ≡ r
    → write_key value t r s ≡ Sending.sent u
    → keys_in value u.written
      ≡ keys_in value s.written ++ InputEvent.key (record { keycode = c; type = t }) ∷ []
written_key value c t (fail x) s u d e h = absurd (cc h)
written_key value c t (ok code) s u d e h =
    let w : u.written ≡ s.written ++ key_frame value code (state_of t) =
      sym (ap (λ (x : Sending Sink). (done_by x).written) h) in
    rw (w, keys_in-append value s.written (key_frame value code (state_of t)))
      (ap (λ (x : List InputEvent). keys_in value s.written ++ x)
        (keys_in-frame value c t code d e))

sent_keys :
    (value : String → ℕ) (outs : List OutputEvent) (s t : Sink)
    → distinct (linux_rows value) ≡ true
    → send_outputs value outs s ≡ Sending.sent t
    → keys_in value t.written ≡ keys_in value s.written ++ keys_out outs
unfolding send_outputs send_output keys_out
sent_keys value [] s t d h =
    sym (ap (λ (x : Sending Sink). keys_in value (done_by x).written) h)
    ∙ sym (append-nil (keys_in value s.written))
sent_keys value (OutputEvent.key e ∷ rest) s t d h =
    let r = find_backward (linux_int_to_keycode value) e.keycode in
    let (u, first, then) =
      and_then-sent (write_key value e.type r s) (λ s'. send_outputs value rest s') t h in
    sent_keys value rest u t d then
    ∙ ap (λ (x : List InputEvent). x ++ keys_out rest)
        (written_key value e.keycode e.type r s u d refl first)
    ∙ append_assoc (keys_in value s.written) (InputEvent.key e ∷ []) (keys_out rest)
sent_keys value (OutputEvent.script x ∷ rest) s t d h =
    sent_keys value rest (record s { scripts = s.scripts ++ x ∷ [] }) t d h

-- Where the codes of the kernel are distinct: what `send_outputs` has written, without an exception,
-- the loop of a daemon reads as the same key events, in the same order, whatever scripts ran between
-- them.
pub linux_reads_back :
    (value : String → ℕ) (outs : List OutputEvent) (t : Sink) (channel : KeyQueueState)
    → distinct (linux_rows value) ≡ true
    → send_outputs value outs nothing_sent ≡ Sending.sent t
    → Returns
        (λ (step : Step). step.channel ≡ enqueue (keys_out outs) channel)
        (handle_all value t.written channel)
unfolding keys_in
linux_reads_back value outs t channel d h =
    rw (linux_loop_splits value t.written channel, sent_keys value outs nothing_sent t d h) refl

-- Whether an output is a key that the daemon cannot send.
abbrev pub lost : OutputEvent → Bool
lost (OutputEvent.key e) = among e.keycode high_function_keys
lost (OutputEvent.script s) = false

lost-stops :
    (value : String → ℕ) (o : OutputEvent) (s : Sink)
    → lost o ≡ true
    → send_output value o s ≡ Sending.stopped s (throws out_of_range)
unfolding send_output
lost-stops value (OutputEvent.key e) s h =
    ap (λ r. write_key value e.type r s) ((linux_unsendable value e.keycode).1 h)
lost-stops value (OutputEvent.script x) s h = absurd (cc h)

-- Outputs in front of one of F13 to F24 are sent as they are by themselves; at that key `send_outputs`
-- throws `out_of_range`, and no output behind it, key or script, is sent, whatever it is.
pub linux_stops_at_lost_key :
    (value : String → ℕ) (before after : List OutputEvent) (o : OutputEvent) (s t : Sink)
    → lost o ≡ true
    → send_outputs value before s ≡ Sending.sent t
    → send_outputs value (before ++ o ∷ after) s ≡ Sending.stopped t (throws out_of_range)
unfolding send_outputs
linux_stops_at_lost_key value [] after o s t l h =
    rw (lost-stops value o s l)
      (ap (λ (x : Sending Sink). and_then x (λ u. Sending.stopped u (throws out_of_range))) h)
linux_stops_at_lost_key value (x ∷ before) after o s t l h =
    let (u, first, then) =
      and_then-sent (send_output value x s) (λ s'. send_outputs value before s') t h in
    rw first (linux_stops_at_lost_key value before after o u t l then)
