-- ===== src/Daemon/Linux/Laws.antt =====
-- What the loop of the Linux daemon does to a whole stream of events, and that it reads back what its
-- `send_outputs` writes.
use mathlib.Core.List.{append_assoc, append-nil}
use keybinder.Base.{
  ℕ, String, ◌≡◌, refl, sym, ap, List, [], ◌∷◌, ◌++◌, Result, ok, fail, Option, none, some,
}
use keybinder.KeyCode.{KeyCode}
use keybinder.BiMap.{lookup, find_forward}
use keybinder.BiMap.Keys.{number_key, code_key}
use keybinder.BiMap.Laws.{lookup-forward}
use keybinder.Event.{InputEvent}
use keybinder.KeyMap.Linux.{linux_int_to_keycode}
use keybinder.KeyChannel.{KeyQueueState, send_key}
use keybinder.Daemon.Linux.{
  EventKind, RawEvent, sync, key_frame, event_type, handle_key, handle_kind, handle_event,
  handle_all,
}

-- The key event that an event of the keyboard stands for, if the map has its code.
abbrev pub as_key : Result KeyCode → ℕ → List InputEvent
as_key (ok c) v = InputEvent.key (record { keycode = c; type = event_type v }) ∷ []
as_key (fail e) v = []

abbrev pub key_of : (String → ℕ) → EventKind → ℕ → ℕ → List InputEvent
key_of value EventKind.ev_key code v = as_key (find_forward (linux_int_to_keycode value) code) v
key_of value _ code v = []

-- What of an event goes on to the other programs as it is.
abbrev pub unless_found : Result KeyCode → List RawEvent → List RawEvent
unless_found (ok c) es = []
unless_found (fail e) es = es

abbrev pub rest_of : (String → ℕ) → EventKind → ℕ → ℕ → List RawEvent
rest_of value EventKind.ev_key code v =
    unless_found (find_forward (linux_int_to_keycode value) code) (key_frame value code v)
rest_of value EventKind.ev_syn code v = sync value ∷ []
rest_of value EventKind.ev_other code v = []

unfoldable pub keys_in : (String → ℕ) → List RawEvent → List InputEvent
keys_in value [] = []
keys_in value (e ∷ es) = key_of value e.type e.code e.value ++ keys_in value es

unfoldable pub rest_in : (String → ℕ) → List RawEvent → List RawEvent
rest_in value [] = []
rest_in value (e ∷ es) = rest_of value e.type e.code e.value ++ rest_in value es

abbrev pub enqueue : List InputEvent → KeyQueueState → KeyQueueState
enqueue keys channel = record channel { queue = channel.queue ++ keys }

enqueue_none : (channel : KeyQueueState) → enqueue [] channel ≡ channel
enqueue_none channel = λ i. record channel { queue = append-nil channel.queue i }

enqueue_again :
    (xs ys : List InputEvent) (channel : KeyQueueState)
    → enqueue ys (enqueue xs channel) ≡ enqueue (xs ++ ys) channel
enqueue_again xs ys channel = λ i. record channel { queue = append_assoc channel.queue xs ys i }

handle_key_lem :
    (value : String → ℕ) (code v : ℕ) (channel : KeyQueueState) (o : Option KeyCode)
    → lookup code (linux_int_to_keycode value).forward_map ≡ o
    → handle_key value code v channel
      ≡ ok (record {
        channel = enqueue (key_of value EventKind.ev_key code v) channel;
        written = rest_of value EventKind.ev_key code v;
      })
unfolding handle_key send_key
handle_key_lem value code v channel none e =
    let (held, found) = lookup-forward (linux_int_to_keycode value) code none e in
    rw (held, found)
      (ap (λ (c : KeyQueueState). ok (record { channel = c; written = key_frame value code v }))
        (sym (enqueue_none channel)))
handle_key_lem value code v channel (some c) e =
    let (held, found) = lookup-forward (linux_int_to_keycode value) code (some c) e in
    rw (held, found) refl

handle_kind_lem :
    (value : String → ℕ) (kind : EventKind) (code v : ℕ) (channel : KeyQueueState)
    → handle_kind value kind code v channel
      ≡ ok (record {
        channel = enqueue (key_of value kind code v) channel;
        written = rest_of value kind code v;
      })
unfolding handle_kind
handle_kind_lem value EventKind.ev_key code v channel =
    handle_key_lem value code v channel (lookup code (linux_int_to_keycode value).forward_map) refl
handle_kind_lem value EventKind.ev_syn code v channel =
    ap (λ (c : KeyQueueState). ok (record { channel = c; written = sync value ∷ [] }))
      (sym (enqueue_none channel))
handle_kind_lem value EventKind.ev_other code v channel =
    ap (λ (c : KeyQueueState). ok (record { channel = c; written = [] }))
      (sym (enqueue_none channel))

-- The loop of the Linux daemon never fails. Of any stream of events of the keyboard, the keys of the
-- map are queued for the mapper, in order and each once, and what is written for the other programs
-- is the rest: other keys with a report behind each, and the reports.
pub linux_loop_splits :
    (value : String → ℕ) (es : List RawEvent) (channel : KeyQueueState)
    → handle_all value es channel
      ≡ ok (record { channel = enqueue (keys_in value es) channel; written = rest_in value es })
unfolding handle_all handle_event keys_in rest_in
linux_loop_splits value [] channel =
    ap (λ (c : KeyQueueState). ok (record { channel = c; written = [] }))
      (sym (enqueue_none channel))
linux_loop_splits value (e ∷ es) channel =
    let keys = key_of value e.type e.code e.value in
    rw
      (
        handle_kind_lem value e.type e.code e.value channel,
        linux_loop_splits value es (enqueue keys channel),
      )
      (ap
        (λ (c : KeyQueueState). ok (record {
          channel = c;
          written = rest_of value e.type e.code e.value ++ rest_in value es;
        }))
        (enqueue_again keys (keys_in value es) channel))
