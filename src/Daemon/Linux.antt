-- ===== src/Daemon/Linux.antt =====
-- linux/src/daemon.cpp: one event of the grabbed keyboard, and outputs through uinput. `value` gives the
-- macros of linux/input-event-codes.h.
pub mod Laws
pub mod RoundTrip
pub mod Lifecycle
pub mod Released
pub mod Remembered
use keybinder.Base.{
  ℕ, String, Bool, true, false, ◌==◌, List, [], ◌∷◌, ◌++◌, Result, ok, fail, Failure, ◌>>=◌,
  if◌then◌else◌,
}
use keybinder.BiMap.{contains_forward, find_forward, find_backward}
use keybinder.BiMap.Keys.{number_key, code_key}
use keybinder.Event.{InputEvent, KeyEvent, KeyEventType, OutputEvent}
use keybinder.Profile.{RunScript}
use keybinder.KeyMap.Linux.{linux_int_to_keycode}
use keybinder.Daemon.Sending.{Sending, and_then}
use keybinder.KeyChannel.{KeyQueueState, send_key}

pub data EventKind : Type 0 where
  ev_key ev_syn ev_other : EventKind

-- `struct input_event`, whose time stays 0.
pub record RawEvent : Type 0 where
  pub type : EventKind
  pub code : ℕ
  pub value : ℕ

-- `Daemon::send_key`: the two events that it writes.
abbrev pub sync : (String → ℕ) → RawEvent
sync value = record { type = EventKind.ev_syn; code = value "SYN_REPORT"; value = 0 }

abbrev pub key_frame : (String → ℕ) → ℕ → ℕ → List RawEvent
key_frame value key_code state =
    record { type = EventKind.ev_key; code = key_code; value = state } ∷ sync value ∷ []

-- 1 is a press, 2 a repeat, which counts as a press.
abbrev pub event_type : ℕ → KeyEventType
event_type v =
    if v == 1
    then KeyEventType.press
    else if v == 2
    then KeyEventType.press
    else KeyEventType.release

abbrev pub state_of : KeyEventType → ℕ
state_of KeyEventType.press = 1
state_of KeyEventType.release = 0

-- What a step leaves: the channel, and what was written to uinput.
pub record Step : Type 0 where
  pub channel : KeyQueueState
  pub written : List RawEvent

-- Behind the answer of `send_key`: a refused key is looked up, and dropped.
abbrev pub after_send : (String → ℕ) → KeyEvent → KeyQueueState × Bool → Result Step
after_send value e (channel, true) = ok (record { channel = channel; written = [] })
after_send value e (channel, false) = do
  key_code ← find_backward (linux_int_to_keycode value) e.keycode
  ok (record { channel = channel; written = [] })

unfoldable pub handle_key : (String → ℕ) → ℕ → ℕ → KeyQueueState → Result Step
unfolding send_key find_forward contains_forward
handle_key value code v channel =
    if contains_forward (linux_int_to_keycode value) code
    then (do
      keycode ← find_forward (linux_int_to_keycode value) code
      let e : KeyEvent = record { keycode = keycode; type = event_type v }
      after_send value e (send_key (InputEvent.key e) channel))
    else ok (record { channel = channel; written = key_frame value code v })

unfoldable pub handle_kind : (String → ℕ) → EventKind → ℕ → ℕ → KeyQueueState → Result Step
unfolding handle_key
handle_kind value EventKind.ev_key code v channel = handle_key value code v channel
handle_kind value EventKind.ev_syn code v channel =
    ok (record { channel = channel; written = sync value ∷ [] })
handle_kind value EventKind.ev_other code v channel =
    ok (record { channel = channel; written = [] })

-- The body of the inner loop of `start`.
unfoldable pub handle_event : (String → ℕ) → RawEvent → KeyQueueState → Result Step
unfolding handle_kind
handle_event value e channel = handle_kind value e.type e.code e.value channel

-- The events that the inner loop reads, one after the other, with all that it writes.
unfoldable pub handle_all : (String → ℕ) → List RawEvent → KeyQueueState → Result Step
unfolding handle_event
handle_all value [] channel = ok (record { channel = channel; written = [] })
handle_all value (e ∷ rest) channel = do
  first ← handle_event value e channel
  last ← handle_all value rest first.channel
  ok (record last { written = first.written ++ last.written })

-- What `send_outputs` has done: events written, scripts run.
pub record Sink : Type 0 where
  pub written : List RawEvent
  pub scripts : List RunScript

abbrev pub write_key : (String → ℕ) → KeyEventType → Result ℕ → Sink → Sending Sink
write_key value type (ok key_code) s =
    Sending.sent (record s { written = s.written ++ key_frame value key_code (state_of type) })
write_key value type (fail e) s = Sending.stopped s e

unfoldable pub send_output : (String → ℕ) → OutputEvent → Sink → Sending Sink
unfolding find_backward
send_output value (OutputEvent.key e) s =
    write_key value e.type (find_backward (linux_int_to_keycode value) e.keycode) s
send_output value (OutputEvent.script script) s =
    Sending.sent (record s { scripts = s.scripts ++ script ∷ [] })

unfoldable pub send_outputs : (String → ℕ) → List OutputEvent → Sink → Sending Sink
unfolding send_output
send_outputs value [] s = Sending.sent s
send_outputs value (o ∷ rest) s =
    and_then (send_output value o s) (λ s'. send_outputs value rest s')
