-- ===== src/Daemon/Mac.antt =====
-- mac/src/daemon.cpp: what the callback makes of an input value, and outputs through the virtual
-- keyboard of Karabiner, whose report of the keys that are down is its library's.
pub mod Filter
pub mod Devices
use keybinder.Base.{
  ℕ, ltb, ◌==◌, Bool, true, false, ◌||◌, not, List, [], ◌∷◌, ◌++◌, Result, ok, fail, Failure, ◌>>=◌,
  if◌then◌else◌,
}
use keybinder.BiMap.{contains_forward, find_forward, find_backward}
use keybinder.BiMap.Keys.{number_key, code_key, string_key}
use keybinder.Event.{InputEvent, KeyEvent, KeyEventType, OutputEvent}
use keybinder.Profile.{RunScript}
use keybinder.KeyCode.Names.{str_to_keycode}
use keybinder.KeyMap.Mac.{mac_int_to_keycode}
use keybinder.Daemon.Sending.{Sending, and_then, attempt}
use keybinder.KeyChannel.{KeyQueueState, send_key}

-- `keys.insert` and `keys.erase` of the report.
pub record ReportKeys (R : Type 0) : Type 0 where
  pub insert : ℕ → R → R
  pub erase : ℕ → R → R

module _ {R : Type 0} (keys : ReportKeys R) where
  -- The report, the reports posted so far, and the scripts run.
  pub record Client : Type 0 where
    pub report : R
    pub posted : List R
    pub scripts : List RunScript

  abbrev pub changed : KeyEventType → ℕ → R → R
  changed KeyEventType.press raw_keycode r = keys.insert raw_keycode r
  changed KeyEventType.release raw_keycode r = keys.erase raw_keycode r

  abbrev pub post : KeyEventType → ℕ → Client → Client
  post type raw_keycode c = record c {
    report = changed type raw_keycode c.report;
    posted = c.posted ++ changed type raw_keycode c.report ∷ [];
  }

  -- The name is looked up for the log before the code.
  abbrev pub send_key_event : KeyEvent → Client → Result Client
  send_key_event e c = do
    name ← find_backward str_to_keycode e.keycode
    raw_keycode ← find_backward mac_int_to_keycode e.keycode
    ok (post e.type raw_keycode c)

  abbrev pub send_output : OutputEvent → Client → Result Client
  send_output (OutputEvent.key e) c = send_key_event e c
  send_output (OutputEvent.script s) c = ok (record c { scripts = c.scripts ++ s ∷ [] })

  unfoldable pub send_outputs : List OutputEvent → Client → Sending Client
  unfolding find_backward
  send_outputs [] c = Sending.sent c
  send_outputs (o ∷ rest) c = and_then (attempt c (send_output o c)) (λ c'. send_outputs rest c')

abbrev pub event_type : ℕ → KeyEventType
event_type value = if value == 0 then KeyEventType.release else KeyEventType.press

-- The event, the channel with it, and whether it was refused, for `send_outputs`, which it never is.
unfoldable pub handle_input_event :
    ℕ → ℕ → KeyQueueState → Result (KeyQueueState × List OutputEvent)
unfolding contains_forward find_forward send_key
handle_input_event value code channel =
    if ltb 1000 code || ltb code 2
    then ok (channel, [])
    else if contains_forward mac_int_to_keycode code
    then (do
      keycode ← find_forward mac_int_to_keycode code
      let e : KeyEvent = record { keycode = keycode; type = event_type value }
      let (channel', taken) = send_key (InputEvent.key e) channel
      ok (channel', if taken then [] else OutputEvent.key e ∷ []))
    else ok (channel, [])
