-- ===== src/Event.antt =====
-- common/include/event.h: what reaches the mapper and what it sends, with the comparisons that the
-- hash tables use.
use keybinder.Base.{String, Bool, true, false, ◌&&◌, ◌||◌, ◌≡◌, arith, refl}
use keybinder.KeyCode.{KeyCode, code_eq, code_eq_iff}
use keybinder.QtText.{QtText}
use keybinder.Profile.{RunScript}

pub data KeyEventType : Type 0 where
  press release : KeyEventType

pub record AppFocusedEvent : Type 0 where
  pub app_name : String

pub record KeyEvent : Type 0 where
  pub keycode : KeyCode
  pub type : KeyEventType

pub data InputEvent : Type 0 where
  app : AppFocusedEvent → InputEvent
  key : KeyEvent → InputEvent

pub data OutputEvent : Type 0 where
  key : KeyEvent → OutputEvent
  script : RunScript → OutputEvent

abbrev pub type_eq : KeyEventType → KeyEventType → Bool
type_eq KeyEventType.press KeyEventType.press = true
type_eq KeyEventType.release KeyEventType.release = true
type_eq _ _ = false

unfoldable pub key_event_eq : KeyEvent → KeyEvent → Bool
unfolding code_eq
key_event_eq e f = code_eq e.keycode f.keycode && type_eq e.type f.type

-- Two focus events are the same when one name stands in the other, in any case. This is not an
-- equivalence, and a hash table with such keys is probed in the order of insertion.
unfoldable pub app_eq : QtText → AppFocusedEvent → AppFocusedEvent → Bool
app_eq qt e f =
    let el = qt.to_lower e.app_name in
    let fl = qt.to_lower f.app_name in qt.contains el fl || qt.contains fl el

-- `==` of the variant: the same alternative, with equal contents.
unfoldable pub input_eq : QtText → InputEvent → InputEvent → Bool
unfolding app_eq key_event_eq
input_eq qt (InputEvent.app e) (InputEvent.app f) = app_eq qt e f
input_eq qt (InputEvent.key e) (InputEvent.key f) = key_event_eq e f
input_eq qt _ _ = false

-- Every event is found under itself.
pub input_eq_self : (qt : QtText) (e : InputEvent) → input_eq qt e e ≡ true
unfolding input_eq
input_eq_self qt (InputEvent.app e) = ground (arith, qt.contains_self (qt.to_lower e.app_name))
input_eq_self qt (InputEvent.key e) =
    ground (arith, code_eq_iff e.keycode e.keycode, (code_eq_iff e.keycode e.keycode).1 refl)
