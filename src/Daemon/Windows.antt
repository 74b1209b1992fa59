-- ===== src/Daemon/Windows.antt =====
-- win/src/daemon.cpp: the keyboard hook, the hook of the foreground window, and outputs through
-- `SendInput`. `value` gives the virtual key codes of the system's headers.
pub mod Laws
pub mod Hooks
pub mod Outputs
use keybinder.Base.{
  ℕ, String, Bool, true, false, ◌&&◌, ◌==◌, ◌*◌, List, [], ◌∷◌, ◌++◌, length, Result, ok, fail,
  Failure, ◌>>=◌, if◌then◌else◌, zero, suc,
}
use keybinder.BiMap.{contains_forward, find_forward, find_backward}
use keybinder.BiMap.Keys.{number_key, code_key}
use keybinder.Event.{InputEvent, KeyEvent, KeyEventType, AppFocusedEvent, OutputEvent}
use keybinder.Profile.{RunScript}
use keybinder.KeyMap.Windows.{windows_int_to_keycode}
use keybinder.Daemon.Sending.{Sending, and_then, attempt}
use keybinder.KeyChannel.{KeyQueueState, send_key}

-- `InfoIdentifier`, 0x1234ABCD, which marks the program's own inputs.
abbrev pub info_identifier : ℕ
info_identifier = 305441741

pub data Message : Type 0 where
  wm_keydown wm_syskeydown wm_keyup wm_syskeyup other : Message

-- What the hook is called with: whether `nCode` is negative, `wParam`, and of `KBDLLHOOKSTRUCT` what
-- is read.
pub record HookCall : Type 0 where
  pub below_zero : Bool
  pub message : Message
  pub vk_code : ℕ
  pub injected : Bool
  pub extra_info : ℕ

-- The result of the hook: 0; 1, which keeps the key from the other programs; or what `CallNextHookEx`
-- answers.
pub data Answer : Type 0 where
  let_through hide call_next : Answer

abbrev pub answer_to : KeyQueueState × Bool → KeyQueueState × Answer
answer_to (channel, true) = (channel, Answer.hide)
answer_to (channel, false) = (channel, Answer.call_next)

abbrev pub hook_key :
    (String → ℕ) → KeyEventType → ℕ → KeyQueueState → Result (KeyQueueState × Answer)
hook_key value type vk_code channel = do
  keycode ← find_forward (windows_int_to_keycode value) vk_code
  let e : KeyEvent = record { keycode = keycode; type = type }
  ok (answer_to (send_key (InputEvent.key e) channel))

-- The `switch` of `HookProc`.
unfoldable pub hook_message :
    (String → ℕ) → Message → ℕ → KeyQueueState → Result (KeyQueueState × Answer)
unfolding find_forward send_key
hook_message value Message.wm_keydown vk_code channel =
    hook_key value KeyEventType.press vk_code channel
hook_message value Message.wm_syskeydown vk_code channel =
    hook_key value KeyEventType.press vk_code channel
hook_message value Message.wm_keyup vk_code channel =
    hook_key value KeyEventType.release vk_code channel
hook_message value _ vk_code channel = ok (channel, Answer.call_next)

unfoldable pub hook_proc : (String → ℕ) → HookCall → KeyQueueState → Result (KeyQueueState × Answer)
unfolding hook_message contains_forward
hook_proc value call channel =
    if call.below_zero
    then ok (channel, Answer.call_next)
    else if call.injected && call.extra_info == info_identifier
    then ok (channel, Answer.call_next)
    else if contains_forward (windows_int_to_keycode value) call.vk_code
    then hook_message value call.message call.vk_code channel
    else ok (channel, Answer.let_through)

-- The title of the window, or its class if it has none. The guards say that the foreground has changed
-- to a window itself.
abbrev pub focus_name : Bool → String → String → String
focus_name title_is_empty class_name window_title =
    if title_is_empty then class_name else window_title

unfoldable pub win_event_proc : Bool → Bool → Bool → String → String → KeyQueueState → KeyQueueState
unfolding send_key
win_event_proc is_foreground is_window_itself title_is_empty class_name window_title channel =
    if is_foreground && is_window_itself
    then (let e : AppFocusedEvent = record {
      app_name = focus_name title_is_empty class_name window_title;
    } in
        (send_key (InputEvent.app e) channel).0)
    else channel

-- `INPUT`: one that `resize` made, all zeros, or a key, with `KEYEVENTF_KEYUP` or not.
pub data Input : Type 0 where
  blank : Input
  keyboard : (vk : ℕ) (key_up : Bool) (extra_info : ℕ) → Input

-- What `send_outputs` has collected, and the scripts that it has run.
pub record Batch : Type 0 where
  pub inputs : List Input
  pub scripts : List RunScript

abbrev pub is_release : KeyEventType → Bool
is_release KeyEventType.press = false
is_release KeyEventType.release = true

abbrev pub collect_key : Result ℕ → KeyEventType → Batch → Result Batch
collect_key (ok vk) type b =
    ok (record b { inputs = b.inputs ++ Input.keyboard vk (is_release type) info_identifier ∷ [] })
collect_key (fail e) type b = fail e

unfoldable pub collect : (String → ℕ) → OutputEvent → Batch → Result Batch
unfolding find_backward
collect value (OutputEvent.key e) b =
    collect_key (find_backward (windows_int_to_keycode value) e.keycode) e.type b
collect value (OutputEvent.script s) b = ok (record b { scripts = b.scripts ++ s ∷ [] })

unfoldable pub collect_all : (String → ℕ) → List OutputEvent → Batch → Sending Batch
unfolding collect
collect_all value [] b = Sending.sent b
collect_all value (o ∷ rest) b =
    and_then (attempt b (collect value o b)) (λ b'. collect_all value rest b')

abbrev pub zeroed : ℕ → List Input
zeroed zero = []
zeroed (suc n) = Input.blank ∷ zeroed n

-- All inputs are handed to `SendInput` if none stopped the loop; of a stopped batch none is, but its
-- scripts have run. `resize` makes two blank inputs for each output, and `append` puts the keys behind them.
unfoldable pub send_outputs : (String → ℕ) → List OutputEvent → Sending Batch
unfolding collect_all
send_outputs value vk =
    collect_all value vk (record { inputs = zeroed (length vk * 2); scripts = [] })
