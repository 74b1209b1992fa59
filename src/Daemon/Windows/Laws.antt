-- ===== src/Daemon/Windows/Laws.antt =====
-- The Windows daemon: keys that it hides are those that it queues, it does not read its own outputs,
-- and a batch of outputs is sent as a whole or not at all.
use keybinder.Base.{
  ℕ, String, Bool, true, false, ◌&&◌, ◌≡◌, refl, ap, ◌⊎◌, inl, inr, ◌==◌, Option, none, some, [],
  ◌∷◌, ◌++◌, ok, Returns, Returns-if,
}
use keybinder.KeyCode.{KeyCode}
use keybinder.BiMap.{find_forward, contains_forward}
use keybinder.BiMap.Keys.{number_key, code_key}
use keybinder.BiMap.Laws.{contains_forward-find}
use keybinder.Event.{InputEvent, KeyEvent, KeyEventType}
use keybinder.KeyMap.Windows.{windows_int_to_keycode}
use keybinder.KeyChannel.{KeyQueueState, send_key}
use keybinder.Daemon.Windows.{info_identifier, Message, HookCall, Answer, hook_message, hook_proc}

-- What a message says of its key: the hook reads no release of a system key.
abbrev pub kind : Message → Option KeyEventType
kind Message.wm_keydown = some KeyEventType.press
kind Message.wm_syskeydown = some KeyEventType.press
kind Message.wm_keyup = some KeyEventType.release
kind _ = none

-- The program's own input.
abbrev pub is_own : HookCall → Bool
is_own call = call.injected && call.extra_info == info_identifier

-- A call whose key is not for the mapper.
abbrev pub Ignored : (String → ℕ) → HookCall → Type 0
Ignored value call =
    (call.below_zero ≡ true)
    ⊎ (is_own call ≡ true)
    ⊎ (contains_forward (windows_int_to_keycode value) call.vk_code ≡ false)
    ⊎ (kind call.message ≡ none)

-- The key is hidden, and it is queued as the message and the table name it, and the call is not the
-- program's own input; or it is neither hidden nor queued, and the call is one to ignore.
abbrev pub HiddenIsQueued :
    (String → ℕ) → HookCall → KeyQueueState → KeyQueueState × Answer → Type 0
HiddenIsQueued value call channel (channel', answer) =
    ((e : KeyEvent) × (answer ≡ Answer.hide)
      × (call.below_zero ≡ false)
      × (is_own call ≡ false)
      × (find_forward (windows_int_to_keycode value) call.vk_code ≡ ok e.keycode)
      × (kind call.message ≡ some e.type)
      × (channel' ≡ record channel { queue = channel.queue ++ InputEvent.key e ∷ [] }))
    ⊎ ((answer ≡ Answer.hide → ⊥) × (channel' ≡ channel) × Ignored value call)

module _ (value : String → ℕ) (call : HookCall) (channel : KeyQueueState) where
  hook_message-HiddenIsQueued :
      (message : Message) (c : KeyCode)
      → call.below_zero ≡ false
      → is_own call ≡ false
      → find_forward (windows_int_to_keycode value) call.vk_code ≡ ok c
      → call.message ≡ message
      → Returns
          (HiddenIsQueued value call channel)
          (hook_message value message call.vk_code channel)
  unfolding hook_message send_key
  hook_message-HiddenIsQueued Message.wm_keydown c b o e m =
      rw e (inl (record { keycode = c; type = KeyEventType.press }, refl, b, o, e, ap kind m, refl))
  hook_message-HiddenIsQueued Message.wm_syskeydown c b o e m =
      rw e (inl (record { keycode = c; type = KeyEventType.press }, refl, b, o, e, ap kind m, refl))
  hook_message-HiddenIsQueued Message.wm_keyup c b o e m =
      rw e
        (inl (record { keycode = c; type = KeyEventType.release }, refl, b, o, e, ap kind m, refl))
  hook_message-HiddenIsQueued Message.wm_syskeyup c b o e m =
      inr (λ h. cc h, refl, inr (inr (inr (ap kind m))))
  hook_message-HiddenIsQueued Message.other c b o e m =
      inr (λ h. cc h, refl, inr (inr (inr (ap kind m))))

-- The hook never throws. It hides a key exactly when it queues it for the mapper, and then it queues
-- that one event: the key that the table has for the virtual key code, pressed on WM_KEYDOWN and
-- WM_SYSKEYDOWN, released on WM_KEYUP. It does neither exactly when the code is negative, the input is
-- the program's own, the table lacks the key, or the message is another one.
pub hook_hides_what_it_queues :
    (value : String → ℕ) (call : HookCall) (channel : KeyQueueState)
    → Returns (HiddenIsQueued value call channel) (hook_proc value call channel)
unfolding hook_proc
hook_hides_what_it_queues value call channel =
    let Q = HiddenIsQueued value call channel in
    Returns-if Q call.below_zero _ _ (λ h. inr (λ a. cc a, refl, inl h))
      (λ b.
        Returns-if Q (is_own call) _ _ (λ h. inr (λ a. cc a, refl, inr (inl h)))
          (λ o.
            Returns-if Q (contains_forward (windows_int_to_keycode value) call.vk_code) _ _
              (λ held.
                let (c, e) =
                  contains_forward-find (windows_int_to_keycode value) call.vk_code held in
                hook_message-HiddenIsQueued value call channel call.message c b o e refl)
              (λ h. inr (λ a. cc a, refl, inr (inr (inl h))))))
