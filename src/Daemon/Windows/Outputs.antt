-- ===== src/Daemon/Windows/Outputs.antt =====
-- What `send_outputs` of the Windows daemon hands to `SendInput`, and what the daemon's own hook makes
-- of it.
use mathlib.Core.List.{append_assoc, append-nil}
use keybinder.Base.{
  ℕ, String, Bool, true, false, ◌≡◌, refl, sym, ap, ◌∙◌, inl, inr, ◌*◌, length, All, List, [], ◌∷◌,
  ◌++◌, Result, ok, fail, throws, out_of_range,
}
use keybinder.BiMap.{find_backward}
use keybinder.BiMap.Keys.{number_key, code_key}
use keybinder.BiMap.Laws.{find_backward-cases}
use keybinder.KeyCode.{KeyCode}
use keybinder.Event.{KeyEventType, OutputEvent}
use keybinder.KeyMap.Windows.{windows_int_to_keycode}
use keybinder.KeyMap.Sendable.{among, high_function_keys, input_method_keys, windows_unsendable}
use keybinder.KeyChannel.{KeyQueueState}
use keybinder.Daemon.Windows.{
  info_identifier, Message, HookCall, Answer, hook_proc, Input, Batch, is_release, collect_key,
  collect, collect_all, zeroed, send_outputs,
}
use keybinder.Daemon.Sending.{Sending, and_then, attempt, done_by}

-- What the hook is called with for a key that `SendInput` has injected.
abbrev pub as_call : Message → Input → HookCall
as_call message Input.blank = record {
  below_zero = false;
  message = message;
  vk_code = 0;
  injected = true;
  extra_info = 0;
}
as_call message (Input.keyboard vk key_up extra_info) = record {
  below_zero = false;
  message = message;
  vk_code = vk;
  injected = true;
  extra_info = extra_info;
}

-- The inputs for the keys among the outputs.
abbrev pub key_input : Result ℕ → KeyEventType → List Input
key_input (ok vk) type = Input.keyboard vk (is_release type) info_identifier ∷ []
key_input (fail e) type = []

unfoldable pub key_inputs : (String → ℕ) → List OutputEvent → List Input
key_inputs value [] = []
key_inputs value (OutputEvent.key e ∷ rest) =
    key_input (find_backward (windows_int_to_keycode value) e.keycode) e.type
    ++ key_inputs value rest
key_inputs value (OutputEvent.script s ∷ rest) = key_inputs value rest

abbrev pub Ignored : (String → ℕ) → KeyQueueState → Input → Type 0
Ignored value channel input =
    (message : Message)
    → hook_proc value (as_call message input) channel ≡ ok (channel, Answer.call_next)

collected_key :
    (r : Result ℕ) (type : KeyEventType) (b b' : Batch) (next : Batch → Sending Batch)
    (rest : List Input)
    → ((c : Batch) → next c ≡ Sending.sent b' → b'.inputs ≡ c.inputs ++ rest)
    → and_then (attempt b (collect_key r type b)) next ≡ Sending.sent b'
    → b'.inputs ≡ b.inputs ++ (key_input r type ++ rest)
collected_key (fail x) type b b' next rest ih h = absurd (cc h)
collected_key (ok vk) type b b' next rest ih h =
    ih (record b { inputs = b.inputs ++ key_input (ok vk) type }) h
    ∙ append_assoc b.inputs (key_input (ok vk) type) rest

collected :
    (value : String → ℕ) (outs : List OutputEvent) (b b' : Batch)
    → collect_all value outs b ≡ Sending.sent b'
    → b'.inputs ≡ b.inputs ++ key_inputs value outs
unfolding collect_all collect key_inputs
collected value [] b b' h =
    sym (ap (λ (x : Sending Batch). (done_by x).inputs) h) ∙ sym (append-nil b.inputs)
collected value (OutputEvent.script s ∷ rest) b b' h =
    collected value rest (record b { scripts = b.scripts ++ s ∷ [] }) b' h
collected value (OutputEvent.key e ∷ rest) b b' h =
    collected_key (find_backward (windows_int_to_keycode value) e.keycode) e.type b b'
      (λ c. collect_all value rest c) (key_inputs value rest) (λ c k. collected value rest c b' k) h

key_input-Ignored :
    (value : String → ℕ) (channel : KeyQueueState) (r : Result ℕ) (type : KeyEventType)
    (rest : List Input)
    → All (Ignored value channel) rest
    → All (Ignored value channel) (key_input r type ++ rest)
unfolding hook_proc
key_input-Ignored value channel (ok vk) type rest h = ((λ message. refl), h)
key_input-Ignored value channel (fail e) type rest h = h

key_inputs-Ignored :
    (value : String → ℕ) (channel : KeyQueueState) (outs : List OutputEvent)
    → All (Ignored value channel) (key_inputs value outs)
unfolding key_inputs
key_inputs-Ignored value channel [] = tt
key_inputs-Ignored value channel (OutputEvent.key e ∷ rest) =
    key_input-Ignored value channel (find_backward (windows_int_to_keycode value) e.keycode) e.type
      (key_inputs value rest) (key_inputs-Ignored value channel rest)
key_inputs-Ignored value channel (OutputEvent.script s ∷ rest) =
    key_inputs-Ignored value channel rest

-- When the outputs are sent, `SendInput` gets two blank inputs for each output, and behind them the
-- keys, in order. The hook passes each of these keys on, with whatever message it is called, and does
-- not queue it: the mapper never reads its own outputs.
pub windows_ignores_own_outputs :
    (value : String → ℕ) (outs : List OutputEvent) (b : Batch) (channel : KeyQueueState)
    → send_outputs value outs ≡ Sending.sent b
    → (b.inputs ≡ zeroed (length outs * 2) ++ key_inputs value outs)
      × All (Ignored value channel) (key_inputs value outs)
unfolding send_outputs
windows_ignores_own_outputs value outs b channel h = (
  collected value outs (record { inputs = zeroed (length outs * 2); scripts = [] }) b h,
  key_inputs-Ignored value channel outs,
)

-- Whether an output is a key that the daemon cannot send.
abbrev pub lost : OutputEvent → Bool
lost (OutputEvent.key e) = among e.keycode (KeyCode.power ∷ high_function_keys ++ input_method_keys)
lost (OutputEvent.script s) = false

abbrev Stops : Sending Batch → Type 0
Stops s = (b : Batch) × (s ≡ Sending.stopped b (throws out_of_range))

collect-lost :
    (value : String → ℕ) (o : OutputEvent) (b : Batch)
    → lost o ≡ true
    → collect value o b ≡ fail (throws out_of_range)
unfolding collect
collect-lost value (OutputEvent.key e) b h =
    ap (λ r. collect_key r e.type b) ((windows_unsendable value e.keycode).1 h)
collect-lost value (OutputEvent.script s) b h = absurd (cc h)

lost-Stops :
    (value : String → ℕ) (before after : List OutputEvent) (o : OutputEvent) (b : Batch)
    → lost o ≡ true
    → Stops (collect_all value (before ++ o ∷ after) b)
unfolding collect_all collect
lost-Stops value [] after o b h = (b, rw (collect-lost value o b h) refl)
lost-Stops value (OutputEvent.script s ∷ before) after o b h =
    lost-Stops value before after o (record b { scripts = b.scripts ++ s ∷ [] }) h
lost-Stops value (OutputEvent.key e ∷ before) after o b h =
    elim (find_backward-cases (windows_int_to_keycode value) e.keycode) [
      | inl (vk, found) ↦ rw found (
          lost-Stops value before after o
            (record b { inputs = b.inputs ++ key_input (ok vk) e.type }) h)
      | inr missing ↦ (b, rw missing refl)
    ]

-- One key among the outputs that the daemon cannot send stops the whole batch: `send_outputs` throws
-- `out_of_range` before `SendInput` is called, wherever the key stands.
pub windows_loses_batch :
    (value : String → ℕ) (before after : List OutputEvent) (o : OutputEvent)
    → lost o ≡ true
    → (b : Batch) × (send_outputs value (before ++ o ∷ after)
        ≡ Sending.stopped b (throws out_of_range))
unfolding send_outputs
windows_loses_batch value before after o h =
    lost-Stops value before after o
      (record { inputs = zeroed (length (before ++ o ∷ after) * 2); scripts = [] }) h
