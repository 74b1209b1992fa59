-- ===== src/Daemon/Mac/Filter.antt =====
-- The filter of `handle_input_event` (mac/src/daemon.cpp) and the keys that pass it.
use mathlib.Core.List.{append-nil}
use keybinder.Base.{
  ℕ, ltb, ◌≡◌, refl, sym, ◌∙◌, Bool, true, false, ◌&&◌, ◌||◌, not, arith, List, [], ◌∷◌, ◌++◌,
  Option, none, some, Result, ok, fail, or_fail, throws, out_of_range, if◌then◌else◌,
}
use keybinder.KeyCode.{KeyCode}
use keybinder.BiMap.{lookup, find_forward}
use keybinder.BiMap.Keys.{number_key, code_key}
use keybinder.BiMap.Laws.{lookup-forward, forward-rows}
use keybinder.Event.{InputEvent}
use keybinder.KeyMap.Mac.{mac_rows, mac_int_to_keycode}
use keybinder.KeyChannel.{KeyQueueState, send_key}
use keybinder.Daemon.Mac.{event_type, handle_input_event}

abbrev passes : ℕ → Bool
passes code = not (ltb 1000 code || ltb code 2)

abbrev all_pass : List (ℕ × KeyCode) → Bool
all_pass [] = true
all_pass ((code, c) ∷ rows) = passes code && all_pass rows

passes-lookup :
    (rows : List (ℕ × KeyCode)) (code : ℕ) (c : KeyCode)
    → all_pass rows ≡ true
    → lookup code rows ≡ some c
    → passes code ≡ true
unfolding lookup
passes-lookup [] code c h e = cc
passes-lookup ((k, d) ∷ rows) code c h e = ground (arith, passes-lookup rows code c)

mapped-passes :
    (code : ℕ) (c : KeyCode)
    → lookup code mac_int_to_keycode.forward_map ≡ some c
    → passes code ≡ true
unfolding mac_int_to_keycode lookup
mapped-passes code c e =
    passes-lookup mac_rows code c refl (sym (forward-rows mac_rows code refl) ∙ e)

-- The key that an input value stands for, if the map has its code.
abbrev pub as_key : Result KeyCode → ℕ → List InputEvent
as_key (ok c) value = InputEvent.key (record { keycode = c; type = event_type value }) ∷ []
as_key (fail e) value = []

either_way {ℓ} : {A : Type ℓ} {x y : A} (c : Bool) → x ≡ y → (if c then x else x) ≡ y
either_way true h = h
either_way false h = h

handle_lem :
    (value code : ℕ) (channel : KeyQueueState) (o : Option KeyCode)
    → lookup code mac_int_to_keycode.forward_map ≡ o
    → handle_input_event value code channel
      ≡ ok (
        record channel { queue = channel.queue ++ as_key (or_fail o (throws out_of_range)) value },
        [],
      )
unfolding handle_input_event send_key
handle_lem value code channel none e =
    let (held, found) = lookup-forward mac_int_to_keycode code none e in
    let same : ok (channel, []) ≡ ok (record channel { queue = channel.queue ++ [] }, []) =
      λ i. ok (record channel { queue = sym (append-nil channel.queue) i }, []) in
    rw held (either_way (ltb 1000 code || ltb code 2) same)
handle_lem value code channel (some c) e =
    let (held, found) = lookup-forward mac_int_to_keycode code (some c) e in
    let through : (ltb 1000 code || ltb code 2) ≡ false = ground (arith, mapped-passes code c e) in
    rw (through, held, found) refl

-- A value of the keyboard whose code the map has is queued for the mapper as its key, pressed unless the
-- value is 0: the filter on codes drops none of them. Any other code is dropped. Nothing is ever sent
-- past the mapper, and nothing throws.
pub mac_queues_mapped_keys :
    (value code : ℕ) (channel : KeyQueueState)
    → handle_input_event value code channel
      ≡ ok (
        record channel {
          queue = channel.queue ++ as_key (find_forward mac_int_to_keycode code) value;
        },
        [],
      )
unfolding find_forward
mac_queues_mapped_keys value code channel =
    handle_lem value code channel (lookup code mac_int_to_keycode.forward_map) refl
