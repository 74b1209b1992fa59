-- ===== src/Tests/Daemons.antt =====
-- The theorems about the daemons at the test data.
use keybinder.Base.{
  ℕ, suc, ◌≡◌, refl, String, str_eq, true, false, List, [], ◌∷◌, ◌++◌, throws, out_of_range,
  Returns, All, length, ◌*◌, if◌then◌else◌,
}
use keybinder.KeyCode.{KeyCode, code_eq}
use keybinder.BiMap.{lookup, find_backward}
use keybinder.BiMap.Laws.{distinct}
use keybinder.BiMap.Keys.{number_key, code_key}
use keybinder.Event.{OutputEvent}
use keybinder.KeyMap.Linux.{linux_rows, linux_int_to_keycode}
use keybinder.KeyMap.Windows.{windows_int_to_keycode}
use keybinder.KeyChannel.{create_channel}
use keybinder.Daemon.Sending.{Sending}
use keybinder.Daemon.Linux as Linux
use keybinder.Daemon.Linux.Laws as LinuxLaws
use keybinder.Daemon.Linux.RoundTrip as LinuxOutputs
use keybinder.Daemon.Windows as Windows
use keybinder.Daemon.Windows.Laws as WindowsLaws
use keybinder.Daemon.Windows.Outputs as WindowsOutputs
use keybinder.Tests.{sent_press}

-- Distinct numbers for the macros of the kernel.
abbrev macros : List String
macros =
    "KEY_A" ∷ "KEY_B" ∷ "KEY_C" ∷ "KEY_D" ∷ "KEY_E" ∷ "KEY_F" ∷ "KEY_G" ∷ "KEY_H" ∷ "KEY_I"
    ∷ "KEY_J" ∷ "KEY_K" ∷ "KEY_L" ∷ "KEY_M" ∷ "KEY_N" ∷ "KEY_O" ∷ "KEY_P" ∷ "KEY_Q" ∷ "KEY_R"
    ∷ "KEY_S" ∷ "KEY_T" ∷ "KEY_U" ∷ "KEY_V" ∷ "KEY_W" ∷ "KEY_X" ∷ "KEY_Y" ∷ "KEY_Z" ∷ "KEY_0"
    ∷ "KEY_1" ∷ "KEY_2" ∷ "KEY_3" ∷ "KEY_4" ∷ "KEY_5" ∷ "KEY_6" ∷ "KEY_7" ∷ "KEY_8" ∷ "KEY_9"
    ∷ "KEY_F1" ∷ "KEY_F2" ∷ "KEY_F3" ∷ "KEY_F4" ∷ "KEY_F5" ∷ "KEY_F6" ∷ "KEY_F7" ∷ "KEY_F8"
    ∷ "KEY_F9" ∷ "KEY_F10" ∷ "KEY_F11" ∷ "KEY_F12" ∷ "KEY_LEFTSHIFT" ∷ "KEY_RIGHTSHIFT"
    ∷ "KEY_LEFTCTRL" ∷ "KEY_RIGHTCTRL" ∷ "KEY_LEFTALT" ∷ "KEY_RIGHTALT" ∷ "KEY_LEFTMETA"
    ∷ "KEY_RIGHTMETA" ∷ "KEY_ESC" ∷ "KEY_TAB" ∷ "KEY_ENTER" ∷ "KEY_BACKSPACE" ∷ "KEY_SPACE"
    ∷ "KEY_INSERT" ∷ "KEY_DELETE" ∷ "KEY_HOME" ∷ "KEY_END" ∷ "KEY_PAGEUP" ∷ "KEY_PAGEDOWN"
    ∷ "KEY_SYSRQ" ∷ "KEY_PAUSE" ∷ "KEY_COMPOSE" ∷ "KEY_CAPSLOCK" ∷ "KEY_NUMLOCK" ∷ "KEY_SCROLLLOCK"
    ∷ "KEY_UP" ∷ "KEY_DOWN" ∷ "KEY_LEFT" ∷ "KEY_RIGHT" ∷ "KEY_MINUS" ∷ "KEY_EQUAL" ∷ "KEY_LEFTBRACE"
    ∷ "KEY_RIGHTBRACE" ∷ "KEY_BACKSLASH" ∷ "KEY_SEMICOLON" ∷ "KEY_APOSTROPHE" ∷ "KEY_GRAVE"
    ∷ "KEY_COMMA" ∷ "KEY_DOT" ∷ "KEY_SLASH" ∷ "KEY_KP0" ∷ "KEY_KP1" ∷ "KEY_KP2" ∷ "KEY_KP3"
    ∷ "KEY_KP4" ∷ "KEY_KP5" ∷ "KEY_KP6" ∷ "KEY_KP7" ∷ "KEY_KP8" ∷ "KEY_KP9" ∷ "KEY_KPPLUS"
    ∷ "KEY_KPMINUS" ∷ "KEY_KPASTERISK" ∷ "KEY_KPSLASH" ∷ "KEY_KPENTER" ∷ "KEY_KPDOT"
    ∷ "KEY_VOLUMEUP" ∷ "KEY_VOLUMEDOWN" ∷ "KEY_MUTE" ∷ "KEY_NEXTSONG" ∷ "KEY_PREVIOUSSONG"
    ∷ "KEY_PLAYPAUSE" ∷ "KEY_STOPCD" ∷ "KEY_BACK" ∷ "KEY_FORWARD" ∷ "KEY_REFRESH" ∷ "KEY_HOMEPAGE"
    ∷ "KEY_SEARCH" ∷ "KEY_FAVORITES" ∷ "KEY_MAIL" ∷ "KEY_CALC" ∷ "KEY_COMPUTER" ∷ "KEY_SLEEP"
    ∷ "KEY_POWER" ∷ "KEY_HIRAGANA" ∷ "KEY_KATAKANA" ∷ "KEY_MUHENKAN" ∷ "KEY_HENKAN" ∷ []

abbrev place : String → List String → ℕ → ℕ
place name [] n = 0
place name (m ∷ ms) n = if str_eq m name then n else place name ms (suc n)

abbrev kernel : String → ℕ
kernel name = place name macros 1

abbrev two_outputs : List OutputEvent
two_outputs = sent_press KeyCode.key_b ∷ sent_press KeyCode.enter ∷ []

abbrev raw_events : List Linux.RawEvent
raw_events =
    record { type = Linux.EventKind.ev_key; code = kernel "KEY_A"; value = 2 }
    ∷ record { type = Linux.EventKind.ev_key; code = 700; value = 1 }
    ∷ record { type = Linux.EventKind.ev_syn; code = 0; value = 0 }
    ∷ []

kernel-distinct : distinct (linux_rows kernel) ≡ true
unfolding lookup
kernel-distinct = refl

abbrev two_written : Linux.Sink
two_written = record {
  written =
      Linux.key_frame kernel (kernel "KEY_B") 1 ++ Linux.key_frame kernel (kernel "KEY_ENTER") 1;
  scripts = [];
}

two_sent :
    Linux.send_outputs kernel two_outputs LinuxOutputs.nothing_sent ≡ Sending.sent two_written
unfolding Linux.send_outputs find_backward lookup linux_int_to_keycode code_eq
two_sent = refl

linux_reads_back_example :
    Returns
      (λ (step : Linux.Step).
        step.channel ≡ LinuxLaws.enqueue (LinuxOutputs.keys_out two_outputs) create_channel)
      (Linux.handle_all kernel two_written.written create_channel)
linux_reads_back_example =
    LinuxOutputs.linux_reads_back kernel two_outputs two_written create_channel kernel-distinct
      two_sent

linux_stops_at_lost_key_example :
    Linux.send_outputs kernel
      (two_outputs ++ sent_press KeyCode.f13 ∷ sent_press KeyCode.key_a ∷ [])
      LinuxOutputs.nothing_sent
    ≡ Sending.stopped two_written (throws out_of_range)
unfolding code_eq
linux_stops_at_lost_key_example =
    LinuxOutputs.linux_stops_at_lost_key kernel two_outputs (sent_press KeyCode.key_a ∷ [])
      (sent_press KeyCode.f13) LinuxOutputs.nothing_sent two_written refl two_sent

abbrev own_batch : Windows.Batch
own_batch = record {
  inputs =
      Windows.Input.blank
      ∷ Windows.Input.blank
      ∷ Windows.Input.blank
      ∷ Windows.Input.blank
      ∷ Windows.Input.keyboard 66 false Windows.info_identifier
      ∷ Windows.Input.keyboard 67 false Windows.info_identifier
      ∷ [];
  scripts = [];
}

abbrev letters : List OutputEvent
letters = sent_press KeyCode.key_b ∷ sent_press KeyCode.key_c ∷ []

letters_sent : Windows.send_outputs kernel letters ≡ Sending.sent own_batch
unfolding Windows.send_outputs find_backward lookup windows_int_to_keycode code_eq
letters_sent = refl

windows_ignores_own_outputs_example :
    (own_batch.inputs
      ≡ Windows.zeroed (length letters * 2) ++ WindowsOutputs.key_inputs kernel letters)
    × All (WindowsOutputs.Ignored kernel create_channel) (WindowsOutputs.key_inputs kernel letters)
windows_ignores_own_outputs_example =
    WindowsOutputs.windows_ignores_own_outputs kernel letters own_batch create_channel letters_sent

abbrev b_goes_down : Windows.HookCall
b_goes_down = record {
  below_zero = false;
  message = Windows.Message.wm_syskeydown;
  vk_code = 66;
  injected = true;
  extra_info = 0;
}

hook_hides_what_it_queues_example :
    Returns
      (WindowsLaws.HiddenIsQueued kernel b_goes_down create_channel)
      (Windows.hook_proc kernel b_goes_down create_channel)
hook_hides_what_it_queues_example =
    WindowsLaws.hook_hides_what_it_queues kernel b_goes_down create_channel
