-- ===== src/Tests/Channels.antt =====
-- The theorems about the channel, the counter and the paused mapper at the test data.
use keybinder.Base.{◌≡◌, refl, true, false, List, [], ◌∷◌, ◌++◌, none, some, ok}
use keybinder.KeyCode.{KeyCode}
use keybinder.Event.{InputEvent}
use keybinder.KeyChannel.{KeyQueueState}
use keybinder.KeyChannel.Fifo.{send_all, receive_all, count, channel_fifo}
use keybinder.KeyCounter.{KeyCounter}
use keybinder.Mapper.Control.{pause, resume, is_paused, waiting_for_timer}
use keybinder.Mapper.Paused.{passed_on, process_all, paused_passes_on}
use keybinder.Tests.{demo_env, demo_mapper, pressed}

abbrev two_keys : List InputEvent
two_keys = pressed KeyCode.key_b ∷ pressed KeyCode.key_c ∷ []

abbrev one_waiting : KeyQueueState
one_waiting = record { queue = pressed KeyCode.key_a ∷ []; closed = false }

abbrev saved_counter : KeyCounter
saved_counter = record { counts = ("A", 3) ∷ []; dirty = false; file = some (("A", 3) ∷ []) }

channel_fifo_example :
    receive_all (count (one_waiting.queue ++ two_keys)) true (send_all two_keys one_waiting)
    ≡ one_waiting.queue ++ two_keys
channel_fifo_example = channel_fifo true two_keys one_waiting refl

paused_passes_on_example :
    (process_all 1 demo_env two_keys (pause demo_mapper)
      ≡ ok (record demo_mapper {
        paused = true;
        queued_events = [];
        current_timer = none;
        sent = demo_mapper.sent ++ passed_on two_keys;
      }))
    × (is_paused (pause demo_mapper) ≡ true)
    × (waiting_for_timer (pause demo_mapper) ≡ false)
    × (resume (pause demo_mapper)
        ≡ record demo_mapper { paused = false; queued_events = []; current_timer = none })
paused_passes_on_example = paused_passes_on 0 demo_env two_keys demo_mapper
