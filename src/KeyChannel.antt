-- ===== src/KeyChannel.antt =====
-- common/src/key_channel.cpp: the queue between the daemons' threads and the mapper's. The shared
-- state is one value, and each critical section is one step.
pub mod Fifo
use keybinder.Base.{ℕ, zero, suc, Bool, true, false, List, [], ◌∷◌, ◌++◌, Option, none, some}
use keybinder.Event.{InputEvent}

pub record KeyQueueState : Type 0 where
  pub queue : List InputEvent
  pub closed : Bool

-- `send_key`, which answers `true` in any case.
unfoldable pub send_key : InputEvent → KeyQueueState → KeyQueueState × Bool
send_key kc s = (record s { queue = s.queue ++ kc ∷ [] }, true)

-- What `wait_key` does in a state in which no other thread moves: it returns, or it goes on waiting,
-- which it does only without a timeout.
pub data Wait : Type 0 where
  returns : Option InputEvent → KeyQueueState → Wait
  waits : Wait

abbrev pub take_front : Bool → List InputEvent → KeyQueueState → Wait
take_front true [] s = Wait.returns none s
take_front false [] s = Wait.waits
take_front has_timeout (e ∷ rest) s = Wait.returns (some e) (record s { queue = rest })

abbrev pub open_wait : Bool → Bool → KeyQueueState → Wait
open_wait true has_timeout s = Wait.returns none s
open_wait false has_timeout s = take_front has_timeout s.queue s

unfoldable pub wait_key : Bool → KeyQueueState → Wait
wait_key has_timeout s = open_wait s.closed has_timeout s

unfoldable pub close : KeyQueueState → KeyQueueState
close s = record s { closed = true }

abbrev pub create_channel : KeyQueueState
create_channel = record { queue = []; closed = false }
