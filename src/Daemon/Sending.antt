-- ===== src/Daemon/Sending.antt =====
-- How the functions `send_outputs` of the three daemon.cpp end: with all outputs handled, or with an
-- exception in the middle.
use keybinder.Base.{◌≡◌, refl, Result, ok, fail, Failure}

-- What was done by then is `S`.
pub data Sending (S : Type 0) : Type 0 where
  sent : S → Sending S
  stopped : S → Failure → Sending S

abbrev pub and_then : {S : Type 0} → Sending S → (S → Sending S) → Sending S
and_then (Sending.sent s) next = next s
and_then (Sending.stopped s e) next = Sending.stopped s e

-- A step from `s` that may throw, and then has changed nothing.
abbrev pub attempt : {S : Type 0} → S → Result S → Sending S
attempt s (ok s') = Sending.sent s'
attempt s (fail e) = Sending.stopped s e

pub and_then-sent :
    {S : Type 0} (m : Sending S) (next : S → Sending S) (t : S)
    → and_then m next ≡ Sending.sent t
    → (u : S) × (m ≡ Sending.sent u) × (next u ≡ Sending.sent t)
and_then-sent (Sending.sent u) next t h = (u, refl, h)
and_then-sent (Sending.stopped u e) next t h = absurd (cc h)

-- What was done, in both cases.
abbrev pub done_by : {S : Type 0} → Sending S → S
done_by (Sending.sent s) = s
done_by (Sending.stopped s e) = s
