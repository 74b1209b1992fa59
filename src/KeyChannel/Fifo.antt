-- ===== src/KeyChannel/Fifo.antt =====
-- Keys leave the channel (common/src/key_channel.cpp) in the order in which they were sent.
use mathlib.Core.List.{append_assoc, append-nil}
use keybinder.Base.{
  ℕ, zero, suc, ◌≡◌, refl, sym, ap, ◌∙◌, Bool, true, false, List, [], ◌∷◌, ◌++◌, none, some,
}
use keybinder.Event.{InputEvent}
use keybinder.KeyChannel.{KeyQueueState, Wait, send_key, wait_key, close}

-- Any number of keys sent.
pub send_all : List InputEvent → KeyQueueState → KeyQueueState
send_all [] s = s
send_all (e ∷ rest) s = send_all rest (send_key e s).0

-- The keys that calls of `wait_key` return, until one returns none or waits.
abbrev pub keep : (KeyQueueState → List InputEvent) → Wait → List InputEvent
keep next (Wait.returns (some e) s) = e ∷ next s
keep next _ = []

unfoldable pub receive_all : ℕ → Bool → KeyQueueState → List InputEvent
unfolding wait_key
receive_all zero has_timeout s = []
receive_all (suc calls) has_timeout s =
    keep (receive_all calls has_timeout) (wait_key has_timeout s)

send_all-queue :
    (es : List InputEvent) (s : KeyQueueState) → send_all es s ≡ record s { queue = s.queue ++ es }
unfolding send_all send_key
send_all-queue [] s = λ i. record s { queue = sym (append-nil s.queue) i }
send_all-queue (e ∷ rest) s =
    send_all-queue rest (record s { queue = s.queue ++ e ∷ [] })
    ∙ (λ i. record s { queue = append_assoc s.queue (e ∷ []) rest i })

abbrev pub count : List InputEvent → ℕ
count [] = zero
count (e ∷ rest) = suc (count rest)

receive_all-queue :
    (has_timeout : Bool) (q : List InputEvent) (s : KeyQueueState)
    → s.closed ≡ false
    → s.queue ≡ q
    → receive_all (count q) has_timeout s ≡ q
unfolding receive_all wait_key
receive_all-queue has_timeout [] s o e = refl
receive_all-queue true (x ∷ rest) s o e =
    rw (o, e)
      (ap (λ (xs : List InputEvent). x ∷ xs)
        (receive_all-queue true rest (record s { queue = rest; closed = false }) refl refl))
receive_all-queue false (x ∷ rest) s o e =
    rw (o, e)
      (ap (λ (xs : List InputEvent). x ∷ xs)
        (receive_all-queue false rest (record s { queue = rest; closed = false }) refl refl))

-- Keys sent to an open channel come out behind those that waited in it, all of them, in order and each
-- once, by as many calls of `wait_key`, with a timeout or without.
pub channel_fifo :
    (has_timeout : Bool) (es : List InputEvent) (s : KeyQueueState)
    → s.closed ≡ false
    → receive_all (count (s.queue ++ es)) has_timeout (send_all es s) ≡ s.queue ++ es
channel_fifo has_timeout es s o =
    rw (send_all-queue es s)
      (receive_all-queue has_timeout (s.queue ++ es) (record s { queue = s.queue ++ es }) o refl)

-- On a closed channel `wait_key` returns no key at once, with a timeout or without, whatever was sent
-- before or after, and keeps the queue.
pub closed_channel_returns :
    (has_timeout : Bool) (es : List InputEvent) (s : KeyQueueState)
    → wait_key has_timeout (send_all es (close s))
      ≡ Wait.returns none (record s { queue = s.queue ++ es; closed = true })
unfolding wait_key close
closed_channel_returns has_timeout es s = rw (send_all-queue es (close s)) refl
