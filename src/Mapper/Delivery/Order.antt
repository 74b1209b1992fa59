-- ===== src/Mapper/Delivery/Order.antt =====
-- The order in which `check_queued_events` (common/src/mapper.cpp) sends: `std::partition` fixes none.
use mathlib.Core.List.{Perm, reverse, reverse-cons, perm_middle, reverse_perm, append-nil}
use mathlib.Core.List.Perm
use keybinder.Base.{
  ℕ, ◌+◌, ◌≡◌, refl, sym, Bool, true, false, List, [], ◌∷◌, ◌++◌, All, All-append, if◌then◌else◌,
  Bool-cases, inl, inr, IfOk, ok, fail, throws, out_of_range,
}
use keybinder.Mapper.{Item, Partition, Environment, Mapper, now}
use keybinder.Mapper.Output.{is_pending, send_ready, check_items, check_queued_events}
use keybinder.Mapper.Delivery.{delivery}

-- The items that a test accepts, and those that it refuses, in their order.
abbrev pub passing : (Item → Bool) → List Item → List Item
passing p [] = []
passing p (x ∷ xs) = if p x then x ∷ passing p xs else passing p xs

abbrev pub failing : (Item → Bool) → List Item → List Item
failing p [] = []
failing p (x ∷ xs) = if p x then failing p xs else x ∷ failing p xs

pub passing-All : (p : Item → Bool) (xs : List Item) → All (λ x. p x ≡ true) (passing p xs)
passing-All p [] = tt
passing-All p (x ∷ xs) = elim (Bool-cases (p x)) [
  | inl e ↦ rw e (e, passing-All p xs)
  | inr e ↦ rw e (passing-All p xs)
]

pub failing-All : (p : Item → Bool) (xs : List Item) → All (λ x. p x ≡ false) (failing p xs)
failing-All p [] = tt
failing-All p (x ∷ xs) = elim (Bool-cases (p x)) [
  | inl e ↦ rw e (failing-All p xs)
  | inr e ↦ rw e (e, failing-All p xs)
]

pub passing-failing-perm :
    (p : Item → Bool) (xs : List Item) → Perm (passing p xs ++ failing p xs) xs
passing-failing-perm p [] = Perm.refl []
passing-failing-perm p (x ∷ xs) = elim (Bool-cases (p x)) [
  | inl e ↦ rw e (Perm.cons x (passing-failing-perm p xs))
  | inr e ↦ rw e (
      Perm.trans (perm_middle (passing p xs) (failing p xs))
        (Perm.cons x (passing-failing-perm p xs)))
]

All-reverse : (P : Item → Type 0) (xs : List Item) → All P xs → All P (reverse xs)
All-reverse P [] h = tt
All-reverse P (x ∷ xs) h =
    rw (reverse-cons x xs) (All-append P (reverse xs) (x ∷ []) (All-reverse P xs h.1) (h.0, tt))

pub reversing-back :
    (p : Item → Bool) (xs : List Item) → All (λ x. p x ≡ false) (reverse (failing p xs))
reversing-back p xs = All-reverse (λ x. p x ≡ false) (failing p xs) (failing-All p xs)

pub reversing-perm :
    (p : Item → Bool) (xs : List Item) → Perm (passing p xs ++ reverse (failing p xs)) xs
reversing-perm p xs =
    Perm.trans (Perm.append (Perm.refl (passing p xs)) (reverse_perm (failing p xs)))
      (passing-failing-perm p xs)

-- A partition that the standard allows: it turns the items behind `mid` round.
abbrev pub reversing : Partition
reversing = record {
  split = λ p xs. (passing p xs, reverse (failing p xs));
  front_passes = passing-All;
  back_fails = reversing-back;
  permutes = reversing-perm;
}

-- One that keeps the order of both parts, as `std::stable_partition` does.
abbrev pub stable : Partition
stable = record {
  split = λ p xs. (passing p xs, failing p xs);
  front_passes = passing-All;
  back_fails = failing-All;
  permutes = passing-failing-perm;
}

-- The due items of a queue, in the order in which they were queued.
abbrev pub due_items : ℕ → List Item → List Item
due_items t queue = failing (is_pending t) queue

send_ready-sent :
    (waiting ready : List Item) (m : Mapper) (reads : ℕ)
    → (send_ready waiting ready (record m { clock_reads = reads })).sent ≡ m.sent ++ delivery ready
unfolding send_ready
send_ready-sent waiting [] m reads = sym (append-nil m.sent)
send_ready-sent waiting (x ∷ ready) m reads = refl

-- A check that sends `ready` in one call, or throws.
sent_or_thrown :
    (c : Bool) (m m' : Mapper) (ready : List Item)
    → m'.sent ≡ m.sent ++ delivery ready
    → IfOk
        (λ a. a.sent ≡ m.sent ++ delivery ready)
        (if c then ok m' else fail (throws out_of_range))
sent_or_thrown true m m' ready e = e
sent_or_thrown false m m' ready e = tt

check_items-sent :
    (env : Environment) (m : Mapper) (queue : List Item)
    → IfOk
        (λ m'. m'.sent ≡ m.sent ++ delivery (due_items (now env m) queue))
        (check_items (record env { partition = stable }) queue m)
      × IfOk
          (λ m'. m'.sent ≡ m.sent ++ delivery (reverse (due_items (now env m) queue)))
          (check_items (record env { partition = reversing }) queue m)
unfolding check_items
check_items-sent env m [] = (sym (append-nil m.sent), sym (append-nil m.sent))
check_items-sent env m (q ∷ rest) = (
  sent_or_thrown _ m _ (due_items (now env m) (q ∷ rest))
      (send_ready-sent _ _ m (m.clock_reads + 1)),
  sent_or_thrown _ m _ (reverse (due_items (now env m) (q ∷ rest)))
      (send_ready-sent _ _ m (m.clock_reads + 1)),
)

-- Two partitions that the C++ standard allows make `check_queued_events` send the due events in the
-- order in which they were queued, or in the opposite order, for every queue, unless it throws.
pub delivery_order_open :
    (env : Environment) (m : Mapper)
    → IfOk
        (λ m'. m'.sent ≡ m.sent ++ delivery (due_items (now env m) m.queued_events))
        (check_queued_events (record env { partition = stable }) m)
      × IfOk
          (λ m'. m'.sent ≡ m.sent ++ delivery (reverse (due_items (now env m) m.queued_events)))
          (check_queued_events (record env { partition = reversing }) m)
unfolding check_queued_events
delivery_order_open env m = check_items-sent env m m.queued_events
