-- ===== src/Mapper/Delivery.antt =====
-- What `check_queued_events` (common/src/mapper.cpp) sends, and what it keeps.
pub mod Order
use mathlib.Core.List.{Perm, append-nil, perm_middle}
use mathlib.Core.List.Perm
use keybinder.Base.{
  ℕ, ◌+◌, ◌≤◌, ◌<◌, ◌≡◌, refl, sym, ◌∙◌, ap, subst, Bool, true, false, not, ltb, List, [], ◌∷◌,
  ◌++◌, map, All, Result, ok, fail, throws, out_of_range, arith, if◌then◌else◌, Bool-cases, inl,
  inr,
}
use keybinder.Event.{OutputEvent}
use keybinder.Mapper.{Item, Partition, Environment, Mapper, now}
use keybinder.Mapper.Output.{
  is_pending, event_of, all_sendable, send_ready, check_items, check_queued_events,
}

-- The calls of `send_outputs` that deliver some items: one, or none for no items.
abbrev pub delivery : List Item → List (List OutputEvent)
delivery [] = []
delivery (r ∷ ready) = map event_of (r ∷ ready) ∷ []

-- What one check does, at the time `t`, with a queue.
pub record Delivers (t : ℕ) (before after : Mapper) (ready : List Item) : Type 0 where
  pub in_one_call : after.sent ≡ before.sent ++ delivery ready
  pub all_due : All (λ item. item.0 ≤ t) ready
  pub kept_later : All (λ item. t < item.0) after.queued_events
  pub none_lost : Perm (after.queued_events ++ ready) before.queued_events
  pub state_kept :
      (after.cur_layer_idx ≡ before.cur_layer_idx)
      × (after.cur_state_idx ≡ before.cur_state_idx)
      × (after.current_timer ≡ before.current_timer)

due : (t : ℕ) (xs : List Item) → All (λ x. is_pending t x ≡ false) xs → All (λ item. item.0 ≤ t) xs
due t [] h = tt
due t (x ∷ xs) h = (ground (arith, h.0), due t xs h.1)

later : (t : ℕ) (xs : List Item) → All (λ x. is_pending t x ≡ true) xs → All (λ item. t < item.0) xs
later t [] h = tt
later t (x ∷ xs) h = (ground (arith, h.0), later t xs h.1)

send_ready-Delivers :
    (t : ℕ) (waiting ready : List Item) (m : Mapper) (reads : ℕ)
    → All (λ x. is_pending t x ≡ true) waiting
    → All (λ x. is_pending t x ≡ false) ready
    → Perm (waiting ++ ready) m.queued_events
    → Delivers t m (send_ready waiting ready (record m { clock_reads = reads })) ready
unfolding send_ready
send_ready-Delivers t waiting [] m reads w r p = record {
  in_one_call = sym (append-nil m.sent);
  all_due = tt;
  kept_later = later t waiting w;
  none_lost = p;
  state_kept = (refl, refl, refl);
}
send_ready-Delivers t waiting (x ∷ ready) m reads w r p = record {
  in_one_call = refl;
  all_due = due t (x ∷ ready) r;
  kept_later = later t waiting w;
  none_lost = p;
  state_kept = (refl, refl, refl);
}

-- A due item of the queue holds what the daemon cannot send.
abbrev pub Refused : Environment → Mapper → Type 0
Refused env m =
    (item : Item) × (others : List Item) × Perm (item ∷ others) m.queued_events
    × (item.0 ≤ now env m)
    × (env.can_send (event_of item) ≡ false)

-- What a check of the queue comes to: what is due is sent, all of which the daemon can send, or the
-- daemon has thrown `out_of_range` for a due item that it cannot.
abbrev pub Checked : Environment → Mapper → Result Mapper → Type 0
Checked env m (ok m') =
    (ready : List Item) × Delivers (now env m) m m' ready × (all_sendable env ready ≡ true)
Checked env m (fail (throws out_of_range)) = Refused env m
Checked env m (fail _) = ⊥

unsendable_among :
    (env : Environment) (t : ℕ) (waiting ready : List Item)
    → All (λ item. item.0 ≤ t) ready
    → all_sendable env ready ≡ false
    → (item : Item) × (others : List Item) × Perm (item ∷ others) (waiting ++ ready)
      × (item.0 ≤ t)
      × (env.can_send (event_of item) ≡ false)
unfolding all_sendable
unsendable_among env t waiting [] d h = absurd (cc h)
unsendable_among env t waiting (x ∷ ready) d h = elim (Bool-cases (env.can_send (event_of x))) [
  | inr e ↦ (x, waiting ++ ready, Perm.symm (perm_middle waiting ready), d.0, e)
  | inl e ↦
      let (item, others, p, due, bad) = unsendable_among env t waiting ready d.1 (rw e at h) in
      (
        item,
        x ∷ others,
        Perm.trans (Perm.swap x item others)
            (Perm.trans (Perm.cons x p) (Perm.symm (perm_middle waiting ready))),
        due,
        bad,
      )
]

check_items-Checked :
    (env : Environment) (m : Mapper) (queue : List Item)
    → m.queued_events ≡ queue
    → Checked env m (check_items env queue m)
unfolding check_items
check_items-Checked env m [] e = (
  [],
  record {
    in_one_call = sym (append-nil m.sent);
    all_due = tt;
    kept_later = rw e tt;
    none_lost = rw append-nil (Perm.refl m.queued_events);
    state_kept = (refl, refl, refl);
  },
  refl,
)
check_items-Checked env m (q ∷ rest) e =
    let p = is_pending (now env m) in
    let waiting = (env.partition.split p (q ∷ rest)).0 in
    let ready = (env.partition.split p (q ∷ rest)).1 in
    let same : Perm (waiting ++ ready) m.queued_events =
      rw e (env.partition.permutes p (q ∷ rest)) in
    let fails = env.partition.back_fails p (q ∷ rest) in
    elim (Bool-cases (all_sendable env ready)) [
      | inl s ↦ rw s (
        ready,
        send_ready-Delivers (now env m) waiting ready m (m.clock_reads + 1)
            (env.partition.front_passes p (q ∷ rest)) fails same,
        s,
      )
      | inr s ↦
          let (item, others, perm, late, bad) =
            unsendable_among env (now env m) waiting ready (due (now env m) ready fails) s in
          rw s (item, others, Perm.trans perm same, late, bad)
    ]

-- Whatever `std::partition` does with the order, `check_queued_events` sends in one call the events
-- of queued items that are all due (none if no item is), keeps only items that are not, loses and
-- makes up no item, and leaves layer, state and timer alone; or a due item holds an event that the
-- daemon cannot send, and then `out_of_range` is thrown.
pub check_queued_events-Delivers :
    (env : Environment) (m : Mapper) → Checked env m (check_queued_events env m)
unfolding check_queued_events
check_queued_events-Delivers env m = check_items-Checked env m m.queued_events refl
