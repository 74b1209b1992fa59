-- ===== src/System/Shutdown.antt =====
-- The end of the mapper's thread: the loop of `start` (common/src/mapper.cpp) in its steps, and what
-- `cleanShutdown` of common/src/main.cpp does to it.
use keybinder.Base.{
  ℕ, suc, ◌-◌, ◌≤◌, ◌≡◌, refl, sym, ap, ◌∙◌, subst, Bool, true, false, ◌||◌, List, [], ◌∷◌, Option,
  Result, ok, fail, nullopt, too_deep, throws, out_of_range, ◌>>=◌, IfOk, arith, if◌then◌else◌,
}
use keybinder.Event.{InputEvent}
use keybinder.KeyChannel.{KeyQueueState, Wait, send_key, open_wait, wait_key, close}
use keybinder.Mapper.{Environment, Mapper}
use keybinder.Mapper.Control.{stop}
use keybinder.Mapper.Process.{take_in, round}
use keybinder.Mapper.Valid.{IsValid}
use keybinder.Mapper.Quiet.{NoReplay}
use keybinder.Mapper.Total.{round_total}
use keybinder.Mapper.Delivery.{Refused}
use keybinder.Mapper.Rounds.{RoundEnds}
use keybinder.Mapper.Frame.{Settled, Frame, round-Frame}

-- Where the thread is: at the loop's test, in `wait_key`, behind it with what it gave, or at the end.
pub data Place : Type 0 where
  at_test at_wait at_end : Place
  at_round : Option InputEvent → Place

-- `timeout` is set by the first round, and `interrupted` by `requestInterruption`.
pub record Thread : Type 0 where
  pub place : Place
  pub has_timeout : Bool
  pub interrupted : Bool
  pub mapper : Mapper
  pub channel : KeyQueueState

abbrev pub waited : Wait → Thread → Thread
waited (Wait.returns key_opt channel) t = record t {
  place = Place.at_round key_opt;
  channel = channel;
}
waited Wait.waits t = t

unfoldable pub advance_at : ℕ → Environment → Bool → Place → Thread → Result Thread
unfolding wait_key round
advance_at depth env log Place.at_test t =
    ok (record t {
      place = if t.mapper.stopped || t.interrupted then Place.at_end else Place.at_wait;
    })
advance_at depth env log Place.at_wait t = ok (waited (wait_key t.has_timeout t.channel) t)
advance_at depth env log (Place.at_round key_opt) t = do
  m ← round depth env log key_opt t.mapper
  ok (record t { place = Place.at_test; has_timeout = true; mapper = m })
advance_at depth env log Place.at_end t = ok t

-- One step of the thread.
unfoldable pub advance : ℕ → Environment → Bool → Thread → Result Thread
unfolding advance_at
advance depth env log t = advance_at depth env log t.place t

-- A step of the thread, or a key that a daemon sends.
pub data Act : Type 0 where
  own : Act
  arrives : InputEvent → Act

unfoldable pub play : ℕ → Environment → Bool → List Act → Thread → Result Thread
unfolding advance send_key
play depth env log [] t = ok t
play depth env log (Act.own ∷ acts) t = do t' ← advance depth env log t; play depth env log acts t'
play depth env log (Act.arrives e ∷ acts) t =
    play depth env log acts (record t { channel = (send_key e t.channel).0 })

-- What `cleanShutdown` does to the mapper's thread, with or without a mapper.
unfoldable pub ask_to_end : Bool → Thread → Thread
unfolding stop close
ask_to_end true t = record t { mapper = stop t.mapper; channel = close t.channel }
ask_to_end false t = record t { interrupted = true }

abbrev pub owns : List Act → ℕ
owns [] = 0
owns (Act.own ∷ acts) = suc (owns acts)
owns (Act.arrives e ∷ acts) = owns acts

-- Steps to the end, once the mapper is stopped.
abbrev left : Place → ℕ
left Place.at_end = 0
left Place.at_test = 1
left (Place.at_round key_opt) = 2
left Place.at_wait = 3

record IsEnding (n : ℕ) (t : Thread) : Type 0 where
  stopped : t.mapper.stopped ≡ true
  closed : t.channel.closed ≡ true
  valid : IsValid n t.mapper
  quiet : NoReplay t.mapper

-- What a round takes in, at the place where a round is next.
abbrev taken_at : ℕ → Environment → Bool → Place → Thread → Result Mapper
taken_at depth env log (Place.at_round key_opt) t = take_in depth env log key_opt t.mapper
taken_at depth env log _ t = fail too_deep

-- A step that leaves such a thread, or throws for a due item that the daemon cannot send.
abbrev StepEnds : (Thread → Type 0) → Environment → Result Mapper → Result Thread → Type 0
StepEnds P env taken (ok t) = P t
StepEnds P env taken (fail (throws out_of_range)) = (m2 : Mapper) × (taken ≡ ok m2) × Refused env m2
StepEnds P env taken (fail _) = ⊥

-- Among the steps there is a round that finds a due item which the daemon cannot send.
pub data Breaks (depth : ℕ) (env : Environment) (log : Bool) : List Act → Thread → Type 0 where
  here :
      (acts : List Act) (t : Thread) (m2 : Mapper)
      → taken_at depth env log t.place t ≡ ok m2
      → Refused env m2
      → Breaks depth env log (Act.own ∷ acts) t
  later :
      (acts : List Act) (t t' : Thread)
      → advance depth env log t ≡ ok t'
      → Breaks depth env log acts t'
      → Breaks depth env log (Act.own ∷ acts) t
  behind_key :
      (e : InputEvent) (acts : List Act) (t : Thread)
      → Breaks depth env log acts (record t { channel = (send_key e t.channel).0 })
      → Breaks depth env log (Act.arrives e ∷ acts) t

-- The thread is at its end, or it has broken off for such an item.
abbrev pub PlayEnds : ℕ → Environment → Bool → List Act → Thread → Result Thread → Type 0
PlayEnds depth env log acts t (ok t') = t'.place ≡ Place.at_end
PlayEnds depth env log acts t (fail (throws out_of_range)) = Breaks depth env log acts t
PlayEnds depth env log acts t (fail _) = ⊥

after :
    (depth : ℕ) (env : Environment) (log : Bool) (acts : List Act) (t t' : Thread)
    (r : Result Thread)
    → advance depth env log t ≡ ok t'
    → PlayEnds depth env log acts t' r
    → PlayEnds depth env log (Act.own ∷ acts) t r
after depth env log acts t t' (ok t'') e p = p
after depth env log acts t t' (fail (throws out_of_range)) e p = Breaks.later acts t t' e p
after depth env log acts t t' (fail (throws x)) e p = absurd p
after depth env log acts t t' (fail nullopt) e p = p
after depth env log acts t t' (fail too_deep) e p = p

after_key :
    (depth : ℕ) (env : Environment) (log : Bool) (e : InputEvent) (acts : List Act) (t : Thread)
    (r : Result Thread)
    → PlayEnds depth env log acts (record t { channel = (send_key e t.channel).0 }) r
    → PlayEnds depth env log (Act.arrives e ∷ acts) t r
after_key depth env log e acts t (ok t'') p = p
after_key depth env log e acts t (fail (throws out_of_range)) p = Breaks.behind_key e acts t p
after_key depth env log e acts t (fail (throws x)) p = absurd p
after_key depth env log e acts t (fail nullopt) p = p
after_key depth env log e acts t (fail too_deep) p = p

module _ (n depth : ℕ) (env : Environment) (log : Bool) where
  abbrev Nearer : Place → Thread → Type 0
  Nearer place t = IsEnding n t × (left t.place ≤ left place - 1)

  rounded :
      (t : Thread) (key_opt : Option InputEvent) (taken r : Result Mapper)
      → IsEnding n t
      → RoundEnds (λ m. IsValid n m × NoReplay m) ⊥ env taken r
      → IfOk (Frame t.mapper) r
      → StepEnds
          (Nearer (Place.at_round key_opt))
          env
          taken
          (do m ← r; ok (record t { place = Place.at_test; has_timeout = true; mapper = m }))
  rounded t key_opt taken (fail too_deep) h v f = absurd v
  rounded t key_opt taken (fail nullopt) h v f = absurd v
  rounded t key_opt taken (fail (throws out_of_range)) h v f = v
  rounded t key_opt taken (fail (throws e)) h v f = absurd v
  rounded t key_opt taken (ok m) h v f = (
    record {
      stopped = ap (λ (s : Settled). s.stopped) f ∙ h.stopped;
      closed = h.closed;
      valid = v.0;
      quiet = v.1;
    },
    omega arith,
  )

  advance_at-Nearer :
      (place : Place) (t : Thread)
      → IsEnding n t
      → t.place ≡ place
      → StepEnds
          (Nearer place)
          env
          (taken_at (suc depth) env log place t)
          (advance_at (suc depth) env log place t)
  unfolding advance_at wait_key
  advance_at-Nearer Place.at_end t h e = (h, subst (λ p. left p ≤ 0) (sym e) (omega arith))
  advance_at-Nearer Place.at_test t h e =
      subst
        (λ c.
          Nearer Place.at_test
            (record t { place = if c || t.interrupted then Place.at_end else Place.at_wait }))
        (sym h.stopped)
        (
          record { stopped = h.stopped; closed = h.closed; valid = h.valid; quiet = h.quiet },
          omega arith,
        )
  advance_at-Nearer Place.at_wait t h e =
      subst (λ c. Nearer Place.at_wait (waited (open_wait c t.has_timeout t.channel) t))
        (sym h.closed)
        (
          record { stopped = h.stopped; closed = h.closed; valid = h.valid; quiet = h.quiet },
          omega arith,
        )
  advance_at-Nearer (Place.at_round key_opt) t h e =
      rounded t key_opt (take_in (suc depth) env log key_opt t.mapper)
        (round (suc depth) env log key_opt t.mapper) h
        (round_total n env depth log key_opt t.mapper h.valid h.quiet)
        (round-Frame env (suc depth) log key_opt t.mapper)

  ended : (place : Place) → left place ≤ 0 → place ≡ Place.at_end
  ended Place.at_end h = refl
  ended Place.at_test h = absurd (omega (arith, h))
  ended (Place.at_round key_opt) h = absurd (omega (arith, h))
  ended Place.at_wait h = absurd (omega (arith, h))

  -- A step, and what comes behind it.
  stepped :
      (acts : List Act) (t : Thread) (r : Result Thread)
      → advance (suc depth) env log t ≡ r
      → StepEnds (Nearer t.place) env (taken_at (suc depth) env log t.place t) r
      → ((t' : Thread)
          → Nearer t.place t'
          → PlayEnds (suc depth) env log acts t' (play (suc depth) env log acts t'))
      → PlayEnds
          (suc depth)
          env
          log
          (Act.own ∷ acts)
          t
          (do t' ← r; play (suc depth) env log acts t')
  stepped acts t (fail too_deep) e s rest = absurd s
  stepped acts t (fail nullopt) e s rest = absurd s
  stepped acts t (fail (throws out_of_range)) e (m2, taken, refused) rest =
      Breaks.here acts t m2 taken refused
  stepped acts t (fail (throws x)) e s rest = absurd s
  stepped acts t (ok t') e s rest =
      after (suc depth) env log acts t t' (play (suc depth) env log acts t') e (rest t' s)

  play-ends :
      (acts : List Act) (t : Thread)
      → IsEnding n t
      → left t.place ≤ owns acts
      → PlayEnds (suc depth) env log acts t (play (suc depth) env log acts t)
  unfolding play advance send_key
  play-ends [] t h enough = ended t.place enough
  play-ends (Act.arrives e ∷ acts) t h enough = after_key (suc depth) env log e acts t _ (
      play-ends acts _
        (record { stopped = h.stopped; closed = h.closed; valid = h.valid; quiet = h.quiet })
        enough)
  play-ends (Act.own ∷ acts) t h enough =
      stepped acts t (advance (suc depth) env log t) refl (advance_at-Nearer t.place t h refl)
        (λ t' (h', nearer). play-ends acts t' h' (omega (arith, nearer, enough)))

  three_left : (place : Place) → left place ≤ 3
  three_left Place.at_end = omega arith
  three_left Place.at_test = omega arith
  three_left (Place.at_round key_opt) = omega arith
  three_left Place.at_wait = omega arith

  -- When `cleanShutdown` has stopped a valid mapper none of whose transitions puts out an event to
  -- process again, then wherever the mapper's thread is, even waiting for a key without a timeout, and
  -- whatever keys are still sent meanwhile, it returns from `start` after at most three more of its
  -- steps. No exception leaves it but one: when in a round that it still does an item is due that the
  -- daemon cannot send, the daemon's `out_of_range`.
  pub stop_ends :
      (t : Thread) (acts : List Act)
      → IsValid n t.mapper
      → NoReplay t.mapper
      → 3 ≤ owns acts
      → PlayEnds
          (suc depth)
          env
          log
          acts
          (ask_to_end true t)
          (play (suc depth) env log acts (ask_to_end true t))
  unfolding ask_to_end stop close
  stop_ends t acts v q enough =
      play-ends acts _
        (record {
          stopped = refl;
          closed = refl;
          valid = record {
            count = v.count;
            maps_count = v.maps_count;
            layers_count = v.layers_count;
            layer_lt = v.layer_lt;
            state_in = v.state_in;
            machines_fit = v.machines_fit;
            maps_fit = v.maps_fit;
          };
          quiet = q;
        })
        (omega (arith, three_left t.place, enough))
