-- ===== src/System/Sound.antt =====
-- In every state that the program reaches, what can happen next.
use keybinder.Base.{
  true, false, ℕ, ◌≡◌, sym, ◌∙◌, subst, Bool, List, Option, Result, ok, fail, too_deep, nullopt,
  throws, out_of_range,
}
use keybinder.Machine.WellFormed.{InRange}
use keybinder.Event.{InputEvent}
use keybinder.Mapper.{Environment, Mapper}
use keybinder.Mapper.Valid.{IsValid}
use keybinder.Mapper.Process.{take_in, round}
use keybinder.Mapper.Rounds.{RoundEnds, round-Safe}
use keybinder.Server.{Outside, Shared, handle_line}
use keybinder.Server.Answers.{
  IsSound, pause-IsSound, resume-IsSound, Served, Answers, LineFits, handle_line-Served,
}
use keybinder.System.{System, clicked, Step, Reaches}

round_ok :
    (n : ℕ) (env : Environment) (taken r : Result Mapper) (m : Mapper)
    → RoundEnds (IsValid n) (Unit {0}) env taken r
    → r ≡ ok m
    → IsValid n m
round_ok n env taken r m h e = subst (RoundEnds (IsValid n) (Unit {0}) env taken) e h

Answers-ok : (s t : Shared) (r : Result Shared) → Answers s r → r ≡ ok t → Served s t
Answers-ok s t r (Answers.answered s' e h) e' =
    let same : s' ≡ t = cc (sym e ∙ e') in subst (Served s) same h

clicked-IsSound :
    (pauses : Bool) (s : System)
    → IsSound s.shared.mapper
    → IsSound (clicked pauses s).shared.mapper
clicked-IsSound true s v = pause-IsSound s.shared.mapper v
clicked-IsSound false s v = resume-IsSound s.shared.mapper v

module _ (env : Environment) (range : InRange env.memory) (out : Outside) where
  step-IsSound :
      (s t : System) → Step env out s t → IsSound s.shared.mapper → IsSound t.shared.mapper
  step-IsSound _ _ (Step.key_arrives e s) v = v
  step-IsSound _ _
        (Step.mapper_round depth has_timeout key_opt channel m new c s got ran grown counted)
        (n, v) =
      (n, round_ok n env _ _ m (round-Safe n env depth _ key_opt s.shared.mapper v) ran)
  step-IsSound _ _ (Step.line_arrives line shared s fits ran) v =
      (Answers-ok s.shared shared _ (handle_line-Served env range out line s.shared v fits) ran).0
  step-IsSound _ _ (Step.tray_clicked s) v = clicked-IsSound s.tray_pauses s v
  step-IsSound _ _ (Step.counter_saved can_open s) v = v

  reached-IsSound :
      (s t : System) → Reaches env out s t → IsSound s.shared.mapper → IsSound t.shared.mapper
  reached-IsSound _ _ (Reaches.here s) v = v
  reached-IsSound _ _ (Reaches.next s t u step rest) v =
      reached-IsSound t u rest (step-IsSound s t step v)

-- What may happen in a state: a line from a client is answered, and a round of the mapper leaves a
-- valid mapper, or nests deeper than the fuel, or ends by the daemon's `out_of_range` for a due item
-- that it cannot send.
pub record Unharmed (env : Environment) (out : Outside) (s : System) : Type 0 where
  pub sound : IsSound s.shared.mapper
  pub lines_answered :
      (line : List ℕ) → LineFits out line → Answers s.shared (handle_line env out line s.shared)
  pub rounds_end :
      (depth : ℕ) (log : Bool) (key_opt : Option InputEvent)
      → RoundEnds IsSound
          (Unit {0})
          env
          (take_in depth env log key_opt s.shared.mapper)
          (round depth env log key_opt s.shared.mapper)

weakened :
    (n : ℕ) (env : Environment) (taken r : Result Mapper)
    → RoundEnds (IsValid n) (Unit {0}) env taken r
    → RoundEnds IsSound (Unit {0}) env taken r
weakened n env taken (ok m) h = (n, h)
weakened n env taken (fail too_deep) h = tt
weakened n env taken (fail nullopt) h = h
weakened n env taken (fail (throws out_of_range)) h = h
weakened n env taken (fail (throws e)) h = absurd h

-- If unwritten memory happens to hold indices of the machine: in every state that the program reaches
-- from one whose mapper is valid, by keys, rounds of the mapper that return, lines of clients, the tray
-- and the counter's timer in any order, the mapper is valid. There every next line is answered, as long
-- as the profiles that clients send have a default layer and layer switches that exist, and sequences
-- with no wait first or behind another wait. Every next round leaves a valid mapper or nests deeper
-- than the fuel; only the daemon's `out_of_range` leaves it otherwise, and then a due item holds an
-- event that the daemon cannot send.
pub reached-Unharmed :
    (env : Environment) (out : Outside) (s t : System)
    → InRange env.memory
    → IsSound s.shared.mapper
    → Reaches env out s t
    → Unharmed env out t
reached-Unharmed env out s t range v reached =
    let (n, valid) = reached-IsSound env range out s t reached v in
    record {
      sound = (n, valid);
      lines_answered = λ line fits. handle_line-Served env range out line t.shared (n, valid) fits;
      rounds_end = λ depth log key_opt.
          weakened n env (take_in depth env log key_opt t.shared.mapper) _
            (round-Safe n env depth log key_opt t.shared.mapper valid);
    }
