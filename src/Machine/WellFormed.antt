-- ===== src/Machine/WellFormed.antt =====
-- The machines of `generate_states` (common/src/state_machine.cpp) stay inside their own states.
pub mod Branches
pub mod Generated
use keybinder.Base.{
  ℕ, suc, ◌+◌, ◌≤◌, ◌<◌, ◌≡◌, refl, Bool, true, false, List, [], ◌∷◌, ◌++◌, map, Option, none, some,
  length, get_elem?, set, All, All-append, All-set, All-get_elem?, length-append, length-set,
  get_elem?-of_lt, Result, ok, fail, nullopt, throws, too_deep, out_of_range, bad_optional_access,
  invalid_argument, index_assert, ◌>>=◌, or_fail, at, arith, if◌then◌else◌,
}
use keybinder.QtText.{QtText}
use keybinder.Event.{InputEvent, input_eq}
use keybinder.Machine.{Transition, State, find, put}
use keybinder.Machine.Build.{Memory, Building, Iteration, StateMetadata}

abbrev pub Target : ℕ → Transition → Type 0
Target n t = t.new_state < n

abbrev pub TimerTarget : ℕ → Option Transition → Type 0
TimerTarget n none = Unit
TimerTarget n (some t) = Target n t

abbrev pub EdgeTarget : ℕ → InputEvent × Transition → Type 0
EdgeTarget n e = Target n e.1

-- Every transition of a state leads to one of `n` states.
pub record StateOk (n : ℕ) (s : State) : Type 0 where
  pub edges_ok : All (EdgeTarget n) s.edges
  pub fallback_ok : Target n s.fallback_transition
  pub timer_ok : TimerTarget n s.timer_transition

pub record IsWellFormed (machine : List State) : Type 0 where
  pub has_home : 0 < length machine
  pub states_ok : All (StateOk (length machine)) machine

-- The two vectors of the construction have one length.
pub record IsSound (b : Building) : Type 0 where
  pub has_home : 0 < length b.states
  pub states_ok : All (StateOk (length b.states)) b.states
  pub metadata_ok : length b.state_metadata ≡ length b.states

-- Unwritten memory happens to hold an index of the machine at each read.
pub record InRange (memory : Memory) : Type 0 where
  pub next_lt : (xs : List State) → 0 < length xs → memory.next_state_idx xs < length xs
  pub fallback_le : (xs : List State) → memory.fallback_state xs ≤ length xs

edges_mono :
    {n m : ℕ} (es : List (InputEvent × Transition))
    → n ≤ m
    → All (EdgeTarget n) es
    → All (EdgeTarget m) es
edges_mono [] h a = tt
edges_mono (e ∷ es) h a = (omega arith, edges_mono es h a.1)

timer_mono : {n m : ℕ} (o : Option Transition) → n ≤ m → TimerTarget n o → TimerTarget m o
timer_mono none h a = tt
timer_mono (some t) h a = omega arith

pub StateOk-mono : {n m : ℕ} (s : State) → n ≤ m → StateOk n s → StateOk m s
StateOk-mono s h a = record {
  edges_ok = edges_mono s.edges h a.edges_ok;
  fallback_ok = omega arith;
  timer_ok = timer_mono s.timer_transition h a.timer_ok;
}

pub states_mono : {n m : ℕ} (ss : List State) → n ≤ m → All (StateOk n) ss → All (StateOk m) ss
states_mono [] h a = tt
states_mono (s ∷ ss) h a = (StateOk-mono s h a.0, states_mono ss h a.1)

pub put-Target :
    {n : ℕ} (qt : QtText) (e : InputEvent) (t : Transition) (es : List (InputEvent × Transition))
    → Target n t
    → All (EdgeTarget n) es
    → All (EdgeTarget n) (put qt e t es)
unfolding put
put-Target qt e t [] h a = (h, tt)
put-Target {n} qt e t (k ∷ es) h a = ground (arith, put-Target {n = n} qt e t es)

pub find-Target :
    {n : ℕ} (qt : QtText) (e : InputEvent) {t : Transition} (es : List (InputEvent × Transition))
    → find qt e es ≡ some t
    → All (EdgeTarget n) es
    → Target n t
unfolding find
find-Target qt e [] h a = cc
find-Target {n} qt e {t} (k ∷ es) h a = ground (arith, find-Target {n = n} qt e {t = t} es)
