-- ===== src/Mapper/Valid.antt =====
-- The invariant under which the mapper (common/src/mapper.cpp) indexes its vectors: the current layer
-- and state exist, the tables belong to the profile's layers, and every layer that a bind switches to
-- exists.
use keybinder.Base.{
  ℕ, ◌<◌, ◌≡◌, List, [], ◌∷◌, none, some, length, get_elem?, get_elem?-of_lt, All, All-get_elem?,
  Result, ok, fail, too_deep, ◌>>=◌, at, Bool-cases, inl, inr, arith,
}
use keybinder.Profile.{Bind}
use keybinder.Event.{InputEvent, OutputEvent}
use keybinder.Machine.{home_state_idx, StateMachineOutputEvent, State}
use keybinder.Machine.WellFormed.{IsWellFormed}
use keybinder.Machine.Outputs.{StateAll}
use keybinder.Mapper.{Environment, Mapper}
use keybinder.Mapper.Output.{set_layer_inner, queue_output, queue_bind, queue_from, queue_binds}

-- A bind switches only to one of `n` layers.
abbrev pub BindFits : ℕ → Bind → Type 0
BindFits n (Bind.swap_layer k) = k < n
BindFits n _ = Unit

abbrev pub OutputFits : ℕ → StateMachineOutputEvent → Type 0
OutputFits n (StateMachineOutputEvent.bind b) = BindFits n b
OutputFits n _ = Unit

pub record MachineFits (n : ℕ) (machine : List State) : Type 0 where
  pub well_formed : IsWellFormed machine
  pub outputs_fit : All (StateAll (OutputFits n)) machine

abbrev pub MapFits : ℕ → List (InputEvent × List Bind) → Type 0
MapFits n basic_map = All (λ e. All (BindFits n) e.1) basic_map

-- The state `s` of the machine of layer `l`.
abbrev pub StateIn : List (List State) → ℕ → ℕ → Type 0
StateIn states l s = elim (get_elem? states l) [ none ↦ ⊥ | some machine ↦ s < length machine ]

pub record IsValid (n : ℕ) (m : Mapper) : Type 0 where
  pub count : length m.states ≡ n
  pub maps_count : length m.basic_maps ≡ n
  pub layers_count : length m.profile.layers ≡ n
  pub layer_lt : m.cur_layer_idx < n
  pub state_in : StateIn m.states m.cur_layer_idx m.cur_state_idx
  pub machines_fit : All (MachineFits n) m.states
  pub maps_fit : All (MapFits n) m.basic_maps

-- A value with `Q`, or calls nested deeper than the model's fuel: never an exception.
abbrev pub Safe {ℓ} : {A : Type ℓ} → (A → Type 0) → Result A → Type 0
Safe Q (ok a) = Q a
Safe Q (fail too_deep) = Unit
Safe Q (fail _) = ⊥

pub Safe-bind {ℓ κ} :
    {A : Type ℓ} {B : Type κ} (R : A → Type 0) (Q : B → Type 0) (m : Result A) (f : A → Result B)
    → Safe R m
    → ((a : A) → R a → Safe Q (f a))
    → Safe Q (m >>= f)
Safe-bind R Q (ok a) f h k = k a h
Safe-bind R Q (fail too_deep) f h k = tt
Safe-bind R Q (fail _) f h k = h

pub at-Safe {ℓ} :
    {A : Type ℓ} (P : A → Type 0) (xs : List A) (i : ℕ)
    → i < length xs
    → All P xs
    → Safe P (at xs i)
at-Safe P xs i h a = let (x, e) = get_elem?-of_lt xs i h in rw e (All-get_elem? P xs i e a)

module _ (n : ℕ) where
  pub home_in :
      (states : List (List State)) (l : ℕ)
      → l < length states
      → All (MachineFits n) states
      → StateIn states l home_state_idx
  home_in states l h a =
      let (machine, e) = get_elem?-of_lt states l h in
      rw (e, StateIn) (All-get_elem? (MachineFits n) states l e a).well_formed.has_home

  moved :
      (m : Mapper) (l : ℕ)
      → l < n
      → IsValid n m
      → IsValid n
          (record m { cur_layer_idx = l; cur_state_idx = home_state_idx; current_timer = none })
  moved m l h v = record {
    count = v.count;
    maps_count = v.maps_count;
    layers_count = v.layers_count;
    layer_lt = h;
    state_in = home_in m.states l (omega (arith, v.count)) v.machines_fit;
    machines_fit = v.machines_fit;
    maps_fit = v.maps_fit;
  }

  pub set_layer_inner-Safe :
      (env : Environment) (l : ℕ) (m : Mapper)
      → l < n
      → IsValid n m
      → Safe (IsValid n) (set_layer_inner env l m)
  unfolding set_layer_inner
  set_layer_inner-Safe env l m h v = elim (Bool-cases env.has_callback) [
    | inr e ↦ rw e (moved m l h v)
    | inl e ↦
        let (layer, found) = get_elem?-of_lt m.profile.layers l (omega (arith, v.layers_count)) in
        let w = moved m l h v in
        rw (e, found)
          (record {
            count = w.count;
            maps_count = w.maps_count;
            layers_count = w.layers_count;
            layer_lt = w.layer_lt;
            state_in = w.state_in;
            machines_fit = w.machines_fit;
            maps_fit = w.maps_fit;
          })
  ]

  pub queue_output-IsValid :
      (env : Environment) (e : OutputEvent) (d : ℕ) (m : Mapper)
      → IsValid n m
      → IsValid n (queue_output env e d m)
  unfolding queue_output
  queue_output-IsValid env e d m v = record {
    count = v.count;
    maps_count = v.maps_count;
    layers_count = v.layers_count;
    layer_lt = v.layer_lt;
    state_in = v.state_in;
    machines_fit = v.machines_fit;
    maps_fit = v.maps_fit;
  }

  queue_bind-Safe :
      (env : Environment) (b : Bind) (d : ℕ) (m : Mapper)
      → BindFits n b
      → IsValid n m
      → Safe (λ p. IsValid n p.1) (queue_bind env b d m)
  unfolding queue_bind
  queue_bind-Safe env (Bind.press_key code) d m h v = queue_output-IsValid env _ d m v
  queue_bind-Safe env (Bind.release_key code) d m h v = queue_output-IsValid env _ d m v
  queue_bind-Safe env (Bind.swap_layer l) d m h v =
      Safe-bind (IsValid n) (λ p. IsValid n p.1) (set_layer_inner env l m) _
        (set_layer_inner-Safe env l m h v) (λ m' v'. v')
  queue_bind-Safe env (Bind.wait ms) d m h v = v
  queue_bind-Safe env (Bind.run_script s) d m h v = queue_output-IsValid env _ d m v

  pub queue_from-Safe :
      (env : Environment) (binds : List Bind) (d : ℕ) (m : Mapper)
      → All (BindFits n) binds
      → IsValid n m
      → Safe (IsValid n) (queue_from env binds d m)
  unfolding queue_from
  queue_from-Safe env [] d m h v = v
  queue_from-Safe env (b ∷ rest) d m h v =
      Safe-bind (λ p. IsValid n p.1) (IsValid n) (queue_bind env b d m) _
        (queue_bind-Safe env b d m h.0 v) (λ p w. queue_from-Safe env rest p.0 p.1 h.1 w)

  pub queue_binds-Safe :
      (env : Environment) (binds : List Bind) (m : Mapper)
      → All (BindFits n) binds
      → IsValid n m
      → Safe (IsValid n) (queue_binds env binds m)
  unfolding queue_binds
  queue_binds-Safe env binds m h v = queue_from-Safe env binds 0 m h v
