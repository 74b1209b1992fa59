-- ===== src/Mapper/Profiles.antt =====
-- `set_profile` and the constructor (common/src/mapper.cpp): they establish the invariant of the
-- mapper, or change nothing.
use keybinder.Base.{
  ◌≡◌, refl, subst, Bool, true, false, [], none, length, get_elem?-of_lt, All, Result, ok, fail,
  nullopt, throws, too_deep, ◌>>=◌, Bool-cases, ◌⊎◌, inl, inr, arith,
}
use keybinder.Profile.{Profile}
use keybinder.Machine.{home_state_idx}
use keybinder.Machine.WellFormed.{InRange}
use keybinder.Mapper.{Environment, Mapper}
use keybinder.Mapper.Output.{set_layer_inner}
use keybinder.Mapper.Control.{Tables, build_tables, answer, install, set_profile}
use keybinder.Mapper.Valid.{home_in, MachineFits, MapFits, IsValid}
use keybinder.Mapper.Tables.{Decided, ProfileFits, TablesFit, build_tables-Fit}

-- The call answered `false` and left the mapper as it was, or `true` and left a valid mapper with the
-- profile's tables, in the home state of its default layer, with no timer running and the queue kept.
abbrev pub Installed : Profile → Mapper → Result (Mapper × Bool) → Type 0
Installed p m r =
    (r ≡ ok (m, false))
    ⊎ ((m' : Mapper) × (r ≡ ok (m', true))
        × IsValid (length p.layers) m'
        × (m'.profile ≡ p)
        × (m'.cur_layer_idx ≡ p.default_layer)
        × (m'.cur_state_idx ≡ home_state_idx)
        × (m'.current_timer ≡ none)
        × (m'.queued_events ≡ m.queued_events))

abbrev no_tables : Tables
no_tables = record { new_states = []; new_basic_maps = [] }

install-Installed :
    (env : Environment) (p : Profile) (m : Mapper) (t : Tables)
    → InRange env.memory
    → ProfileFits p
    → length t.new_states ≡ length p.layers
    → length t.new_basic_maps ≡ length p.layers
    → All (MachineFits (length p.layers)) t.new_states
    → All (MapFits (length p.layers)) t.new_basic_maps
    → Installed p m (answer m (install env p t m))
unfolding install set_layer_inner
install-Installed env p m t range h sc mc sf mf =
    let (layer, found) = get_elem?-of_lt p.layers p.default_layer h.default_lt in
    let placed = home_in (length p.layers) t.new_states p.default_layer (rw sc h.default_lt) sf in
    elim (Bool-cases env.has_callback) [
      | inr e ↦ rw e (
          inr (
            _,
            refl,
            record {
              count = sc;
              maps_count = mc;
              layers_count = refl;
              layer_lt = h.default_lt;
              state_in = placed;
              machines_fit = sf;
              maps_fit = mf;
            },
            refl,
            refl,
            refl,
            refl,
            refl,
          ))
      | inl e ↦
          rw (e, found)
            (inr (
              _,
              refl,
              record {
                count = sc;
                maps_count = mc;
                layers_count = refl;
                layer_lt = h.default_lt;
                state_in = placed;
                machines_fit = sf;
                maps_fit = mf;
              },
              refl,
              refl,
              refl,
              refl,
              refl,
            ))
    ]

Installed-after :
    (env : Environment) (p : Profile) (m : Mapper) (r : Result Tables) (range : InRange env.memory)
    → ProfileFits p
    → Decided (TablesFit (length p.layers) env range (length p.layers)) r
    → Installed p m (answer m (do t ← r; install env p t m))
Installed-after env p m (ok t) range h f =
    install-Installed env p m t range h f.states_count f.maps_count f.states_fit f.maps_fit
Installed-after env p m (fail nullopt) range h f = inl refl
Installed-after env p m (fail too_deep) range h f = absurd f
Installed-after env p m (fail (throws e)) range h f = absurd f

-- If unwritten memory happens to hold indices of the machine, then for a profile whose default layer and
-- layer switches name layers that exist, and whose sequences have no wait first or behind another wait,
-- `set_profile` never throws. It answers `false` and
-- changes nothing, or answers `true` with a valid mapper that holds the profile, in the home state of
-- its default layer, with no timer running and the queue as it was.
pub set_profile-Installed :
    (env : Environment) (p : Profile) (m : Mapper)
    → InRange env.memory
    → ProfileFits p
    → Installed p m (set_profile env p m)
unfolding set_profile
set_profile-Installed env p m range h =
    Installed-after env p m (build_tables env p.layers no_tables) range h (
      subst
        (λ j.
          Decided (TablesFit (length p.layers) env range j) (build_tables env p.layers no_tables))
        (omega arith)
        (build_tables-Fit (length p.layers) env range p.layers 0 no_tables h.layers_fit
          (record { states_count = refl; maps_count = refl; states_fit = tt; maps_fit = tt })))
