-- ===== src/System/Starting.antt =====
-- How the program comes up with a profile (common/src/main.cpp, the constructor of
-- common/src/mapper.cpp).
use keybinder.Base.{
  ℕ, ◌≡◌, refl, ap, ◌⊎◌, inl, inr, Bool, false, Option, none, some, length, Result, ok, fail,
  throws, out_of_range, Returns, arith,
}
use keybinder.Machine.WellFormed.{InRange}
use keybinder.Profile.{Profile}
use keybinder.ReadProfile.{default_profile, load_latest}
use keybinder.ReadProfile as ReadProfile
use keybinder.ReadProfile.Access.{Fields}
use keybinder.Event.{InputEvent}
use keybinder.Mapper.{Environment, Mapper}
use keybinder.Mapper.Control.{initial, new_mapper, set_profile}
use keybinder.Mapper.Process.{current_state, round}
use keybinder.Mapper.Tables.{ProfileFits}
use keybinder.Mapper.Profiles.{set_profile-Installed}
use keybinder.Server.Answers.{IsSound}
use keybinder.System.{Start, from_latest, choose_profile}

default_profile-Fits : ProfileFits default_profile
default_profile-Fits = record {
  default_lt = omega arith;
  layers_fit = (record { basic_fit = tt; sequences_fit = tt; sequences_paced = tt }, tt);
}

-- The mapper is valid, or `set_profile` has rejected the profile and every round of the mapper's loop
-- throws.
abbrev pub UpOrDown : Environment → Profile → Result Mapper → Type 0
UpOrDown env p r =
    Returns IsSound r
    ⊎ ((m : Mapper) × (r ≡ ok m)
        × (set_profile env p (initial p) ≡ ok (m, false))
        × ((depth : ℕ) (log : Bool) (key_opt : Option InputEvent)
            → round depth env log key_opt m ≡ fail (throws out_of_range)))

new_mapper-UpOrDown :
    (env : Environment) (p : Profile)
    → InRange env.memory
    → ProfileFits p
    → UpOrDown env p (new_mapper env p)
unfolding new_mapper round current_state
new_mapper-UpOrDown env p range h = elim (set_profile-Installed env p (initial p) range h) [
  | inl same ↦ rw same (inr (initial p, refl, refl, λ depth log key_opt. refl))
  | inr (m', installed, valid, kept, layer, state, timer, queue) ↦
      rw installed (inl (length p.layers, valid))
]

latest-Fits :
    (r : Result (Option (Profile × Fields)))
    → ((p : Profile) (saved : Fields) → r ≡ ok (some (p, saved)) → ProfileFits p)
    → (p : Profile) × (from_latest r ≡ Start.starts p) × ProfileFits p
latest-Fits (ok none) h = (default_profile, refl, default_profile-Fits)
latest-Fits (ok (some (p, saved))) h = (p, refl, h p saved refl)
latest-Fits (fail e) h = (default_profile, refl, default_profile-Fits)

-- If unwritten memory happens to hold indices of the machine: without an argument, whatever the file of
-- the latest profile holds and whatever reading it throws, `main` has a profile to start with, as long
-- as one that can be read has a default layer and layer switches that exist, and sequences with no
-- wait first or behind another wait. The constructor then makes a valid mapper, or `set_profile` has
-- answered `false` and every round of the mapper's loop throws `out_of_range`.
pub start_without_argument :
    (env : Environment) (files : ReadProfile.Outside)
    → InRange env.memory
    → ((p : Profile) (saved : Fields) → load_latest files ≡ ok (some (p, saved)) → ProfileFits p)
    → (p : Profile) × (choose_profile files none ≡ ok (Start.starts p))
      × UpOrDown env p (new_mapper env p)
unfolding choose_profile
start_without_argument env files range h =
    let (p, chosen, fits) = latest-Fits (load_latest files) h in
    (p, ap (λ (s : Start). ok s) chosen, new_mapper-UpOrDown env p range fits)
