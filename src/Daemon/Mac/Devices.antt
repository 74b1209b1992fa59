-- ===== src/Daemon/Mac/Devices.antt =====
-- Which keyboards `start` of mac/src/daemon.cpp takes over: those whose product name CFStringFind does not
-- find, without regard to case, in "Karabiner".
use Prim.Native.String.{String, [], ◌∷◌}
use mathlib.Core.List.{List, [] as []ᴸ, ◌∷◌ as ◌∷ᴸ◌, ◌++◌}
use keybinder.Base.{
  ℕ, suc, ◌<◌, ◌≡◌, refl, ap, Bool, true, false, Option, none, some, Bool-cases, inl, inr,
  if◌then◌else◌,
}

abbrev pub length : String → ℕ
length [] = 0
length (c ∷ s) = suc (length s)

-- CFStringFind: whether the second text stands in the first. What is longer than a text is not in it.
pub record Finder : Type 0 where
  pub finds : String → String → Bool
  pub too_long : (text part : String) → length text < length part → finds text part ≡ false

abbrev karabiner : String
karabiner = "Karabiner"

module _ (finder : Finder) where
  -- `continue`; a device may have no product name.
  abbrev pub is_skipped : Option String → Bool
  is_skipped none = true
  is_skipped (some device_key) = finder.finds karabiner device_key

  -- The devices that are opened for the daemon alone, in order.
  unfoldable pub seized : List (Option String) → List (Option String)
  seized []ᴸ = []ᴸ
  seized (device_key ∷ᴸ rest) =
      let later = seized rest in if is_skipped device_key then later else device_key ∷ᴸ later

  -- The comparison is the wrong way round: a keyboard whose product name is longer than "Karabiner" is
  -- taken over wherever it comes among the devices, also if the name begins with "Karabiner", as that
  -- of the virtual keyboard does to which the daemon sends its outputs.
  pub long_names_seized :
      (before after : List (Option String)) (name : String)
      → 9 < length name
      → seized (before ++ some name ∷ᴸ after) ≡ seized before ++ some name ∷ᴸ seized after
  unfolding seized
  long_names_seized []ᴸ after name long = rw (finder.too_long karabiner name long) refl
  long_names_seized (none ∷ᴸ before) after name long = long_names_seized before after name long
  long_names_seized (some d ∷ᴸ before) after name long =
      elim (Bool-cases (finder.finds karabiner d)) [
        | inl skipped ↦ rw skipped (long_names_seized before after name long)
        | inr taken ↦ rw taken (
            ap (λ (ds : List (Option String)). some d ∷ᴸ ds)
              (long_names_seized before after name long))
      ]
