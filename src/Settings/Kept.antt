-- ===== src/Settings/Kept.antt =====
-- What of the settings (common/src/settings.cpp) outlives the process.
use keybinder.Base.{◌≡◌, refl, Bool, true, false, Option, none, some}
use keybinder.ReadProfile.Access.{Json, Fields, field}
use keybinder.Settings.{
  Settings, to_json, save, read_flag, load_from_json, load, new_settings, get_log_key_frequency,
}

-- A boolean in the object is taken over; an object without one changes no setting, and the answer says
-- which it was.
abbrev pub Taken : Option Json → Settings → Settings × Bool → Type 0
Taken (some (Json.boolean b)) before (after, answer) =
    (get_log_key_frequency after ≡ b) × (answer ≡ true)
Taken _ before (after, answer) =
    (get_log_key_frequency after ≡ get_log_key_frequency before) × (answer ≡ false)

save-flag :
    (can_open : Bool) (doc : Json) (s : Settings)
    → (save can_open doc s).log_key_frequency ≡ s.log_key_frequency
save-flag true doc s = refl
save-flag false doc s = refl

read_flag-Taken :
    (can_open : Bool) (o : Option Json) (s : Settings)
    → Taken o s (
        let (read, successful) = read_flag o s in
        (save can_open (Json.object (to_json read)) read, successful))
unfolding get_log_key_frequency
read_flag-Taken can_open none s = (save-flag can_open _ s, refl)
read_flag-Taken can_open (some (Json.boolean b)) s = (save-flag can_open _ _, refl)
read_flag-Taken can_open (some (Json.null)) s = (save-flag can_open _ s, refl)
read_flag-Taken can_open (some (Json.number n)) s = (save-flag can_open _ s, refl)
read_flag-Taken can_open (some (Json.text t)) s = (save-flag can_open _ s, refl)
read_flag-Taken can_open (some (Json.array xs)) s = (save-flag can_open _ s, refl)
read_flag-Taken can_open (some (Json.object obj)) s = (save-flag can_open _ s, refl)

-- `load_from_json` takes over a boolean `log_key_frequency` and answers `true`; without one it keeps
-- the setting and answers `false`. If the file can be opened, the next process starts with the setting
-- that is then in force, in both cases.
pub settings_survive :
    (can_open : Bool) (obj : Fields) (s : Settings)
    → Taken (field obj "log_key_frequency") s (load_from_json can_open obj s)
      × (get_log_key_frequency (new_settings can_open (load_from_json true obj s).0.file)
          ≡ get_log_key_frequency (load_from_json true obj s).0)
unfolding load_from_json new_settings load field get_log_key_frequency
settings_survive true obj s = (read_flag-Taken true (field obj "log_key_frequency") s, refl)
settings_survive false obj s = (read_flag-Taken false (field obj "log_key_frequency") s, refl)
