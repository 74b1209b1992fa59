-- ===== src/Tests/Devices.antt =====
-- The theorems about the configuration file and the log at the test data.
use Prim.Native.String.append
use Prim.Native.String.{String, [], ◌∷◌, ◌++◌ as joined}
use mathlib.Core.List.{List, [] as []ᴸ, ◌∷◌ as ◌∷ᴸ◌}
use keybinder.Base.{◌≡◌, refl, ap, ◌∙◌, true, str_eq, some, arith}
use keybinder.Devices.{LineText, ConfigFile, record_eventx}
use keybinder.Devices.Config.{Recorded, record_eventx-Recorded}
use keybinder.Logger.{Sorting, FileSystem, Logs, among, log_message, backup_file_path}
use keybinder.Logger.Bounds.{Bounded, log_message_bounds}
use keybinder.QtText.{str_eq_self}

-- As much of a text as another is long, and what stands behind it.
abbrev pub front : String → String → String
front [] s = []
front (k ∷ ks) [] = []
front (k ∷ ks) (c ∷ s) = c ∷ front ks s

abbrev pub back : String → String → String
back [] s = s
back (k ∷ ks) [] = []
back (k ∷ ks) (c ∷ s) = back ks s

pub front-joined : (p t : String) → front p (joined p t) ≡ p
front-joined [] t = refl
front-joined (k ∷ ks) t =
    ap (λ s. front (k ∷ ks) s) (append.cons k ks t) ∙ ap (λ (s : String). k ∷ s) (front-joined ks t)

pub back-joined : (p t : String) → back p (joined p t) ≡ t
back-joined [] t = append.nil t
back-joined (k ∷ ks) t = ap (λ s. back (k ∷ ks) s) (append.cons k ks t) ∙ back-joined ks t

-- Lines that begin with the word.
abbrev pub beginnings : LineText
beginnings = record {
  names_keyboard = λ line. str_eq (front "keyboard=" line) "keyboard=";
  behind_equals = λ line. back "keyboard=" line;
  names_own = λ path.
      ap (λ s. str_eq s "keyboard=") (front-joined "keyboard=" path) ∙ str_eq_self "keyboard=";
  behind_own = λ path. back-joined "keyboard=" path;
}

abbrev config : ConfigFile
config = some ("theme=dark" ∷ᴸ "keyboard=/dev/input/event3" ∷ᴸ []ᴸ)

record_eventx-Recorded_example :
    Recorded beginnings "/dev/input/event7" config
      (record_eventx beginnings true true "/dev/input/event7" config)
record_eventx-Recorded_example =
    record_eventx-Recorded beginnings true true "/dev/input/event7" config

among-first : (x : String) (xs : List String) → among x (x ∷ᴸ xs) ≡ true
among-first x xs = ground (arith, str_eq_self x)

abbrev as_listed : Sorting
as_listed = record { first = λ x xs. x; is_among = among-first }

abbrev full_logs : Logs
full_logs = record { size = 10485761; backups = "a" ∷ᴸ "b" ∷ᴸ "c" ∷ᴸ "d" ∷ᴸ "e" ∷ᴸ []ᴸ }

abbrev works : FileSystem
works = record { can_remove = true; can_rename = true }

log_message_bounds_example :
    Bounded works
      (backup_file_path "now")
      80
      full_logs
      (log_message works as_listed "now" 80 full_logs)
log_message_bounds_example = log_message_bounds works as_listed "now" 80 full_logs (omega arith)
