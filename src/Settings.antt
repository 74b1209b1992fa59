-- ===== src/Settings.antt =====
-- common/src/settings.cpp: the settings and the file that keeps them. The lock makes each access one
-- step.
pub mod Kept
use keybinder.Base.{String, Bool, true, false, Option, none, some}
use keybinder.ReadProfile.Access.{Json, Fields, field}

-- The member, and the file: absent or unreadable, or the document that stands in it.
pub record Settings : Type 0 where
  pub log_key_frequency : Bool
  pub file : Option Json

abbrev pub to_json : Settings → Fields
to_json s = Fields.member "log_key_frequency" (Json.boolean s.log_key_frequency) Fields.empty

-- `can_open` is the answer of QFile::open.
abbrev pub save : Bool → Json → Settings → Settings
save true doc s = record s { file = some doc }
save false doc s = s

-- `contains`, `isBool` and `toBool`.
abbrev pub read_flag : Option Json → Settings → Settings × Bool
read_flag (some (Json.boolean b)) s = (record s { log_key_frequency = b }, true)
read_flag _ s = (s, false)

-- The settings are saved whether the object was read or not. `settings_changed` is emitted in any case,
-- and the client of this function acts on it.
unfoldable pub load_from_json : Bool → Fields → Settings → Settings × Bool
unfolding field
load_from_json can_open obj s =
    let (read, successful) = read_flag (field obj "log_key_frequency") s in
    (save can_open (Json.object (to_json read)) read, successful)

abbrev pub load_document : Bool → Option Json → Settings → Settings
load_document can_open (some (Json.object obj)) s = (load_from_json can_open obj s).0
load_document can_open _ s = s

unfoldable pub load : Bool → Settings → Settings
unfolding load_from_json
load can_open s = load_document can_open s.file s

-- The constructor.
unfoldable pub new_settings : Bool → Option Json → Settings
unfolding load
new_settings can_open file = load can_open (record { log_key_frequency = false; file = file })

unfoldable pub get_log_key_frequency : Settings → Bool
get_log_key_frequency s = s.log_key_frequency
