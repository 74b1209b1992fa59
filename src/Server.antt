-- ===== src/Server.antt =====
-- common/src/local_server.cpp: one client's connection, with the calls that its messages lead to and
-- that common/src/main.cpp connects to its signals. Sockets, the listening server and its file are
-- Qt's.
pub mod Framing
pub mod Answers
use Prim.Native.String.{◌++◌ as joined}
use keybinder.Base.{
  ℕ, zero, suc, ◌==◌, String, str_eq, Bool, true, false, List, [], ◌∷◌, ◌++◌, Option, none, some,
  length, Result, ok, fail, throws, invalid_argument, too_deep, ◌>>=◌, if◌then◌else◌,
}
use keybinder.ReadProfile.{profile_from_json}
use keybinder.ReadProfile.Access.{Json, Fields, field}
use keybinder.Mapper.{Environment, Mapper}
use keybinder.Mapper.Control.{set_profile, pause, resume}
use keybinder.KeyCounter.{KeyCounter, clear, to_json}
use keybinder.Settings.{Settings, load_from_json, get_log_key_frequency}

-- What stands outside: `QJsonDocument::fromJson`, which gives nothing for an error, and the answers of
-- QFile::open for the settings and for the counts, behind so many responses.
pub record Outside : Type 0 where
  pub document : List ℕ → Option Json
  pub opens_settings : ℕ → Bool
  pub opens_counts : ℕ → Bool

-- The objects that the connections share, and the responses written to the socket, oldest first.
pub record Shared : Type 0 where
  pub mapper : Mapper
  pub settings : Settings
  pub key_counter : KeyCounter
  pub responses : List Fields

-- `obj[key] = value`
unfoldable pub set_field : String → Json → Fields → Fields
set_field key j Fields.empty = Fields.member key j Fields.empty
set_field key j (Fields.member k old rest) =
    if str_eq k key then Fields.member k j rest else Fields.member k old (set_field key j rest)

unfoldable pub response : String → String → Fields → Fields
unfolding set_field
response status error rest =
    let resp = set_field "status" (Json.text status) rest in
    if str_eq status "fail" then set_field "error" (Json.text error) resp else resp

unfoldable pub send_response : String → String → Fields → Shared → Shared
send_response status error rest s = record s {
  responses = s.responses ++ response status error rest ∷ [];
}

-- `toObject` and `toString` of a value, with Qt's values for another kind or a missing one.
abbrev pub to_object : Option Json → Fields
to_object (some (Json.object obj)) = obj
to_object _ = Fields.empty

abbrev pub to_string : Option Json → String
to_string (some (Json.text t)) = t
to_string _ = ""

-- The handler of `std::invalid_argument`; no other exception is caught.
abbrev pub loaded : Shared → Result Mapper → Result Shared
loaded s (ok m) = ok (send_response "ok" "" Fields.empty (record s { mapper = m }))
loaded s (fail (throws (invalid_argument what))) = ok (send_response "fail" what Fields.empty s)
loaded s (fail e) = fail e

-- The answer of `set_profile` is not read.
unfoldable pub load_profile : Environment → Fields → Shared → Result Shared
unfolding profile_from_json set_profile
load_profile env obj s =
    loaded s (do read ← profile_from_json obj; set ← set_profile env read.0 s.mapper; ok set.0)

-- What common/src/main.cpp connects to `settings_changed`.
unfoldable pub on_settings_changed : Bool → Shared → Shared
unfolding get_log_key_frequency clear
on_settings_changed can_open s =
    if get_log_key_frequency s.settings
    then s
    else record s { key_counter = clear can_open s.key_counter }

unfoldable pub set_settings : Outside → Fields → Shared → Shared
unfolding load_from_json on_settings_changed
set_settings out obj s =
    let (settings, successful) =
      load_from_json (out.opens_settings (length s.responses)) obj s.settings in
    let changed =
      on_settings_changed (out.opens_counts (length s.responses))
        (record s { settings = settings }) in
    if successful
    then send_response "ok" "" Fields.empty changed
    else send_response "fail" "invalid settings JSON" Fields.empty changed

abbrev pub get_frequencies : Shared → Shared
get_frequencies s =
    send_response "success" ""
      (Fields.member "frequencies" (Json.object (to_json s.key_counter.counts)) Fields.empty) s

unfoldable pub handle_object : Environment → Outside → Fields → Shared → Result Shared
unfolding field send_response load_profile set_settings pause resume
handle_object env out obj s =
    let msg_type = to_string (field obj "type") in
    if str_eq msg_type "load_profile"
    then load_profile env (to_object (field obj "profile")) s
    else if str_eq msg_type "set_settings"
    then ok (set_settings out (to_object (field obj "settings")) s)
    else if str_eq msg_type "get_frequencies"
    then ok (get_frequencies s)
    else if str_eq msg_type "pause"
    then ok (send_response "success" "" Fields.empty (record s { mapper = pause s.mapper }))
    else if str_eq msg_type "resume"
    then ok (send_response "success" "" Fields.empty (record s { mapper = resume s.mapper }))
    else ok (send_response "fail" (joined "unknown message_type: " msg_type) Fields.empty s)

abbrev pub handle_document : Environment → Outside → Option Json → Shared → Result Shared
handle_document env out (some (Json.object obj)) s = handle_object env out obj s
handle_document env out _ s = ok (send_response "fail" "invalid json" Fields.empty s)

-- A carriage return at the end is cut off.
unfoldable pub chop_cr : List ℕ → List ℕ
chop_cr [] = []
chop_cr (b ∷ []) = if b == 13 then [] else b ∷ []
chop_cr (b ∷ c ∷ rest) = b ∷ chop_cr (c ∷ rest)

-- The body of the loop of `read_data`.
unfoldable pub handle_line : Environment → Outside → List ℕ → Shared → Result Shared
unfolding handle_object chop_cr
handle_line env out line s = handle_document env out (out.document (chop_cr line)) s

abbrev pub behind : ℕ → Option (List ℕ × List ℕ) → Option (List ℕ × List ℕ)
behind b none = none
behind b (some (line, rest)) = some (b ∷ line, rest)

-- `buffer.left(newline_index)` and what `buffer.remove(0, newline_index + 1)` leaves, if the buffer
-- has a newline.
unfoldable pub next_line : List ℕ → Option (List ℕ × List ℕ)
next_line [] = none
next_line (b ∷ rest) = if b == 10 then some ([], rest) else behind b (next_line rest)

pub record Connection : Type 0 where
  pub shared : Shared
  pub buffer : List ℕ

-- One round of the loop of `read_data`, and the rounds behind it.
abbrev pub read_next :
    (Connection → Result Connection)
    → (List ℕ → Shared → Result Shared)
    → Option (List ℕ × List ℕ)
    → Connection
    → Result Connection
read_next again handle none c = ok c
read_next again handle (some (line, rest)) c = do
  s ← handle line c.shared
  again (record { shared = s; buffer = rest })

-- The loop of `read_data`, which takes a line off the buffer each time.
unfoldable pub read_lines : ℕ → Environment → Outside → Connection → Result Connection
unfolding next_line handle_line
read_lines zero env out c = fail too_deep
read_lines (suc fuel) env out c =
    read_next (read_lines fuel env out) (handle_line env out) (next_line c.buffer) c

-- `chunk` is what `readAll` gives. As many rounds as the buffer has bytes, and one more, are enough.
unfoldable pub read_data : Environment → Outside → List ℕ → Connection → Result Connection
unfolding read_lines
read_data env out chunk c =
    let buffer = c.buffer ++ chunk in
    read_lines (suc (length buffer)) env out (record c { buffer = buffer })
