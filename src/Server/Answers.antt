-- ===== src/Server/Answers.antt =====
-- What a message does to the program (common/src/local_server.cpp): one response for each, and a mapper
-- that stays valid.
use Prim.Native.String.{◌++◌ as joined}
use keybinder.Base.{
  ℕ, ◌+◌, ◌≡◌, refl, ap, ◌∙◌, arith, Bool, true, false, List, [], ◌∷◌, ◌++◌, Option, none, some,
  length, Result, ok, fail, throws, invalid_argument, ◌>>=◌, Returns, inl, inr, str_eq, Bool-cases,
  String, if◌then◌else◌,
}
use keybinder.Profile.{Profile}
use keybinder.Machine.WellFormed.{InRange}
use keybinder.Mapper.{Environment, Mapper}
use keybinder.Mapper.Control.{set_profile, pause, resume}
use keybinder.Mapper.Valid.{IsValid}
use keybinder.Mapper.Tables.{ProfileFits}
use keybinder.Mapper.Profiles.{set_profile-Installed}
use keybinder.ReadProfile.{profile_from_json}
use keybinder.ReadProfile.Access.{Json, Fields, field}
use keybinder.ReadProfile.Parses.{Parses}
use keybinder.ReadProfile.Errors.{profile_from_json-Parses}
use keybinder.KeyCounter.{to_json}
use keybinder.Settings.{load_from_json, get_log_key_frequency}
use keybinder.Server.{
  Outside, Shared, response, send_response, to_object, to_string, loaded, load_profile,
  on_settings_changed, set_settings, get_frequencies, handle_object, handle_document, chop_cr,
  handle_line,
}

-- The mapper's invariant, for some number of layers.
abbrev pub IsSound : Mapper → Type 0
IsSound m = (n : ℕ) × IsValid n m

pub pause-IsSound : (m : Mapper) → IsSound m → IsSound (pause m)
unfolding pause
pause-IsSound m (n, v) = (
  n,
  record {
    count = v.count;
    maps_count = v.maps_count;
    layers_count = v.layers_count;
    layer_lt = v.layer_lt;
    state_in = v.state_in;
    machines_fit = v.machines_fit;
    maps_fit = v.maps_fit;
  },
)

pub resume-IsSound : (m : Mapper) → IsSound m → IsSound (resume m)
unfolding resume
resume-IsSound m (n, v) = (
  n,
  record {
    count = v.count;
    maps_count = v.maps_count;
    layers_count = v.layers_count;
    layer_lt = v.layer_lt;
    state_in = v.state_in;
    machines_fit = v.machines_fit;
    maps_fit = v.maps_fit;
  },
)

-- One more response, and a sound mapper.
abbrev pub Served : Shared → Shared → Type 0
Served s s' = IsSound s'.mapper × (length s'.responses ≡ length s.responses + 1)

-- A message is answered by `r`, without an exception.
pub data Answers (s : Shared) (r : Result Shared) : Type 0 where
  answered : (s' : Shared) → r ≡ ok s' → Served s s' → Answers s r

length-snoc {ℓ} : {A : Type ℓ} (xs : List A) (x : A) → length (xs ++ x ∷ []) ≡ length xs + 1
length-snoc [] x = refl
length-snoc (y ∷ xs) x = omega (arith, length-snoc xs x)

sent_one :
    (status error : String) (rest : Fields) (s : Shared)
    → IsSound s.mapper
    → Served s (send_response status error rest s)
unfolding send_response
sent_one status error rest s v = (v, length-snoc s.responses (response status error rest))

module _ (env : Environment) (range : InRange env.memory) where
  loaded-Served :
      (r : Result (Profile × Fields)) (s : Shared)
      → IsSound s.mapper
      → Parses r
      → ((p : Profile) (saved : Fields) → r ≡ ok (p, saved) → ProfileFits p)
      → Returns (Served s) (loaded s (do read ← r; set ← set_profile env read.0 s.mapper; ok set.0))
  unfolding Parses
  loaded-Served (ok (p, saved)) s v parses fits =
      elim (set_profile-Installed env p s.mapper range (fits p saved refl)) [
        | inl same ↦ rw same (sent_one "ok" "" Fields.empty s v)
        | inr (m', installed, valid, kept, layer, state, timer, queue) ↦
            rw installed
              (sent_one "ok" "" Fields.empty (record s { mapper = m' }) (length p.layers, valid))
      ]
  loaded-Served (fail (throws (invalid_argument what))) s v parses fits =
      sent_one "fail" what Fields.empty s v
  loaded-Served (fail _) s v parses fits = absurd parses

changed-IsSound :
    (can_open : Bool) (s : Shared)
    → IsSound s.mapper
    → IsSound (on_settings_changed can_open s).mapper
unfolding on_settings_changed
changed-IsSound can_open s v = elim (Bool-cases (get_log_key_frequency s.settings)) [
  | inl e ↦ rw e v
  | inr e ↦ rw e v
]

changed-responses :
    (can_open : Bool) (s : Shared) → (on_settings_changed can_open s).responses ≡ s.responses
unfolding on_settings_changed
changed-responses can_open s = elim (Bool-cases (get_log_key_frequency s.settings)) [
  | inl e ↦ rw e refl
  | inr e ↦ rw e refl
]

branch_Served :
    (successful : Bool) (s changed : Shared)
    → IsSound changed.mapper
    → changed.responses ≡ s.responses
    → Served s (
        if successful
        then send_response "ok" "" Fields.empty changed
        else send_response "fail" "invalid settings JSON" Fields.empty changed)
branch_Served true s changed v same =
    let (sound, one) = sent_one "ok" "" Fields.empty changed v in
    (sound, one ∙ ap (λ (xs : List Fields). length xs + 1) same)
branch_Served false s changed v same =
    let (sound, one) = sent_one "fail" "invalid settings JSON" Fields.empty changed v in
    (sound, one ∙ ap (λ (xs : List Fields). length xs + 1) same)

set_settings-Served :
    (out : Outside) (obj : Fields) (s : Shared)
    → IsSound s.mapper
    → Served s (set_settings out obj s)
unfolding set_settings on_settings_changed
set_settings-Served out obj s v =
    branch_Served (load_from_json (out.opens_settings (length s.responses)) obj s.settings).1 s
      (on_settings_changed (out.opens_counts (length s.responses)) (record s {
        settings = (load_from_json (out.opens_settings (length s.responses)) obj s.settings).0;
      }))
      (changed-IsSound (out.opens_counts (length s.responses)) _ v)
      (changed-responses (out.opens_counts (length s.responses)) _)

get_frequencies-Served : (s : Shared) → IsSound s.mapper → Served s (get_frequencies s)
get_frequencies-Served s v =
    sent_one "success" ""
      (Fields.member "frequencies" (Json.object (to_json s.key_counter.counts)) Fields.empty) s v

-- The profile that a line brings, if it brings one, has a default layer, layer switches and sequences
-- that `set_profile` can do with.
abbrev pub DocumentFits : Option Json → Type 0
DocumentFits (some (Json.object obj)) =
    (p : Profile) (saved : Fields)
    → profile_from_json (to_object (field obj "profile")) ≡ ok (p, saved)
    → ProfileFits p
DocumentFits _ = Unit

unfoldable pub LineFits : Outside → List ℕ → Type 0
unfolding chop_cr
LineFits out line = DocumentFits (out.document (chop_cr line))

Answers-if :
    {s : Shared} {m n : Result Shared} (c : Bool)
    → Answers s m
    → Answers s n
    → Answers s (if c then m else n)
Answers-if true h k = h
Answers-if false h k = k

Answers-ok : {s s' : Shared} → Served s s' → Answers s (ok s')
Answers-ok {s} {s'} h = Answers.answered s' refl h

Answers-of : (s : Shared) (r : Result Shared) → Returns (Served s) r → Answers s r
Answers-of s (ok s') h = Answers.answered s' refl h
Answers-of s (fail e) h = absurd h

module _ (env : Environment) (range : InRange env.memory) (out : Outside) where
  load_profile-Answers :
      (obj : Fields) (s : Shared)
      → IsSound s.mapper
      → ((p : Profile) (saved : Fields) → profile_from_json obj ≡ ok (p, saved) → ProfileFits p)
      → Answers s (load_profile env obj s)
  unfolding load_profile
  load_profile-Answers obj s v fits =
      Answers-of s _
        (loaded-Served env range (profile_from_json obj) s v (profile_from_json-Parses obj) fits)

  handle_object-Served :
      (obj : Fields) (s : Shared)
      → IsSound s.mapper
      → DocumentFits (some (Json.object obj))
      → Answers s (handle_object env out obj s)
  unfolding handle_object
  handle_object-Served obj s v fits =
      let is : String → Bool = λ name. str_eq (to_string (field obj "type")) name in
      Answers-if (is "load_profile")
        (load_profile-Answers (to_object (field obj "profile")) s v fits)
        (Answers-if (is "set_settings")
          (Answers-ok (set_settings-Served out (to_object (field obj "settings")) s v))
          (Answers-if (is "get_frequencies") (Answers-ok (get_frequencies-Served s v)) (
            Answers-if (is "pause")
              (Answers-ok (
                sent_one "success" "" Fields.empty (record s { mapper = pause s.mapper })
                  (pause-IsSound s.mapper v)))
              (Answers-if (is "resume")
                (Answers-ok (
                  sent_one "success" "" Fields.empty (record s { mapper = resume s.mapper })
                    (resume-IsSound s.mapper v)))
                (Answers-ok (
                  sent_one "fail" (joined "unknown message_type: " (to_string (field obj "type")))
                    Fields.empty s v))))))

  handle_document-Served :
      (o : Option Json) (s : Shared)
      → IsSound s.mapper
      → DocumentFits o
      → Answers s (handle_document env out o s)
  handle_document-Served (some (Json.object obj)) s v fits = handle_object-Served obj s v fits
  handle_document-Served (some Json.null) s v fits =
      Answers-ok (sent_one "fail" "invalid json" Fields.empty s v)
  handle_document-Served (some (Json.boolean b)) s v fits =
      Answers-ok (sent_one "fail" "invalid json" Fields.empty s v)
  handle_document-Served (some (Json.number n)) s v fits =
      Answers-ok (sent_one "fail" "invalid json" Fields.empty s v)
  handle_document-Served (some (Json.text t)) s v fits =
      Answers-ok (sent_one "fail" "invalid json" Fields.empty s v)
  handle_document-Served (some (Json.array xs)) s v fits =
      Answers-ok (sent_one "fail" "invalid json" Fields.empty s v)
  handle_document-Served none s v fits =
      Answers-ok (sent_one "fail" "invalid json" Fields.empty s v)

  -- If unwritten memory happens to hold indices of the machine: every line that a client sends, be it
  -- no JSON, an unknown message or an unusable profile, gets one response and lets no exception out,
  -- and it leaves the mapper valid, as long as a profile that it brings has a default layer and layer
  -- switches that exist, and sequences with no wait first or behind another wait.
  pub handle_line-Served :
      (line : List ℕ) (s : Shared)
      → IsSound s.mapper
      → LineFits out line
      → Answers s (handle_line env out line s)
  unfolding handle_line LineFits
  handle_line-Served line s v fits = handle_document-Served (out.document (chop_cr line)) s v fits
