-- ===== src/System/Latest.antt =====
-- The latest profile: `saveLatestJsonProfile` of common/src/read_profile.cpp writes what was loaded, and
-- `main` (common/src/main.cpp) starts with it the next time.
use keybinder.Base.{
  ◌≡◌, refl, sym, subst, String, str_eq, Bool, true, false, Option, none, some, ok, IfOk, IfOk-bind,
  IfOk-any, if◌then◌else◌,
}
use keybinder.Profile.{Profile}
use keybinder.ReadProfile.{
  Outside, from_file, from_bytes, from_document, load_latest, parse_layers, profile_from_json,
}
use keybinder.ReadProfile.Access.{
  Fields, Json, get_property_as_array, get_property_as_number, get_property_as_string,
}
use keybinder.System.{Start, choose_profile}

abbrev pub latest_profile_file_location : String
latest_profile_file_location = "./last_loaded.profile.json"

-- How opening the file for writing and writing to it end, what an interrupted write leaves, and the
-- text of `QJsonDocument::toJson`.
pub record Writing : Type 0 where
  pub can_open : Bool
  pub can_write : Bool
  pub partial : String
  pub to_json : Fields → String

-- The file behind the call, if there is one. Opening truncates it.
unfoldable pub save_latest_json_profile : Writing → Fields → Option String → Option String
save_latest_json_profile w obj latest =
    if w.can_open then some (if w.can_write then w.to_json obj else w.partial) else latest

-- The files with that one.
abbrev pub with_latest : Option String → Outside → Outside
with_latest latest out = record out {
  exists = λ name.
      if str_eq name latest_profile_file_location
      then elim latest [ none ↦ false | some bytes ↦ true ]
      else out.exists name;
  contents = λ name. if str_eq name latest_profile_file_location then latest else out.contents name;
}

profile_from_json-saved : (obj : Fields) → IfOk (λ r. (r.1 ≡ obj)) (profile_from_json obj)
unfolding profile_from_json
profile_from_json-saved obj =
    IfOk-bind (λ x. Unit {0}) (λ r. r.1 ≡ obj) (get_property_as_string obj "profile_name") _
      (IfOk-any (get_property_as_string obj "profile_name"))
      λ name u.
        IfOk-bind (λ x. Unit {0}) (λ r. r.1 ≡ obj) (get_property_as_number obj "default_layer") _
          (IfOk-any (get_property_as_number obj "default_layer"))
          λ d u.
            IfOk-bind (λ x. Unit {0}) (λ r. r.1 ≡ obj) (get_property_as_array obj "layers") _
              (IfOk-any (get_property_as_array obj "layers"))
              λ arr u.
                IfOk-bind (λ x. Unit {0}) (λ r. r.1 ≡ obj) (parse_layers arr) _
                  (IfOk-any (parse_layers arr)) (λ ls u. refl)

module _ (out : Outside) (w : Writing) where
  load_latest-saved :
      (obj saved : Fields) (p : Profile) (latest : Option String)
      → w.can_open ≡ true
      → w.can_write ≡ true
      → out.document (w.to_json saved) ≡ some (Json.object saved)
      → profile_from_json obj ≡ ok (p, saved)
      → load_latest (with_latest (save_latest_json_profile w saved latest) out)
        ≡ ok (some (p, saved))
  unfolding load_latest from_file from_bytes from_document save_latest_json_profile
  load_latest-saved obj saved p latest opens writes reads h =
      let same : saved ≡ obj = subst (IfOk (λ r. r.1 ≡ obj)) h (profile_from_json-saved obj) in
      let again = subst (λ o. profile_from_json o ≡ ok (p, saved)) (sym same) h in
      rw (opens, writes, reads, again) refl

  -- If the parser reads back what `toJson` wrote of the object, and the latest profile could be
  -- written when a profile was loaded, then the program that is started without an argument starts
  -- with that profile, whatever was the latest one before.
  pub latest_restored :
      (obj saved : Fields) (p : Profile) (latest : Option String)
      → w.can_open ≡ true
      → w.can_write ≡ true
      → out.document (w.to_json saved) ≡ some (Json.object saved)
      → profile_from_json obj ≡ ok (p, saved)
      → choose_profile (with_latest (save_latest_json_profile w saved latest) out) none
        ≡ ok (Start.starts p)
  unfolding choose_profile
  latest_restored obj saved p latest opens writes reads h =
      rw (load_latest-saved obj saved p latest opens writes reads h) refl
