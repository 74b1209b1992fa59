-- ===== src/Scripts/Kept.antt =====
-- Temporary files keep the scripts that they were made for.
use keybinder.Base.{
  String, str_eq, eq_iff, ◌≡◌, refl, sym, ap, ◌∙◌, Bool, true, false, [], ◌∷◌, Option, none, some,
  Bool-cases, inl, inr, if◌then◌else◌,
}
use keybinder.BiMap.{lookup, put, contains}
use keybinder.BiMap.Keys.{string_key}
use keybinder.BiMap.Laws.{lookup-put}
use keybinder.Scripts.{
  Files, Temporary, TempFileManager, store, cached_or, get_temp_file, Command, with_path,
  run_script_unix,
}

-- Each path that is kept holds the script that it is kept under.
abbrev pub Holds : TempFileManager → Type 0
Holds m = (key path : String) → lookup key m.temp_files ≡ some path → lookup path m.files ≡ some key

-- A file that was there holds what it held.
abbrev pub Untouched : Files → Files → Type 0
Untouched before after =
    (path content : String) → lookup path before ≡ some content → lookup path after ≡ some content

-- What a call for a script leaves: a path, if there is one, to a file that holds the script.
abbrev pub Stored : String → TempFileManager → TempFileManager × Option String → Type 0
Stored script m (m', none) = Holds m' × Untouched m.files m'.files
Stored script m (m', some path) =
    (lookup path m'.files ≡ some script) × Holds m' × Untouched m.files m'.files

found_not_new :
    (path : String) (files : Files) (c : String)
    → contains path files ≡ false
    → lookup path files ≡ some c
    → ⊥
found_not_new path files c h e =
    absurd (cc (h, ap (λ (o : Option String). elim o [ none ↦ false | some v ↦ true ]) e))

if_same {ℓ} : {A : Type ℓ} (c : Bool) (x y : A) → c ≡ true → (if c then x else y) ≡ x
if_same true x y h = refl
if_same false x y h = absurd (cc h)

new-Untouched :
    (files : Files) (path content : String)
    → contains path files ≡ false
    → Untouched files (put path content files)
new-Untouched files path content h p c e = elim (Bool-cases (str_eq path p)) [
  | inl same ↦
      absurd (found_not_new path files c h (ap (λ q. lookup q files) ((eq_iff path p).0 same) ∙ e))
  | inr other ↦ rw (lookup-put path p content files, other) e
]

store-Stored :
    (script ext : String) (o : Option String) (m : TempFileManager)
    → ((path : String) → o ≡ some path → contains path m.files ≡ false)
    → Holds m
    → Stored script m (store o script script m)
store-Stored script ext none m h v = (v, (λ p c e. e))
store-Stored script ext (some path) m h v =
    let kept = new-Untouched m.files path script (h path refl) in
    let held : lookup path (put path script m.files) ≡ some script =
      lookup-put path path script m.files
      ∙ if_same (str_eq path path) _ (lookup path m.files) ((eq_iff path path).1 refl) in
    (
      held,
      (λ key q e. elim (Bool-cases (str_eq script key)) [
        | inl same ↦
            let here : some path ≡ some q =
              sym (if_same (str_eq script key) (some path) (lookup key m.temp_files) same)
              ∙ sym (lookup-put script key path m.temp_files)
              ∙ e in
            let same_path : path ≡ q = cc here in
            ap (λ p. lookup p (put path script m.files)) (sym same_path)
            ∙ held
            ∙ ap (λ (k : String). some k) ((eq_iff script key).0 same)
        | inr other ↦
            kept q key (v key q (rw (lookup-put script key path m.temp_files, other) at e))
      ]),
      kept,
    )

get_temp_file-Stored :
    (tmp : Temporary) (script ext : String) (m : TempFileManager) (o : Option String)
    → lookup script m.temp_files ≡ o
    → Holds m
    → Stored script m (cached_or o (store (tmp.open_new m.files ext) script script m) m)
get_temp_file-Stored tmp script ext m none e v =
    store-Stored script ext (tmp.open_new m.files ext) m (λ path. tmp.is_new m.files ext path) v
get_temp_file-Stored tmp script ext m (some path) e v = (v script path e, v, (λ p c found. found))

-- What a run of a script leaves: if it is started, an interpreter and a path to a file that holds the
-- script; and in any case files that still hold what they held.
abbrev pub Started : String → String → TempFileManager → TempFileManager × Option Command → Type 0
Started interpreter script m (m', none) = Holds m' × Untouched m.files m'.files
Started interpreter script m (m', some command) =
    ((path : String) × (command ≡ Command.arguments (interpreter ∷ path ∷ []))
      × (lookup path m'.files ≡ some script))
    × Holds m'
    × Untouched m.files m'.files

Stored-Started :
    (interpreter script : String) (m : TempFileManager) (r : TempFileManager × Option String)
    → Stored script m r
    → Started interpreter script m
        (with_path (λ path. Command.arguments (interpreter ∷ path ∷ [])) r)
Stored-Started interpreter script m (m', none) h = h
Stored-Started interpreter script m (m', some path) (held, v, kept) = ((path, refl, held), v, kept)

-- On Linux and macOS, as long as nothing else writes to the temporary files: each run of a script, the
-- first or a later one, gives the interpreter a file that holds just that script, and leaves the files of
-- the scripts that run already as they are; or it gives up, and changes no file either.
pub run_script-Started :
    (tmp : Temporary) (interpreter script : String) (m : TempFileManager)
    → Holds m
    → Started interpreter script m (run_script_unix tmp interpreter script m)
unfolding run_script_unix get_temp_file
run_script-Started tmp interpreter script m v =
    Stored-Started interpreter script m
      (cached_or (lookup script m.temp_files) (store (tmp.open_new m.files "") script script m) m)
      (get_temp_file-Stored tmp script "" m (lookup script m.temp_files) refl v)
