-- ===== src/Scripts.antt =====
-- common/src/temp_file_manager.cpp and the two files script_runner.cpp: scripts are written to
-- temporary files, one for each text, and handed to an interpreter.
pub mod Kept
use Prim.Native.String.{◌++◌ as joined}
use keybinder.Base.{
  String, str_eq, ◌≡◌, Bool, true, false, ◌||◌, List, [], ◌∷◌, Option, none, some, if◌then◌else◌,
}
use keybinder.BiMap.{lookup, put, contains}
use keybinder.BiMap.Keys.{string_key}
use keybinder.QtText.{QtText}

-- The files of the system, by path, with what they hold.
abbrev pub Files : Type 0
Files = List (String × String)

-- QTemporaryFile::open with a suffix: the path of a file that was not there, or no file.
pub record Temporary : Type 0 where
  pub open_new : Files → String → Option String
  pub is_new :
      (files : Files) (ext path : String)
      → open_new files ext ≡ some path
      → contains path files ≡ false

pub record TempFileManager : Type 0 where
  pub temp_files : List (String × String)
  pub files : Files

-- A new file is written and its path kept under the key.
abbrev pub store :
    Option String → String → String → TempFileManager → TempFileManager × Option String
store none key content m = (m, none)
store (some path) key content m =
    (record { temp_files = put key path m.temp_files; files = put path content m.files }, some path)

abbrev pub cached_or :
    Option String
    → TempFileManager × Option String
    → TempFileManager
    → TempFileManager × Option String
cached_or none made m = made
cached_or (some path) made m = (m, some path)

-- No path stands for the empty one.
unfoldable pub get_temp_file :
    Temporary → String → String → String → TempFileManager → TempFileManager × Option String
unfolding lookup put
get_temp_file tmp key content ext m =
    cached_or (lookup key m.temp_files) (store (tmp.open_new m.files ext) key content m) m

-- What is started: the arguments of `posix_spawnp`, or the text for `CreateProcessA`; `none` where
-- `run_script` gives up before that.
pub data Command : Type 0 where
  arguments : List String → Command
  command_line : String → Command

abbrev pub with_path :
    (String → Command) → TempFileManager × Option String → TempFileManager × Option Command
with_path make (m, none) = (m, none)
with_path make (m, some path) = (m, some (make path))

-- unix/src/script_runner.cpp
unfoldable pub run_script_unix :
    Temporary → String → String → TempFileManager → TempFileManager × Option Command
unfolding get_temp_file
run_script_unix tmp interpreter script m =
    with_path (λ path. Command.arguments (interpreter ∷ path ∷ []))
      (get_temp_file tmp script script "" m)

-- win/src/script_runner.cpp
unfoldable pub extension : QtText → String → String
extension qt interpreter =
    let interp_lower = qt.to_lower interpreter in
    if qt.contains interp_lower "powershell" || str_eq interp_lower "pwsh"
    then ".ps1"
    else if qt.contains interp_lower "cmd"
    then ".bat"
    else ""

abbrev pub quoted : String → String
quoted text = joined "\"" (joined text "\"")

unfoldable pub build_command_line : String → String → String → String
build_command_line ext interpreter temp_path =
    if str_eq ext ".bat"
    then joined "cmd.exe /C " (quoted temp_path)
    else if str_eq ext ".ps1"
    then joined "powershell.exe -ExecutionPolicy Bypass -File " (quoted temp_path)
    else joined (quoted interpreter) (joined " " (quoted temp_path))

unfoldable pub run_script_windows :
    QtText → Temporary → String → String → TempFileManager → TempFileManager × Option Command
unfolding get_temp_file extension build_command_line
run_script_windows qt tmp interpreter script m =
    let ext = extension qt interpreter in
    with_path (λ path. Command.command_line (build_command_line ext interpreter path))
      (get_temp_file tmp script script ext m)
