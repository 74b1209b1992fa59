-- ===== src/Logger.antt =====
-- common/src/logger.cpp: the log file and its backups. A file is its size and its name; what stands in it
-- is not modelled.
pub mod Bounds
use Prim.Native.String.{◌++◌ as joined}
use keybinder.Base.{
  ℕ, ◌+◌, ◌*◌, ◌≡◌, String, str_eq, Bool, true, false, ltb, leb, ◌||◌, ◌&&◌, not, List, [], ◌∷◌,
  Option, none, some, length, if◌then◌else◌,
}

abbrev pub max_file_size : ℕ
max_file_size = 10 * 1024 * 1024

abbrev pub max_backup_files : ℕ
max_backup_files = 5

-- The size of the log, and the names of the backups, each once.
pub record Logs : Type 0 where
  pub size : ℕ
  pub backups : List String

abbrev pub among : String → List String → Bool
among name [] = false
among name (x ∷ xs) = str_eq x name || among name xs

unfoldable pub remove : String → List String → List String
remove name [] = []
remove name (x ∷ xs) = if str_eq x name then xs else x ∷ remove name xs

-- QStringList::sort and `first`: one of the names.
pub record Sorting : Type 0 where
  pub first : String → List String → String
  pub is_among : (x : String) (xs : List String) → among (first x xs) (x ∷ xs) ≡ true

-- What QFile answers: whether `remove` of the oldest backup succeeds, and whether `rename` does where
-- the new name is free. Either may fail, such as while the file is open elsewhere.
pub record FileSystem : Type 0 where
  pub can_remove : Bool
  pub can_rename : Bool

abbrev pub remove_first : Sorting → List String → List String
remove_first sorting [] = []
remove_first sorting (x ∷ xs) = remove (sorting.first x xs) (x ∷ xs)

-- The answer of QFile::remove is not read.
unfoldable pub remove_oldest_backup_file : FileSystem → Sorting → List String → List String
unfolding remove
remove_oldest_backup_file fs sorting backups =
    if leb max_backup_files (length backups) && fs.can_remove
    then remove_first sorting backups
    else backups

abbrev pub backup_file_path : String → String
backup_file_path timestamp = joined "myapp.log_" (joined timestamp ".bak")

-- `rename` fails when the new name is taken, or for another reason, and its answer is not read. The log
-- is then opened again to append.
abbrev pub renamed : FileSystem → String → Logs → Logs
renamed fs name logs =
    if among name logs.backups || not fs.can_rename
    then logs
    else record { size = 0; backups = name ∷ logs.backups }

unfoldable pub roll_over_log_file : FileSystem → Sorting → String → Logs → Logs
unfolding remove_oldest_backup_file
roll_over_log_file fs sorting timestamp logs =
    renamed fs (backup_file_path timestamp)
      (record logs { backups = remove_oldest_backup_file fs sorting logs.backups })

-- `written` is the length of the message with its line end.
unfoldable pub log_message : FileSystem → Sorting → String → ℕ → Logs → Logs
unfolding roll_over_log_file
log_message fs sorting timestamp written logs =
    let open_log =
      if ltb max_file_size logs.size then roll_over_log_file fs sorting timestamp logs else logs in
    record open_log { size = open_log.size + written }
