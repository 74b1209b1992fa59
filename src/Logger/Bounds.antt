-- ===== src/Logger/Bounds.antt =====
-- How many backups common/src/logger.cpp keeps.
use keybinder.Base.{
  ℕ, ◌+◌, ◌≤◌, ◌≡◌, refl, String, str_eq, true, false, ltb, leb, ◌||◌, ◌&&◌, not, List, [], ◌∷◌,
  length, arith, Bool-cases, ◌⊎◌, inl, inr,
}
use keybinder.Logger.{
  max_backup_files, max_file_size, Logs, among, remove, Sorting, FileSystem, remove_first,
  remove_oldest_backup_file, backup_file_path, renamed, roll_over_log_file, log_message,
}

length-remove :
    (name : String) (xs : List String)
    → among name xs ≡ true
    → length (remove name xs) + 1 ≡ length xs
unfolding remove
length-remove name [] h = absurd (cc h)
length-remove name (x ∷ xs) h = elim (Bool-cases (str_eq x name)) [
  | inl e ↦ rw e (omega arith)
  | inr e ↦ rw e (omega (arith, length-remove name xs (rw e at h)))
]

length-remove_first :
    (sorting : Sorting) (x : String) (xs : List String)
    → length (remove_first sorting (x ∷ xs)) + 1 ≡ length (x ∷ xs)
length-remove_first sorting x xs =
    length-remove (sorting.first x xs) (x ∷ xs) (sorting.is_among x xs)

removed_bound :
    (fs : FileSystem) (sorting : Sorting) (xs : List String)
    → fs.can_remove ≡ true
    → length xs ≤ max_backup_files
    → length (remove_oldest_backup_file fs sorting xs) + 1 ≤ max_backup_files
unfolding remove_oldest_backup_file
removed_bound fs sorting [] r h = omega arith
removed_bound fs sorting (x ∷ xs) r h = elim (Bool-cases (leb max_backup_files (length (x ∷ xs)))) [
  | inl e ↦ rw (e, r) (omega (arith, length-remove_first sorting x xs, h))
  | inr e ↦ rw e (ground (arith, h, e))
]

removed_less :
    (fs : FileSystem) (sorting : Sorting) (xs : List String)
    → length (remove_oldest_backup_file fs sorting xs) ≤ length xs
unfolding remove_oldest_backup_file
removed_less fs sorting [] = omega arith
removed_less fs sorting (x ∷ xs) =
    elim (Bool-cases (leb max_backup_files (length (x ∷ xs)) && fs.can_remove)) [
      | inl e ↦ rw e (omega (arith, length-remove_first sorting x xs))
      | inr e ↦ rw e (omega arith)
    ]

among-remove :
    (name gone : String) (xs : List String)
    → among name xs ≡ false
    → among name (remove gone xs) ≡ false
unfolding remove
among-remove name gone [] h = refl
among-remove name gone (x ∷ xs) h = elim (Bool-cases (str_eq x gone)) [
  | inl e ↦ rw e (ground (arith, h))
  | inr e ↦ rw e (ground (arith, h, among-remove name gone xs))
]

among-oldest :
    (fs : FileSystem) (sorting : Sorting) (name : String) (xs : List String)
    → among name xs ≡ false
    → among name (remove_oldest_backup_file fs sorting xs) ≡ false
unfolding remove_oldest_backup_file
among-oldest fs sorting name [] h = refl
among-oldest fs sorting name (x ∷ xs) h =
    elim (Bool-cases (leb max_backup_files (length (x ∷ xs)) && fs.can_remove)) [
      | inl e ↦ rw e (among-remove name (sorting.first x xs) (x ∷ xs) h)
      | inr e ↦ rw e h
    ]

renamed_bound :
    (fs : FileSystem) (name : String) (logs : Logs)
    → length (renamed fs name logs).backups ≤ length logs.backups + 1
renamed_bound fs name logs = elim (Bool-cases (among name logs.backups || not fs.can_rename)) [
  | inl e ↦ rw e (omega arith)
  | inr e ↦ rw e (omega arith)
]

renamed_size :
    (fs : FileSystem) (name : String) (logs : Logs)
    → among name logs.backups ≡ false
    → fs.can_rename ≡ true
    → (renamed fs name logs).size ≡ 0
renamed_size fs name logs h r = rw (h, r) refl

-- The log and its backups, before and after a message of this length.
pub record Bounded (fs : FileSystem) (name : String) (written : ℕ) (before after : Logs)
    : Type 0 where
  pub one_more : length after.backups ≤ length before.backups + 1
  pub at_most_five : (length after.backups ≤ max_backup_files) ⊎ (fs.can_remove ≡ false)
  pub short :
      (after.size ≤ max_file_size + written)
      ⊎ (((fs.can_rename ≡ false) ⊎ (among name before.backups ≡ true))
          × (after.size ≡ before.size + written))

module _ (fs : FileSystem) (sorting : Sorting) (timestamp : String) (written : ℕ)
    (logs : Logs) where
  abbrev rest : Logs
  rest = record logs { backups = remove_oldest_backup_file fs sorting logs.backups }

  abbrev name : String
  name = backup_file_path timestamp

  rolled :
      length logs.backups ≤ max_backup_files
      → Bounded fs name written logs
          (record (renamed fs name rest) { size = (renamed fs name rest).size + written })
  rolled h =
      let less = removed_less fs sorting logs.backups in
      let more = renamed_bound fs name rest in
      record {
        one_more = omega (arith, less, more);
        at_most_five = elim (Bool-cases fs.can_remove) [
          | inl r ↦ inl (omega (arith, more, removed_bound fs sorting logs.backups r h))
          | inr r ↦ inr r
        ];
        short = elim (Bool-cases (among name logs.backups)) [
          | inl taken ↦ elim (Bool-cases (among name rest.backups || not fs.can_rename)) [
            | inl e ↦ inr (inr taken, rw e refl)
            | inr e ↦ inl (rw e (omega arith))
          ]
          | inr free ↦ elim (Bool-cases fs.can_rename) [
            | inl r ↦ inl (
                omega (
                  arith,
                  renamed_size fs name rest (among-oldest fs sorting name logs.backups free) r,
                ))
            | inr r ↦ inr (inl r, kept r)
          ]
        ];
      }
    where
      kept : fs.can_rename ≡ false → (renamed fs name rest).size + written ≡ logs.size + written
      kept r = elim (Bool-cases (among name rest.backups)) [
        | inl e ↦ rw e refl
        | inr e ↦ rw (e, r) refl
      ]

  -- Where at most five backups are there: however QFile's `remove` and `rename` answer, `logMessage`
  -- adds at most one backup, and there are at most five behind it unless `remove` has failed. Behind
  -- it the log is no longer than the limit and the message together; or `rename` fails or a backup of
  -- the same second has the name already, and the message stands behind all that the log held.
  pub log_message_bounds :
      length logs.backups ≤ max_backup_files
      → Bounded fs name written logs (log_message fs sorting timestamp written logs)
  unfolding log_message roll_over_log_file
  log_message_bounds h = elim (Bool-cases (ltb max_file_size logs.size)) [
    | inl e ↦ rw e (rolled h)
    | inr e ↦
        rw e
          (record { one_more = omega arith; at_most_five = inl h; short = inl (ground (arith, e)) })
  ]
