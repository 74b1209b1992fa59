-- ===== src/Devices/Config.antt =====
-- The recorded keyboard is read back (linux/src/device_manager.cpp).
use mathlib.Core.List.{append-nil}
use keybinder.Base.{
  String, Bool, true, false, ◌≡◌, refl, ap, ◌∙◌, List, [], ◌∷◌, none, some, if◌then◌else◌,
  Bool-cases, inl, inr,
}
use keybinder.Devices.{
  LineText, ConfigFile, keyboard_line, find_eventx, retrieve_eventx, replaced, no_prev_keyb,
  all_lines, record_eventx,
}

module _ (text : LineText) where
  -- The lines that name no keyboard.
  unfoldable pub other_lines : List String → List String
  other_lines [] = []
  other_lines (line ∷ rest) =
      if text.names_keyboard line then other_lines rest else line ∷ other_lines rest

  found :
      (path : String) (lines : List String) → find_eventx text (all_lines text path lines) ≡ path
  unfolding find_eventx all_lines replaced no_prev_keyb
  found path [] = rw (text.names_own path) (text.behind_own path)
  found path (line ∷ rest) = elim (Bool-cases (text.names_keyboard line)) [
    | inl e ↦ rw (e, text.names_own path) (text.behind_own path)
    | inr e ↦ rw (e, e) (found path rest)
  ]

  other_lines-replaced :
      (path : String) (lines : List String)
      → other_lines (replaced text path lines) ≡ other_lines lines
  unfolding other_lines replaced
  other_lines-replaced path [] = refl
  other_lines-replaced path (line ∷ rest) = elim (Bool-cases (text.names_keyboard line)) [
    | inl e ↦ rw (e, text.names_own path) (other_lines-replaced path rest)
    | inr e ↦ rw (e, e) (ap (λ (ls : List String). line ∷ ls) (other_lines-replaced path rest))
  ]

  others_kept :
      (path : String) (lines : List String)
      → other_lines (all_lines text path lines) ≡ other_lines lines
  unfolding other_lines all_lines replaced no_prev_keyb
  others_kept path [] = rw (text.names_own path) refl
  others_kept path (line ∷ rest) = elim (Bool-cases (text.names_keyboard line)) [
    | inl e ↦
        rw (e, text.names_own path)
          (ap other_lines (append-nil (replaced text path rest)) ∙ other_lines-replaced path rest)
    | inr e ↦ rw (e, e) (ap (λ (ls : List String). line ∷ ls) (others_kept path rest))
  ]

  -- What a recording has done: a file that reads back as the path and keeps the other lines, or no
  -- change.
  pub data Recorded (path : String) : ConfigFile → ConfigFile × Bool → Type 0 where
    created :
        (lines : List String)
        → retrieve_eventx text true (some lines) ≡ path
        → Recorded path none (some lines, true)
    updated :
        (before after : List String)
        → retrieve_eventx text true (some after) ≡ path
        → other_lines after ≡ other_lines before
        → Recorded path (some before) (some after, true)
    failed : (config : ConfigFile) → Recorded path config (config, false)

  -- Where a line `keyboard=` reads back as what stands behind it: a path that `record_eventX` has
  -- recorded is what `retrieve_eventX` then gives, and every line that names no keyboard is kept, in
  -- order; when it answers `false`, the file is as it was.
  pub record_eventx-Recorded :
      (can_read can_write : Bool) (path : String) (config : ConfigFile)
      → Recorded path config (record_eventx text can_read can_write path config)
  unfolding record_eventx retrieve_eventx find_eventx
  record_eventx-Recorded can_read true path none =
      Recorded.created (keyboard_line path ∷ []) (rw (text.names_own path) (text.behind_own path))
  record_eventx-Recorded can_read false path none = Recorded.failed none
  record_eventx-Recorded true true path (some lines) =
      Recorded.updated lines (all_lines text path lines) (found path lines) (others_kept path lines)
  record_eventx-Recorded true false path (some lines) = Recorded.failed (some lines)
  record_eventx-Recorded false can_write path (some lines) = Recorded.failed (some lines)
