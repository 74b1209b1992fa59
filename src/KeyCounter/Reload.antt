-- ===== src/KeyCounter/Reload.antt =====
-- The counts (common/src/key_counter.cpp) of the process before, read back from the file.
use keybinder.Base.{
  ℕ, ◌+◌, String, str_eq, ◌≡◌, ◌⊎◌, true, false, List, [], ◌∷◌, Option, none, some, Result, ok,
  fail, ◌>>=◌, if◌then◌else◌,
}
use keybinder.BiMap.{find_backward}
use keybinder.BiMap.Keys.{string_key, code_key}
use keybinder.BiMap.Laws.{distinct}
use keybinder.KeyCode.{KeyCode}
use keybinder.KeyCode.Names.{str_to_keycode}
use keybinder.ReadProfile.Access.{Json}
use keybinder.KeyCounter.{KeyCounter, count_of, increment, to_json, load}

-- The document in the file, where there is one.
abbrev document : Option (List (String × ℕ)) → Option Json
document none = none
document (some rows) = some (Json.object (to_json rows))

-- The counter of a new process, over the file.
abbrev pub opened : Option (List (String × ℕ)) → KeyCounter
opened file = load (document file) (record { counts = []; dirty = false; file = file })

-- A process counts these keys.
abbrev pub count_keys : List KeyCode → KeyCounter → Result KeyCounter
count_keys [] c = ok c
count_keys (key ∷ keys) c = do c' ← increment key c; count_keys keys c'

abbrev one_if : String → Result String → ℕ
one_if name (ok n) = if str_eq n name then 1 else 0
one_if name (fail e) = 0

-- How many of the keys have the name.
abbrev pub times : String → List KeyCode → ℕ
times name [] = 0
times name (key ∷ keys) = one_if name (find_backward str_to_keycode key) + times name keys

record IsAfter (c : KeyCounter) (keys : List KeyCode) (c' : KeyCounter) : Type 0 where
  counted : (name : String) → count_of name c' ≡ count_of name c + times name keys
  once : distinct c'.counts ≡ true
  marked : (c' ≡ c) ⊎ (c'.dirty ≡ true)
