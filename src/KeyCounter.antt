-- ===== src/KeyCounter.antt =====
-- common/src/key_counter.cpp: how often each key was pressed, and the file that keeps it. The lock
-- makes each call one step.
pub mod Counts
pub mod Reload
use keybinder.Base.{
  ℕ, ◌+◌, String, Bool, true, false, List, [], ◌∷◌, Option, none, some, Result, ok, ◌>>=◌,
  if◌then◌else◌,
}
use keybinder.KeyCode.{KeyCode}
use keybinder.KeyCode.Names.{str_to_keycode}
use keybinder.ReadProfile.Access.{Double, Json, Fields}
use keybinder.BiMap.{lookup, put, find_backward}
use keybinder.BiMap.Keys.{string_key, code_key}

-- The members, and the file: absent, or the counts that were written to it. A count is an `int`,
-- whose overflow C++ leaves undefined: the model is about counts below 2 ^ 31.
pub record KeyCounter : Type 0 where
  pub counts : List (String × ℕ)
  pub dirty : Bool
  pub file : Option (List (String × ℕ))

-- `counts[name]`, which starts at 0.
abbrev pub value_of : Option ℕ → ℕ
value_of none = 0
value_of (some n) = n

unfoldable pub count_of : String → KeyCounter → ℕ
unfolding lookup
count_of name c = value_of (lookup name c.counts)

unfoldable pub increment : KeyCode → KeyCounter → Result KeyCounter
unfolding find_backward put count_of
increment key c = do
  name ← find_backward str_to_keycode key
  ok (record c { counts = put name (count_of name c + 1) c.counts; dirty = true })

-- What is written: no counts remove the file, and otherwise the file is opened, which may fail.
abbrev pub written :
    Bool → List (String × ℕ) → Option (List (String × ℕ)) → Option (List (String × ℕ))
written can_open [] file = none
written true (x ∷ counts) file = some (x ∷ counts)
written false (x ∷ counts) file = file

-- `can_open` is the answer of QFile::open.
unfoldable pub save : Bool → KeyCounter → KeyCounter
save can_open c =
    if c.dirty then record c { file = written can_open c.counts c.file; dirty = false } else c

unfoldable pub clear : Bool → KeyCounter → KeyCounter
unfolding save
clear can_open c = save can_open (record c { counts = [] })

abbrev pub to_json : List (String × ℕ) → Fields
to_json [] = Fields.empty
to_json ((name, n) ∷ rest) = Fields.member name (Json.number (Double.whole n)) (to_json rest)

-- QJsonValue::toInt: 0 for what is no `int`. Counts below zero are not modelled.
abbrev pub to_int : Double → ℕ
to_int (Double.whole n) = n
to_int (Double.fraction n) = 0
to_int (Double.outside garbage) = 0

-- The loop of `load`: members that are no numbers are left out.
unfoldable pub read_counts : Fields → List (String × ℕ) → List (String × ℕ)
unfolding put
read_counts Fields.empty counts = counts
read_counts (Fields.member name (Json.number d) rest) counts =
    read_counts rest (put name (to_int d) counts)
read_counts (Fields.member name _ rest) counts = read_counts rest counts

-- `load` behind the parser: without a file, or with one that holds no object, nothing changes.
unfoldable pub load : Option Json → KeyCounter → KeyCounter
unfolding read_counts
load (some (Json.object obj)) c = record c { counts = read_counts obj [] }
load _ c = c
