-- ===== src/BiMap/Keys.antt =====
-- Equality of keys, as the hash maps of common/include/bi_map.h use it.
use keybinder.Base.{ℕ, String, Bool, true, ◌≡◌, ◌↔◌, ◌==◌, ==_iff, str_eq, eq_iff}
use keybinder.KeyCode.{KeyCode, code_eq, code_eq_iff}

pub record Key (A : Type 0) : Type 0 where
  pub beq : A → A → Bool
  pub beq_iff : (x y : A) → (beq x y ≡ true) ↔ (x ≡ y)

instance abbrev pub string_key : Key String
string_key = record { beq = str_eq; beq_iff = eq_iff }

instance abbrev pub number_key : Key ℕ
number_key = record { beq = ◌==◌; beq_iff = ==_iff }

instance abbrev pub code_key : Key KeyCode
code_key = record { beq = code_eq; beq_iff = code_eq_iff }
