-- ===== src/QtText.antt =====
-- The operations of QString that the program calls and Qt implements: a parameter of the model.
use keybinder.Base.{String, Bool, true, ◌≡◌, str_eq, eq_iff, refl}

pub record QtText : Type 0 where
  -- QString::toLower
  pub to_lower : String → String
  -- `contains s t`: QString::contains, whether `t` stands in `s`
  pub contains : String → String → Bool
  -- A text contains itself.
  pub contains_self : (s : String) → contains s s ≡ true

pub str_eq_self : (s : String) → str_eq s s ≡ true
str_eq_self s = (eq_iff s s).1 refl

-- One way to meet it: texts compared whole, in the case that they have.
abbrev pub exact_text : QtText
exact_text = record { to_lower = λ s. s; contains = str_eq; contains_self = str_eq_self }
