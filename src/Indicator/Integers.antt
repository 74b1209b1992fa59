-- ===== src/Indicator/Integers.antt =====
-- The integers of C++, without their bounds, over the native numbers.
use Prim.Native.Nat.{◌/◌}
use keybinder.Base.{
  ℕ, suc, ◌+◌, ◌-◌, ◌≤◌, ◌≡◌, Bool, false, ltb, ltb→lt, Bool-cases, inl, inr, arith, if◌then◌else◌,
}

pub data ℤ : Type 0 where
  pos negsuc : ℕ → ℤ

-- The parts above and below zero, of which one is zero.
abbrev pub above : ℤ → ℕ
above (pos n) = n
above (negsuc n) = 0

abbrev pub below : ℤ → ℕ
below (pos n) = 0
below (negsuc n) = suc n

abbrev pub from_if : Bool → ℕ → ℕ → ℤ
from_if c m n = if c then negsuc (n - m - 1) else pos (m - n)

-- `m - n`
unfoldable pub from : ℕ → ℕ → ℤ
from m n = from_if (ltb m n) m n

infixl 65 ◌+ℤ◌
abbrev pub ◌+ℤ◌ : ℤ → ℤ → ℤ
a +ℤ b = from (above a + above b) (below a + below b)

infixl 65 ◌-ℤ◌
abbrev pub ◌-ℤ◌ : ℤ → ℤ → ℤ
a -ℤ b = from (above a + below b) (below a + above b)

infix 50 ◌≤ℤ◌
abbrev pub ◌≤ℤ◌ : ℤ → ℤ → Type 0
a ≤ℤ b = above a + below b ≤ below a + above b

-- Division by 2, which rounds towards zero.
abbrev pub half : ℤ → ℤ
half (pos n) = pos (n / 2)
half (negsuc n) = from 0 (suc n / 2)

not_lt : (m n : ℕ) → ltb m n ≡ false → n ≤ m
not_lt m n h = ground arith

pub from_parts : (m n : ℕ) → above (from m n) + n ≡ below (from m n) + m
unfolding from
from_parts m n = elim (Bool-cases (ltb m n)) [
  | inl e ↦ rw e (omega (arith, ltb→lt m n e))
  | inr e ↦ rw e (omega (arith, not_lt m n e))
]

pub half-bound : (n : ℕ) → n / 2 + n / 2 ≤ n
half-bound n = omega arith

pub add_parts :
    (a b : ℤ) → above (a +ℤ b) + (below a + below b) ≡ below (a +ℤ b) + (above a + above b)
add_parts a b = from_parts (above a + above b) (below a + below b)

pub sub_parts :
    (a b : ℤ) → above (a -ℤ b) + (below a + above b) ≡ below (a -ℤ b) + (above a + below b)
sub_parts a b = from_parts (above a + below b) (below a + above b)
