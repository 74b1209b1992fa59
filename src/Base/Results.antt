-- ===== src/Base/Results.antt =====
-- What a C++ function that may fail returns: a value, `std::nullopt`, an exception, or, in a model
-- with fuel, more nested calls than the fuel allows.
use Prim.Native.Nat.{ℕ}
use mathlib.Core.Path.{◌≡◌, refl}
use mathlib.Core.Bool.{Bool, true, false}
use mathlib.Core.List.{List}
use mathlib.Core.Option.{Option, none, some}
use Prim.Native.String.{String}
use keybinder.Base.Lists.{get_elem?}
use keybinder.Base.Tests.{if◌then◌else◌}

-- The exceptions that the program throws itself or lets through from the standard library.
-- `index_assert` is QList's check of `operator[]`, which Qt makes in debug builds.
pub data Exception : Type 0 where
  invalid_argument : String → Exception
  out_of_range : Exception
  bad_optional_access : Exception
  index_assert : Exception

pub data Failure : Type 0 where
  nullopt : Failure
  throws : Exception → Failure
  too_deep : Failure

pub data Result {ℓ} (A : Type ℓ) : Type ℓ where
  ok : A → Result A
  fail : Failure → Result A

-- An element or an optional that the code takes without a test, with the failure if it is missing.
abbrev pub or_fail {ℓ} : {A : Type ℓ} → Option A → Failure → Result A
or_fail none e = fail e
or_fail (some a) e = ok a

-- A chain stops at the first failure.
infixl 5 ◌>>=◌
abbrev pub ◌>>=◌ {ℓ κ} : {A : Type ℓ} {B : Type κ} → Result A → (A → Result B) → Result B
fail e >>= next = fail e
ok a >>= next = next a

-- `std::vector::at`.
abbrev pub at {ℓ} : {A : Type ℓ} → List A → ℕ → Result A
at xs i = or_fail (get_elem? xs i) (throws out_of_range)

-- What holds of the value, if there is one.
abbrev pub IfOk {ℓ κ} : {A : Type ℓ} → (A → Type κ) → Result A → Type κ
IfOk P (ok a) = P a
IfOk P (fail e) = Unit

-- What holds of a computation that must return a value.
abbrev pub Returns {ℓ} : {A : Type ℓ} → (A → Type 0) → Result A → Type 0
Returns P (ok a) = P a
Returns P (fail e) = ⊥

pub IfOk-bind {ℓ κ μ ν} :
    {A : Type ℓ} {B : Type κ} (P : A → Type μ) (Q : B → Type ν) (m : Result A) (f : A → Result B)
    → IfOk P m
    → ((a : A) → P a → IfOk Q (f a))
    → IfOk Q (m >>= f)
IfOk-bind P Q (ok a) f h k = k a h
IfOk-bind P Q (fail e) f h k = tt

pub or_fail-IfOk {ℓ} :
    {A : Type ℓ} (o : Option A) (e : Failure) → IfOk (λ a. o ≡ some a) (or_fail o e)
or_fail-IfOk none e = tt
or_fail-IfOk (some a) e = refl

pub IfOk-at {ℓ} : {A : Type ℓ} (xs : List A) (i : ℕ) → IfOk (λ a. get_elem? xs i ≡ some a) (at xs i)
IfOk-at xs i = or_fail-IfOk (get_elem? xs i) (throws out_of_range)

pub IfOk-if {ℓ κ} :
    {A : Type ℓ} (P : A → Type κ) (c : Bool) (m n : Result A)
    → (c ≡ true → IfOk P m)
    → (c ≡ false → IfOk P n)
    → IfOk P (if c then m else n)
IfOk-if P true m n h k = h refl
IfOk-if P false m n h k = k refl

pub IfOk-any {ℓ} : {A : Type ℓ} (r : Result A) → IfOk (λ a. Unit {0}) r
IfOk-any (ok a) = tt
IfOk-any (fail e) = tt

pub IfOk-map {ℓ κ μ} :
    {A : Type ℓ} (P : A → Type κ) (Q : A → Type μ) (r : Result A)
    → IfOk P r
    → ((a : A) → P a → Q a)
    → IfOk Q r
IfOk-map P Q (ok a) h k = k a h
IfOk-map P Q (fail e) h k = tt

pub Returns-map {ℓ} :
    {A : Type ℓ} (P Q : A → Type 0) (r : Result A)
    → Returns P r
    → ((a : A) → P a → Q a)
    → Returns Q r
Returns-map P Q (ok a) h k = k a h
Returns-map P Q (fail e) h k = h

pub Returns-bind {ℓ κ} :
    {A : Type ℓ} {B : Type κ} (P : A → Type 0) (Q : B → Type 0) (m : Result A) (f : A → Result B)
    → Returns P m
    → ((a : A) → P a → Returns Q (f a))
    → Returns Q (m >>= f)
Returns-bind P Q (ok a) f h k = k a h
Returns-bind P Q (fail e) f h k = absurd h

pub Returns-if {ℓ} :
    {A : Type ℓ} (P : A → Type 0) (c : Bool) (m n : Result A)
    → (c ≡ true → Returns P m)
    → (c ≡ false → Returns P n)
    → Returns P (if c then m else n)
Returns-if P true m n h k = h refl
Returns-if P false m n h k = k refl

-- Two continuations that agree where the property holds give the same behind a value that has it.
pub bind-cong {ℓ κ μ} :
    {A : Type ℓ} {B : Type κ} (P : A → Type μ) (m : Result A) (f g : A → Result B)
    → IfOk P m
    → ((a : A) → P a → f a ≡ g a)
    → (m >>= f) ≡ (m >>= g)
bind-cong P (ok a) f g h same = same a h
bind-cong P (fail e) f g h same = refl
