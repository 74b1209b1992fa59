-- ===== src/ReadProfile/Access.antt =====
-- The JSON values of Qt as common/src/read_profile.cpp takes them apart, and its accessors.
use Prim.Native.String.{◌++◌ as joined}
use keybinder.Base.{
  ℕ, String, Bool, true, false, str_eq, Option, none, some, Result, ok, fail, Failure, throws,
  invalid_argument, ◌>>=◌, or_fail, if◌then◌else◌,
}

-- A `double`, as far as the program tells one from another: a whole number that a `size_t` holds; one
-- with a fraction, whose whole part a `size_t` holds; and any other, below zero too, whose conversion
-- to `size_t` C++ leaves undefined, with what comes out of it.
pub data Double : Type 0 where
  whole : ℕ → Double
  fraction : ℕ → Double
  outside : ℕ → Double

-- `static_cast<size_t>`
abbrev pub as_size_t : Double → ℕ
as_size_t (Double.whole n) = n
as_size_t (Double.fraction n) = n
as_size_t (Double.outside garbage) = garbage

mutual
  pub data Json : Type 0 where
    null : Json
    boolean : Bool → Json
    number : Double → Json
    text : String → Json
    array : Items → Json
    object : Fields → Json

  pub data Items : Type 0 where
    nil : Items
    cons : Json → Items → Items

  pub data Fields : Type 0 where
    empty : Fields
    member : String → Json → Fields → Fields

unfoldable pub field : Fields → String → Option Json
field Fields.empty key = none
field (Fields.member k j rest) key = if str_eq k key then some j else field rest key

abbrev is_there : Option Json → Bool
is_there none = false
is_there (some j) = true

-- QJsonObject::contains
unfoldable pub has : Fields → String → Bool
unfolding field
has obj key = is_there (field obj key)

abbrev pub wrong_kind : String → String → Failure
wrong_kind key kind =
    throws (invalid_argument (joined "The property '" (joined key (joined "' is not " kind))))

unfoldable pub get_value_as_object : Json → Result Fields
get_value_as_object (Json.object obj) = ok obj
get_value_as_object _ = fail (throws (invalid_argument "expected object"))

unfoldable pub get_property : Fields → String → Result Json
unfolding field
get_property obj key =
    or_fail (field obj key)
      (throws (invalid_argument (joined "Invalid or missing '" (joined key "' in JSON."))))

abbrev pub as_object : String → Json → Result Fields
as_object key (Json.object obj) = ok obj
as_object key _ = fail (wrong_kind key "an object.")

abbrev pub as_string : String → Json → Result String
as_string key (Json.text s) = ok s
as_string key _ = fail (wrong_kind key "a string.")

abbrev pub as_array : String → Json → Result Items
as_array key (Json.array items) = ok items
as_array key _ = fail (wrong_kind key "an array.")

abbrev pub as_number : String → Json → Result Double
as_number key (Json.number n) = ok n
as_number key _ = fail (wrong_kind key "a number.")

unfoldable pub get_property_as_object : Fields → String → Result Fields
unfolding get_property
get_property_as_object obj key = get_property obj key >>= as_object key

unfoldable pub get_property_as_string : Fields → String → Result String
unfolding get_property
get_property_as_string obj key = get_property obj key >>= as_string key

unfoldable pub get_property_as_array : Fields → String → Result Items
unfolding get_property
get_property_as_array obj key = get_property obj key >>= as_array key

unfoldable pub get_property_as_number : Fields → String → Result Double
unfolding get_property
get_property_as_number obj key = get_property obj key >>= as_number key
