-- ===== src/KeyMap/Sendable.antt =====
-- `send_outputs` of each daemon looks up `int_to_keycode.find_backward`; profiles and the key counter
-- go through `str_to_keycode` (common/src/key_code.cpp).
use keybinder.Base.{
  ℕ, zero, suc, String, Bool, true, false, not, ◌&&◌, ◌||◌, ◌≡◌, refl, List, [], ◌∷◌, ◌++◌, Option,
  none, some, get_elem?, ok, fail, throws, out_of_range, ◌↔◌, arith, if◌then◌else◌,
}
use keybinder.KeyCode.{KeyCode, index, all_codes, get_elem?-index, code_eq}
use keybinder.KeyCode.Names.{name_rows, str_to_keycode}
use keybinder.BiMap.{lookup, contains, from_list, find_forward, find_backward}
use keybinder.BiMap.Keys.{Key, string_key, number_key, code_key}
use keybinder.BiMap.Laws.{distinct, flip, backward-rows, find_forward-find_backward}
use keybinder.KeyMap.Linux.{linux_rows, linux_int_to_keycode}
use keybinder.KeyMap.Mac.{mac_rows, mac_int_to_keycode}
use keybinder.KeyMap.Windows.{windows_rows, windows_int_to_keycode}

abbrev agree : (p q : KeyCode → Bool) → List KeyCode → Bool
agree p q [] = true
agree p q (x ∷ xs) = (if p x then q x else not (q x)) && agree p q xs

agree-get :
    (p q : KeyCode → Bool) (xs : List KeyCode) (i : ℕ) (c : KeyCode)
    → agree p q xs ≡ true
    → get_elem? xs i ≡ some c
    → p c ≡ q c
agree-get p q [] i c h e = cc
agree-get p q (x ∷ xs) zero c h e = ground arith
agree-get p q (x ∷ xs) (suc i) c h e = agree-get p q xs i c (ground arith) e

-- What holds of every row of a finite table of the keys holds of every key.
every_code : (p q : KeyCode → Bool) → agree p q all_codes ≡ true → (c : KeyCode) → p c ≡ q c
every_code p q h c = agree-get p q all_codes (index c) c h (get_elem?-index c)

find_backward-missing :
    {K : Type 0} ⦃k : Key K⦄ (rows : List (K × KeyCode)) (c : KeyCode)
    → distinct (flip rows) ≡ true
    → (find_backward (from_list rows) c ≡ fail (throws out_of_range))
      ↔ (contains c (flip rows) ≡ false)
unfolding find_backward
find_backward-missing rows c d = rw (backward-rows rows c d) (ground arith)

-- Whether a key is one of a list.
abbrev pub among : KeyCode → List KeyCode → Bool
among c [] = false
among c (x ∷ xs) = code_eq x c || among c xs

abbrev pub high_function_keys : List KeyCode
high_function_keys =
    KeyCode.f13 ∷ KeyCode.f14 ∷ KeyCode.f15 ∷ KeyCode.f16 ∷ KeyCode.f17 ∷ KeyCode.f18 ∷ KeyCode.f19
    ∷ KeyCode.f20 ∷ KeyCode.f21 ∷ KeyCode.f22 ∷ KeyCode.f23 ∷ KeyCode.f24 ∷ []

abbrev pub input_method_keys : List KeyCode
input_method_keys = KeyCode.katakana ∷ KeyCode.hiragana ∷ KeyCode.muhenkan ∷ KeyCode.henkan ∷ []

abbrev pub media_keys : List KeyCode
media_keys =
    KeyCode.media_play_pause ∷ KeyCode.media_next ∷ KeyCode.media_prev ∷ KeyCode.media_stop
    ∷ KeyCode.browser_back ∷ KeyCode.browser_forward ∷ KeyCode.browser_refresh
    ∷ KeyCode.browser_search ∷ KeyCode.browser_favorites ∷ KeyCode.browser_home ∷ KeyCode.mail
    ∷ KeyCode.calculator ∷ KeyCode.computer ∷ KeyCode.sleep ∷ KeyCode.power ∷ []

missing_iff :
    {K : Type 0} ⦃k : Key K⦄ (rows : List (K × KeyCode)) (lost : List KeyCode)
    → distinct (flip rows) ≡ true
    → agree (λ c. contains c (flip rows)) (λ c. not (among c lost)) all_codes ≡ true
    → (c : KeyCode)
    → (find_backward (from_list rows) c ≡ fail (throws out_of_range)) ↔ (among c lost ≡ true)
missing_iff rows lost d a c =
    let same = every_code (λ x. contains x (flip rows)) (λ x. not (among x lost)) a c in
    let found = find_backward-missing rows c d in ground (arith, same, found)

pub linux_unsendable :
    (value : String → ℕ) (c : KeyCode)
    → (find_backward (linux_int_to_keycode value) c ≡ fail (throws out_of_range))
      ↔ (among c high_function_keys ≡ true)
unfolding linux_int_to_keycode lookup code_eq
linux_unsendable value c = missing_iff (linux_rows value) high_function_keys refl refl c

mac_unsendable :
    (c : KeyCode)
    → (find_backward mac_int_to_keycode c ≡ fail (throws out_of_range))
      ↔ (among c (media_keys ++ input_method_keys) ≡ true)
unfolding mac_int_to_keycode lookup code_eq
mac_unsendable c = missing_iff mac_rows (media_keys ++ input_method_keys) refl refl c

pub windows_unsendable :
    (value : String → ℕ) (c : KeyCode)
    → (find_backward (windows_int_to_keycode value) c ≡ fail (throws out_of_range))
      ↔ (among c (KeyCode.power ∷ high_function_keys ++ input_method_keys) ≡ true)
unfolding windows_int_to_keycode lookup code_eq
windows_unsendable value c =
    missing_iff (windows_rows value) (KeyCode.power ∷ high_function_keys ++ input_method_keys) refl
      refl c

-- Whatever the values of the macros, the keys that a daemon cannot send, since `find_backward` throws
-- `out_of_range`, are exactly: on Linux F13 to F24; on macOS the media, browser, application and power
-- keys and those of the input methods; on Windows F13 to F24, Power and the keys of the input methods.
pub unsendable :
    (value : String → ℕ) (c : KeyCode)
    → ((find_backward (linux_int_to_keycode value) c ≡ fail (throws out_of_range))
        ↔ (among c high_function_keys ≡ true))
      × ((find_backward mac_int_to_keycode c ≡ fail (throws out_of_range))
          ↔ (among c (media_keys ++ input_method_keys) ≡ true))
      × ((find_backward (windows_int_to_keycode value) c ≡ fail (throws out_of_range))
          ↔ (among c (KeyCode.power ∷ high_function_keys ++ input_method_keys) ≡ true))
unsendable value c = (linux_unsendable value c, mac_unsendable c, windows_unsendable value c)

-- The name of a key, and that name's key.
abbrev pub Named : KeyCode → Type 0
Named c =
    (name : String) × (find_backward str_to_keycode c ≡ ok name)
    × (find_forward str_to_keycode name ≡ ok c)

is_found : (o : Option String) → Bool
is_found none = false
is_found (some name) = true

found_some : (o : Option String) → is_found o ≡ true → (name : String) × (o ≡ some name)
unfolding is_found
found_some none h = absurd cc
found_some (some name) h = (name, refl)

Named-from :
    (c : KeyCode) (name : String)
    → lookup c (flip name_rows) ≡ some name
    → distinct name_rows ≡ true
    → distinct (flip name_rows) ≡ true
    → Named c
unfolding find_backward str_to_keycode
Named-from c name e d d' =
    let back : find_backward (from_list name_rows) c ≡ ok name =
      rw (backward-rows name_rows c d', e) refl in
    (name, back, (find_forward-find_backward name_rows name c d d').1 back)

-- Every key has a name in `str_to_keycode`, and the name leads back to the key.
pub names_complete : (c : KeyCode) → Named c
unfolding lookup code_eq is_found
names_complete c =
    let (name, e) =
      found_some (lookup c (flip name_rows))
        (every_code (λ x. is_found (lookup x (flip name_rows))) (λ x. true) refl c) in
    Named-from c name e refl refl
