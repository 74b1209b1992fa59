-- ===== src/KeyCode.antt =====
-- common/include/key_code.h: the keys that the program knows.
pub mod Names
use keybinder.Base.{
  ℕ, ◌≡◌, refl, ◌↔◌, ◌∙◌, sym, ap, Bool, true, Option, some, List, [], ◌∷◌, arith, ◌==◌, ==_iff,
  get_elem?,
}

-- The enumerators, in the order of the source.
pub data KeyCode : Type 0 where
  key_a key_b key_c key_d key_e key_f key_g key_h key_i key_j key_k key_l key_m : KeyCode
  key_n key_o key_p key_q key_r key_s key_t key_u key_v key_w key_x key_y key_z k0 : KeyCode
  k1 k2 k3 k4 k5 k6 k7 k8 k9 f1 f2 f3 f4 f5 f6 f7 f8 f9 f10 f11 f12 f13 f14 f15 f16 : KeyCode
  f17 f18 f19 f20 f21 f22 f23 f24 left_shift right_shift left_control right_control : KeyCode
  left_alt right_alt left_super right_super caps_lock num_lock scroll_lock escape : KeyCode
  tab enter backspace space insert delete home end_key page_up page_down : KeyCode
  print_screen pause menu arrow_up arrow_down arrow_left arrow_right minus equals : KeyCode
  left_bracket right_bracket back_slash semicolon apostrophe grave comma period : KeyCode
  forward_slash numpad0 numpad1 numpad2 numpad3 numpad4 numpad5 numpad6 numpad7 : KeyCode
  numpad8 numpad9 numpad_add numpad_subtract numpad_multiply numpad_divide : KeyCode
  numpad_enter numpad_decimal volume_up volume_down mute media_play_pause : KeyCode
  media_next media_prev media_stop browser_back browser_forward browser_refresh : KeyCode
  browser_search browser_favorites browser_home mail calculator computer sleep : KeyCode
  power katakana hiragana muhenkan henkan : KeyCode

-- The value behind an enumerator (`std::uint16_t`), by which C++ compares them.
unfoldable pub index : KeyCode → ℕ
index KeyCode.key_a = 0
index KeyCode.key_b = 1
index KeyCode.key_c = 2
index KeyCode.key_d = 3
index KeyCode.key_e = 4
index KeyCode.key_f = 5
index KeyCode.key_g = 6
index KeyCode.key_h = 7
index KeyCode.key_i = 8
index KeyCode.key_j = 9
index KeyCode.key_k = 10
index KeyCode.key_l = 11
index KeyCode.key_m = 12
index KeyCode.key_n = 13
index KeyCode.key_o = 14
index KeyCode.key_p = 15
index KeyCode.key_q = 16
index KeyCode.key_r = 17
index KeyCode.key_s = 18
index KeyCode.key_t = 19
index KeyCode.key_u = 20
index KeyCode.key_v = 21
index KeyCode.key_w = 22
index KeyCode.key_x = 23
index KeyCode.key_y = 24
index KeyCode.key_z = 25
index KeyCode.k0 = 26
index KeyCode.k1 = 27
index KeyCode.k2 = 28
index KeyCode.k3 = 29
index KeyCode.k4 = 30
index KeyCode.k5 = 31
index KeyCode.k6 = 32
index KeyCode.k7 = 33
index KeyCode.k8 = 34
index KeyCode.k9 = 35
index KeyCode.f1 = 36
index KeyCode.f2 = 37
index KeyCode.f3 = 38
index KeyCode.f4 = 39
index KeyCode.f5 = 40
index KeyCode.f6 = 41
index KeyCode.f7 = 42
index KeyCode.f8 = 43
index KeyCode.f9 = 44
index KeyCode.f10 = 45
index KeyCode.f11 = 46
index KeyCode.f12 = 47
index KeyCode.f13 = 48
index KeyCode.f14 = 49
index KeyCode.f15 = 50
index KeyCode.f16 = 51
index KeyCode.f17 = 52
index KeyCode.f18 = 53
index KeyCode.f19 = 54
index KeyCode.f20 = 55
index KeyCode.f21 = 56
index KeyCode.f22 = 57
index KeyCode.f23 = 58
index KeyCode.f24 = 59
index KeyCode.left_shift = 60
index KeyCode.right_shift = 61
index KeyCode.left_control = 62
index KeyCode.right_control = 63
index KeyCode.left_alt = 64
index KeyCode.right_alt = 65
index KeyCode.left_super = 66
index KeyCode.right_super = 67
index KeyCode.caps_lock = 68
index KeyCode.num_lock = 69
index KeyCode.scroll_lock = 70
index KeyCode.escape = 71
index KeyCode.tab = 72
index KeyCode.enter = 73
index KeyCode.backspace = 74
index KeyCode.space = 75
index KeyCode.insert = 76
index KeyCode.delete = 77
index KeyCode.home = 78
index KeyCode.end_key = 79
index KeyCode.page_up = 80
index KeyCode.page_down = 81
index KeyCode.print_screen = 82
index KeyCode.pause = 83
index KeyCode.menu = 84
index KeyCode.arrow_up = 85
index KeyCode.arrow_down = 86
index KeyCode.arrow_left = 87
index KeyCode.arrow_right = 88
index KeyCode.minus = 89
index KeyCode.equals = 90
index KeyCode.left_bracket = 91
index KeyCode.right_bracket = 92
index KeyCode.back_slash = 93
index KeyCode.semicolon = 94
index KeyCode.apostrophe = 95
index KeyCode.grave = 96
index KeyCode.comma = 97
index KeyCode.period = 98
index KeyCode.forward_slash = 99
index KeyCode.numpad0 = 100
index KeyCode.numpad1 = 101
index KeyCode.numpad2 = 102
index KeyCode.numpad3 = 103
index KeyCode.numpad4 = 104
index KeyCode.numpad5 = 105
index KeyCode.numpad6 = 106
index KeyCode.numpad7 = 107
index KeyCode.numpad8 = 108
index KeyCode.numpad9 = 109
index KeyCode.numpad_add = 110
index KeyCode.numpad_subtract = 111
index KeyCode.numpad_multiply = 112
index KeyCode.numpad_divide = 113
index KeyCode.numpad_enter = 114
index KeyCode.numpad_decimal = 115
index KeyCode.volume_up = 116
index KeyCode.volume_down = 117
index KeyCode.mute = 118
index KeyCode.media_play_pause = 119
index KeyCode.media_next = 120
index KeyCode.media_prev = 121
index KeyCode.media_stop = 122
index KeyCode.browser_back = 123
index KeyCode.browser_forward = 124
index KeyCode.browser_refresh = 125
index KeyCode.browser_search = 126
index KeyCode.browser_favorites = 127
index KeyCode.browser_home = 128
index KeyCode.mail = 129
index KeyCode.calculator = 130
index KeyCode.computer = 131
index KeyCode.sleep = 132
index KeyCode.power = 133
index KeyCode.katakana = 134
index KeyCode.hiragana = 135
index KeyCode.muhenkan = 136
index KeyCode.henkan = 137

-- Every enumerator once, at its own index.
abbrev pub all_codes : List KeyCode
all_codes =
    KeyCode.key_a ∷ KeyCode.key_b ∷ KeyCode.key_c ∷ KeyCode.key_d ∷ KeyCode.key_e ∷ KeyCode.key_f
    ∷ KeyCode.key_g ∷ KeyCode.key_h ∷ KeyCode.key_i ∷ KeyCode.key_j ∷ KeyCode.key_k ∷ KeyCode.key_l
    ∷ KeyCode.key_m ∷ KeyCode.key_n ∷ KeyCode.key_o ∷ KeyCode.key_p ∷ KeyCode.key_q ∷ KeyCode.key_r
    ∷ KeyCode.key_s ∷ KeyCode.key_t ∷ KeyCode.key_u ∷ KeyCode.key_v ∷ KeyCode.key_w ∷ KeyCode.key_x
    ∷ KeyCode.key_y ∷ KeyCode.key_z ∷ KeyCode.k0 ∷ KeyCode.k1 ∷ KeyCode.k2 ∷ KeyCode.k3 ∷ KeyCode.k4
    ∷ KeyCode.k5 ∷ KeyCode.k6 ∷ KeyCode.k7 ∷ KeyCode.k8 ∷ KeyCode.k9 ∷ KeyCode.f1 ∷ KeyCode.f2
    ∷ KeyCode.f3 ∷ KeyCode.f4 ∷ KeyCode.f5 ∷ KeyCode.f6 ∷ KeyCode.f7 ∷ KeyCode.f8 ∷ KeyCode.f9
    ∷ KeyCode.f10 ∷ KeyCode.f11 ∷ KeyCode.f12 ∷ KeyCode.f13 ∷ KeyCode.f14 ∷ KeyCode.f15
    ∷ KeyCode.f16 ∷ KeyCode.f17 ∷ KeyCode.f18 ∷ KeyCode.f19 ∷ KeyCode.f20 ∷ KeyCode.f21
    ∷ KeyCode.f22 ∷ KeyCode.f23 ∷ KeyCode.f24 ∷ KeyCode.left_shift ∷ KeyCode.right_shift
    ∷ KeyCode.left_control ∷ KeyCode.right_control ∷ KeyCode.left_alt ∷ KeyCode.right_alt
    ∷ KeyCode.left_super ∷ KeyCode.right_super ∷ KeyCode.caps_lock ∷ KeyCode.num_lock
    ∷ KeyCode.scroll_lock ∷ KeyCode.escape ∷ KeyCode.tab ∷ KeyCode.enter ∷ KeyCode.backspace
    ∷ KeyCode.space ∷ KeyCode.insert ∷ KeyCode.delete ∷ KeyCode.home ∷ KeyCode.end_key
    ∷ KeyCode.page_up ∷ KeyCode.page_down ∷ KeyCode.print_screen ∷ KeyCode.pause ∷ KeyCode.menu
    ∷ KeyCode.arrow_up ∷ KeyCode.arrow_down ∷ KeyCode.arrow_left ∷ KeyCode.arrow_right
    ∷ KeyCode.minus ∷ KeyCode.equals ∷ KeyCode.left_bracket ∷ KeyCode.right_bracket
    ∷ KeyCode.back_slash ∷ KeyCode.semicolon ∷ KeyCode.apostrophe ∷ KeyCode.grave ∷ KeyCode.comma
    ∷ KeyCode.period ∷ KeyCode.forward_slash ∷ KeyCode.numpad0 ∷ KeyCode.numpad1 ∷ KeyCode.numpad2
    ∷ KeyCode.numpad3 ∷ KeyCode.numpad4 ∷ KeyCode.numpad5 ∷ KeyCode.numpad6 ∷ KeyCode.numpad7
    ∷ KeyCode.numpad8 ∷ KeyCode.numpad9 ∷ KeyCode.numpad_add ∷ KeyCode.numpad_subtract
    ∷ KeyCode.numpad_multiply ∷ KeyCode.numpad_divide ∷ KeyCode.numpad_enter
    ∷ KeyCode.numpad_decimal ∷ KeyCode.volume_up ∷ KeyCode.volume_down ∷ KeyCode.mute
    ∷ KeyCode.media_play_pause ∷ KeyCode.media_next ∷ KeyCode.media_prev ∷ KeyCode.media_stop
    ∷ KeyCode.browser_back ∷ KeyCode.browser_forward ∷ KeyCode.browser_refresh
    ∷ KeyCode.browser_search ∷ KeyCode.browser_favorites ∷ KeyCode.browser_home ∷ KeyCode.mail
    ∷ KeyCode.calculator ∷ KeyCode.computer ∷ KeyCode.sleep ∷ KeyCode.power ∷ KeyCode.katakana
    ∷ KeyCode.hiragana ∷ KeyCode.muhenkan ∷ KeyCode.henkan ∷ []

-- `==` on the enumeration.
unfoldable pub code_eq : KeyCode → KeyCode → Bool
unfolding index
code_eq code other = index code == index other

pub get_elem?-index : (x : KeyCode) → get_elem? all_codes (index x) ≡ some x
unfolding index
get_elem?-index KeyCode.key_a = refl
get_elem?-index KeyCode.key_b = refl
get_elem?-index KeyCode.key_c = refl
get_elem?-index KeyCode.key_d = refl
get_elem?-index KeyCode.key_e = refl
get_elem?-index KeyCode.key_f = refl
get_elem?-index KeyCode.key_g = refl
get_elem?-index KeyCode.key_h = refl
get_elem?-index KeyCode.key_i = refl
get_elem?-index KeyCode.key_j = refl
get_elem?-index KeyCode.key_k = refl
get_elem?-index KeyCode.key_l = refl
get_elem?-index KeyCode.key_m = refl
get_elem?-index KeyCode.key_n = refl
get_elem?-index KeyCode.key_o = refl
get_elem?-index KeyCode.key_p = refl
get_elem?-index KeyCode.key_q = refl
get_elem?-index KeyCode.key_r = refl
get_elem?-index KeyCode.key_s = refl
get_elem?-index KeyCode.key_t = refl
get_elem?-index KeyCode.key_u = refl
get_elem?-index KeyCode.key_v = refl
get_elem?-index KeyCode.key_w = refl
get_elem?-index KeyCode.key_x = refl
get_elem?-index KeyCode.key_y = refl
get_elem?-index KeyCode.key_z = refl
get_elem?-index KeyCode.k0 = refl
get_elem?-index KeyCode.k1 = refl
get_elem?-index KeyCode.k2 = refl
get_elem?-index KeyCode.k3 = refl
get_elem?-index KeyCode.k4 = refl
get_elem?-index KeyCode.k5 = refl
get_elem?-index KeyCode.k6 = refl
get_elem?-index KeyCode.k7 = refl
get_elem?-index KeyCode.k8 = refl
get_elem?-index KeyCode.k9 = refl
get_elem?-index KeyCode.f1 = refl
get_elem?-index KeyCode.f2 = refl
get_elem?-index KeyCode.f3 = refl
get_elem?-index KeyCode.f4 = refl
get_elem?-index KeyCode.f5 = refl
get_elem?-index KeyCode.f6 = refl
get_elem?-index KeyCode.f7 = refl
get_elem?-index KeyCode.f8 = refl
get_elem?-index KeyCode.f9 = refl
get_elem?-index KeyCode.f10 = refl
get_elem?-index KeyCode.f11 = refl
get_elem?-index KeyCode.f12 = refl
get_elem?-index KeyCode.f13 = refl
get_elem?-index KeyCode.f14 = refl
get_elem?-index KeyCode.f15 = refl
get_elem?-index KeyCode.f16 = refl
get_elem?-index KeyCode.f17 = refl
get_elem?-index KeyCode.f18 = refl
get_elem?-index KeyCode.f19 = refl
get_elem?-index KeyCode.f20 = refl
get_elem?-index KeyCode.f21 = refl
get_elem?-index KeyCode.f22 = refl
get_elem?-index KeyCode.f23 = refl
get_elem?-index KeyCode.f24 = refl
get_elem?-index KeyCode.left_shift = refl
get_elem?-index KeyCode.right_shift = refl
get_elem?-index KeyCode.left_control = refl
get_elem?-index KeyCode.right_control = refl
get_elem?-index KeyCode.left_alt = refl
get_elem?-index KeyCode.right_alt = refl
get_elem?-index KeyCode.left_super = refl
get_elem?-index KeyCode.right_super = refl
get_elem?-index KeyCode.caps_lock = refl
get_elem?-index KeyCode.num_lock = refl
get_elem?-index KeyCode.scroll_lock = refl
get_elem?-index KeyCode.escape = refl
get_elem?-index KeyCode.tab = refl
get_elem?-index KeyCode.enter = refl
get_elem?-index KeyCode.backspace = refl
get_elem?-index KeyCode.space = refl
get_elem?-index KeyCode.insert = refl
get_elem?-index KeyCode.delete = refl
get_elem?-index KeyCode.home = refl
get_elem?-index KeyCode.end_key = refl
get_elem?-index KeyCode.page_up = refl
get_elem?-index KeyCode.page_down = refl
get_elem?-index KeyCode.print_screen = refl
get_elem?-index KeyCode.pause = refl
get_elem?-index KeyCode.menu = refl
get_elem?-index KeyCode.arrow_up = refl
get_elem?-index KeyCode.arrow_down = refl
get_elem?-index KeyCode.arrow_left = refl
get_elem?-index KeyCode.arrow_right = refl
get_elem?-index KeyCode.minus = refl
get_elem?-index KeyCode.equals = refl
get_elem?-index KeyCode.left_bracket = refl
get_elem?-index KeyCode.right_bracket = refl
get_elem?-index KeyCode.back_slash = refl
get_elem?-index KeyCode.semicolon = refl
get_elem?-index KeyCode.apostrophe = refl
get_elem?-index KeyCode.grave = refl
get_elem?-index KeyCode.comma = refl
get_elem?-index KeyCode.period = refl
get_elem?-index KeyCode.forward_slash = refl
get_elem?-index KeyCode.numpad0 = refl
get_elem?-index KeyCode.numpad1 = refl
get_elem?-index KeyCode.numpad2 = refl
get_elem?-index KeyCode.numpad3 = refl
get_elem?-index KeyCode.numpad4 = refl
get_elem?-index KeyCode.numpad5 = refl
get_elem?-index KeyCode.numpad6 = refl
get_elem?-index KeyCode.numpad7 = refl
get_elem?-index KeyCode.numpad8 = refl
get_elem?-index KeyCode.numpad9 = refl
get_elem?-index KeyCode.numpad_add = refl
get_elem?-index KeyCode.numpad_subtract = refl
get_elem?-index KeyCode.numpad_multiply = refl
get_elem?-index KeyCode.numpad_divide = refl
get_elem?-index KeyCode.numpad_enter = refl
get_elem?-index KeyCode.numpad_decimal = refl
get_elem?-index KeyCode.volume_up = refl
get_elem?-index KeyCode.volume_down = refl
get_elem?-index KeyCode.mute = refl
get_elem?-index KeyCode.media_play_pause = refl
get_elem?-index KeyCode.media_next = refl
get_elem?-index KeyCode.media_prev = refl
get_elem?-index KeyCode.media_stop = refl
get_elem?-index KeyCode.browser_back = refl
get_elem?-index KeyCode.browser_forward = refl
get_elem?-index KeyCode.browser_refresh = refl
get_elem?-index KeyCode.browser_search = refl
get_elem?-index KeyCode.browser_favorites = refl
get_elem?-index KeyCode.browser_home = refl
get_elem?-index KeyCode.mail = refl
get_elem?-index KeyCode.calculator = refl
get_elem?-index KeyCode.computer = refl
get_elem?-index KeyCode.sleep = refl
get_elem?-index KeyCode.power = refl
get_elem?-index KeyCode.katakana = refl
get_elem?-index KeyCode.hiragana = refl
get_elem?-index KeyCode.muhenkan = refl
get_elem?-index KeyCode.henkan = refl

index_injective : (x y : KeyCode) → index x ≡ index y → x ≡ y
index_injective code other h =
    cc (get_elem?-index code, get_elem?-index other, ap (get_elem? all_codes) h)

-- Two enumerators compare equal exactly when they are the same one.
pub code_eq_iff : (x y : KeyCode) → (code_eq x y ≡ true) ↔ (x ≡ y)
unfolding code_eq
code_eq_iff code other = (
  λ same. index_injective code other ((==_iff (index code) (index other)).0 same),
  λ same. (==_iff (index code) (index other)).1 (ap index same),
)
