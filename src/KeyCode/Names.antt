-- ===== src/KeyCode/Names.antt =====
-- common/src/key_code.cpp: the names by which profiles and the key counter call the keys.
use keybinder.Base.{String, List, [], ◌∷◌}
use keybinder.KeyCode.{KeyCode}
use keybinder.BiMap.{BiMap, from_list}
use keybinder.BiMap.Keys.{string_key, code_key}

-- The initializer list of `str_to_keycode`.
abbrev pub name_rows : List (String × KeyCode)
name_rows =
    ("A", KeyCode.key_a)
    ∷ ("B", KeyCode.key_b)
    ∷ ("C", KeyCode.key_c)
    ∷ ("D", KeyCode.key_d)
    ∷ ("E", KeyCode.key_e)
    ∷ ("F", KeyCode.key_f)
    ∷ ("G", KeyCode.key_g)
    ∷ ("H", KeyCode.key_h)
    ∷ ("I", KeyCode.key_i)
    ∷ ("J", KeyCode.key_j)
    ∷ ("K", KeyCode.key_k)
    ∷ ("L", KeyCode.key_l)
    ∷ ("M", KeyCode.key_m)
    ∷ ("N", KeyCode.key_n)
    ∷ ("O", KeyCode.key_o)
    ∷ ("P", KeyCode.key_p)
    ∷ ("Q", KeyCode.key_q)
    ∷ ("R", KeyCode.key_r)
    ∷ ("S", KeyCode.key_s)
    ∷ ("T", KeyCode.key_t)
    ∷ ("U", KeyCode.key_u)
    ∷ ("V", KeyCode.key_v)
    ∷ ("W", KeyCode.key_w)
    ∷ ("X", KeyCode.key_x)
    ∷ ("Y", KeyCode.key_y)
    ∷ ("Z", KeyCode.key_z)
    ∷ ("0", KeyCode.k0)
    ∷ ("1", KeyCode.k1)
    ∷ ("2", KeyCode.k2)
    ∷ ("3", KeyCode.k3)
    ∷ ("4", KeyCode.k4)
    ∷ ("5", KeyCode.k5)
    ∷ ("6", KeyCode.k6)
    ∷ ("7", KeyCode.k7)
    ∷ ("8", KeyCode.k8)
    ∷ ("9", KeyCode.k9)
    ∷ ("F1", KeyCode.f1)
    ∷ ("F2", KeyCode.f2)
    ∷ ("F3", KeyCode.f3)
    ∷ ("F4", KeyCode.f4)
    ∷ ("F5", KeyCode.f5)
    ∷ ("F6", KeyCode.f6)
    ∷ ("F7", KeyCode.f7)
    ∷ ("F8", KeyCode.f8)
    ∷ ("F9", KeyCode.f9)
    ∷ ("F10", KeyCode.f10)
    ∷ ("F11", KeyCode.f11)
    ∷ ("F12", KeyCode.f12)
    ∷ ("F13", KeyCode.f13)
    ∷ ("F14", KeyCode.f14)
    ∷ ("F15", KeyCode.f15)
    ∷ ("F16", KeyCode.f16)
    ∷ ("F17", KeyCode.f17)
    ∷ ("F18", KeyCode.f18)
    ∷ ("F19", KeyCode.f19)
    ∷ ("F20", KeyCode.f20)
    ∷ ("F21", KeyCode.f21)
    ∷ ("F22", KeyCode.f22)
    ∷ ("F23", KeyCode.f23)
    ∷ ("F24", KeyCode.f24)
    ∷ ("LeftShift", KeyCode.left_shift)
    ∷ ("RightShift", KeyCode.right_shift)
    ∷ ("LeftControl", KeyCode.left_control)
    ∷ ("RightControl", KeyCode.right_control)
    ∷ ("LeftAlt", KeyCode.left_alt)
    ∷ ("RightAlt", KeyCode.right_alt)
    ∷ ("LeftSuper", KeyCode.left_super)
    ∷ ("RightSuper", KeyCode.right_super)
    ∷ ("Escape", KeyCode.escape)
    ∷ ("Tab", KeyCode.tab)
    ∷ ("Enter", KeyCode.enter)
    ∷ ("Backspace", KeyCode.backspace)
    ∷ ("Space", KeyCode.space)
    ∷ ("Insert", KeyCode.insert)
    ∷ ("Delete", KeyCode.delete)
    ∷ ("Home", KeyCode.home)
    ∷ ("End", KeyCode.end_key)
    ∷ ("PageUp", KeyCode.page_up)
    ∷ ("PageDown", KeyCode.page_down)
    ∷ ("PrintScreen", KeyCode.print_screen)
    ∷ ("Pause", KeyCode.pause)
    ∷ ("Menu", KeyCode.menu)
    ∷ ("CapsLock", KeyCode.caps_lock)
    ∷ ("NumLock", KeyCode.num_lock)
    ∷ ("ScrollLock", KeyCode.scroll_lock)
    ∷ ("ArrowUp", KeyCode.arrow_up)
    ∷ ("ArrowDown", KeyCode.arrow_down)
    ∷ ("ArrowLeft", KeyCode.arrow_left)
    ∷ ("ArrowRight", KeyCode.arrow_right)
    ∷ ("Minus", KeyCode.minus)
    ∷ ("Equals", KeyCode.equals)
    ∷ ("LeftBracket", KeyCode.left_bracket)
    ∷ ("RightBracket", KeyCode.right_bracket)
    ∷ ("Backslash", KeyCode.back_slash)
    ∷ ("Semicolon", KeyCode.semicolon)
    ∷ ("Apostrophe", KeyCode.apostrophe)
    ∷ ("Grave", KeyCode.grave)
    ∷ ("Comma", KeyCode.comma)
    ∷ ("Period", KeyCode.period)
    ∷ ("Slash", KeyCode.forward_slash)
    ∷ ("Numpad0", KeyCode.numpad0)
    ∷ ("Numpad1", KeyCode.numpad1)
    ∷ ("Numpad2", KeyCode.numpad2)
    ∷ ("Numpad3", KeyCode.numpad3)
    ∷ ("Numpad4", KeyCode.numpad4)
    ∷ ("Numpad5", KeyCode.numpad5)
    ∷ ("Numpad6", KeyCode.numpad6)
    ∷ ("Numpad7", KeyCode.numpad7)
    ∷ ("Numpad8", KeyCode.numpad8)
    ∷ ("Numpad9", KeyCode.numpad9)
    ∷ ("NumpadAdd", KeyCode.numpad_add)
    ∷ ("NumpadSubtract", KeyCode.numpad_subtract)
    ∷ ("NumpadMultiply", KeyCode.numpad_multiply)
    ∷ ("NumpadDivide", KeyCode.numpad_divide)
    ∷ ("NumpadEnter", KeyCode.numpad_enter)
    ∷ ("NumpadDecimal", KeyCode.numpad_decimal)
    ∷ ("VolumeUp", KeyCode.volume_up)
    ∷ ("VolumeDown", KeyCode.volume_down)
    ∷ ("Mute", KeyCode.mute)
    ∷ ("MediaNext", KeyCode.media_next)
    ∷ ("MediaPrev", KeyCode.media_prev)
    ∷ ("MediaPlayPause", KeyCode.media_play_pause)
    ∷ ("MediaStop", KeyCode.media_stop)
    ∷ ("BrowserBack", KeyCode.browser_back)
    ∷ ("BrowserForward", KeyCode.browser_forward)
    ∷ ("BrowserRefresh", KeyCode.browser_refresh)
    ∷ ("BrowserHome", KeyCode.browser_home)
    ∷ ("BrowserSearch", KeyCode.browser_search)
    ∷ ("BrowserFavorites", KeyCode.browser_favorites)
    ∷ ("Mail", KeyCode.mail)
    ∷ ("Calculator", KeyCode.calculator)
    ∷ ("Computer", KeyCode.computer)
    ∷ ("Sleep", KeyCode.sleep)
    ∷ ("Power", KeyCode.power)
    ∷ ("Hiragana", KeyCode.hiragana)
    ∷ ("Katakana", KeyCode.katakana)
    ∷ ("Muhenkan", KeyCode.muhenkan)
    ∷ ("Henkan", KeyCode.henkan)
    ∷ []

unfoldable pub str_to_keycode : BiMap String KeyCode
unfolding from_list
str_to_keycode = from_list name_rows
