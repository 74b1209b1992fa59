-- ===== src/KeyMap/Linux.antt =====
-- linux/src/key_map.cpp: the key codes of the kernel. The `KEY_` macros come from
-- linux/input-event-codes.h, and `value` gives their values.
use keybinder.Base.{String, ℕ, List, [], ◌∷◌}
use keybinder.KeyCode.{KeyCode}
use keybinder.BiMap.{BiMap, from_list}
use keybinder.BiMap.Keys.{number_key, code_key}

-- The initializer list of `int_to_keycode`.
abbrev pub linux_rows : (String → ℕ) → List (ℕ × KeyCode)
linux_rows value =
    (value "KEY_A", KeyCode.key_a)
    ∷ (value "KEY_B", KeyCode.key_b)
    ∷ (value "KEY_C", KeyCode.key_c)
    ∷ (value "KEY_D", KeyCode.key_d)
    ∷ (value "KEY_E", KeyCode.key_e)
    ∷ (value "KEY_F", KeyCode.key_f)
    ∷ (value "KEY_G", KeyCode.key_g)
    ∷ (value "KEY_H", KeyCode.key_h)
    ∷ (value "KEY_I", KeyCode.key_i)
    ∷ (value "KEY_J", KeyCode.key_j)
    ∷ (value "KEY_K", KeyCode.key_k)
    ∷ (value "KEY_L", KeyCode.key_l)
    ∷ (value "KEY_M", KeyCode.key_m)
    ∷ (value "KEY_N", KeyCode.key_n)
    ∷ (value "KEY_O", KeyCode.key_o)
    ∷ (value "KEY_P", KeyCode.key_p)
    ∷ (value "KEY_Q", KeyCode.key_q)
    ∷ (value "KEY_R", KeyCode.key_r)
    ∷ (value "KEY_S", KeyCode.key_s)
    ∷ (value "KEY_T", KeyCode.key_t)
    ∷ (value "KEY_U", KeyCode.key_u)
    ∷ (value "KEY_V", KeyCode.key_v)
    ∷ (value "KEY_W", KeyCode.key_w)
    ∷ (value "KEY_X", KeyCode.key_x)
    ∷ (value "KEY_Y", KeyCode.key_y)
    ∷ (value "KEY_Z", KeyCode.key_z)
    ∷ (value "KEY_0", KeyCode.k0)
    ∷ (value "KEY_1", KeyCode.k1)
    ∷ (value "KEY_2", KeyCode.k2)
    ∷ (value "KEY_3", KeyCode.k3)
    ∷ (value "KEY_4", KeyCode.k4)
    ∷ (value "KEY_5", KeyCode.k5)
    ∷ (value "KEY_6", KeyCode.k6)
    ∷ (value "KEY_7", KeyCode.k7)
    ∷ (value "KEY_8", KeyCode.k8)
    ∷ (value "KEY_9", KeyCode.k9)
    ∷ (value "KEY_F1", KeyCode.f1)
    ∷ (value "KEY_F2", KeyCode.f2)
    ∷ (value "KEY_F3", KeyCode.f3)
    ∷ (value "KEY_F4", KeyCode.f4)
    ∷ (value "KEY_F5", KeyCode.f5)
    ∷ (value "KEY_F6", KeyCode.f6)
    ∷ (value "KEY_F7", KeyCode.f7)
    ∷ (value "KEY_F8", KeyCode.f8)
    ∷ (value "KEY_F9", KeyCode.f9)
    ∷ (value "KEY_F10", KeyCode.f10)
    ∷ (value "KEY_F11", KeyCode.f11)
    ∷ (value "KEY_F12", KeyCode.f12)
    ∷ (value "KEY_LEFTSHIFT", KeyCode.left_shift)
    ∷ (value "KEY_RIGHTSHIFT", KeyCode.right_shift)
    ∷ (value "KEY_LEFTCTRL", KeyCode.left_control)
    ∷ (value "KEY_RIGHTCTRL", KeyCode.right_control)
    ∷ (value "KEY_LEFTALT", KeyCode.left_alt)
    ∷ (value "KEY_RIGHTALT", KeyCode.right_alt)
    ∷ (value "KEY_LEFTMETA", KeyCode.left_super)
    ∷ (value "KEY_RIGHTMETA", KeyCode.right_super)
    ∷ (value "KEY_ESC", KeyCode.escape)
    ∷ (value "KEY_TAB", KeyCode.tab)
    ∷ (value "KEY_ENTER", KeyCode.enter)
    ∷ (value "KEY_BACKSPACE", KeyCode.backspace)
    ∷ (value "KEY_SPACE", KeyCode.space)
    ∷ (value "KEY_INSERT", KeyCode.insert)
    ∷ (value "KEY_DELETE", KeyCode.delete)
    ∷ (value "KEY_HOME", KeyCode.home)
    ∷ (value "KEY_END", KeyCode.end_key)
    ∷ (value "KEY_PAGEUP", KeyCode.page_up)
    ∷ (value "KEY_PAGEDOWN", KeyCode.page_down)
    ∷ (value "KEY_SYSRQ", KeyCode.print_screen)
    ∷ (value "KEY_PAUSE", KeyCode.pause)
    ∷ (value "KEY_COMPOSE", KeyCode.menu)
    ∷ (value "KEY_CAPSLOCK", KeyCode.caps_lock)
    ∷ (value "KEY_NUMLOCK", KeyCode.num_lock)
    ∷ (value "KEY_SCROLLLOCK", KeyCode.scroll_lock)
    ∷ (value "KEY_UP", KeyCode.arrow_up)
    ∷ (value "KEY_DOWN", KeyCode.arrow_down)
    ∷ (value "KEY_LEFT", KeyCode.arrow_left)
    ∷ (value "KEY_RIGHT", KeyCode.arrow_right)
    ∷ (value "KEY_MINUS", KeyCode.minus)
    ∷ (value "KEY_EQUAL", KeyCode.equals)
    ∷ (value "KEY_LEFTBRACE", KeyCode.left_bracket)
    ∷ (value "KEY_RIGHTBRACE", KeyCode.right_bracket)
    ∷ (value "KEY_BACKSLASH", KeyCode.back_slash)
    ∷ (value "KEY_SEMICOLON", KeyCode.semicolon)
    ∷ (value "KEY_APOSTROPHE", KeyCode.apostrophe)
    ∷ (value "KEY_GRAVE", KeyCode.grave)
    ∷ (value "KEY_COMMA", KeyCode.comma)
    ∷ (value "KEY_DOT", KeyCode.period)
    ∷ (value "KEY_SLASH", KeyCode.forward_slash)
    ∷ (value "KEY_KP0", KeyCode.numpad0)
    ∷ (value "KEY_KP1", KeyCode.numpad1)
    ∷ (value "KEY_KP2", KeyCode.numpad2)
    ∷ (value "KEY_KP3", KeyCode.numpad3)
    ∷ (value "KEY_KP4", KeyCode.numpad4)
    ∷ (value "KEY_KP5", KeyCode.numpad5)
    ∷ (value "KEY_KP6", KeyCode.numpad6)
    ∷ (value "KEY_KP7", KeyCode.numpad7)
    ∷ (value "KEY_KP8", KeyCode.numpad8)
    ∷ (value "KEY_KP9", KeyCode.numpad9)
    ∷ (value "KEY_KPPLUS", KeyCode.numpad_add)
    ∷ (value "KEY_KPMINUS", KeyCode.numpad_subtract)
    ∷ (value "KEY_KPASTERISK", KeyCode.numpad_multiply)
    ∷ (value "KEY_KPSLASH", KeyCode.numpad_divide)
    ∷ (value "KEY_KPENTER", KeyCode.numpad_enter)
    ∷ (value "KEY_KPDOT", KeyCode.numpad_decimal)
    ∷ (value "KEY_VOLUMEUP", KeyCode.volume_up)
    ∷ (value "KEY_VOLUMEDOWN", KeyCode.volume_down)
    ∷ (value "KEY_MUTE", KeyCode.mute)
    ∷ (value "KEY_NEXTSONG", KeyCode.media_next)
    ∷ (value "KEY_PREVIOUSSONG", KeyCode.media_prev)
    ∷ (value "KEY_PLAYPAUSE", KeyCode.media_play_pause)
    ∷ (value "KEY_STOPCD", KeyCode.media_stop)
    ∷ (value "KEY_BACK", KeyCode.browser_back)
    ∷ (value "KEY_FORWARD", KeyCode.browser_forward)
    ∷ (value "KEY_REFRESH", KeyCode.browser_refresh)
    ∷ (value "KEY_HOMEPAGE", KeyCode.browser_home)
    ∷ (value "KEY_SEARCH", KeyCode.browser_search)
    ∷ (value "KEY_FAVORITES", KeyCode.browser_favorites)
    ∷ (value "KEY_MAIL", KeyCode.mail)
    ∷ (value "KEY_CALC", KeyCode.calculator)
    ∷ (value "KEY_COMPUTER", KeyCode.computer)
    ∷ (value "KEY_SLEEP", KeyCode.sleep)
    ∷ (value "KEY_POWER", KeyCode.power)
    ∷ (value "KEY_HIRAGANA", KeyCode.hiragana)
    ∷ (value "KEY_KATAKANA", KeyCode.katakana)
    ∷ (value "KEY_MUHENKAN", KeyCode.muhenkan)
    ∷ (value "KEY_HENKAN", KeyCode.henkan)
    ∷ []

unfoldable pub linux_int_to_keycode : (String → ℕ) → BiMap ℕ KeyCode
unfolding from_list
linux_int_to_keycode value = from_list (linux_rows value)
