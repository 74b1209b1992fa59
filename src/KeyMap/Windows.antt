-- ===== src/KeyMap/Windows.antt =====
-- win/src/key_map.cpp: virtual key codes. The `VK_` macros come from windows.h, and `value` gives
-- their values.
use keybinder.Base.{String, ℕ, List, [], ◌∷◌}
use keybinder.KeyCode.{KeyCode}
use keybinder.BiMap.{BiMap, from_list}
use keybinder.BiMap.Keys.{number_key, code_key}

-- The initializer list of `int_to_keycode`.
abbrev pub windows_rows : (String → ℕ) → List (ℕ × KeyCode)
windows_rows value =
    (65, KeyCode.key_a)
    ∷ (66, KeyCode.key_b)
    ∷ (67, KeyCode.key_c)
    ∷ (68, KeyCode.key_d)
    ∷ (69, KeyCode.key_e)
    ∷ (70, KeyCode.key_f)
    ∷ (71, KeyCode.key_g)
    ∷ (72, KeyCode.key_h)
    ∷ (73, KeyCode.key_i)
    ∷ (74, KeyCode.key_j)
    ∷ (75, KeyCode.key_k)
    ∷ (76, KeyCode.key_l)
    ∷ (77, KeyCode.key_m)
    ∷ (78, KeyCode.key_n)
    ∷ (79, KeyCode.key_o)
    ∷ (80, KeyCode.key_p)
    ∷ (81, KeyCode.key_q)
    ∷ (82, KeyCode.key_r)
    ∷ (83, KeyCode.key_s)
    ∷ (84, KeyCode.key_t)
    ∷ (85, KeyCode.key_u)
    ∷ (86, KeyCode.key_v)
    ∷ (87, KeyCode.key_w)
    ∷ (88, KeyCode.key_x)
    ∷ (89, KeyCode.key_y)
    ∷ (90, KeyCode.key_z)
    ∷ (48, KeyCode.k0)
    ∷ (49, KeyCode.k1)
    ∷ (50, KeyCode.k2)
    ∷ (51, KeyCode.k3)
    ∷ (52, KeyCode.k4)
    ∷ (53, KeyCode.k5)
    ∷ (54, KeyCode.k6)
    ∷ (55, KeyCode.k7)
    ∷ (56, KeyCode.k8)
    ∷ (57, KeyCode.k9)
    ∷ (value "VK_F1", KeyCode.f1)
    ∷ (value "VK_F2", KeyCode.f2)
    ∷ (value "VK_F3", KeyCode.f3)
    ∷ (value "VK_F4", KeyCode.f4)
    ∷ (value "VK_F5", KeyCode.f5)
    ∷ (value "VK_F6", KeyCode.f6)
    ∷ (value "VK_F7", KeyCode.f7)
    ∷ (value "VK_F8", KeyCode.f8)
    ∷ (value "VK_F9", KeyCode.f9)
    ∷ (value "VK_F10", KeyCode.f10)
    ∷ (value "VK_F11", KeyCode.f11)
    ∷ (value "VK_F12", KeyCode.f12)
    ∷ (value "VK_LSHIFT", KeyCode.left_shift)
    ∷ (value "VK_RSHIFT", KeyCode.right_shift)
    ∷ (value "VK_LCONTROL", KeyCode.left_control)
    ∷ (value "VK_RCONTROL", KeyCode.right_control)
    ∷ (value "VK_LMENU", KeyCode.left_alt)
    ∷ (value "VK_RMENU", KeyCode.right_alt)
    ∷ (value "VK_LWIN", KeyCode.left_super)
    ∷ (value "VK_RWIN", KeyCode.right_super)
    ∷ (value "VK_ESCAPE", KeyCode.escape)
    ∷ (value "VK_TAB", KeyCode.tab)
    ∷ (value "VK_RETURN", KeyCode.enter)
    ∷ (value "VK_BACK", KeyCode.backspace)
    ∷ (value "VK_SPACE", KeyCode.space)
    ∷ (value "VK_INSERT", KeyCode.insert)
    ∷ (value "VK_DELETE", KeyCode.delete)
    ∷ (value "VK_HOME", KeyCode.home)
    ∷ (value "VK_END", KeyCode.end_key)
    ∷ (value "VK_PRIOR", KeyCode.page_up)
    ∷ (value "VK_NEXT", KeyCode.page_down)
    ∷ (value "VK_SNAPSHOT", KeyCode.print_screen)
    ∷ (value "VK_PAUSE", KeyCode.pause)
    ∷ (value "VK_APPS", KeyCode.menu)
    ∷ (value "VK_CAPITAL", KeyCode.caps_lock)
    ∷ (value "VK_NUMLOCK", KeyCode.num_lock)
    ∷ (value "VK_SCROLL", KeyCode.scroll_lock)
    ∷ (value "VK_UP", KeyCode.arrow_up)
    ∷ (value "VK_DOWN", KeyCode.arrow_down)
    ∷ (value "VK_LEFT", KeyCode.arrow_left)
    ∷ (value "VK_RIGHT", KeyCode.arrow_right)
    ∷ (value "VK_OEM_MINUS", KeyCode.minus)
    ∷ (value "VK_OEM_PLUS", KeyCode.equals)
    ∷ (value "VK_OEM_4", KeyCode.left_bracket)
    ∷ (value "VK_OEM_6", KeyCode.right_bracket)
    ∷ (value "VK_OEM_5", KeyCode.back_slash)
    ∷ (value "VK_OEM_1", KeyCode.semicolon)
    ∷ (value "VK_OEM_7", KeyCode.apostrophe)
    ∷ (value "VK_OEM_3", KeyCode.grave)
    ∷ (value "VK_OEM_COMMA", KeyCode.comma)
    ∷ (value "VK_OEM_PERIOD", KeyCode.period)
    ∷ (value "VK_OEM_2", KeyCode.forward_slash)
    ∷ (value "VK_NUMPAD0", KeyCode.numpad0)
    ∷ (value "VK_NUMPAD1", KeyCode.numpad1)
    ∷ (value "VK_NUMPAD2", KeyCode.numpad2)
    ∷ (value "VK_NUMPAD3", KeyCode.numpad3)
    ∷ (value "VK_NUMPAD4", KeyCode.numpad4)
    ∷ (value "VK_NUMPAD5", KeyCode.numpad5)
    ∷ (value "VK_NUMPAD6", KeyCode.numpad6)
    ∷ (value "VK_NUMPAD7", KeyCode.numpad7)
    ∷ (value "VK_NUMPAD8", KeyCode.numpad8)
    ∷ (value "VK_NUMPAD9", KeyCode.numpad9)
    ∷ (value "VK_ADD", KeyCode.numpad_add)
    ∷ (value "VK_SUBTRACT", KeyCode.numpad_subtract)
    ∷ (value "VK_MULTIPLY", KeyCode.numpad_multiply)
    ∷ (value "VK_DIVIDE", KeyCode.numpad_divide)
    ∷ (value "VK_DECIMAL", KeyCode.numpad_decimal)
    ∷ (value "VK_RETURN", KeyCode.numpad_enter)
    ∷ (value "VK_VOLUME_UP", KeyCode.volume_up)
    ∷ (value "VK_VOLUME_DOWN", KeyCode.volume_down)
    ∷ (value "VK_VOLUME_MUTE", KeyCode.mute)
    ∷ (value "VK_MEDIA_NEXT_TRACK", KeyCode.media_next)
    ∷ (value "VK_MEDIA_PREV_TRACK", KeyCode.media_prev)
    ∷ (value "VK_MEDIA_PLAY_PAUSE", KeyCode.media_play_pause)
    ∷ (value "VK_MEDIA_STOP", KeyCode.media_stop)
    ∷ (value "VK_BROWSER_BACK", KeyCode.browser_back)
    ∷ (value "VK_BROWSER_FORWARD", KeyCode.browser_forward)
    ∷ (value "VK_BROWSER_REFRESH", KeyCode.browser_refresh)
    ∷ (value "VK_BROWSER_SEARCH", KeyCode.browser_search)
    ∷ (value "VK_BROWSER_FAVORITES", KeyCode.browser_favorites)
    ∷ (value "VK_BROWSER_HOME", KeyCode.browser_home)
    ∷ (value "VK_LAUNCH_MAIL", KeyCode.mail)
    ∷ (value "VK_LAUNCH_APP2", KeyCode.calculator)
    ∷ (value "VK_LAUNCH_APP1", KeyCode.computer)
    ∷ (value "VK_SLEEP", KeyCode.sleep)
    ∷ []

unfoldable pub windows_int_to_keycode : (String → ℕ) → BiMap ℕ KeyCode
unfolding from_list
windows_int_to_keycode value = from_list (windows_rows value)
