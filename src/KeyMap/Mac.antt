-- ===== src/KeyMap/Mac.antt =====
-- mac/src/key_map.cpp: the usages of the HID keyboard page.
use keybinder.Base.{ℕ, List, [], ◌∷◌}
use keybinder.KeyCode.{KeyCode}
use keybinder.BiMap.{BiMap, from_list}
use keybinder.BiMap.Keys.{number_key, code_key}

-- The initializer list of `int_to_keycode`.
abbrev pub mac_rows : List (ℕ × KeyCode)
mac_rows =
    (4, KeyCode.key_a)
    ∷ (5, KeyCode.key_b)
    ∷ (6, KeyCode.key_c)
    ∷ (7, KeyCode.key_d)
    ∷ (8, KeyCode.key_e)
    ∷ (9, KeyCode.key_f)
    ∷ (10, KeyCode.key_g)
    ∷ (11, KeyCode.key_h)
    ∷ (12, KeyCode.key_i)
    ∷ (13, KeyCode.key_j)
    ∷ (14, KeyCode.key_k)
    ∷ (15, KeyCode.key_l)
    ∷ (16, KeyCode.key_m)
    ∷ (17, KeyCode.key_n)
    ∷ (18, KeyCode.key_o)
    ∷ (19, KeyCode.key_p)
    ∷ (20, KeyCode.key_q)
    ∷ (21, KeyCode.key_r)
    ∷ (22, KeyCode.key_s)
    ∷ (23, KeyCode.key_t)
    ∷ (24, KeyCode.key_u)
    ∷ (25, KeyCode.key_v)
    ∷ (26, KeyCode.key_w)
    ∷ (27, KeyCode.key_x)
    ∷ (28, KeyCode.key_y)
    ∷ (29, KeyCode.key_z)
    ∷ (30, KeyCode.k1)
    ∷ (31, KeyCode.k2)
    ∷ (32, KeyCode.k3)
    ∷ (33, KeyCode.k4)
    ∷ (34, KeyCode.k5)
    ∷ (35, KeyCode.k6)
    ∷ (36, KeyCode.k7)
    ∷ (37, KeyCode.k8)
    ∷ (38, KeyCode.k9)
    ∷ (39, KeyCode.k0)
    ∷ (58, KeyCode.f1)
    ∷ (59, KeyCode.f2)
    ∷ (60, KeyCode.f3)
    ∷ (61, KeyCode.f4)
    ∷ (62, KeyCode.f5)
    ∷ (63, KeyCode.f6)
    ∷ (64, KeyCode.f7)
    ∷ (65, KeyCode.f8)
    ∷ (66, KeyCode.f9)
    ∷ (67, KeyCode.f10)
    ∷ (68, KeyCode.f11)
    ∷ (69, KeyCode.f12)
    ∷ (104, KeyCode.f13)
    ∷ (105, KeyCode.f14)
    ∷ (106, KeyCode.f15)
    ∷ (107, KeyCode.f16)
    ∷ (108, KeyCode.f17)
    ∷ (109, KeyCode.f18)
    ∷ (110, KeyCode.f19)
    ∷ (111, KeyCode.f20)
    ∷ (112, KeyCode.f21)
    ∷ (113, KeyCode.f22)
    ∷ (114, KeyCode.f23)
    ∷ (115, KeyCode.f24)
    ∷ (225, KeyCode.left_shift)
    ∷ (229, KeyCode.right_shift)
    ∷ (224, KeyCode.left_control)
    ∷ (228, KeyCode.right_control)
    ∷ (226, KeyCode.left_alt)
    ∷ (230, KeyCode.right_alt)
    ∷ (227, KeyCode.left_super)
    ∷ (231, KeyCode.right_super)
    ∷ (57, KeyCode.caps_lock)
    ∷ (83, KeyCode.num_lock)
    ∷ (71, KeyCode.scroll_lock)
    ∷ (41, KeyCode.escape)
    ∷ (43, KeyCode.tab)
    ∷ (40, KeyCode.enter)
    ∷ (42, KeyCode.backspace)
    ∷ (44, KeyCode.space)
    ∷ (73, KeyCode.insert)
    ∷ (76, KeyCode.delete)
    ∷ (74, KeyCode.home)
    ∷ (77, KeyCode.end_key)
    ∷ (75, KeyCode.page_up)
    ∷ (78, KeyCode.page_down)
    ∷ (70, KeyCode.print_screen)
    ∷ (72, KeyCode.pause)
    ∷ (101, KeyCode.menu)
    ∷ (82, KeyCode.arrow_up)
    ∷ (81, KeyCode.arrow_down)
    ∷ (80, KeyCode.arrow_left)
    ∷ (79, KeyCode.arrow_right)
    ∷ (45, KeyCode.minus)
    ∷ (46, KeyCode.equals)
    ∷ (47, KeyCode.left_bracket)
    ∷ (48, KeyCode.right_bracket)
    ∷ (49, KeyCode.back_slash)
    ∷ (51, KeyCode.semicolon)
    ∷ (52, KeyCode.apostrophe)
    ∷ (53, KeyCode.grave)
    ∷ (54, KeyCode.comma)
    ∷ (55, KeyCode.period)
    ∷ (56, KeyCode.forward_slash)
    ∷ (98, KeyCode.numpad0)
    ∷ (89, KeyCode.numpad1)
    ∷ (90, KeyCode.numpad2)
    ∷ (91, KeyCode.numpad3)
    ∷ (92, KeyCode.numpad4)
    ∷ (93, KeyCode.numpad5)
    ∷ (94, KeyCode.numpad6)
    ∷ (95, KeyCode.numpad7)
    ∷ (96, KeyCode.numpad8)
    ∷ (97, KeyCode.numpad9)
    ∷ (87, KeyCode.numpad_add)
    ∷ (86, KeyCode.numpad_subtract)
    ∷ (85, KeyCode.numpad_multiply)
    ∷ (84, KeyCode.numpad_divide)
    ∷ (88, KeyCode.numpad_enter)
    ∷ (99, KeyCode.numpad_decimal)
    ∷ (128, KeyCode.volume_up)
    ∷ (129, KeyCode.volume_down)
    ∷ (127, KeyCode.mute)
    ∷ []

unfoldable pub mac_int_to_keycode : BiMap ℕ KeyCode
unfolding from_list
mac_int_to_keycode = from_list mac_rows
