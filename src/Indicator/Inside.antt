-- ===== src/Indicator/Inside.antt =====
-- A notice of common/src/generic_indicator.cpp is on its screen.
use keybinder.Base.{
  ◌+◌, ◌≤◌, ◌≡◌, refl, ap, ◌∙◌, ◌⊎◌, inl, inr, true, false, Bool-cases, List, [], ◌∷◌, ◌++◌, Option,
  none, some, All, arith,
}
use keybinder.Indicator.{
  IndicatorPosition, Rect, Point, Screen, position, place_in_position, choose_screen, first_under,
  ℤ, pos, negsuc, above, below, ◌+ℤ◌, ◌-ℤ◌, ◌≤ℤ◌, half, add_parts, sub_parts, half-bound,
}

-- A side of a window, from `p` on, is within a side of the screen.
abbrev pub Within : ℤ → ℤ → ℤ → ℤ → Type 0
Within start length p size = (start ≤ℤ p) × (p +ℤ size ≤ℤ start +ℤ length)

-- At the far end, with a margin.
far_end :
    (start length size margin : ℤ)
    → pos 0 ≤ℤ margin
    → size +ℤ margin ≤ℤ length
    → Within start length (start +ℤ length -ℤ size -ℤ margin) size
far_end start length size margin m h =
    let end = start +ℤ length in
    let p = end -ℤ size -ℤ margin in
    let e1 = add_parts start length in
    let e2 = sub_parts end size in
    let e3 = sub_parts (end -ℤ size) margin in
    let e4 = add_parts size margin in
    let e5 = add_parts p size in
    (omega (arith, h, e1, e2, e3, e4), omega (arith, m, e1, e2, e3, e5))

-- At the near end, with a margin.
near_end :
    (start length size margin : ℤ)
    → pos 0 ≤ℤ margin
    → size +ℤ margin ≤ℤ length
    → Within start length (start +ℤ margin) size
near_end start length size margin m h =
    let e1 = add_parts start length in
    let e2 = add_parts start margin in
    let e3 = add_parts size margin in
    let e4 = add_parts (start +ℤ margin) size in
    (omega (arith, m, e2), omega (arith, h, e1, e2, e3, e4))

-- Half of what is not negative lies between 0 and it.
half_parts :
    (d : ℤ)
    → pos 0 ≤ℤ d
    → (below (half d) ≤ above (half d))
      × (above (half d) + above (half d) + below d ≤ below (half d) + below (half d) + above d)
half_parts (pos n) h = (omega arith, omega (arith, half-bound n))
half_parts (negsuc n) h = absurd (omega (arith, h))

middle :
    (start length size : ℤ)
    → size ≤ℤ length
    → Within start length (start +ℤ half (length -ℤ size)) size
middle start length size h =
    let gap = length -ℤ size in
    let e1 = sub_parts length size in
    let (low, high) = half_parts gap (omega (arith, h, e1)) in
    let e2 = add_parts start (half gap) in
    let e3 = add_parts (start +ℤ half gap) size in
    let e4 = add_parts start length in
    (omega (arith, low, e2), omega (arith, low, high, e1, e2, e3, e4))

-- The window is inside the geometry.
abbrev pub Inside : Rect → ℤ → ℤ → Point → Type 0
Inside g width height p = Within g.x g.width p.x width × Within g.y g.height p.y height

position-Inside :
    (location : IndicatorPosition) (g : Rect) (width height : ℤ)
    → width +ℤ pos 20 ≤ℤ g.width
    → height +ℤ pos 40 ≤ℤ g.height
    → Inside g width height (position location g width height)
unfolding position
position-Inside IndicatorPosition.bottom_right g width height h v = (
  far_end g.x g.width width (pos 20) (omega arith) h,
  far_end g.y g.height height (pos 40) (omega arith) v,
)
position-Inside IndicatorPosition.bottom_left g width height h v = (
  near_end g.x g.width width (pos 20) (omega arith) h,
  far_end g.y g.height height (pos 40) (omega arith) v,
)
position-Inside IndicatorPosition.top_right g width height h v = (
  far_end g.x g.width width (pos 20) (omega arith) h,
  near_end g.y g.height height (pos 40) (omega arith) v,
)
position-Inside IndicatorPosition.top_left g width height h v = (
  near_end g.x g.width width (pos 20) (omega arith) h,
  near_end g.y g.height height (pos 40) (omega arith) v,
)
position-Inside IndicatorPosition.center g width height h v = (
  middle g.x g.width width (omega (arith, h, add_parts width (pos 20))),
  middle g.y g.height height (omega (arith, v, add_parts height (pos 40))),
)

-- A window of this size has room on the screen, with the margins.
abbrev pub Roomy : ℤ → ℤ → Screen → Type 0
Roomy width height s =
    (width +ℤ pos 20 ≤ℤ s.available_geometry.width)
    × (height +ℤ pos 40 ≤ℤ s.available_geometry.height)

-- The notice is on this screen.
abbrev pub PlacedOn : IndicatorPosition → ℤ → ℤ → Option Screen → Screen → Type 0
PlacedOn location width height chosen s =
    (chosen ≡ some s)
    × ((p : Point) × (place_in_position location chosen width height ≡ some p)
        × Inside s.available_geometry width height p)

-- The first of these screens that contains the cursor.
abbrev pub FirstUnder : List Screen → Screen → Type 0
FirstUnder screens s =
    (s.contains_cursor ≡ true)
    × ((before : List Screen) × (after : List Screen) × (screens ≡ before ++ s ∷ after)
        × All (λ t. t.contains_cursor ≡ false) before)

-- Where the screen comes from: the one at the cursor, or else the first whose geometry contains the
-- cursor, or else the primary one.
abbrev pub Source : Option Screen → List Screen → Screen → Screen → Type 0
Source at_cursor screens primary s =
    (at_cursor ≡ some s)
    ⊎ ((at_cursor ≡ none)
        × (FirstUnder screens s ⊎ (All (λ t. t.contains_cursor ≡ false) screens × (s ≡ primary))))

placed :
    (location : IndicatorPosition) (s : Screen) (width height : ℤ)
    → Roomy width height s
    → PlacedOn location width height (some s) s
unfolding place_in_position
placed location s width height room = (
  refl,
  (
    position location s.available_geometry width height,
    refl,
    position-Inside location s.available_geometry width height room.0 room.1,
  ),
)

first_under-here :
    (t : Screen) (rest : List Screen) → t.contains_cursor ≡ true → first_under (t ∷ rest) ≡ some t
unfolding first_under
first_under-here t rest h = rw h refl

first_under-later :
    (t : Screen) (rest : List Screen)
    → t.contains_cursor ≡ false
    → first_under (t ∷ rest) ≡ first_under rest
unfolding first_under
first_under-later t rest h = rw h refl

-- What `first_under` finds, with the room that the screens have.
first_under_lem :
    (width height : ℤ) (screens : List Screen)
    → All (Roomy width height) screens
    → ((s : Screen) × (first_under screens ≡ some s) × Roomy width height s × FirstUnder screens s)
      ⊎ ((first_under screens ≡ none) × All (λ t. t.contains_cursor ≡ false) screens)
unfolding first_under
first_under_lem width height [] room = inr (refl, tt)
first_under_lem width height (t ∷ rest) room = elim (Bool-cases t.contains_cursor) [
  | inl h ↦ inl (t, first_under-here t rest h, room.0, (h, ([], rest, refl, tt)))
  | inr h ↦ elim (first_under_lem width height rest room.1) [
    | inl (s, found, fits, (under, (before, after, e, none_before))) ↦ inl (
      s,
      first_under-later t rest h ∙ found,
      fits,
      (under, (t ∷ before, after, ap (λ xs. t ∷ xs) e, (h, none_before))),
    )
    | inr (missed, all) ↦ inr (first_under-later t rest h ∙ missed, (h, all))
  ]
]

-- Where there is a primary screen, a screen is chosen: the one at the cursor, or else the first whose
-- geometry contains the cursor, or else the primary one. If the window is at least 20 narrower and 40
-- lower than what each of these screens has available, then it is placed, at every position, and it is
-- inside the geometry that the chosen screen has available.
pub place_in_position-Inside :
    (location : IndicatorPosition) (at_cursor : Option Screen) (screens : List Screen)
    (primary : Screen) (width height : ℤ)
    → ((s : Screen) → at_cursor ≡ some s → Roomy width height s)
    → All (Roomy width height) screens
    → Roomy width height primary
    → (s : Screen) × Source at_cursor screens primary s
      × PlacedOn location width height (choose_screen at_cursor screens (some primary)) s
unfolding choose_screen
place_in_position-Inside location (some t) screens primary width height cursor all first =
    (t, inl refl, placed location t width height (cursor t refl))
place_in_position-Inside location none screens primary width height cursor all first =
    elim (first_under_lem width height screens all) [
      | inl (s, found, fits, under) ↦
          (s, inr (refl, inl under), rw found (placed location s width height fits))
      | inr (missed, outside) ↦ (
        primary,
        inr (refl, inr (outside, refl)),
        rw missed (placed location primary width height first),
      )
    ]
