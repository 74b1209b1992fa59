-- ===== src/Indicator.antt =====
-- common/src/generic_indicator.cpp: on which screen a notice is shown, and where. The integers are
-- taken without bounds; coordinates of screens are far inside those of `int`.
mod Integers
pub mod Inside
unfoldable pub use Integers.*
use keybinder.Base.{Bool, true, false, List, [], ◌∷◌, Option, none, some, if◌then◌else◌}

pub data IndicatorPosition : Type 0 where
  bottom_right bottom_left top_right top_left center : IndicatorPosition

-- `QRect`
pub record Rect : Type 0 where
  pub x : ℤ
  pub y : ℤ
  pub width : ℤ
  pub height : ℤ

pub record Point : Type 0 where
  pub x : ℤ
  pub y : ℤ

-- A screen, and whether its geometry contains the cursor.
pub record Screen : Type 0 where
  pub available_geometry : Rect
  pub contains_cursor : Bool

abbrev margin_horizontal : ℤ
margin_horizontal = pos 20

abbrev margin_vertical : ℤ
margin_vertical = pos 40

-- The first of `screens()` that contains the cursor.
unfoldable pub first_under : List Screen → Option Screen
first_under [] = none
first_under (s ∷ rest) = let later = first_under rest in if s.contains_cursor then some s else later

abbrev pub or_else : Option Screen → Option Screen → Option Screen
or_else (some s) other = some s
or_else none other = other

-- `at_cursor` is the answer of `screenAt`, `primary` that of `primaryScreen`.
unfoldable pub choose_screen : Option Screen → List Screen → Option Screen → Option Screen
unfolding first_under
choose_screen at_cursor screens primary = or_else (or_else at_cursor (first_under screens)) primary

abbrev pub right : Rect → ℤ → ℤ
right g width = g.x +ℤ g.width -ℤ width -ℤ margin_horizontal

abbrev pub bottom : Rect → ℤ → ℤ
bottom g height = g.y +ℤ g.height -ℤ height -ℤ margin_vertical

-- The switch, for a window of the width and the height.
unfoldable pub position : IndicatorPosition → Rect → ℤ → ℤ → Point
unfolding from
position IndicatorPosition.bottom_right g width height = record {
  x = right g width;
  y = bottom g height;
}
position IndicatorPosition.bottom_left g width height = record {
  x = g.x +ℤ margin_horizontal;
  y = bottom g height;
}
position IndicatorPosition.top_right g width height = record {
  x = right g width;
  y = g.y +ℤ margin_vertical;
}
position IndicatorPosition.top_left g width height = record {
  x = g.x +ℤ margin_horizontal;
  y = g.y +ℤ margin_vertical;
}
position IndicatorPosition.center g width height = record {
  x = g.x +ℤ half (g.width -ℤ width);
  y = g.y +ℤ half (g.height -ℤ height);
}

-- Where the window is moved to, if there is a screen.
unfoldable pub place_in_position : IndicatorPosition → Option Screen → ℤ → ℤ → Option Point
unfolding position
place_in_position location none width height = none
place_in_position location (some s) width height =
    some (position location s.available_geometry width height)
