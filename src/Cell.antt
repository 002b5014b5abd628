-- ===== src/Cell.antt =====
-- src/terminal/Cell.hpp: colours, attributes and cells. The rendition flags are in Flag.
pub mod Flag
use ar_term.Prelude.{ℕ, Bool, not, ◌&&◌, ◌||◌, ◌==◌}
use Flag.{CellFlag, no_flags, has_flag}

pub data Color : Type 0 where
  default_color : Color
  indexed : ℕ → Color
  rgb : ℕ → ℕ → ℕ → Color

pub record Attributes : Type 0 where
  pub foreground : Color
  pub background : Color
  pub underline_color : Color
  pub flags : CellFlag

abbrev pub default_attributes : Attributes
default_attributes = record {
  foreground = default_color;
  background = default_color;
  underline_color = default_color;
  flags = no_flags;
}

pub record Cell : Type 0 where
  pub character : ℕ
  pub attributes : Attributes

unfoldable is_blank : Cell → Bool
is_blank c = c.character == 0x20 || c.character == 0

unfoldable pub is_empty : Cell → Bool
unfolding is_blank has_flag
is_empty c =
    is_blank c
    && not (has_flag c.attributes.flags Flag.underline)
    && not (has_flag c.attributes.flags Flag.strikeout)
    && not (has_flag c.attributes.flags Flag.double_underline)
