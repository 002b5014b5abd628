-- ===== src/Cell/Flag.antt =====
-- `CellFlag` of src/terminal/Cell.hpp: a set of bits, modelled as the record of these bits. The
-- operators `|`, `&` and `~` act bit by bit. The enumerators have the names of their bits.
use ar_term.Prelude.{Bool, true, false, not, ◌&&◌, ◌||◌}

pub record CellFlag : Type 0 where
  pub bold : Bool
  pub faint : Bool
  pub italic : Bool
  pub underline : Bool
  pub blink : Bool
  pub inverse : Bool
  pub hidden : Bool
  pub strikeout : Bool
  pub double_underline : Bool
  pub wide_lead : Bool
  pub wide_trail : Bool

abbrev pub no_flags : CellFlag
no_flags = record {
  bold = false;
  faint = false;
  italic = false;
  underline = false;
  blink = false;
  inverse = false;
  hidden = false;
  strikeout = false;
  double_underline = false;
  wide_lead = false;
  wide_trail = false;
}

-- Bit by bit.
abbrev zip_flags : (Bool → Bool → Bool) → CellFlag → CellFlag → CellFlag
zip_flags f a b = record {
  bold = f a.bold b.bold;
  faint = f a.faint b.faint;
  italic = f a.italic b.italic;
  underline = f a.underline b.underline;
  blink = f a.blink b.blink;
  inverse = f a.inverse b.inverse;
  hidden = f a.hidden b.hidden;
  strikeout = f a.strikeout b.strikeout;
  double_underline = f a.double_underline b.double_underline;
  wide_lead = f a.wide_lead b.wide_lead;
  wide_trail = f a.wide_trail b.wide_trail;
}

abbrev pub flag_or : CellFlag → CellFlag → CellFlag
flag_or = zip_flags (λ x y. x || y)

abbrev pub flag_and : CellFlag → CellFlag → CellFlag
flag_and = zip_flags (λ x y. x && y)

abbrev pub flag_not : CellFlag → CellFlag
flag_not a = zip_flags (λ x y. not x) a a

-- `(value & flag) != 0`
unfoldable pub has_flag : CellFlag → CellFlag → Bool
has_flag value flag =
    let c = flag_and value flag in
    c.bold || c.faint || c.italic || c.underline || c.blink || c.inverse || c.hidden || c.strikeout
    || c.double_underline || c.wide_lead || c.wide_trail

-- The enumerators.
abbrev pub bold : CellFlag
bold = record no_flags { bold = true }

abbrev pub faint : CellFlag
faint = record no_flags { faint = true }

abbrev pub italic : CellFlag
italic = record no_flags { italic = true }

abbrev pub underline : CellFlag
underline = record no_flags { underline = true }

abbrev pub blink : CellFlag
blink = record no_flags { blink = true }

abbrev pub inverse : CellFlag
inverse = record no_flags { inverse = true }

abbrev pub hidden : CellFlag
hidden = record no_flags { hidden = true }

abbrev pub strikeout : CellFlag
strikeout = record no_flags { strikeout = true }

abbrev pub double_underline : CellFlag
double_underline = record no_flags { double_underline = true }

abbrev pub wide_lead : CellFlag
wide_lead = record no_flags { wide_lead = true }

abbrev pub wide_trail : CellFlag
wide_trail = record no_flags { wide_trail = true }
