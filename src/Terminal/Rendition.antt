-- ===== src/Terminal/Rendition.antt =====
-- What `Terminal::applySgr` of src/terminal/Terminal.cpp makes of whole sequences.
use mathlib.Core.List.{append_assoc, append-nil}
use ar_term.Prelude.{
  ℕ, zero, suc, ◌+◌, ◌-◌, ◌≤◌, ◌<◌, ◌≡◌, ◌≢◌, refl, sym, ap, ◌∙◌, true, false, arith, ltb, leb,
  ◌==◌, if◌then◌else◌, List, [], ◌∷◌, ◌++◌, map, length, length-append, get_or, All, replicate, min,
}
use ar_term.Prelude.Int.{ℤ, pos, pos_part, clamp}
use ar_term.Cell.{rgb, Attributes, default_attributes}
use ar_term.VtParser.{CsiSequence, parameter, max_parameters}
use ar_term.VtParser.Csi.{sequence_of}
use ar_term.Terminal.Sgr.{
  code_at, rendition, palette, channel, put_color, extended, sgr_step, sgr_loop, apply_sgr,
}

get_or-middle :
    (before : List ℤ) (v : ℤ) (behind pad : List ℤ) (d : ℤ)
    → get_or ((before ++ v ∷ behind) ++ pad) (length before) d ≡ v
get_or-middle [] v behind pad d = refl
get_or-middle (x ∷ before) v behind pad d = get_or-middle before v behind pad d

parameter-middle :
    (marker : ℕ) (before : List ℤ) (n : ℕ) (behind : List ℤ) (d : ℤ)
    → parameter (sequence_of marker (before ++ pos n ∷ behind)) (length before) d ≡ pos n
unfolding parameter
parameter-middle marker before n behind d =
    let values = before ++ pos n ∷ behind in
    let pad = replicate (max_parameters - length values) (pos 0) in
    let read = get_or-middle before (pos n) behind pad d in
    ground (arith, read, length-append before (pos n ∷ behind))

-- A code that stands for itself.
abbrev IsSimple : ℕ → Type 0
IsSimple code = (code ≢ 38) × (code ≢ 48) × (code ≢ 58)

-- The effect of one such code.
unfoldable pub rendered : ℕ → Attributes → Attributes
rendered code a = if leb 30 code then palette code a else rendition code a

unfoldable pub render_all : List ℕ → Attributes → Attributes
render_all [] a = a
render_all (code ∷ codes) a = render_all codes (rendered code a)

step_simple :
    (s : CsiSequence) (i code : ℕ) (a : Attributes)
    → code_at s i ≡ code
    → IsSimple code
    → sgr_step s i a ≡ (rendered code a, 0)
unfolding sgr_step rendered
step_simple s i code a e h = rw e (ground arith)

loop_simple :
    (fuel marker i : ℕ) (values before : List ℤ) (codes : List ℕ) (a : Attributes)
    → length codes ≤ fuel
    → All IsSimple codes
    → values ≡ before ++ map (λ (n : ℕ). pos n) codes
    → i ≡ length before
    → sgr_loop fuel (sequence_of marker values) i a ≡ render_all codes a
unfolding sgr_loop render_all
loop_simple zero marker i values before [] a le h e at_end = refl
loop_simple zero marker i values before (c ∷ codes) a le h e at_end = absurd (omega arith)
loop_simple (suc fuel) marker i values before [] a le h e at_end =
    let done : ltb i (length values) ≡ false = rw (e, at_end) (ground (arith, append-nil before)) in
    rw (done, sgr_loop) refl
loop_simple (suc fuel) marker i values before (c ∷ codes) a le h e at_end =
    let rest = map (λ (n : ℕ). pos n) codes in
    let s = sequence_of marker values in
    let more : ltb i (length values) ≡ true =
      rw (e, at_end) (ground (arith, length-append before (pos c ∷ rest))) in
    let code : code_at s i ≡ c =
      rw (e, at_end) (ap (λ v. pos_part v) (parameter-middle marker before c rest (pos 0))) in
    rw (more, sgr_loop, step_simple s i c a code h.0)
      (loop_simple fuel marker (i + 0 + 1) values (before ++ pos c ∷ []) codes (rendered c a)
        (omega arith) h.1 (e ∙ sym (append_assoc before (pos c ∷ []) rest))
        (omega (arith, at_end, length-append before (pos c ∷ []))))

length-numbers : (codes : List ℕ) → length (map (λ (n : ℕ). pos n) codes) ≡ length codes
length-numbers [] = refl
length-numbers (c ∷ codes) = ap suc (length-numbers codes)

-- A sequence of codes of one number each, of any of the renditions and the 16 palette colours and
-- with at least one code, acts as its codes one after the other: `CSI a ; b m` as `CSI a m` and
-- then `CSI b m`, with a private marker as without one.
pub apply_sgr-render_all :
    (marker : ℕ) (codes : List ℕ) (a : Attributes)
    → 0 < length codes
    → All IsSimple codes
    → apply_sgr (sequence_of marker (map (λ (n : ℕ). pos n) codes)) a ≡ render_all codes a
unfolding apply_sgr
apply_sgr-render_all marker [] a some h = absurd (omega arith)
apply_sgr-render_all marker (c ∷ codes) a some h =
    let many : (length (map (λ (n : ℕ). pos n) (c ∷ codes)) == 0) ≡ false = ground arith in
    rw many (
      loop_simple (length (map (λ (n : ℕ). pos n) (c ∷ codes))) marker 0
        (map (λ (n : ℕ). pos n) (c ∷ codes)) [] (c ∷ codes) a
        (omega (arith, length-numbers (c ∷ codes))) h refl refl)

-- A colour by red, green and blue behind 38 sets the foreground, behind 48 the background and behind
-- 58 the colour of the underline, and nothing else; a component above 255 counts as 255.
pub apply_sgr-rgb :
    (marker r g b : ℕ) (a : Attributes)
    → let color = rgb (min r 255) (min g 255) (min b 255) in
      let sent : ℕ → CsiSequence =
        λ code. sequence_of marker (pos code ∷ pos 2 ∷ pos r ∷ pos g ∷ pos b ∷ []) in
      (apply_sgr (sent 38) a ≡ record a { foreground = color })
      × (apply_sgr (sent 48) a ≡ record a { background = color })
      × (apply_sgr (sent 58) a ≡ record a { underline_color = color })
unfolding apply_sgr sgr_loop sgr_step extended channel parameter clamp put_color
apply_sgr-rgb marker r g b a = (ground arith, ground arith, ground arith)

loop-plain :
    (fuel : ℕ) (s : CsiSequence) (counts : List ℕ) (i : ℕ) (a : Attributes)
    → sgr_loop fuel (record s { sub_parameter_count = counts }) i a ≡ sgr_loop fuel s i a
unfolding sgr_loop sgr_step extended channel parameter
loop-plain zero s counts i a = refl
loop-plain (suc fuel) s counts i a =
    elim (ltb i s.parameter_count)
      as (λ more.
        (elim more [
          | true ↦
              sgr_loop fuel (record s { sub_parameter_count = counts }) (i + (sgr_step s i a).1 + 1)
                (sgr_step s i a).0
          | false ↦ a
        ])
        ≡ (elim more [
          | true ↦ sgr_loop fuel s (i + (sgr_step s i a).1 + 1) (sgr_step s i a).0
          | false ↦ a
        ])) [
          | true ↦ loop-plain fuel s counts (i + (sgr_step s i a).1 + 1) (sgr_step s i a).0
          | false ↦ refl
        ]

-- Colons count as semicolons: the record of which parameters a colon joins has no effect, so that
-- `CSI 4:3 m`, a curly underline, acts as `CSI 4;3 m`, underline and italic.
pub apply_sgr-ignores_colons :
    (s : CsiSequence) (counts : List ℕ) (a : Attributes)
    → apply_sgr (record s { sub_parameter_count = counts }) a ≡ apply_sgr s a
unfolding apply_sgr
apply_sgr-ignores_colons s counts a =
    elim (s.parameter_count == 0)
      as (λ none.
        (if none
          then default_attributes
          else sgr_loop s.parameter_count (record s { sub_parameter_count = counts }) 0 a)
        ≡ (if none then default_attributes else sgr_loop s.parameter_count s 0 a)) [
          | true ↦ refl
          | false ↦ loop-plain s.parameter_count s counts 0 a
        ]
