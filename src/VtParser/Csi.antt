-- ===== src/VtParser/Csi.antt =====
-- Whole control sequences: what is printed in the syntax of ECMA-48 is dispatched as it was meant.
use mathlib.Core.List.{append_assoc, append-nil}
use ar_term.Prelude.{
  ℕ, suc, ◌+◌, ◌-◌, ◌≤◌, ◌<◌, ◌≡◌, refl, ap, sym, ◌∙◌, Bool, true, false, inl, inr, List, [], ◌∷◌,
  ◌++◌, map, Option, none, some, arith, length, length-append, length-replicate, set, replicate,
  All,
}
use ar_term.Prelude.Int.{ℤ, pos, negsuc}
use ar_term.VtParser.{
  CsiSequence, State, ground as ground_state, csi_entry, csi_param, VtParser, csi_dispatch,
  max_parameters, is_c0, is_final, is_parameter, is_private_marker, is_intermediate, clear_sequence,
}
use ar_term.VtParser.Machine.{
  advance, parse, in_state, in_escape, in_csi_entry, in_csi_param, finish_csi, mark_private,
  on_escape, after_osc_escape, unhook,
}
use ar_term.VtParser.Runs.{parse_prefix}
use ar_term.VtParser.Numbers.{push, at, IsInside, decimal, parse-decimal, omit_one, close_parameter}

-- The sequence with these parameters, its arrays padded with zeros.
abbrev pub sequence_of : ℕ → List ℤ → CsiSequence
sequence_of marker values = record {
  parameters = values ++ replicate (max_parameters - length values) (pos 0);
  sub_parameter_count = replicate max_parameters 0;
  parameter_count = length values;
  private_marker = marker;
  intermediate = 0;
  final = 0;
}

set-append_replicate {ℓ} :
    {A : Type ℓ} (xs : List A) (k : ℕ) (a v : A)
    → set (xs ++ replicate (suc k) a) (length xs) v ≡ (xs ++ v ∷ []) ++ replicate k a
set-append_replicate [] k a v = refl
set-append_replicate (x ∷ xs) k a v = ap (x ∷◌) (set-append_replicate xs k a v)

push_with :
    (marker : ℕ) (values : List ℤ) (v : ℤ) (k : ℕ)
    → max_parameters - length values ≡ suc k
    → max_parameters - (length values + 1) ≡ k
    → push (sequence_of marker values) v ≡ sequence_of marker (values ++ v ∷ [])
push_with marker values v k room left =
    rw (length-append values (v ∷ []), left, room, set-append_replicate values k (pos 0) v)

push-sequence_of :
    (marker : ℕ) (values : List ℤ) (v : ℤ)
    → length values < max_parameters
    → push (sequence_of marker values) v ≡ sequence_of marker (values ++ v ∷ [])
push-sequence_of marker values v lt =
    push_with marker values v (max_parameters - length values - 1) (omega arith) (omega arith)

length-sequence_of :
    (marker : ℕ) (values : List ℤ)
    → length values ≤ max_parameters
    → length (sequence_of marker values).parameters ≡ max_parameters
length-sequence_of marker values le = omega (
  arith,
  length-append values (replicate (max_parameters - length values) (pos 0)),
  length-replicate (max_parameters - length values) (pos 0),
)

-- The printed form: a number or nothing before each ';', and a number at the end.
unfoldable pub field : Option ℕ → List ℕ
field none = []
field (some n) = decimal n

unfoldable pub render : List (Option ℕ) → ℕ → List ℕ
unfolding field
render [] last = decimal last
render (v ∷ front) last = field v ++ b';' ∷ render front last

-- A printed separator and a final byte, regrouped.
pub flatten :
    (xs ys : List ℕ) (separator final : ℕ)
    → (xs ++ separator ∷ []) ++ (ys ++ final ∷ []) ≡ (xs ++ separator ∷ ys) ++ final ∷ []
flatten [] ys separator final = refl
flatten (x ∷ xs) ys separator final = ap (x ∷◌) (flatten xs ys separator final)

-- What it means: an omitted parameter is -1.
abbrev pub to_parameter : Option ℕ → ℤ
to_parameter none = negsuc 0
to_parameter (some n) = pos n

abbrev IsField : Option ℕ → Type 0
IsField none = Unit
IsField (some n) = n ≤ 999999

module _ (marker : ℕ) (p : VtParser) where
  abbrev pub inside : State → List ℤ → Bool → VtParser
  inside st values started = at st (sequence_of marker values) started p

  parse-field :
      (st : State) (values : List ℤ) (v : Option ℕ)
      → IsInside st
      → length values + 1 < max_parameters
      → IsField v
      → parse (inside st values false) (field v ++ b';' ∷ [])
        ≡ (inside csi_param (values ++ to_parameter v ∷ []) false, [])
  unfolding field parse
  parse-field st values none here lt h = rw (
    omit_one (sequence_of marker values) p st here (omega arith),
    push-sequence_of marker values (negsuc 0) (omega arith),
  )
  parse-field st values (some n) here lt h =
      let s = sequence_of marker values in
      parse_prefix (at st s false p) (at csi_param (push s (pos n)) true p) (decimal n) (b';' ∷ [])
        [] (parse-decimal s p st n here lt (length-sequence_of marker values (omega arith)) h)
      ∙ rw (close_parameter s p (pos n), push-sequence_of marker values (pos n) (omega arith))

  parse-render :
      (front : List (Option ℕ)) (st : State) (values : List ℤ) (last : ℕ)
      → IsInside st
      → length values + length front + 1 < max_parameters
      → All IsField front
      → last ≤ 999999
      → parse (inside st values false) (render front last)
        ≡ (inside csi_param (values ++ (map to_parameter front ++ pos last ∷ [])) true, [])
  unfolding render
  parse-render [] st values last here lt h le =
      parse-decimal (sequence_of marker values) p st last here (omega arith)
        (length-sequence_of marker values (omega arith)) le
      ∙ rw (push-sequence_of marker values (pos last) (omega arith))
  parse-render (v ∷ front) st values last here lt h le =
      let values' = values ++ to_parameter v ∷ [] in
      let size : length values' ≡ length values + 1 = length-append values (to_parameter v ∷ []) in
      let regroup =
        append_assoc values (to_parameter v ∷ []) (map to_parameter front ++ pos last ∷ []) in
      rw (sym (append_assoc (field v) (b';' ∷ []) (render front last))) (
        parse_prefix (inside st values false) (inside csi_param values' false)
          (field v ++ b';' ∷ []) (render front last) []
          (parse-field st values v here (omega arith) h.0)
        ∙ rw (parse-render front csi_param values' last (inr refl) (omega arith) h.1 le, regroup))

-- The private marker, one of '<', '=', '>' and '?', or none.
abbrev marker_value : Option ℕ → ℕ
marker_value none = 0
marker_value (some m) = m

abbrev marker_bytes : Option ℕ → List ℕ
marker_bytes none = []
marker_bytes (some m) = m ∷ []

abbrev IsMarker : Option ℕ → Type 0
IsMarker none = Unit
IsMarker (some m) = (0x3C ≤ m) × (m ≤ 0x3F)

-- The two bytes of the introducer, from any state.
introducer :
    (p : VtParser)
    → parse p (0x1B ∷ b'[' ∷ [])
      ≡ (at csi_entry (sequence_of 0 []) false (record p { osc_payload = [] }), unhook p.state)
unfolding parse advance on_escape after_osc_escape in_state in_escape clear_sequence is_c0
    is_intermediate
introducer p = ground (arith, append-nil (unhook p.state))

advance_marker :
    (q : VtParser) (m : ℕ)
    → 0x3C ≤ m
    → m ≤ 0x3F
    → advance (at csi_entry (sequence_of 0 []) false q) m
      ≡ (at csi_param (sequence_of m []) false q, [])
unfolding advance in_state in_csi_entry is_c0 is_private_marker mark_private
advance_marker q m le h = ground arith

-- The introducer and the marker.
introduce :
    (p : VtParser) (marker : Option ℕ)
    → IsMarker marker
    → (st : State) × IsInside st
      × (parse p (0x1B ∷ b'[' ∷ marker_bytes marker) ≡ (
        at st (sequence_of (marker_value marker) []) false (record p { osc_payload = [] }),
        unhook p.state,
      ))
introduce p none h = (csi_entry, inl refl, introducer p)
introduce p (some m) h = (
  csi_param,
  inr refl,
  parse_prefix p (at csi_entry (sequence_of 0 []) false (record p { osc_payload = [] }))
        (0x1B ∷ b'[' ∷ []) (m ∷ []) (unhook p.state) (introducer p)
      ∙ unfold parse in
        rw (advance_marker (record p { osc_payload = [] }) m h.0 h.1, append-nil (unhook p.state)),
)

advance_final :
    (s : CsiSequence) (q : VtParser) (f : ℕ)
    → is_final f ≡ true
    → advance (at csi_param s true q) f ≡ (
      record (at ground_state (record s { final = f }) true q) { state = ground_state },
      csi_dispatch (record s { final = f }) ∷ [],
    )
unfolding advance in_state in_csi_param is_c0 is_parameter is_intermediate is_final finish_csi
advance_final s q f h = ground arith

parse_final :
    (s : CsiSequence) (q : VtParser) (f : ℕ)
    → is_final f ≡ true
    → parse (at csi_param s true q) (f ∷ []) ≡ (
      record (at ground_state (record s { final = f }) true q) { state = ground_state },
      csi_dispatch (record s { final = f }) ∷ [],
    )
unfolding parse
parse_final s q f h = rw (advance_final s q f h)

-- From any state whatever, a control sequence printed as ESC [, an optional private marker, up to
-- 30 parameters that may be omitted and one more that may not, each given one at most 999999, and a
-- final byte is dispatched as one CSI call with exactly these parameters, and the parser is back in
-- its ground state. The only other call is the end of a device control string that was in progress.
pub parse-csi :
    (p : VtParser) (marker : Option ℕ) (front : List (Option ℕ)) (last f : ℕ)
    → IsMarker marker
    → length front < 31
    → All IsField front
    → last ≤ 999999
    → is_final f ≡ true
    → let sent =
        record (sequence_of (marker_value marker) (map to_parameter front ++ pos last ∷ [])) {
          final = f;
        } in
      let o = parse p ((0x1B ∷ b'[' ∷ marker_bytes marker) ++ (render front last ++ f ∷ [])) in
      (o.1 ≡ unhook p.state ++ csi_dispatch sent ∷ []) × (o.0.state ≡ ground_state)
parse-csi p marker front last f hm lt h le hf =
    let (st, here, start) = introduce p marker hm in
    let q = record p { osc_payload = [] } in
    let m = marker_value marker in
    let body =
      parse_prefix (inside m q st [] false)
        (inside m q csi_param (map to_parameter front ++ pos last ∷ []) true) (render front last)
        (f ∷ []) [] (parse-render m q front st [] last here (omega arith) h le) in
    let whole =
      parse_prefix p (inside m q st [] false) (0x1B ∷ b'[' ∷ marker_bytes marker)
        (render front last ++ f ∷ []) (unhook p.state) start in
    let end = parse_final (sequence_of m (map to_parameter front ++ pos last ∷ [])) q f hf in
    (rw (whole, body, end), rw (whole, body, end))
