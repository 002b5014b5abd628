-- ===== src/VtParser/Runs.antt =====
-- How runs of `parse` compose.
use mathlib.Core.List.{append_assoc}
use ar_term.Prelude.{ℕ, ◌≡◌, refl, ap, sym, ◌∙◌, List, [], ◌∷◌, ◌++◌}
use ar_term.VtParser.{Event, VtParser}
use ar_term.VtParser.Machine.{Outcome, advance, parse}

-- A run over two chunks is the run over the first and then, from where it stopped, over the second.
abbrev followed_by : Outcome → List ℕ → Outcome
followed_by (p, events) rest = ((parse p rest).0, events ++ (parse p rest).1)

parse-cons :
    (p : VtParser) (byte : ℕ) (rest : List ℕ)
    → parse p (byte ∷ rest) ≡ followed_by (advance p byte) rest
unfolding parse
parse-cons p byte rest = refl

-- The parser keeps its state across the chunks in which bytes arrive: however a stream is cut in
-- two, the events and the final parser are the same.
pub parse-append :
    (p : VtParser) (xs ys : List ℕ) → parse p (xs ++ ys) ≡ followed_by (parse p xs) ys
unfolding parse
parse-append p [] ys = refl
parse-append p (x ∷ xs) ys = rw (parse-append (advance p x).0 xs ys) (
    ap (λ events. ((parse (parse (advance p x).0 xs).0 ys).0, events))
      (sym (
        append_assoc (advance p x).1 (parse (advance p x).0 xs).1
          (parse (parse (advance p x).0 xs).0 ys).1)))

-- A prefix, with its outcome known.
pub parse_prefix :
    (p q : VtParser) (xs ys : List ℕ) (events : List Event)
    → parse p xs ≡ (q, events)
    → parse p (xs ++ ys) ≡ followed_by (q, events) ys
parse_prefix p q xs ys events e = parse-append p xs ys ∙ ap (λ o. followed_by o ys) e
