-- ===== src/Tests/Grid.antt =====
-- The theorems on src/terminal/Screen.cpp and src/terminal/CharWidth.cpp on small screens.
use ar_term.Prelude.{
  ℕ, ◌-◌, ◌≤◌, ◌≡◌, refl, true, false, [], ◌∷◌, ◌++◌, none, arith, length, replicate, drop,
}
use ar_term.Prelude.Int.{pos, negsuc, clamp, max_ℤ}
use ar_term.Cell.{Attributes, default_attributes}
use ar_term.CharWidth.{character_width, described_width, character_width-described}
use ar_term.Screen.{Line, Screen, home, new, reset_tab_stops, mark_stops, make_line}
use ar_term.Screen.Scroll.{feeds_scrollback, scroll_up, insert_lines, delete_lines, outside_region}
use ar_term.Screen.Write.{write_character}
use ar_term.Screen.Resize.{resize}
use ar_term.Screen.Valid.{IsValid, new-IsValid}
use ar_term.Screen.Valid.Write.{write_character-one_column}
use ar_term.Screen.Valid.Resize.{resize-IsValid}
use ar_term.Screen.RoundTrip.{resize-resize}
use ar_term.Screen.History.{scroll_up-history}
use ar_term.Screen.Regions.{lines-insert_lines, lines-delete_lines}

abbrev plain : Attributes
plain = default_attributes

abbrev row : ℕ → Line
row n = replicate 4 (record { character = n; attributes = plain })

abbrev a : Line
a = row b'a'

abbrev b : Line
b = row b'b'

abbrev c : Line
c = row b'c'

-- Four columns, three rows and ten lines of history, with the cursor in the second row.
abbrev small : Screen
small = record (new (pos 4) (pos 3) (pos 10)) {
  lines = a ∷ b ∷ c ∷ [];
  cursor = record home { row = 1 };
}

small-IsValid : IsValid small
unfolding new reset_tab_stops mark_stops max_ℤ
small-IsValid = record {
  columns_pos = omega arith;
  rows_pos = omega arith;
  lines_size = refl;
  widths = (refl, (refl, (refl, tt)));
  history_widths = tt;
  history_le = omega arith;
  wrapped_size = refl;
  stops_size = refl;
  row_lt = omega arith;
  column_lt = omega arith;
  top_le = omega arith;
  bottom_lt = omega arith;
}

-- One column.
abbrev narrow : Screen
narrow = new (pos 1) (pos 3) (pos 10)

write_character-one_column_example : write_character narrow 0x672C 2 plain false true ≡ none
unfolding new reset_tab_stops max_ℤ
write_character-one_column_example =
    write_character-one_column narrow 0x672C plain false (new-IsValid (pos 1) (pos 3) (pos 10)) refl

resize-IsValid_example : IsValid (resize small (pos 7) (negsuc 1))
resize-IsValid_example = resize-IsValid small (pos 7) (negsuc 1) small-IsValid

resize-resize_example :
    let t =
      resize
        (resize small (pos small.columns) (pos (length (c ∷ []))))
        (pos small.columns)
        (pos small.rows) in
    (t.lines ≡ small.lines) × (t.scrollback ≡ small.scrollback)
unfolding new reset_tab_stops max_ℤ
resize-resize_example =
    resize-resize small (a ∷ b ∷ []) (c ∷ []) small-IsValid refl (omega arith) (omega arith)
      (omega arith)

scroll_up-history_example :
    let t = scroll_up small (pos 2) plain in
    let all = small.scrollback ++ (a ∷ b ∷ []) in
    (t.lines ≡ (c ∷ []) ++ replicate (length (a ∷ b ∷ [])) (make_line small.columns plain))
    × (t.scrollback ≡ drop (length all - small.scrollback_limit) all)
unfolding new reset_tab_stops feeds_scrollback clamp max_ℤ
scroll_up-history_example =
    scroll_up-history small (pos 2) plain (a ∷ b ∷ []) (c ∷ []) small-IsValid refl (omega arith)
      refl refl

lines-insert_lines_example :
    (insert_lines small (pos 1) plain).lines
    ≡ (a ∷ []) ++ ((replicate (length (c ∷ [])) (make_line small.columns plain) ++ (b ∷ [])) ++ [])
unfolding new reset_tab_stops outside_region clamp max_ℤ
lines-insert_lines_example =
    lines-insert_lines small (pos 1) plain (a ∷ []) (b ∷ []) (c ∷ []) [] refl refl refl refl refl

lines-delete_lines_example :
    (delete_lines small (pos 1) plain).lines
    ≡ (a ∷ []) ++ (((c ∷ []) ++ replicate (length (b ∷ [])) (make_line small.columns plain)) ++ [])
unfolding new reset_tab_stops outside_region clamp max_ℤ
lines-delete_lines_example =
    lines-delete_lines small (pos 1) plain (a ∷ []) (b ∷ []) (c ∷ []) [] refl refl refl refl refl

character_width-described_example :
    (character_width 0x672C ≡ described_width 0x672C) × (character_width 0x672C ≤ 2)
character_width-described_example = character_width-described 0x672C
