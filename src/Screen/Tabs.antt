-- ===== src/Screen/Tabs.antt =====
-- The tab stops of src/terminal/Screen.cpp.
use ar_term.Prelude.{
  ℕ, zero, suc, ◌+◌, ◌-◌, Bool, true, false, ltb, if◌then◌else◌, get_or, set, replicate,
}
use ar_term.Prelude.Int.{ℤ, pos, negsuc}
use ar_term.Screen.{Screen}

-- The test `column >= 0 && column < m_columns` around a write.
unfoldable pub put_tab_stop : Screen → ℤ → Bool → Screen
put_tab_stop s (pos column) stop =
    if ltb column s.columns then record s { tab_stops = set s.tab_stops column stop } else s
put_tab_stop s (negsuc n) stop = s

unfoldable pub set_tab_stop : Screen → ℤ → Screen
unfolding put_tab_stop
set_tab_stop s column = put_tab_stop s column true

unfoldable pub clear_tab_stop : Screen → ℤ → Screen
unfolding put_tab_stop
clear_tab_stop s column = put_tab_stop s column false

unfoldable pub clear_all_tab_stops : Screen → Screen
clear_all_tab_stops s = record s { tab_stops = replicate s.columns false }

-- The loop of `nextTabStop` over the `left` columns from `i` on.
unfoldable pub search_right : Screen → ℕ → ℕ → ℕ
search_right s i zero = s.columns - 1
search_right s i (suc left) =
    let rest = search_right s (i + 1) left in if get_or s.tab_stops i false then i else rest

unfoldable pub next_tab_stop : Screen → ℕ → ℕ
unfolding search_right
next_tab_stop s column = search_right s (column + 1) (s.columns - (column + 1))

-- The loop of `previousTabStop` down from `i`; column 0 is never looked at.
unfoldable pub search_left : Screen → ℕ → ℕ
search_left s zero = 0
search_left s (suc i) =
    let rest = search_left s i in if get_or s.tab_stops (suc i) false then suc i else rest

unfoldable pub previous_tab_stop : Screen → ℕ → ℕ
unfolding search_left
previous_tab_stop s column = search_left s (column - 1)
