-- ===== src/Terminal/Modes.antt =====
-- The state of `Terminal` in src/terminal/Terminal.hpp, and the modes, the two buffers and the
-- saved cursors in src/terminal/Terminal.cpp. `m_active` is a flag: it points to one of the two.
use ar_term.Prelude.{◌%◌, ◌^◌, ℕ, ◌+◌, Bool, true, false, if◌then◌else◌, List, [], ◌∷◌}
use ar_term.Prelude.Int.{ℤ, pos, max_ℤ}
use ar_term.Cell.{Attributes, default_attributes}
use ar_term.Screen.{Screen, CursorState, home, new, move_cursor, reset_scroll_region}
use ar_term.Screen.Scroll.{clear_scrollback}
use ar_term.Screen.Edit.{all, erase_in_display}
use ar_term.Screen.Edit as Edit

pub data MouseTracking : Type 0 where
  tracking_off x10 normal_tracking button_event any_event : MouseTracking

pub data MouseEncoding : Type 0 where
  default_encoding utf8 sgr urxvt : MouseEncoding

pub record TerminalModes : Type 0 where
  pub auto_wrap : Bool
  pub origin_mode : Bool
  pub insert_mode : Bool
  pub cursor_visible : Bool
  pub application_cursor_keys : Bool
  pub application_keypad : Bool
  pub reverse_video : Bool
  pub bracketed_paste : Bool
  pub new_line_mode : Bool
  pub focus_reporting : Bool
  pub alternate_screen : Bool
  pub mouse_tracking : MouseTracking
  pub mouse_encoding : MouseEncoding

abbrev default_modes : TerminalModes
default_modes = record {
  auto_wrap = true;
  origin_mode = false;
  insert_mode = false;
  cursor_visible = true;
  application_cursor_keys = false;
  application_keypad = false;
  reverse_video = false;
  bracketed_paste = false;
  new_line_mode = false;
  focus_reporting = false;
  alternate_screen = false;
  mouse_tracking = tracking_off;
  mouse_encoding = default_encoding;
}

pub record Terminal : Type 0 where
  pub columns : ℕ
  pub rows : ℕ
  pub scrollback_limit : ℕ
  pub normal : Screen
  pub alternate : Screen
  pub is_alternate_active : Bool
  pub modes : TerminalModes
  pub attributes : Attributes
  pub title : List ℕ
  pub saved_cursor : CursorState
  pub saved_alternate_cursor : CursorState
  pub g0 : ℕ
  pub g1 : ℕ
  pub active_charset : ℕ
  pub revision_base : ℕ

-- The signals of the class.
pub data Signal : Type 0 where
  reply : List ℕ → Signal
  title_changed : List ℕ → Signal
  bell_rang screen_changed : Signal
  alternate_screen_changed : Bool → Signal
  mouse_tracking_changed : MouseTracking → Signal
  bracketed_paste_changed : Bool → Signal
  clipboard_write_requested : List ℕ → Signal

abbrev pub Outcome : Type 0
Outcome = Terminal × List Signal

-- `*m_active`
abbrev pub active : Terminal → Screen
active t = if t.is_alternate_active then t.alternate else t.normal

abbrev pub revision : Terminal → ℕ
revision t = ((active t).revision + t.revision_base) % 2 ^ 64

-- A change of the active buffer.
abbrev pub on_active : (Screen → Screen) → Terminal → Terminal
on_active change t =
    if t.is_alternate_active
    then record t { alternate = change t.alternate }
    else record t { normal = change t.normal }

abbrev initial_scrollback_limit : ℕ
initial_scrollback_limit = 10000

unfoldable pub start : ℤ → ℤ → Terminal
unfolding new
start columns rows = record {
  columns = max_ℤ 1 columns;
  rows = max_ℤ 1 rows;
  scrollback_limit = initial_scrollback_limit;
  normal = new (pos (max_ℤ 1 columns)) (pos (max_ℤ 1 rows)) (pos initial_scrollback_limit);
  alternate = new (pos (max_ℤ 1 columns)) (pos (max_ℤ 1 rows)) (pos 0);
  is_alternate_active = false;
  modes = default_modes;
  attributes = default_attributes;
  title = [];
  saved_cursor = home;
  saved_alternate_cursor = home;
  g0 = 0;
  g1 = 0;
  active_charset = 0;
  revision_base = 0;
}

unfoldable pub save_cursor : Terminal → Terminal
save_cursor t =
    let state = record (active t).cursor {
      attributes = t.attributes;
      origin_mode = t.modes.origin_mode;
      charset = t.active_charset;
    } in
    if t.modes.alternate_screen
    then record t { saved_alternate_cursor = state }
    else record t { saved_cursor = state }

-- `restoreCursor` with the saved state.
unfoldable pub restore_from : CursorState → Terminal → Terminal
unfolding move_cursor
restore_from state t =
    on_active (λ s. move_cursor s (pos state.row) (pos state.column))
      (record t {
        attributes = state.attributes;
        modes = record t.modes { origin_mode = state.origin_mode };
        active_charset = state.charset;
      })

unfoldable pub restore_cursor : Terminal → Terminal
unfolding restore_from
restore_cursor t =
    restore_from (if t.modes.alternate_screen then t.saved_alternate_cursor else t.saved_cursor) t

unfoldable pub use_alternate_screen : Bool → Bool → Terminal → Outcome
unfolding move_cursor Edit.reset
use_alternate_screen false clear t =
    if t.modes.alternate_screen
    then (
      record t {
        revision_base = (t.revision_base + ((active t).revision + 1)) % 2 ^ 64;
        modes = record t.modes { alternate_screen = false };
        is_alternate_active = false;
      },
      alternate_screen_changed false ∷ [],
    )
    else (t, [])
use_alternate_screen true clear t = if t.modes.alternate_screen then (t, []) else (
  record t {
    revision_base = (t.revision_base + ((active t).revision + 1)) % 2 ^ 64;
    modes = record t.modes { alternate_screen = true };
    is_alternate_active = true;
    alternate =
        if clear
        then move_cursor (Edit.reset t.alternate t.attributes) (pos 0) (pos 0)
        else t.alternate;
  },
  alternate_screen_changed true ∷ [],
)

-- `reset`, less the parser.
unfoldable pub reset : Terminal → Outcome
unfolding Edit.reset clear_scrollback
reset t = (
  record t {
    attributes = default_attributes;
    title = [];
    modes = default_modes;
    g0 = 0;
    g1 = 0;
    active_charset = 0;
    saved_cursor = home;
    saved_alternate_cursor = home;
    normal = clear_scrollback (Edit.reset t.normal default_attributes);
    alternate = Edit.reset t.alternate default_attributes;
    is_alternate_active = false;
  },
  alternate_screen_changed false
      ∷ mouse_tracking_changed tracking_off
      ∷ bracketed_paste_changed false
      ∷ screen_changed
      ∷ [],
)

unfoldable pub soft_reset : Terminal → Terminal
unfolding reset_scroll_region move_cursor
soft_reset t =
    on_active (λ s. move_cursor (reset_scroll_region s) (pos 0) (pos 0))
      (record t {
        attributes = default_attributes;
        modes = record t.modes {
          origin_mode = false;
          insert_mode = false;
          auto_wrap = true;
          cursor_visible = true;
        };
        g0 = 0;
        g1 = 0;
        active_charset = 0;
      })
