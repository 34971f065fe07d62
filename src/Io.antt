-- ===== src/Io.antt =====
-- kernel/io.c: the VGA text terminal with its scrollback. VGA memory and the cursor register, which
-- the code only writes, are fields of the state; `size_t` has 32 bits.
pub mod Prefix
pub mod Decimal
pub mod History
pub mod Keyboard
pub mod Numbers
pub mod Reading
pub mod Screen
pub mod Typing
mod Tests
use pl_dos.Base.{
  ℕ, zero, suc, ◌+◌, ◌-◌, ◌*◌, ◌/◌, ◌%◌, ◌^◌, Bool, true, false, ◌&&◌, List, [], ◌∷◌, ◌++◌, map,
  get_or, set, replicate, ltb, leb, ◌==◌, if◌then◌else◌, codes,
}
use pl_dos.Strings.{CString}

abbrev pub vga_width : ℕ
vga_width = 80

abbrev pub vga_height : ℕ
vga_height = 25

abbrev pub scrollback_lines : ℕ
scrollback_lines = 200

-- `screen_cell_t`
pub record Cell : Type 0 where
  pub ch : ℕ
  pub color : ℕ

pub record Terminal : Type 0 where
  pub scrollback : List (List Cell)
  pub terminal_line : ℕ
  pub terminal_column : ℕ
  pub viewport_top : ℕ
  pub terminal_color : ℕ
  pub extended_scancode : Bool
  pub vga_memory : List ℕ
  pub cursor : ℕ

-- `fg | bg << 4` and `ch | color << 8`, whose bits do not overlap.
abbrev pub vga_entry_color : ℕ → ℕ → ℕ
vga_entry_color fg bg = fg + bg * 2 ^ 4

abbrev pub vga_entry : Cell → ℕ
vga_entry c = c.ch + c.color * 2 ^ 8

abbrev pub blank_cell : ℕ → Cell
blank_cell color = record { ch = b' '; color = color }

abbrev pub next_line : ℕ → ℕ
next_line line = (line + 1) % 2 ^ 32

unfoldable pub latest_view_top : ℕ → ℕ
latest_view_top line = if leb vga_height line then line - vga_height + 1 else 0

-- The oldest line that the scrollback still holds.
unfoldable pub oldest_line : ℕ → ℕ
oldest_line line = if leb scrollback_lines line then line - scrollback_lines + 1 else 0

-- The position that `move_cursor` sends to the controller, its high and its low byte.
unfoldable pub cursor_row : ℕ → ℕ → ℕ
cursor_row line top =
    if leb top line then (if leb vga_height (line - top) then vga_height - 1 else line - top) else 0

unfoldable pub move_cursor : Terminal → Terminal
move_cursor t =
    let pos =
      (cursor_row t.terminal_line t.viewport_top * vga_width + t.terminal_column) % 2 ^ 16 in
    record t { cursor = pos / 2 ^ 8 % 2 ^ 8 * 2 ^ 8 + pos % 2 ^ 8 }

abbrev pub row_at : Terminal → ℕ → List Cell
row_at t line = get_or t.scrollback (line % scrollback_lines) []

unfoldable pub clear_history_line : Terminal → ℕ → Terminal
clear_history_line t line = record t {
  scrollback =
      set t.scrollback (line % scrollback_lines)
        (replicate vga_width (blank_cell t.terminal_color));
}

-- The two clampings at the head of `render`.
unfoldable pub clamp_view : ℕ → ℕ → ℕ
clamp_view line top =
    let top = if ltb top (oldest_line line) then oldest_line line else top in
    if ltb (latest_view_top line) top then latest_view_top line else top

unfoldable pub render_row : Terminal → ℕ → List ℕ
render_row t line =
    if leb (oldest_line t.terminal_line) line && leb line t.terminal_line
    then map vga_entry (row_at t line)
    else replicate vga_width (vga_entry (blank_cell t.terminal_color))

-- The rows from `line` on, for the rounds that are left.
unfoldable pub render_rows : Terminal → ℕ → ℕ → List ℕ
render_rows t line zero = []
render_rows t line (suc rounds) = render_row t line ++ render_rows t (line + 1) rounds

unfoldable pub render : Terminal → Terminal
render t =
    let t = record t { viewport_top = clamp_view t.terminal_line t.viewport_top } in
    move_cursor (record t { vga_memory = render_rows t t.viewport_top vga_height })

unfoldable pub follow_output : Terminal → Terminal
follow_output t = record t { viewport_top = latest_view_top t.terminal_line }

-- `for (y = 0; y < SCROLLBACK_LINES; y++) clear_history_line(y);` with the rounds that are left.
unfoldable pub clear_lines : Terminal → ℕ → ℕ → Terminal
clear_lines t y zero = t
clear_lines t y (suc rounds) = clear_lines (clear_history_line t y) (y + 1) rounds

unfoldable pub io_clear_screen : Terminal → Terminal
io_clear_screen t = render (
    clear_lines (record t { terminal_line = 0; terminal_column = 0; viewport_top = 0 }) 0
      scrollback_lines)

abbrev pub light_grey : ℕ
light_grey = 7

abbrev pub black : ℕ
black = 0

unfoldable pub io_set_color : Terminal → ℕ → ℕ → Terminal
io_set_color t fg bg = record t { terminal_color = vga_entry_color fg bg }

unfoldable pub io_init : Terminal → Terminal
io_init t =
    io_clear_screen
      (record t { extended_scancode = false; terminal_color = vga_entry_color light_grey black })

unfoldable pub io_scroll_up : Terminal → Terminal
io_scroll_up t =
    if ltb (oldest_line t.terminal_line) t.viewport_top
    then render (record t { viewport_top = t.viewport_top - 1 })
    else t

unfoldable pub io_scroll_down : Terminal → Terminal
io_scroll_down t =
    if ltb t.viewport_top (latest_view_top t.terminal_line)
    then render (record t { viewport_top = t.viewport_top + 1 })
    else t

unfoldable pub scroll_times : (Terminal → Terminal) → ℕ → Terminal → Terminal
scroll_times scroll zero t = t
scroll_times scroll (suc rounds) t = scroll_times scroll rounds (scroll t)

unfoldable pub io_scroll_page_up : Terminal → Terminal
io_scroll_page_up t = scroll_times io_scroll_up (vga_height - 1) t

unfoldable pub io_scroll_page_down : Terminal → Terminal
io_scroll_page_down t = scroll_times io_scroll_down (vga_height - 1) t

unfoldable pub io_scroll_bottom : Terminal → Terminal
io_scroll_bottom t = render (follow_output t)

-- A write at the current place.
unfoldable pub put_cell : Terminal → ℕ → Terminal
put_cell t c = record t {
  scrollback = set t.scrollback (t.terminal_line % scrollback_lines) (
      set (row_at t t.terminal_line) t.terminal_column
        (record { ch = c; color = t.terminal_color }));
}

-- One place back, to the end of the line before at the start of a line.
unfoldable pub step_back : Terminal → Terminal
step_back t =
    if t.terminal_column == 0
    then record t { terminal_line = t.terminal_line - 1; terminal_column = vga_width - 1 }
    else record t { terminal_column = t.terminal_column - 1 }

unfoldable pub io_backspace : Terminal → Terminal
io_backspace t =
    if t.terminal_column == 0 && (t.terminal_line == 0)
    then t
    else render (follow_output (put_cell (step_back t) b' '))

unfoldable pub new_line : Terminal → Terminal
new_line t =
    let t = record t { terminal_column = 0; terminal_line = next_line t.terminal_line } in
    clear_history_line t t.terminal_line

unfoldable pub advance : Terminal → Terminal
advance t =
    let t = record t { terminal_column = t.terminal_column + 1 } in
    if leb vga_width t.terminal_column then new_line t else t

unfoldable pub io_print_char : Terminal → ℕ → Terminal
io_print_char t c =
    if c == 10
    then render (follow_output (new_line t))
    else if c == 13
    then render (record t { terminal_column = 0 })
    else if c == 8
    then io_backspace t
    else render (follow_output (advance (put_cell t c)))

unfoldable pub io_print : Terminal → CString → Terminal
io_print t [] = t
io_print t (c ∷ text) = io_print (io_print_char t c) text

unfoldable pub io_println : Terminal → CString → Terminal
io_println t text = io_print_char (io_print t text) 10
