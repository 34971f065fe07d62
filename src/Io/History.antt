-- ===== src/Io/History.antt =====
-- Any history of calls of the terminal of kernel/io.c.
use pl_dos.Base.{
  ℕ, zero, suc, ◌+◌, ◌-◌, refl, inl, inr, ◌&&◌, List, [], ◌∷◌, Bool-cases, arith, ltb, ◌==◌,
}
use pl_dos.Strings.{CString}
use pl_dos.Io.{
  Terminal, vga_height, scrollback_lines, latest_view_top, oldest_line, render, io_clear_screen,
  io_init, io_set_color, io_scroll_up, io_scroll_down, scroll_times, io_scroll_page_up,
  io_scroll_page_down, io_scroll_bottom, put_cell, step_back, io_backspace, io_print_char, io_print,
  io_println,
}
use pl_dos.Io.Screen.{
  IsRows, IsScreen, same-IsRows, render-IsScreen, new_line-IsPlaced, put_cell-IsPlaced,
  advance-IsPlaced, step_back-IsPlaced, follow_output-IsPlaced, clear_lines-IsPlaced, placed,
}

io_backspace-IsScreen : (t : Terminal) → IsScreen t → IsScreen (io_backspace t)
unfolding io_backspace
io_backspace-IsScreen t s = elim (Bool-cases (t.terminal_column == 0 && (t.terminal_line == 0))) [
  | inl start ↦ rw start s
  | inr inside ↦ rw inside (
      render-IsScreen _ (
        follow_output-IsPlaced _
          (put_cell-IsPlaced (step_back t) b' ' (step_back-IsPlaced t (placed t s)))))
]

pub io_print_char-IsScreen : (t : Terminal) (c : ℕ) → IsScreen t → IsScreen (io_print_char t c)
unfolding io_print_char
io_print_char-IsScreen t c s = elim (Bool-cases (c == 10)) [
  | inl nl ↦ rw nl (render-IsScreen _ (follow_output-IsPlaced _ (new_line-IsPlaced t s.rows)))
  | inr a ↦ elim (Bool-cases (c == 13)) [
    | inl cr ↦
        rw (a, cr)
          (render-IsScreen (record t { terminal_column = 0 })
            (record { rows = (same-IsRows refl s.rows); column = omega arith }))
    | inr b ↦ elim (Bool-cases (c == 8)) [
      | inl bs ↦ rw (a, b, bs) (io_backspace-IsScreen t s)
      | inr other ↦
          rw (a, b, other)
            (render-IsScreen _ (
              follow_output-IsPlaced _
                (advance-IsPlaced (put_cell t c) (put_cell-IsPlaced t c (placed t s)))))
    ]
  ]
]

pub io_print-IsScreen : (t : Terminal) (text : CString) → IsScreen t → IsScreen (io_print t text)
unfolding io_print
io_print-IsScreen t [] s = s
io_print-IsScreen t (c ∷ text) s =
    io_print-IsScreen (io_print_char t c) text (io_print_char-IsScreen t c s)

pub io_println-IsScreen :
    (t : Terminal) (text : CString) → IsScreen t → IsScreen (io_println t text)
unfolding io_println
io_println-IsScreen t text s = io_print_char-IsScreen _ 10 (io_print-IsScreen t text s)

view-IsScreen :
    (t : Terminal) (top : ℕ) → IsScreen t → IsScreen (render (record t { viewport_top = top }))
view-IsScreen t top s =
    render-IsScreen (record t { viewport_top = top })
      (record { rows = (same-IsRows refl s.rows); column = s.column })

io_scroll_up-IsScreen : (t : Terminal) → IsScreen t → IsScreen (io_scroll_up t)
unfolding io_scroll_up
io_scroll_up-IsScreen t s = elim (Bool-cases (ltb (oldest_line t.terminal_line) t.viewport_top)) [
  | inl room ↦ rw room (view-IsScreen t (t.viewport_top - 1) s)
  | inr end ↦ rw end s
]

io_scroll_down-IsScreen : (t : Terminal) → IsScreen t → IsScreen (io_scroll_down t)
unfolding io_scroll_down
io_scroll_down-IsScreen t s =
    elim (Bool-cases (ltb t.viewport_top (latest_view_top t.terminal_line))) [
      | inl room ↦ rw room (view-IsScreen t (t.viewport_top + 1) s)
      | inr end ↦ rw end s
    ]

scroll_times-IsScreen :
    (scroll : Terminal → Terminal) (rounds : ℕ) (t : Terminal)
    → ((t' : Terminal) → IsScreen t' → IsScreen (scroll t'))
    → IsScreen t
    → IsScreen (scroll_times scroll rounds t)
unfolding scroll_times
scroll_times-IsScreen scroll zero t keeps s = s
scroll_times-IsScreen scroll (suc rounds) t keeps s =
    scroll_times-IsScreen scroll rounds (scroll t) keeps (keeps t s)

pub io_clear_screen-IsScreen : (t : Terminal) → IsRows t → IsScreen (io_clear_screen t)
unfolding io_clear_screen
io_clear_screen-IsScreen t v = render-IsScreen _ (
    clear_lines-IsPlaced _ 0 scrollback_lines
      (record { rows = (same-IsRows refl v); column = omega arith }))

pub io_init-IsScreen : (t : Terminal) → IsRows t → IsScreen (io_init t)
unfolding io_init
io_init-IsScreen t v = io_clear_screen-IsScreen _ (same-IsRows refl v)

-- The calls of the terminal, in the order in which they are made.
pub data Call : Type 0 where
  clear_screen : Call
  set_color : ℕ → ℕ → Call
  print : CString → Call
  backspace : Call
  scroll_up : Call
  scroll_down : Call
  page_up : Call
  page_down : Call
  scroll_bottom : Call

abbrev pub step : Terminal → Call → Terminal
step t clear_screen = io_clear_screen t
step t (set_color fg bg) = io_set_color t fg bg
step t (print text) = io_print t text
step t backspace = io_backspace t
step t scroll_up = io_scroll_up t
step t scroll_down = io_scroll_down t
step t page_up = io_scroll_page_up t
step t page_down = io_scroll_page_down t
step t scroll_bottom = io_scroll_bottom t

abbrev pub run : Terminal → List Call → Terminal
run t [] = t
run t (c ∷ cs) = run (step t c) cs

pub step-IsScreen : (t : Terminal) (c : Call) → IsScreen t → IsScreen (step t c)
unfolding io_set_color io_scroll_page_up io_scroll_page_down io_scroll_bottom
step-IsScreen t clear_screen s = io_clear_screen-IsScreen t s.rows
step-IsScreen t (set_color fg bg) s = record {
  rows = (same-IsRows refl s.rows);
  column = s.column;
  top = s.top;
  bottom = s.bottom;
  size = s.size;
  shade = s.shade;
  shown = s.shown;
  at = s.at;
  inside = s.inside;
}
step-IsScreen t (print text) s = io_print-IsScreen t text s
step-IsScreen t backspace s = io_backspace-IsScreen t s
step-IsScreen t scroll_up s = io_scroll_up-IsScreen t s
step-IsScreen t scroll_down s = io_scroll_down-IsScreen t s
step-IsScreen t page_up s =
    scroll_times-IsScreen io_scroll_up (vga_height - 1) t io_scroll_up-IsScreen s
step-IsScreen t page_down s =
    scroll_times-IsScreen io_scroll_down (vga_height - 1) t io_scroll_down-IsScreen s
step-IsScreen t scroll_bottom s = render-IsScreen _ (follow_output-IsPlaced t (placed t s))

run-IsScreen : (t : Terminal) (cs : List Call) → IsScreen t → IsScreen (run t cs)
run-IsScreen t [] s = s
run-IsScreen t (c ∷ cs) s = run-IsScreen (step t c) cs (step-IsScreen t c s)

-- After `io_init`, whatever the static storage held, and any calls of the terminal, the column of the
-- next character is below 80, the window starts no earlier than the oldest line kept and no later than
-- the window of the last 25 lines, VGA memory shows in its 25 rows the characters and colours that the
-- scrollback holds for the lines of the window, and blanks of one colour behind the last line, and the
-- cursor is in the column of the next character, in its row or, where that lies below the window, in
-- the last row.
pub run-io_init : (t : Terminal) (cs : List Call) → IsRows t → IsScreen (run (io_init t) cs)
run-io_init t cs v = run-IsScreen _ cs (io_init-IsScreen t v)
