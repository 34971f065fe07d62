-- ===== src/Io/Prefix.antt =====
-- What kernel/io.c prints does not touch the keyboard's pending prefix.
use pl_dos.Base.{ℕ, ◌≡◌, refl, ◌∙◌, [], ◌∷◌, arith}
use pl_dos.Strings.{CString}
use pl_dos.Io.{
  Terminal, clear_history_line, move_cursor, render, follow_output, put_cell, step_back,
  io_backspace, new_line, advance, io_print_char, io_print, io_set_color,
}

-- The prefix of an extended key is pending as before.
abbrev pub SamePrefix : Terminal → Terminal → Type 0
SamePrefix t t' = t'.extended_scancode ≡ t.extended_scancode

io_print_char_prefix : (t : Terminal) (c : ℕ) → SamePrefix t (io_print_char t c)
unfolding io_print_char io_backspace render follow_output move_cursor put_cell step_back advance
    new_line clear_history_line
io_print_char_prefix t c = ground arith

pub io_print_prefix : (t : Terminal) (text : CString) → SamePrefix t (io_print t text)
unfolding io_print
io_print_prefix t [] = refl
io_print_prefix t (c ∷ text) = io_print_prefix (io_print_char t c) text ∙ io_print_char_prefix t c

pub io_set_color_prefix : (t : Terminal) (fg bg : ℕ) → SamePrefix t (io_set_color t fg bg)
unfolding io_set_color
io_set_color_prefix t fg bg = refl
