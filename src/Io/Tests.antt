-- ===== src/Io/Tests.antt =====
-- The terminal after some calls.
use pl_dos.Base.{
  ℕ, List, arith, ◌≡◌, refl, [], ◌∷◌, length, replicate, All-replicate, codes, false, negsuc, some,
  none,
}
use pl_dos.Io.{Terminal, io_init, blank_cell}
use pl_dos.Io.Screen.{IsScreen}
use pl_dos.Io.Keyboard.{io_read_line}
use pl_dos.Io.Reading.{Read, IsTyped, io_read_line-Read}
use pl_dos.Io.Numbers.{int_chars}
use pl_dos.Io.Decimal.{read_int, read_int-int_chars}
use pl_dos.Io.History.{run, run-io_init}
use pl_dos.Io.History.Call.{print, page_up, backspace}

abbrev storage : Terminal
storage = record {
  scrollback = replicate 200 (replicate 80 (blank_cell 0));
  terminal_line = 9;
  terminal_column = 99;
  viewport_top = 7;
  terminal_color = 0;
  extended_scancode = false;
  vga_memory = [];
  cursor = 0;
}

terminal_example : IsScreen (run (io_init storage) (print (codes "ok") ∷ backspace ∷ page_up ∷ []))
terminal_example = run-io_init storage (print (codes "ok") ∷ backspace ∷ page_up ∷ []) (record {
  count = refl;
  widths = All-replicate (λ row. length row ≡ 80) 200 (replicate 80 (blank_cell 0)) refl;
})

shown-IsScreen : IsScreen (io_init storage)
shown-IsScreen = run-io_init storage [] (record {
  count = refl;
  widths = All-replicate (λ row. length row ≡ 80) 200 (replicate 80 (blank_cell 0)) refl;
})

-- The keys l, s and Enter.
abbrev keys : List ℕ
keys = 0x26 ∷ 0x1F ∷ 0x1C ∷ []

keys_example : Read 3 (IsTyped 8 8) (io_read_line keys (replicate 8 1) 8 (io_init storage))
keys_example =
    io_read_line-Read keys (replicate 8 1) 8 (io_init storage) (omega arith) (omega arith)
      shown-IsScreen

int_example : read_int (int_chars (negsuc 1203)) ≡ some (negsuc 1203)
int_example = read_int-int_chars (negsuc 1203) (omega arith)

-- The number -1204.
int_runs : int_chars (negsuc 1203) ≡ codes "-1204"
unfolding int_chars
int_runs = refl

-- Bytes that are no digits, and a sign alone, spell no number.
int_refused : (read_int (60 ∷ []) ≡ none) × (read_int (b'-' ∷ []) ≡ none)
int_refused = (refl, refl)
