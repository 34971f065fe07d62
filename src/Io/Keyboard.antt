-- ===== src/Io/Keyboard.antt =====
-- `io_read_char` and `io_read_line` of kernel/io.c. The keyboard is the list of the scancodes that
-- port 0x60 will deliver; where it ends the code goes on waiting, which is `none`.
use pl_dos.Base.{
  ℕ, zero, suc, ◌+◌, ◌-◌, true, false, Option, none, some, List, [], ◌∷◌, ◌++◌, length, get_or, set,
  ltb, leb, ◌==◌, if◌then◌else◌, codes,
}
use pl_dos.Strings.{Buffer}
use pl_dos.Io.{
  Terminal, io_scroll_up, io_scroll_down, io_scroll_page_up, io_scroll_page_down, io_scroll_bottom,
  io_print_char, io_backspace,
}

-- The table's first 59 entries; the others are 0.
abbrev scancode_table : List ℕ
scancode_table =
    (0 ∷ 27 ∷ codes "1234567890-=")
    ++ ((8 ∷ 9 ∷ codes "qwertyuiop[]")
        ++ ((10 ∷ 0 ∷ codes "asdfghjkl;")
            ++ ((39 ∷ b'`' ∷ 0 ∷ 92 ∷ codes "zxcvbnm,./") ++ (0 ∷ b'*' ∷ 0 ∷ b' ' ∷ 0 ∷ []))))

unfoldable pub scancode_to_ascii : ℕ → ℕ
scancode_to_ascii scancode = if ltb scancode 128 then get_or scancode_table scancode 0 else 0

-- What a key after the prefix 0xE0 does.
unfoldable pub extended_key : Terminal → ℕ → Terminal
extended_key t scancode =
    if scancode == 0x48
    then io_scroll_up t
    else if scancode == 0x50
    then io_scroll_down t
    else if scancode == 0x49
    then io_scroll_page_up t
    else if scancode == 0x51
    then io_scroll_page_down t
    else if scancode == 0x47
    then io_scroll_bottom t
    else t

-- One round of the loop: the terminal afterwards, and the character to return, if not 0.
unfoldable pub key : Terminal → ℕ → Terminal × ℕ
key t scancode =
    if scancode == 0xE0
    then (record t { extended_scancode = true }, 0)
    else if leb 0x80 scancode
    then (record t { extended_scancode = false }, 0)
    else if t.extended_scancode
    then (extended_key (record t { extended_scancode = false }) scancode, 0)
    else (t, scancode_to_ascii scancode)

-- The character, the scancodes that are left, and the terminal.
unfoldable pub io_read_char : List ℕ → Terminal → Option (ℕ × List ℕ × Terminal)
io_read_char [] t = none
io_read_char (scancode ∷ scancodes) t =
    let (t', c) = key t scancode in
    let later = io_read_char scancodes t' in if c == 0 then later else some (c, scancodes, t')

-- What a character other than a newline does to `len` bytes of the buffer and to the terminal.
unfoldable pub edit_line : Buffer → ℕ → ℕ → ℕ → Terminal → Buffer × ℕ × Terminal
edit_line buffer len max_len c t =
    if c == 8
    then (if len == 0 then (buffer, len, t) else (buffer, len - 1, io_backspace t))
    else if ltb (len + 1) max_len
    then (set buffer len c, len + 1, io_print_char t c)
    else (buffer, len, t)

-- Each round takes one scancode at least, so that their number is fuel enough.
unfoldable pub read_loop :
    ℕ → List ℕ → Buffer → ℕ → ℕ → Terminal → Option (Buffer × List ℕ × Terminal)
read_loop zero scancodes buffer len max_len t = none
read_loop (suc fuel) scancodes buffer len max_len t = elim (io_read_char scancodes t) [
  | none ↦ none
  | some (c, rest, t') ↦
      let (buffer', len', t'') = edit_line buffer len max_len c t' in
      let later = read_loop fuel rest buffer' len' max_len t'' in
      if c == 10 then some (set buffer len 0, rest, io_print_char t' 10) else later
]

unfoldable pub io_read_line : List ℕ → Buffer → ℕ → Terminal → Option (Buffer × List ℕ × Terminal)
io_read_line scancodes buffer zero t = some (buffer, scancodes, t)
io_read_line scancodes buffer (suc n) t =
    read_loop (suc (length scancodes)) scancodes buffer 0 (suc n) t
