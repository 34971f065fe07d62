-- ===== src/Io/Screen.antt =====
-- The terminal of kernel/io.c: the scrollback, the window and the cursor, and the steps that the calls
-- are made of.
use pl_dos.Base.{
  ℕ, ◌++◌, get_or-replicate, get_or-append_front, get_or-append_back, zero, suc, ◌+◌, ◌*◌, ◌%◌, ◌≤◌,
  ◌<◌, ◌≡◌, refl, ap, sym, subst, ◌∙◌, inl, inr, ◌&&◌, [], length, length-map, length-append,
  length-replicate, length-set, All, All-set, All-get_or, Bool-cases, arith, leb, ◌==◌, List,
  get_or, map, ◌∷◌, true, ◌-◌, min, if◌then◌else◌,
}
use pl_dos.Io.{
  Terminal, Cell, vga_width, vga_height, scrollback_lines, vga_entry, blank_cell, row_at,
  latest_view_top, oldest_line, cursor_row, move_cursor, clear_history_line, clamp_view, render_row,
  render_rows, render, follow_output, clear_lines, put_cell, step_back, new_line, advance,
}

-- The scrollback as the C array lies in memory.
pub record IsRows (t : Terminal) : Type 0 where
  pub count : length t.scrollback ≡ scrollback_lines
  pub widths : All (λ row. length row ≡ vga_width) t.scrollback

-- The rows depend on the scrollback alone.
pub same-IsRows : {t t' : Terminal} → t'.scrollback ≡ t.scrollback → IsRows t → IsRows t'
same-IsRows e v = record {
  count = ap length e ∙ v.count;
  widths = subst (All (λ row. length row ≡ vga_width)) (sym e) v.widths;
}

-- The next character has a place.
pub record IsPlaced (t : Terminal) : Type 0 where
  pub rows : IsRows t
  pub column : t.terminal_column < vga_width

-- What the screen is to show in column `c` of the line `line`: the character there with its colour, or a
-- blank of the colour `shade` behind the last line.
abbrev pub shown_at : Terminal → ℕ → ℕ → ℕ → ℕ
shown_at t shade line c =
    if leb line t.terminal_line
    then vga_entry (get_or (row_at t line) c (blank_cell shade))
    else vga_entry (blank_cell shade)

-- Besides, the window starts no earlier than the oldest line kept and no later than the window of the
-- last 25 lines, VGA memory shows the characters of its 25 lines, and the cursor stands in the column of the
-- next character, in its row or in the last row where that row lies below the window.
pub record IsScreen (t : Terminal) : Type 0 where
  pub rows : IsRows t
  pub column : t.terminal_column < vga_width
  pub top : oldest_line t.terminal_line ≤ t.viewport_top
  pub bottom : t.viewport_top ≤ latest_view_top t.terminal_line
  pub size : length t.vga_memory ≡ vga_width * vga_height
  pub shade : ℕ
  pub shown :
      (r c : ℕ)
      → r < vga_height
      → c < vga_width
      → get_or t.vga_memory (r * vga_width + c) 0 ≡ shown_at t shade (t.viewport_top + r) c
  pub at :
      t.cursor
      ≡ min (t.terminal_line - t.viewport_top) (vga_height - 1) * vga_width + t.terminal_column
  pub inside : t.cursor < vga_width * vga_height

cursor_row-min :
    (line top : ℕ) → top ≤ line → cursor_row line top ≡ min (line - top) (vga_height - 1)
unfolding cursor_row
cursor_row-min line top h = ground arith

latest_below : (line : ℕ) → latest_view_top line ≤ line
unfolding latest_view_top
latest_below line = ground arith

cursor_row_below : (line top : ℕ) → cursor_row line top < vga_height
unfolding cursor_row
cursor_row_below line top = ground arith

clamp_view_top : (line top : ℕ) → oldest_line line ≤ clamp_view line top
unfolding clamp_view oldest_line latest_view_top
clamp_view_top line top = ground arith

clamp_view_bottom : (line top : ℕ) → clamp_view line top ≤ latest_view_top line
unfolding clamp_view oldest_line latest_view_top
clamp_view_bottom line top = ground arith

length-render_row : (t : Terminal) (line : ℕ) → IsRows t → length (render_row t line) ≡ vga_width
unfolding render_row
length-render_row t line v =
    elim (Bool-cases (leb (oldest_line t.terminal_line) line && leb line t.terminal_line)) [
      | inl old ↦ rw old (
          length-map (row_at t line) vga_entry
          ∙ All-get_or (λ row. length row ≡ vga_width) t.scrollback (line % scrollback_lines) []
              v.widths (omega (arith, v.count)))
      | inr empty ↦ rw empty (length-replicate vga_width (vga_entry (blank_cell t.terminal_color)))
    ]

length-render_rows :
    (t : Terminal) (line rounds : ℕ)
    → IsRows t
    → length (render_rows t line rounds) ≡ vga_width * rounds
unfolding render_rows
length-render_rows t line zero v = refl
length-render_rows t line (suc rounds) v = omega (
  arith,
  length-append (render_row t line) (render_rows t (line + 1) rounds),
  length-render_row t line v,
  length-render_rows t (line + 1) rounds v,
)

get_or-map :
    (cells : List Cell) (i : ℕ) (d : Cell)
    → i < length cells
    → get_or (map vga_entry cells) i 0 ≡ vga_entry (get_or cells i d)
get_or-map [] i d h = absurd (omega arith)
get_or-map (x ∷ cells) zero d h = refl
get_or-map (x ∷ cells) (suc i) d h = get_or-map cells i d (omega arith)

-- A row as it is drawn.
render_row_shown :
    (t : Terminal) (line c : ℕ)
    → IsRows t
    → oldest_line t.terminal_line ≤ line
    → c < vga_width
    → get_or (render_row t line) c 0 ≡ shown_at t t.terminal_color line c
unfolding render_row
render_row_shown t line c v old h =
    let kept : leb (oldest_line t.terminal_line) line ≡ true = ground (arith, old) in
    elim (Bool-cases (leb line t.terminal_line)) [
      | inl is ↦
          let width =
            All-get_or (λ row. length row ≡ vga_width) t.scrollback (line % scrollback_lines) []
              v.widths (omega (arith, v.count)) in
          rw (kept, is)
            (get_or-map (row_at t line) c (blank_cell t.terminal_color) (omega (arith, width, h)))
      | inr behind ↦
          rw (kept, behind)
            (get_or-replicate vga_width c (vga_entry (blank_cell t.terminal_color)) 0 h)
    ]

render_rows_shown :
    (t : Terminal) (line rounds r c : ℕ)
    → IsRows t
    → oldest_line t.terminal_line ≤ line
    → r < rounds
    → c < vga_width
    → get_or (render_rows t line rounds) (r * vga_width + c) 0
      ≡ shown_at t t.terminal_color (line + r) c
unfolding render_rows
render_rows_shown t line zero r c v old h k = absurd (omega (arith, h))
render_rows_shown t line (suc rounds) zero c v old h k =
    let at : zero * vga_width + c ≡ c = omega arith in
    let here : line + zero ≡ line = omega arith in
    ap (λ i. get_or (render_row t line ++ render_rows t (line + 1) rounds) i 0) at
    ∙ get_or-append_front (render_row t line) (render_rows t (line + 1) rounds) c 0
        (omega (arith, length-render_row t line v, k))
    ∙ render_row_shown t line c v old k
    ∙ ap (λ l. shown_at t t.terminal_color l c) (sym here)
render_rows_shown t line (suc rounds) (suc r) c v old h k =
    let next : line + 1 + r ≡ line + suc r = omega arith in
    get_or-append_back (render_row t line) (render_rows t (line + 1) rounds) (r * vga_width + c)
      (suc r * vga_width + c) 0 (omega (arith, length-render_row t line v))
    ∙ render_rows_shown t (line + 1) rounds r c v (omega (arith, old)) (omega (arith, h)) k
    ∙ ap (λ l. shown_at t t.terminal_color l c) next

-- `render` brings the window and the cursor back in step, wherever the window was.
pub render-IsScreen : (t : Terminal) → IsPlaced t → IsScreen (render t)
unfolding render move_cursor
render-IsScreen t p =
    let below = cursor_row_below t.terminal_line (clamp_view t.terminal_line t.viewport_top) in
    record {
      rows = same-IsRows refl p.rows;
      column = p.column;
      top = clamp_view_top t.terminal_line t.viewport_top;
      bottom = clamp_view_bottom t.terminal_line t.viewport_top;
      size =
          length-render_rows _ (clamp_view t.terminal_line t.viewport_top) vga_height
            ((same-IsRows refl p.rows));
      shade = t.terminal_color;
      shown = λ r c h k.
          render_rows_shown _ (clamp_view t.terminal_line t.viewport_top) vga_height r c
            (same-IsRows refl p.rows) (clamp_view_top t.terminal_line t.viewport_top) h k;
      at = omega (
        arith,
        below,
        p.column,
        cursor_row-min t.terminal_line (clamp_view t.terminal_line t.viewport_top) (
            omega (
              arith,
              clamp_view_bottom t.terminal_line t.viewport_top,
              latest_below t.terminal_line,
            )),
      );
      inside = omega (arith, below, p.column);
    }

clear_history_line-IsRows :
    (t : Terminal) (line : ℕ) → IsRows t → IsRows (clear_history_line t line)
unfolding clear_history_line
clear_history_line-IsRows t line v = record {
  count = length-set t.scrollback (line % scrollback_lines) _ ∙ v.count;
  widths =
      All-set (λ row. length row ≡ vga_width) t.scrollback (line % scrollback_lines) _ v.widths
        (length-replicate vga_width (blank_cell t.terminal_color));
}

clear_history_line-IsPlaced :
    (t : Terminal) (line : ℕ) → IsPlaced t → IsPlaced (clear_history_line t line)
unfolding clear_history_line
clear_history_line-IsPlaced t line p = record {
  rows = clear_history_line-IsRows t line p.rows;
  column = p.column;
}

pub clear_lines-IsPlaced :
    (t : Terminal) (y rounds : ℕ) → IsPlaced t → IsPlaced (clear_lines t y rounds)
unfolding clear_lines
clear_lines-IsPlaced t y zero p = p
clear_lines-IsPlaced t y (suc rounds) p =
    clear_lines-IsPlaced (clear_history_line t y) (y + 1) rounds (clear_history_line-IsPlaced t y p)

pub put_cell-IsPlaced : (t : Terminal) (c : ℕ) → IsPlaced t → IsPlaced (put_cell t c)
unfolding put_cell
put_cell-IsPlaced t c p = record {
  rows = record {
    count = length-set t.scrollback (t.terminal_line % scrollback_lines) _ ∙ p.rows.count;
    widths =
        All-set (λ row. length row ≡ vga_width) t.scrollback (t.terminal_line % scrollback_lines) _
          p.rows.widths
          (length-set (row_at t t.terminal_line) t.terminal_column _
            ∙ All-get_or (λ row. length row ≡ vga_width) t.scrollback
                (t.terminal_line % scrollback_lines) [] p.rows.widths
                (omega (arith, p.rows.count)));
  };
  column = p.column;
}

pub new_line-IsPlaced : (t : Terminal) → IsRows t → IsPlaced (new_line t)
unfolding new_line
new_line-IsPlaced t v =
    clear_history_line-IsPlaced _ _ (record { rows = (same-IsRows refl v); column = omega arith })

pub advance-IsPlaced : (t : Terminal) → IsPlaced t → IsPlaced (advance t)
unfolding advance
advance-IsPlaced t p = elim (Bool-cases (leb vga_width (t.terminal_column + 1))) [
  | inl full ↦ rw full (
      new_line-IsPlaced (record t { terminal_column = t.terminal_column + 1 })
        (same-IsRows refl p.rows))
  | inr room ↦ rw room (record { rows = same-IsRows refl p.rows; column = ground arith })
]

pub step_back-IsPlaced : (t : Terminal) → IsPlaced t → IsPlaced (step_back t)
unfolding step_back
step_back-IsPlaced t p = elim (Bool-cases (t.terminal_column == 0)) [
  | inl start ↦ rw start (record { rows = same-IsRows refl p.rows; column = omega arith })
  | inr inside ↦
      rw inside (record { rows = same-IsRows refl p.rows; column = omega (arith, p.column) })
]

pub placed : (t : Terminal) → IsScreen t → IsPlaced t
placed t s = record { rows = s.rows; column = s.column }

pub follow_output-IsPlaced : (t : Terminal) → IsPlaced t → IsPlaced (follow_output t)
unfolding follow_output
follow_output-IsPlaced t p = record { rows = same-IsRows refl p.rows; column = p.column }
