-- ===== src/Io/Reading.antt =====
-- `io_read_char` and `io_read_line` of kernel/io.c: what they take from the keyboard, the terminal, and
-- the array of the line.
use pl_dos.Base.{
  ℕ, zero, suc, Bool, ◌+◌, ◌≤◌, ◌<◌, ◌≡◌, refl, inl, inr, true, false, Option, none, some, List, [],
  ◌∷◌, length, length-set, set, Bool-cases, if◌then◌else◌, ◌==◌, ltb, leb, arith,
}
use pl_dos.Strings.{Buffer, cstr, terminated}
use pl_dos.Io.{Terminal, io_print_char}
use pl_dos.Io.Screen.{IsScreen, same-IsRows}
use pl_dos.Io.History.{Call, step-IsScreen, io_print_char-IsScreen}
use pl_dos.Io.Keyboard.{extended_key, key, io_read_char, edit_line, read_loop, io_read_line}

flag-IsScreen : (t : Terminal) (b : _) → IsScreen t → IsScreen (record t { extended_scancode = b })
flag-IsScreen t b s = record {
  rows = same-IsRows refl s.rows;
  column = s.column;
  top = s.top;
  bottom = s.bottom;
  size = s.size;
  shade = s.shade;
  shown = s.shown;
  at = s.at;
  inside = s.inside;
}

if-IsScreen : (b : Bool) (x y : Terminal) → IsScreen x → IsScreen y → IsScreen (if b then x else y)
if-IsScreen true x y h k = h
if-IsScreen false x y h k = k

extended_key-IsScreen : (t : Terminal) (c : ℕ) → IsScreen t → IsScreen (extended_key t c)
unfolding extended_key
extended_key-IsScreen t c s = if-IsScreen (c == 0x48) _ _ (step-IsScreen t Call.scroll_up s) (
    if-IsScreen (c == 0x50) _ _ (step-IsScreen t Call.scroll_down s) (
      if-IsScreen (c == 0x49) _ _ (step-IsScreen t Call.page_up s) (
        if-IsScreen (c == 0x51) _ _ (step-IsScreen t Call.page_down s)
          (if-IsScreen (c == 0x47) _ _ (step-IsScreen t Call.scroll_bottom s) s))))

if_key-IsScreen :
    (b : Bool) (x y : Terminal × ℕ) → IsScreen x.0 → IsScreen y.0 → IsScreen (if b then x else y).0
if_key-IsScreen true x y h k = h
if_key-IsScreen false x y h k = k

key-IsScreen : (t : Terminal) (c : ℕ) → IsScreen t → IsScreen (key t c).0
unfolding key
key-IsScreen t c s = if_key-IsScreen (c == 0xE0) _ _ (flag-IsScreen t true s) (
    if_key-IsScreen (leb 0x80 c) _ _ (flag-IsScreen t false s) (
      if_key-IsScreen t.extended_scancode _ _ (extended_key-IsScreen _ c (flag-IsScreen t false s))
        s))

-- The answer to a read from `n` scancodes: fewer are left, and the screen is as it should be.
abbrev pub Read : {A : Type 0} → ℕ → (A → Type 0) → Option (A × List ℕ × Terminal) → Type 0
Read n P none = Unit {0}
Read n P (some (a, keys, t)) = (length keys < n) × IsScreen t × P a

abbrev pub IsChar : ℕ → Type 0
IsChar c = (c == 0) ≡ false

Read-weaken :
    {A : Type 0} (n : ℕ) (P : A → Type 0) (r : Option (A × List ℕ × Terminal))
    → Read n P r
    → Read (suc n) P r
Read-weaken n P none h = tt
Read-weaken n P (some (a, keys, t)) (l, s, p) = (omega (arith, l), s, p)

pub io_read_char-Read :
    (keys : List ℕ) (t : Terminal) → IsScreen t → Read (length keys) IsChar (io_read_char keys t)
unfolding io_read_char
io_read_char-Read [] t s = tt
io_read_char-Read (k ∷ keys) t s = elim (Bool-cases ((key t k).1 == 0)) [
  | inl e ↦ rw e (
      Read-weaken _ _ (io_read_char keys (key t k).0)
        (io_read_char-Read keys (key t k).0 (key-IsScreen t k s)))
  | inr e ↦ rw e (omega arith, key-IsScreen t k s, e)
]

-- The state of the line editor: `len` bytes of the array are typed.
abbrev IsLine : ℕ → ℕ → Buffer × ℕ × Terminal → Type 0
IsLine size max_len (buffer, len, t) = (length buffer ≡ size) × (len < max_len) × IsScreen t

edit_line-IsLine :
    (size max_len : ℕ) (buffer : Buffer) (len c : ℕ) (t : Terminal)
    → IsLine size max_len (buffer, len, t)
    → IsLine size max_len (edit_line buffer len max_len c t)
unfolding edit_line
edit_line-IsLine size max_len buffer len c t (l, m, s) = elim (Bool-cases (c == 8)) [
  | inl back ↦ elim (Bool-cases (len == 0)) [
    | inl none_left ↦ rw (back, none_left) (l, m, s)
    | inr some_left ↦ rw (back, some_left) (l, omega (arith, m), step-IsScreen t Call.backspace s)
  ]
  | inr other ↦ elim (Bool-cases (ltb (len + 1) max_len)) [
    | inl room ↦ rw (other, room) (rw length-set l, ground arith, io_print_char-IsScreen t c s)
    | inr full ↦ rw (other, full) (l, m, s)
  ]
]

terminated-set : (b : Buffer) (i : ℕ) → i < length b → terminated (set b i 0) ≡ true
terminated-set [] i h = absurd (omega (arith, h))
terminated-set (x ∷ b) zero h = refl
terminated-set (x ∷ b) (suc i) h = elim (Bool-cases (x == 0)) [
  | inl e ↦ rw e refl
  | inr e ↦ rw e (terminated-set b i (omega (arith, h)))
]

length-cstr-set : (b : Buffer) (i : ℕ) → length (cstr (set b i 0)) ≤ i
length-cstr-set [] i = omega arith
length-cstr-set (x ∷ b) zero = omega arith
length-cstr-set (x ∷ b) (suc i) = elim (Bool-cases (x == 0)) [
  | inl e ↦ rw e (omega arith)
  | inr e ↦ rw e (omega (arith, length-cstr-set b i))
]

-- A line that was read: the array has its size, a NUL ends it, and the string is shorter than `max_len`.
abbrev pub IsTyped : ℕ → ℕ → Buffer → Type 0
IsTyped size max_len buffer =
    (length buffer ≡ size) × (terminated buffer ≡ true) × (length (cstr buffer) < max_len)

Read-fewer :
    {A : Type 0} (n m : ℕ) (P : A → Type 0) (r : Option (A × List ℕ × Terminal))
    → n ≤ m
    → Read n P r
    → Read m P r
Read-fewer n m P none le h = tt
Read-fewer n m P (some (a, keys, t)) le (l, s, p) = (omega (arith, l, le), s, p)

-- The round that has its character.
one_round-Read :
    (size max_len len c : ℕ) (keys : List ℕ) (buffer : Buffer) (t : Terminal)
    (later : Option (Buffer × List ℕ × Terminal))
    → max_len ≤ size
    → IsLine size max_len (buffer, len, t)
    → Read (length keys) (IsTyped size max_len) later
    → Read
        (suc (length keys))
        (IsTyped size max_len)
        (if c == 10 then some (set buffer len 0, keys, io_print_char t 10) else later)
one_round-Read size max_len len c keys buffer t later fits (l, m, s) k =
    elim (Bool-cases (c == 10)) [
      | inl end ↦ rw end (
        omega arith,
        io_print_char-IsScreen t 10 s,
        (
          rw length-set l,
          terminated-set buffer len (omega (arith, l, m, fits)),
          omega (arith, length-cstr-set buffer len, m),
        ),
      )
      | inr other ↦ rw other (Read-fewer _ _ _ later (omega arith) k)
    ]

read_loop-Read :
    (fuel : ℕ) (keys : List ℕ) (buffer : Buffer) (size len max_len : ℕ) (t : Terminal)
    → max_len ≤ size
    → IsLine size max_len (buffer, len, t)
    → Read (length keys) (IsTyped size max_len) (read_loop fuel keys buffer len max_len t)
unfolding read_loop
read_loop-Read zero keys buffer size len max_len t fits line = tt
read_loop-Read (suc fuel) keys buffer size len max_len t fits (l, m, s) =
    onward (io_read_char keys t) (io_read_char-Read keys t s)
      (λ rest b n t' h. read_loop-Read fuel rest b size n max_len t' fits h)
  where
    onward :
        (r : Option (ℕ × List ℕ × Terminal))
        → Read (length keys) IsChar r
        → ((rest : List ℕ) (b : Buffer) (n : ℕ) (t' : Terminal)
            → IsLine size max_len (b, n, t')
            → Read (length rest) (IsTyped size max_len) (read_loop fuel rest b n max_len t'))
        → Read (length keys) (IsTyped size max_len) (elim r [
          | none ↦ none
          | some (c, rest, t') ↦
              let (buffer', len', t'') = edit_line buffer len max_len c t' in
              let later = read_loop fuel rest buffer' len' max_len t'' in
              if c == 10 then some (set buffer len 0, rest, io_print_char t' 10) else later
        ])
    onward none h goes_on = tt
    onward (some (c, rest, t')) (fewer, s', other) goes_on =
        let edited = edit_line-IsLine size max_len buffer len c t' (l, m, s') in
        Read-fewer _ _ _ _ (omega (arith, fewer)) (
          one_round-Read size max_len len c rest buffer t' _ fits (l, m, s')
            (goes_on rest _ _ _ edited))

-- A line that is read takes at least one scancode, fits in the array, whose size stays, with its
-- terminator, and leaves the terminal as it should be.
pub io_read_line-Read :
    (keys : List ℕ) (buffer : Buffer) (max_len : ℕ) (t : Terminal)
    → 0 < max_len
    → max_len ≤ length buffer
    → IsScreen t
    → Read (length keys) (IsTyped (length buffer) max_len) (io_read_line keys buffer max_len t)
unfolding io_read_line
io_read_line-Read keys buffer zero t pos fits s = absurd (omega (arith, pos))
io_read_line-Read keys buffer (suc n) t pos fits s =
    read_loop-Read _ keys buffer (length buffer) 0 (suc n) t fits (refl, omega arith, s)
