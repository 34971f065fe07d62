-- ===== src/Io/Typing.antt =====
-- `io_read_line` of kernel/io.c on what a user types: keys that are pressed and released, and Enter.
use pl_dos.Base.{
  ℕ, zero, suc, ◌+◌, ◌-◌, ◌≤◌, ◌<◌, ◌≡◌, ◌≢◌, refl, sym, ap, ◌∙◌, inl, inr, true, false, Option,
  some, none, subst, List, [], ◌∷◌, ◌++◌, map, take, length, length-set, length-take, set,
  Bool-cases, All, if◌then◌else◌, ◌==◌, ltb, leb, arith, append_assoc, append-nil, take_of_le,
  take-append,
}
use pl_dos.Strings.{CString, Buffer, NoNul, cstr}
use pl_dos.Io.{Terminal, io_print_char}
use pl_dos.Io.Keyboard.{scancode_to_ascii, key, io_read_char, edit_line, read_loop, io_read_line}

-- A key with a printable character.
abbrev pub IsText : ℕ → Type 0
IsText k = (k < 0x60) × (32 ≤ scancode_to_ascii k)

abbrev pub enter : ℕ
enter = 0x1C

-- Each key is pressed and released, whose scancode has the top bit set.
abbrev pub strokes : List ℕ → List ℕ
strokes [] = []
strokes (k ∷ ks) = k ∷ (k + 0x80) ∷ strokes ks

abbrev plain : Terminal → Terminal
plain t = record t { extended_scancode = false }

module _ (k : ℕ) (t : Terminal) (h : k < 0x60) where
  key_pressed : t.extended_scancode ≡ false → key t k ≡ (t, scancode_to_ascii k)
  unfolding key
  key_pressed e =
      let other : (k == 0xE0) ≡ false = ground (arith, h) in
      let press : leb 0x80 k ≡ false = ground (arith, h) in rw (other, press, e) refl

  key_released : key t (k + 0x80) ≡ (plain t, 0)
  unfolding key
  key_released =
      let other : (k + 0x80 == 0xE0) ≡ false = ground (arith, h) in
      let release : leb 0x80 (k + 0x80) ≡ true = ground arith in rw (other, release) refl

  pressed :
      (keys : List ℕ)
      → scancode_to_ascii k ≢ 0
      → t.extended_scancode ≡ false
      → io_read_char (k ∷ keys) t ≡ some (scancode_to_ascii k, keys, t)
  unfolding io_read_char
  pressed keys c e =
      let char : (scancode_to_ascii k == 0) ≡ false = ground (arith, c) in
      rw (key_pressed e, char) refl

  released : (keys : List ℕ) → io_read_char ((k + 0x80) ∷ keys) t ≡ io_read_char keys (plain t)
  unfolding io_read_char
  released keys = rw key_released refl

  released_line :
      (fuel : ℕ) (keys : List ℕ) (buffer : Buffer) (len max_len : ℕ)
      → read_loop fuel ((k + 0x80) ∷ keys) buffer len max_len t
        ≡ read_loop fuel keys buffer len max_len (plain t)
  unfolding read_loop
  released_line zero keys buffer len max_len = refl
  released_line (suc fuel) keys buffer len max_len = rw (read_loop, released keys) refl

-- What was typed, in the first `len` bytes, and the array behind a further byte and behind the end.
take-set :
    (b : Buffer) (len c : ℕ) → len < length b → take (suc len) (set b len c) ≡ take len b ++ c ∷ []
take-set [] len c h = absurd (omega (arith, h))
take-set (x ∷ b) zero c h = refl
take-set (x ∷ b) (suc len) c h = ap (◌∷◌ x) (take-set b len c (omega (arith, h)))

cstr-set :
    (b : Buffer) (len : ℕ) → len < length b → NoNul (take len b) → cstr (set b len 0) ≡ take len b
cstr-set [] len h n = absurd (omega (arith, h))
cstr-set (x ∷ b) zero h n = refl
cstr-set (x ∷ b) (suc len) h n =
    let solid : (x == 0) ≡ false = ground (arith, n.0) in
    rw solid (ap (◌∷◌ x) (cstr-set b len (omega (arith, h)) n.1))

NoNul-snoc : (s : CString) (c : ℕ) → NoNul s → c ≢ 0 → NoNul (s ++ c ∷ [])
NoNul-snoc [] c n h = (h, tt)
NoNul-snoc (x ∷ s) c n h = (n.0, NoNul-snoc s c n.1 h)

-- The result of a typed line: what the line was before with the text behind it, as far as it fits.
abbrev pub Line : ℕ → CString → List ℕ → Option (Buffer × List ℕ × Terminal) → Type 0
Line max_len text rest r =
    (b : Buffer) × (t : Terminal) × (r ≡ some (b, rest, t)) × (cstr b ≡ take (max_len - 1) text)

abbrev pub text_of : List ℕ → CString
text_of ks = map scancode_to_ascii ks

-- A round of the loop that has its character.
loop_char :
    (fuel : ℕ) (keys rest : List ℕ) (b : Buffer) (len max_len c : ℕ) (t : Terminal)
    → io_read_char keys t ≡ some (c, rest, t)
    → read_loop (suc fuel) keys b len max_len t ≡ (
        let (b', len', t') = edit_line b len max_len c t in
        if c == 10
        then some (set b len 0, rest, io_print_char t 10)
        else read_loop fuel rest b' len' max_len t')
unfolding read_loop
loop_char fuel keys rest b len max_len c t e = rw (read_loop, e) refl

enter_char : scancode_to_ascii enter ≡ 10
unfolding scancode_to_ascii
enter_char = refl

enter_pressed :
    (t : Terminal) (rest : List ℕ)
    → t.extended_scancode ≡ false
    → io_read_char (enter ∷ rest) t ≡ some (10, rest, t)
enter_pressed t rest e =
    pressed enter t (omega arith) rest (λ z. omega (arith, z, enter_char)) e
    ∙ ap (λ (c : ℕ). some (c, rest, t)) enter_char

-- The round of a key with a printable character, and the scancode of its release.
module _ (fuel k : ℕ) (keys : List ℕ) (b : Buffer) (len max_len : ℕ) (t : Terminal)
    (text : IsText k) (e : t.extended_scancode ≡ false) where
  abbrev after_key : Option (Buffer × List ℕ × Terminal)
  after_key = read_loop (suc fuel) (k ∷ (k + 0x80) ∷ keys) b len max_len t

  key_round : after_key ≡ (
      let (b', len', t') = edit_line b len max_len (scancode_to_ascii k) t in
      read_loop fuel keys b' len' max_len (plain t'))
  key_round =
      let other : (scancode_to_ascii k == 10) ≡ false = ground (arith, text.1) in
      loop_char fuel _ ((k + 0x80) ∷ keys) b len max_len (scancode_to_ascii k) t
        (pressed k t text.0 ((k + 0x80) ∷ keys) (λ z. omega (arith, z, text.1)) e)
      ∙ rw other (released_line k _ text.0 fuel keys _ _ max_len)

  room_round :
      ltb (len + 1) max_len ≡ true
      → after_key
        ≡ read_loop fuel keys
            (set b len (scancode_to_ascii k))
            (len + 1)
            max_len
            (plain (io_print_char t (scancode_to_ascii k)))
  unfolding edit_line
  room_round room =
      let other : (scancode_to_ascii k == 8) ≡ false = ground (arith, text.1) in
      key_round ∙ rw (edit_line, other, room) refl

  full_round :
      ltb (len + 1) max_len ≡ false → after_key ≡ read_loop fuel keys b len max_len (plain t)
  unfolding edit_line
  full_round full =
      let other : (scancode_to_ascii k == 8) ≡ false = ground (arith, text.1) in
      key_round ∙ rw (edit_line, other, full) refl

typed :
    (fuel : ℕ) (ks rest : List ℕ) (b : Buffer) (len max_len : ℕ) (t : Terminal)
    → length ks < fuel
    → All IsText ks
    → max_len ≤ length b
    → len < max_len
    → NoNul (take len b)
    → t.extended_scancode ≡ false
    → Line max_len
        (take len b ++ text_of ks)
        rest
        (read_loop fuel (strokes ks ++ enter ∷ rest) b len max_len t)
typed zero ks rest b len max_len t f k fits h n e = absurd (omega (arith, f))
typed (suc fuel) [] rest b len max_len t f k fits h n e = (
  set b len 0,
  io_print_char t 10,
  loop_char fuel (enter ∷ rest) rest b len max_len 10 t (enter_pressed t rest e),
  cstr-set b len (omega (arith, h, fits)) n
      ∙ sym (
          ap (take (max_len - 1)) (append-nil (take len b))
          ∙ take_of_le (max_len - 1) (take len b) (omega (arith, length-take len b, h))),
)
typed (suc fuel) (k ∷ ks) rest b len max_len t f (text, more) fits h n e =
    let keys = strokes ks ++ enter ∷ rest in
    let c = scancode_to_ascii k in
    elim (Bool-cases (ltb (len + 1) max_len)) [
      | inl room ↦
          let now : take (len + 1) (set b len c) ≡ take len b ++ c ∷ [] =
            let one : len + 1 ≡ suc len = omega arith in
            ap (λ m. take m (set b len c)) one ∙ take-set b len c (omega (arith, h, fits)) in
          let (b', t', r, s) =
            typed fuel ks rest (set b len c) (len + 1) max_len (plain (io_print_char t c))
              (omega (arith, f)) more (omega (arith, length-set b len c, fits))
              (ground (arith, room))
              (rw now (NoNul-snoc (take len b) c n (λ z. omega (arith, z, text.1)))) refl in
          (
            b',
            t',
            room_round fuel k keys b len max_len t text e room ∙ r,
            s
                ∙ ap (take (max_len - 1)) (
                    ap (λ x. x ++ text_of ks) now
                    ∙ append_assoc (take len b) (c ∷ []) (text_of ks)),
          )
      | inr full ↦
          let at : max_len - 1 ≡ length (take len b) =
            ground (arith, length-take len b, full, h, fits) in
          let cut : (x : CString) → take (max_len - 1) (take len b ++ x) ≡ take len b =
            λ x. ap (λ m. take m (take len b ++ x)) at ∙ take-append (take len b) x in
          let (b', t', r, s) =
            typed fuel ks rest b len max_len (plain t) (omega (arith, f)) more fits h n refl in
          (
            b',
            t',
            full_round fuel k keys b len max_len t text e full ∙ r,
            s ∙ cut (text_of ks) ∙ sym (cut (text_of (k ∷ ks))),
          )
    ]

length-strokes : (ks rest : List ℕ) → length ks < suc (length (strokes ks ++ rest))
length-strokes [] rest = omega arith
length-strokes (k ∷ ks) rest = omega (arith, length-strokes ks rest)

-- Whoever types printable keys and Enter gets the line: io_read_line returns, with the characters of
-- the keys as far as they fit in max_len with the terminator, and leaves the scancodes behind Enter.
pub io_read_line_typed :
    (ks rest : List ℕ) (buffer : Buffer) (max_len : ℕ) (t : Terminal)
    → All IsText ks
    → 0 < max_len
    → max_len ≤ length buffer
    → t.extended_scancode ≡ false
    → Line max_len (text_of ks) rest (io_read_line (strokes ks ++ enter ∷ rest) buffer max_len t)
unfolding io_read_line
io_read_line_typed ks rest buffer zero t text pos fits e = absurd (omega (arith, pos))
io_read_line_typed ks rest buffer (suc n) t text pos fits e =
    typed _ ks rest buffer 0 (suc n) t (length-strokes ks (enter ∷ rest)) text fits pos tt e

-- The release of Enter, which the line before leaves behind.
abbrev pub enter_up : ℕ
enter_up = enter + 0x80

-- The same where that release comes first: then no prefix of an extended key counts.
pub io_read_line_released :
    (ks rest : List ℕ) (buffer : Buffer) (max_len : ℕ) (t : Terminal)
    → All IsText ks
    → 0 < max_len
    → max_len ≤ length buffer
    → Line max_len
        (text_of ks)
        rest
        (io_read_line (enter_up ∷ strokes ks ++ enter ∷ rest) buffer max_len t)
unfolding io_read_line
io_read_line_released ks rest buffer zero t text pos fits = absurd (omega (arith, pos))
io_read_line_released ks rest buffer (suc n) t text pos fits =
    let keys = strokes ks ++ enter ∷ rest in
    let fuel = suc (suc (length keys)) in
    subst (Line (suc n) (text_of ks) rest)
      (sym (released_line enter t (omega arith) fuel keys buffer 0 (suc n)))
      (typed fuel ks rest buffer 0 (suc n) (plain t)
        (omega (arith, length-strokes ks (enter ∷ rest))) text fits pos tt refl)

-- A keyboard that delivers nothing more than that release leaves io_read_line waiting.
pub io_read_line_waits :
    (buffer : Buffer) (max_len : ℕ) (t : Terminal)
    → 0 < max_len
    → (io_read_line [] buffer max_len t ≡ none)
      × (io_read_line (enter_up ∷ []) buffer max_len t ≡ none)
unfolding io_read_line read_loop io_read_char
io_read_line_waits buffer zero t pos = absurd (omega (arith, pos))
io_read_line_waits buffer (suc n) t pos =
    (refl, released_line enter t (omega arith) 2 [] buffer 0 (suc n))
