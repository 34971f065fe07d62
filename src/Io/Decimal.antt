-- ===== src/Io/Decimal.antt =====
-- The characters of `io_print_int` of kernel/io.c, read back as a number.
use pl_dos.Base.{
  ℕ, zero, suc, ◌+◌, ◌*◌, ◌/◌, ◌^◌, ◌-◌, ◌<◌, ◌≤◌, ◌≡◌, refl, ap, ◌∙◌, true, false, inl, inr, ◌&&◌,
  leb, Option, none, some, List, [], ◌∷◌, ◌++◌, ℤ, pos, negsuc, reverse, ◌==◌, if◌then◌else◌, arith,
  append-nil, Bool-cases, All,
}
use mathlib.Core.List.{reverse_aux}
use mathlib.Core.Option
use pl_dos.Io.Numbers.{fill_digits, magnitude, is_negative, int_chars}

-- The number that digits spell, the most significant first, behind digits that spell `acc`; none where
-- a character is no digit.
abbrev pub read_digits : ℕ → List ℕ → Option ℕ
read_digits acc [] = some acc
read_digits acc (c ∷ s) =
    if leb b'0' c && leb c b'9' then read_digits (acc * 10 + (c - b'0')) s else none

-- There must be a digit.
abbrev read_natural : List ℕ → Option ℕ
read_natural [] = none
read_natural (c ∷ s) = read_digits 0 (c ∷ s)

abbrev negate : ℕ → ℤ
negate zero = pos 0
negate (suc n) = negsuc n

-- The number that a text spells: digits, behind a minus sign or none.
abbrev pub read_int : List ℕ → Option ℤ
read_int [] = none
read_int (c ∷ s) =
    if c == b'-'
    then Option.map negate (read_natural s)
    else Option.map (λ (k : ℕ). pos k) (read_natural (c ∷ s))

-- The number that digits spell, behind digits that spell `acc`.
abbrev value : ℕ → List ℕ → ℕ
value acc [] = acc
value acc (c ∷ s) = value (acc * 10 + (c - b'0')) s

-- The number that digits spell from the least significant on.
abbrev from_low : List ℕ → ℕ
from_low [] = 0
from_low (c ∷ s) = (c - b'0') + 10 * from_low s

abbrev IsDigits : List ℕ → Type 0
IsDigits = All (λ c. (b'0' ≤ c) × (c ≤ b'9'))

from_low-fill_digits : (places n : ℕ) → n < 10 ^ places → from_low (fill_digits places n) ≡ n
unfolding fill_digits
from_low-fill_digits zero n h = omega (arith, h)
from_low-fill_digits (suc places) n h =
    let rest = from_low-fill_digits places (n / 10) (omega (arith, h)) in
    elim (Bool-cases (n == 0)) [
      | inl none_left ↦ rw none_left (ground arith)
      | inr some_left ↦ rw (some_left, rest) (omega arith)
    ]

fill_digits-IsDigits : (places n : ℕ) → IsDigits (fill_digits places n)
unfolding fill_digits
fill_digits-IsDigits zero n = tt
fill_digits-IsDigits (suc places) n = elim (Bool-cases (n == 0)) [
  | inl none_left ↦ rw none_left tt
  | inr some_left ↦ rw some_left ((omega arith, omega arith), fill_digits-IsDigits places (n / 10))
]

-- `reverse` puts the bytes in front of those that it has.
reverse_aux-IsDigits : (s t : List ℕ) → IsDigits s → IsDigits t → IsDigits (reverse_aux s t)
reverse_aux-IsDigits [] t hs ht = ht
reverse_aux-IsDigits (c ∷ s) t hs ht = reverse_aux-IsDigits s (c ∷ t) hs.1 (hs.0, ht)

reverse_aux-append : (s t : List ℕ) (c : ℕ) → reverse_aux (s ++ c ∷ []) t ≡ c ∷ reverse_aux s t
reverse_aux-append [] t c = refl
reverse_aux-append (x ∷ s) t c = reverse_aux-append s (x ∷ t) c

value-reverse_aux : (s t : List ℕ) → value 0 (reverse_aux s t) ≡ value (from_low s) t
value-reverse_aux [] t = refl
value-reverse_aux (c ∷ s) t =
    let same : from_low s * 10 + (c - b'0') ≡ (c - b'0') + 10 * from_low s = omega arith in
    value-reverse_aux s (c ∷ t) ∙ ap (λ n. value n t) same

read_digits-value : (acc : ℕ) (s : List ℕ) → IsDigits s → read_digits acc s ≡ some (value acc s)
read_digits-value acc [] h = refl
read_digits-value acc (c ∷ s) ((low, high), h) =
    let digit : (leb b'0' c && leb c b'9') ≡ true = ground (arith, low, high) in
    rw digit (read_digits-value (acc * 10 + (c - b'0')) s h)

-- Digits that spell a number other than 0.
read_natural-digits :
    (s : List ℕ) (n : ℕ) → IsDigits s → value 0 s ≡ suc n → read_natural s ≡ some (suc n)
read_natural-digits [] n h e = absurd (omega (arith, e))
read_natural-digits (c ∷ s) n h e = read_digits-value 0 (c ∷ s) h ∙ ap (λ (k : ℕ). some k) e

read_int-digits :
    (s : List ℕ) (n : ℕ) → IsDigits s → value 0 s ≡ suc n → read_int s ≡ some (pos (suc n))
read_int-digits [] n h e = absurd (omega (arith, e))
read_int-digits (c ∷ s) n h e =
    let digit : (c == b'-') ≡ false = ground (arith, h.0.0) in
    rw digit (ap (Option.map (λ (k : ℕ). pos k)) (read_natural-digits (c ∷ s) n h e))

-- The digits of a number, in the order in which they are printed.
reverse-IsDigits : (n : ℕ) → IsDigits (reverse (fill_digits 15 n))
reverse-IsDigits n = reverse_aux-IsDigits (fill_digits 15 n) [] (fill_digits-IsDigits 15 n) tt

value-reverse : (n : ℕ) → n < 10 ^ 15 → value 0 (reverse (fill_digits 15 n)) ≡ n
value-reverse n h = value-reverse_aux (fill_digits 15 n) [] ∙ from_low-fill_digits 15 n h

-- The characters of a number other than 0.
int_chars_nonzero :
    (v : ℤ)
    → (magnitude v == 0) ≡ false
    → int_chars v
      ≡ reverse (fill_digits 15 (magnitude v) ++ (if is_negative v then b'-' ∷ [] else []))
unfolding int_chars
int_chars_nonzero v e = rw (int_chars, e) refl

-- An `int` whose negation is one.
abbrev pub IsInt : ℤ → Type 0
IsInt (pos n) = n < 2 ^ 31
IsInt (negsuc n) = suc n < 2 ^ 31

-- io_print_int prints each int but the least in decimal: the characters are a minus sign for a negative
-- number and then digits, and read as such they give the number.
pub read_int-int_chars : (v : ℤ) → IsInt v → read_int (int_chars v) ≡ some v
unfolding int_chars
read_int-int_chars (pos zero) h = refl
read_int-int_chars (pos (suc n)) h =
    let digits = fill_digits 15 (suc n) in
    ap read_int (int_chars_nonzero (pos (suc n)) (ground arith))
    ∙ ap (λ s. read_int (reverse s)) (append-nil digits)
    ∙ read_int-digits (reverse digits) n (reverse-IsDigits (suc n))
        (value-reverse (suc n) (omega (arith, h)))
read_int-int_chars (negsuc n) h =
    let digits = fill_digits 15 (suc n) in
    ap read_int (int_chars_nonzero (negsuc n) (ground arith))
    ∙ ap read_int (reverse_aux-append digits [] b'-')
    ∙ ap (Option.map negate) (
        read_natural-digits (reverse digits) n (reverse-IsDigits (suc n))
          (value-reverse (suc n) (omega (arith, h))))
