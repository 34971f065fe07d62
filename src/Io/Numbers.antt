-- ===== src/Io/Numbers.antt =====
-- `io_print_int` and `io_print_hex` of kernel/io.c: the characters that they hand to `io_print_char`.
use pl_dos.Base.{
  ℕ, zero, suc, ◌+◌, ◌*◌, ◌/◌, ◌%◌, ◌^◌, ◌-◌, Bool, true, false, List, [], ◌∷◌, ◌++◌, ℤ, pos,
  negsuc, reverse, ltb, ◌==◌, if◌then◌else◌, codes,
}

-- `while (n > 0 && i < 15) { buf[i++] = '0' + n % 10; n /= 10; }`, with the places left in `buf`.
unfoldable pub fill_digits : ℕ → ℕ → List ℕ
fill_digits zero n = []
fill_digits (suc places) n =
    let rest = fill_digits places (n / 10) in if n == 0 then [] else (b'0' + n % 10) ∷ rest

abbrev pub magnitude : ℤ → ℕ
magnitude (pos n) = n
magnitude (negsuc n) = suc n

abbrev pub is_negative : ℤ → Bool
is_negative (pos n) = false
is_negative (negsuc n) = true

-- The buffer is printed from its last place to its first.
unfoldable pub int_chars : ℤ → List ℕ
unfolding fill_digits
int_chars value =
    if magnitude value == 0
    then b'0' ∷ []
    else reverse (fill_digits 15 (magnitude value) ++ (if is_negative value then b'-' ∷ [] else []))

abbrev hex_digit : ℕ → ℕ
hex_digit d = if ltb d 10 then b'0' + d else b'A' + d - 10

-- `for (i = 7; i >= 0; i--) print(hex[(value >> (i * 4)) & 0xF]);` with `places` rounds left.
unfoldable pub hex_places : ℕ → ℕ → List ℕ
hex_places zero value = []
hex_places (suc i) value = hex_digit (value / 2 ^ (i * 4) % 16) ∷ hex_places i value

unfoldable pub hex_chars : ℕ → List ℕ
unfolding hex_places
hex_chars value = codes "0x" ++ hex_places 8 value
