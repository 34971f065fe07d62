-- ===== src/Hosted/Compare.antt =====
-- The comparisons of src/string.c, of plain `char`s, against those of kernel/string.c, which casts to
-- unsigned bytes.
use pl_dos.Base.{
  ℕ, ◌+◌, ◌<◌, ◌≡◌, refl, [], ◌∷◌, All, arith, ◌==◌, sub_ℕ, is_zero, Bool-cases, inl, inr, codes,
  negsuc, pos,
}
use pl_dos.Strings.{CString}
use pl_dos.Strings
use pl_dos.Hosted.Strings.{excess, char_diff, str_compare}

abbrev IsAscii : CString → Type 0
IsAscii = All (λ c. c < 128)

abbrev IsBytes : CString → Type 0
IsBytes = All (λ c. c < 256)

char_diff-sub_ℕ : (a b : ℕ) → a < 128 → b < 128 → char_diff a b ≡ sub_ℕ a b
char_diff-sub_ℕ a b ha hb =
    let ea : excess a ≡ a + 128 = omega (arith, ha) in
    let eb : excess b ≡ b + 128 = omega (arith, hb) in rw (ea, eb) (ground arith)

-- On ASCII strings the two answer the same.
str_compare_ascii :
    (a b : CString) → IsAscii a → IsAscii b → str_compare a b ≡ Strings.str_compare a b
unfolding str_compare Strings.str_compare
str_compare_ascii [] [] ha hb = refl
str_compare_ascii [] (b ∷ bs) ha hb = char_diff-sub_ℕ 0 b (omega arith) hb.0
str_compare_ascii (a ∷ r) [] ha hb = char_diff-sub_ℕ a 0 ha.0 (omega arith)
str_compare_ascii (a ∷ r) (b ∷ s) ha hb =
    rw (char_diff-sub_ℕ a b ha.0 hb.0, str_compare_ascii r s ha.1 hb.1) refl

char_diff-is_zero : (a b : ℕ) → a < 256 → b < 256 → is_zero (char_diff a b) ≡ is_zero (sub_ℕ a b)
char_diff-is_zero a b ha hb = ground (arith, ha, hb)

-- On any bytes they call the same strings equal.
str_compare-is_zero :
    (a b : CString)
    → IsBytes a
    → IsBytes b
    → is_zero (str_compare a b) ≡ is_zero (Strings.str_compare a b)
unfolding str_compare Strings.str_compare
str_compare-is_zero [] [] ha hb = refl
str_compare-is_zero [] (b ∷ bs) ha hb = char_diff-is_zero 0 b (omega arith) hb.0
str_compare-is_zero (a ∷ r) [] ha hb = char_diff-is_zero a 0 ha.0 (omega arith)
str_compare-is_zero (a ∷ r) (b ∷ s) ha hb = elim (Bool-cases (a == b)) [
  | inl same ↦ rw same (str_compare-is_zero r s ha.1 hb.1)
  | inr other ↦ rw other (char_diff-is_zero a b ha.0 hb.0)
]

-- Behind ASCII they order otherwise: the byte 195 is negative as a `char`.
str_compare_signs :
    (str_compare (195 ∷ []) (codes "a") ≡ negsuc 157)
    × (Strings.str_compare (195 ∷ []) (codes "a") ≡ pos 98)
unfolding str_compare Strings.str_compare
str_compare_signs = (refl, refl)
