-- ===== src/Strings/Compare.antt =====
-- `str_compare` of kernel/string.c against equality of strings.
use pl_dos.Base.{◌≡◌, refl, ◌↔◌, true, [], ◌∷◌, arith}
use pl_dos.Strings.{CString, NoNul, str_compare, str_eq}

pub str_eq_refl : (a : CString) → str_eq a a ≡ true
unfolding str_compare
str_eq_refl [] = refl
str_eq_refl (c ∷ a) = ground (arith, str_eq_refl a)

pub eq_of_str_eq : (a b : CString) → NoNul a → NoNul b → str_eq a b ≡ true → a ≡ b
unfolding str_compare
eq_of_str_eq [] [] na nb h = refl
eq_of_str_eq [] (b ∷ bs) na nb h = ground (arith, nb)
eq_of_str_eq (a ∷ r) [] na nb h = ground (arith, na)
eq_of_str_eq (a ∷ r) (b ∷ s) na nb h = ground (arith, eq_of_str_eq r s na.1 nb.1)

-- `str_compare` returns 0 exactly on equal strings.
pub str_eq_iff : (a b : CString) → NoNul a → NoNul b → (str_eq a b ≡ true) ↔ (a ≡ b)
str_eq_iff a b na nb = (eq_of_str_eq a b na nb, λ e. rw e (str_eq_refl b))
