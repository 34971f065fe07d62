-- ===== src/Strings/Buffers.antt =====
-- What the routines of kernel/string.c that write into an array leave there, and when they overrun.
use pl_dos.Base.{
  ℕ, zero, suc, ◌+◌, ◌-◌, ◌≤◌, ◌<◌, ◌≡◌, refl, ap, ◌≢◌, inl, inr, true, Option, none, some, [], ◌∷◌,
  ◌++◌, arith, length, take, ◌==◌, Bool-cases,
}
use mathlib.Core.Option
use pl_dos.Strings.{
  CString, Buffer, cstr, terminated, NoNul, str_copy, copy_n, str_copy_n, str_concat,
}

-- The call has not overrun its array of `n` bytes, which now holds the string `s`.
abbrev pub Writes : Option Buffer → ℕ → CString → Type 0
Writes none n s = ⊥
Writes (some out) n s = (cstr out ≡ s) × (length out ≡ n) × (terminated out ≡ true)

pub cstr-NoNul : (b : Buffer) → NoNul (cstr b)
cstr-NoNul [] = tt
cstr-NoNul (b ∷ bs) = elim (Bool-cases (b == 0)) [
  | inl e ↦ rw e tt
  | inr e ↦ rw e (ground arith, cstr-NoNul bs)
]

pub length-cstr : (b : Buffer) → terminated b ≡ true → length (cstr b) < length b
length-cstr [] t = cc
length-cstr (b ∷ bs) t = ground (arith, length-cstr bs)

pub cstr_of_zero : (bs : Buffer) → cstr (0 ∷ bs) ≡ []
cstr_of_zero bs = refl

-- A byte in front of what a call has written.
pub Writes-cons :
    (r : Option Buffer) (c n : ℕ) (s : CString)
    → c ≢ 0
    → Writes r n s
    → Writes (Option.map (◌∷◌ c) r) (suc n) (c ∷ s)
Writes-cons none c n s h w = absurd w
Writes-cons (some out) c n s h w = ground (arith, w)

pub str_copy-Writes :
    (dest src : Buffer)
    → NoNul src
    → length src < length dest
    → Writes (str_copy dest src) (length dest) src
unfolding str_copy
str_copy-Writes [] src n h = absurd (omega arith)
str_copy-Writes (d ∷ ds) [] n h = (refl, refl, refl)
str_copy-Writes (d ∷ ds) (c ∷ src) n h =
    Writes-cons (str_copy ds src) c _ src n.0 (str_copy-Writes ds src n.1 (omega arith))

pub str_copy_fits :
    (dest : Buffer) (src : CString)
    → length src < length dest
    → (out : Buffer) × (str_copy dest src ≡ some out) × (length out ≡ length dest)
unfolding str_copy
str_copy_fits [] src h = absurd (omega (arith, h))
str_copy_fits (b ∷ bs) [] h = (0 ∷ bs, refl, refl)
str_copy_fits (b ∷ bs) (c ∷ src) h =
    let (out, e, l) = str_copy_fits bs src (omega (arith, h)) in (c ∷ out, rw e refl, ap suc l)

pub str_copy_overrun : (dest src : Buffer) → length dest ≤ length src → str_copy dest src ≡ none
unfolding str_copy
str_copy_overrun [] src h = refl
str_copy_overrun (d ∷ ds) [] h = absurd (omega arith)
str_copy_overrun (d ∷ ds) (c ∷ src) h = rw (str_copy_overrun ds src (omega arith))

copy_n-Writes :
    (dest src : Buffer) (room : ℕ)
    → NoNul src
    → suc room ≤ length dest
    → Writes (copy_n dest src (suc room)) (length dest) (take room src)
unfolding copy_n
copy_n-Writes [] src room n h = absurd (omega arith)
copy_n-Writes (d ∷ ds) [] zero n h = (refl, refl, refl)
copy_n-Writes (d ∷ ds) [] (suc room) n h = (refl, refl, refl)
copy_n-Writes (d ∷ ds) (c ∷ src) zero n h = (refl, refl, refl)
copy_n-Writes (d ∷ ds) (c ∷ src) (suc room) n h =
    Writes-cons (copy_n ds src (suc room)) c _ (take room src) n.0
      (copy_n-Writes ds src room n.1 (omega arith))

-- `str_copy_n` with the size of its array never overruns it, and cuts the string to what fits.
pub str_copy_n-Writes :
    (dest src : Buffer) (size : ℕ)
    → NoNul src
    → 0 < size
    → size ≤ length dest
    → Writes (str_copy_n dest src size) (length dest) (take (size - 1) src)
unfolding str_copy_n
str_copy_n-Writes dest src zero n h k = absurd (omega arith)
str_copy_n-Writes dest src (suc room) n h k =
    let e : suc room - 1 ≡ room = omega arith in rw e (copy_n-Writes dest src room n k)

-- Appending a string to a terminated array that has room for both and the terminator leaves the two
-- strings, one behind the other.
pub str_concat-Writes :
    (dest src : Buffer)
    → NoNul src
    → terminated dest ≡ true
    → length (cstr dest) + length src < length dest
    → Writes (str_concat dest src) (length dest) (cstr dest ++ src)
unfolding str_concat
str_concat-Writes [] src n t h = absurd (omega arith)
str_concat-Writes (d ∷ ds) src n t h = elim (Bool-cases (d == 0)) [
  | inl e ↦ rw e (str_copy-Writes (d ∷ ds) src n (ground arith))
  | inr e ↦ rw e (
      Writes-cons (str_concat ds src) d _ _ (ground arith)
        (str_concat-Writes ds src n (ground arith) (ground arith)))
]

-- Without room for both strings and the terminator, `str_concat` writes past the end of the array.
pub str_concat_overrun :
    (dest src : Buffer) → length dest ≤ length (cstr dest) + length src → str_concat dest src ≡ none
unfolding str_concat
str_concat_overrun [] src h = refl
str_concat_overrun (d ∷ ds) src h = elim (Bool-cases (d == 0)) [
  | inl e ↦ rw e (str_copy_overrun (d ∷ ds) src (ground arith))
  | inr e ↦ rw (e, str_concat_overrun ds src (ground arith))
]
