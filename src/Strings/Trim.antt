-- ===== src/Strings/Trim.antt =====
-- The indices at which the loops of `str_trim` of kernel/string.c stop.
use pl_dos.Base.{
  ℕ, zero, suc, ◌-◌, ◌≤◌, ◌<◌, ◌≡◌, refl, inl, inr, Bool, true, false, ◌&&◌, ◌==◌, lt→ltb, [], ◌∷◌,
  length, get_or, ltb, ltb, arith, Bool-cases,
}
use pl_dos.Strings.{CString, str_len, is_blank, trim_start, trim_end}

abbrev at : CString → ℕ → ℕ
at s i = get_or s i 0

-- The bytes from `start` to `stop` are those between the first and the last that is not blank.
pub record IsCore (s : CString) (start stop : ℕ) : Type 0 where
  inside : stop ≤ length s
  blank_before : (i : ℕ) → i < start → is_blank (at s i) ≡ true
  blank_behind : (i : ℕ) → stop ≤ i → i < length s → is_blank (at s i) ≡ true
  pub first : start < stop → is_blank (at s start) ≡ false
  last : start < stop → is_blank (at s (stop - 1)) ≡ false

pub length-str_len : (s : CString) → str_len s ≡ length s
unfolding str_len
length-str_len [] = refl
length-str_len (c ∷ s) = omega (arith, length-str_len s)

trim_start-le : (s : CString) → trim_start s ≤ length s
unfolding trim_start
trim_start-le [] = omega arith
trim_start-le (c ∷ s) = ground (arith, trim_start-le s)

trim_start-blank : (s : CString) (i : ℕ) → i < trim_start s → is_blank (at s i) ≡ true
unfolding trim_start
trim_start-blank [] i h = absurd (omega arith)
trim_start-blank (c ∷ s) zero h = elim (Bool-cases (is_blank c)) [
  | inl blank ↦ blank
  | inr solid ↦ absurd (ground arith)
]
trim_start-blank (c ∷ s) (suc i) h = elim (Bool-cases (is_blank c)) [
  | inl blank ↦ trim_start-blank s i (ground arith)
  | inr solid ↦ absurd (ground arith)
]

pub trim_start-first :
    (s : CString) → trim_start s < length s → is_blank (at s (trim_start s)) ≡ false
unfolding trim_start
trim_start-first [] h = absurd (omega arith)
trim_start-first (c ∷ s) h = elim (Bool-cases (is_blank c)) [
  | inl blank ↦ rw blank (trim_start-first s (ground arith))
  | inr solid ↦ rw (solid, solid) refl
]

extend :
    (s : CString) (stop end : ℕ)
    → ((i : ℕ) → stop ≤ i → i < end → is_blank (at s i) ≡ true)
    → is_blank (at s end) ≡ true
    → (i : ℕ) → stop ≤ i
    → i < suc end
    → is_blank (at s i) ≡ true
extend s stop end blank b i l h = elim (Bool-cases (i == end)) [
  | inl same ↦ let e : i ≡ end = ground arith in rw e b
  | inr other ↦ blank i l (ground arith)
]

&&-right : (a b : Bool) → (a && b) ≡ true → b ≡ true
&&-right true b h = h
&&-right false b h = cc

&&-right_false : (a b : Bool) → (a && b) ≡ false → a ≡ true → b ≡ false
&&-right_false true b h e = h
&&-right_false false b h e = cc

-- The second loop stops between `start` and `end`, behind a byte that is not blank.
trim_end-stops :
    (s : CString) (start end : ℕ)
    → let stop = trim_end s start end in
      (stop ≤ end)
      × ((i : ℕ) → stop ≤ i → i < end → is_blank (at s i) ≡ true)
      × (start < stop → is_blank (at s (stop - 1)) ≡ false)
unfolding trim_end
trim_end-stops s start zero =
    (omega arith, λ i l h. absurd (omega arith), λ h. absurd (omega arith))
trim_end-stops s start (suc end) =
    let (inside, blank, last) = trim_end-stops s start end in
    elim (Bool-cases (ltb start (suc end) && is_blank (at s end))) [
      | inl more ↦ rw more (
        omega (arith, inside),
        extend s (trim_end s start end) end blank (&&-right _ _ more),
        last,
      )
      | inr stops ↦ rw stops (
        omega arith,
        λ i l h. absurd (omega arith),
        λ h.
            let kept : suc end - 1 ≡ end = omega arith in
            rw kept (
              &&-right_false (ltb start (suc end)) (is_blank (at s end)) stops
                (lt→ltb start (suc end) h)),
      )
    ]

pub trim_end-IsCore :
    (s : CString) → IsCore s (trim_start s) (trim_end s (trim_start s) (str_len s))
trim_end-IsCore s =
    let (inside, blank, last) = trim_end-stops s (trim_start s) (length s) in
    rw (length-str_len s) record {
      inside = inside;
      blank_before = trim_start-blank s;
      blank_behind = blank;
      first = λ h. trim_start-first s (omega (arith, inside));
      last = last;
    }
