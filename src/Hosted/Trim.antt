-- ===== src/Hosted/Trim.antt =====
-- The two `str_trim`, of kernel/string.c and of src/string.c, whose second loops compare and count
-- differently, against the bytes that are to be left.
use pl_dos.Base.{
  ℕ, zero, suc, ◌-◌, ◌≤◌, ◌<◌, ◌≡◌, refl, ap, inl, inr, false, ◌==◌, take, drop, length, get_or,
  arith, Bool-cases,
}
use pl_dos.Strings.{CString, str_len, is_blank, trim_start, trim_end, str_trim}
use pl_dos.Strings.Trim.{IsCore, length-str_len, trim_start-first, trim_end-IsCore}
use pl_dos.Hosted.Strings
use pl_dos.Hosted.Strings.{trim_last}

-- With a byte at `start` that is not blank the test `end > start` may leave out that byte.
trim_last-trim_end :
    (s : CString) (start end : ℕ)
    → (start < length s → is_blank (get_or s start 0) ≡ false)
    → end ≤ length s
    → trim_last s start end ≡ trim_end s start end
unfolding trim_last trim_end
trim_last-trim_end s start zero first h = refl
trim_last-trim_end s start (suc end) first h =
    let before = trim_last-trim_end s start end first (omega arith) in
    elim (Bool-cases (start == end)) [
      | inl at_start ↦
          let e : end ≡ start = ground arith in
          let solid : is_blank (get_or s end 0) ≡ false = rw e (first (omega (arith, h))) in
          rw solid (ground arith)
      | inr elsewhere ↦ rw before (ground arith)
    ]

-- Each str_trim leaves the same bytes of the string: from the first to the last that is no space, tab
-- or newline, and none where there is no such byte.
pub str_trim_lem :
    (s : CString)
    → (start : ℕ) × (stop : ℕ) × IsCore s start stop
      × (str_trim s ≡ take (stop - start) (drop start s))
      × (Strings.str_trim s ≡ take (stop - start) (drop start s))
unfolding str_trim Strings.str_trim
str_trim_lem s =
    let same =
      trim_last-trim_end s (trim_start s) (str_len s) (trim_start-first s)
        (omega (arith, length-str_len s)) in
    (_, _, trim_end-IsCore s, refl, ap (λ n. take (n - trim_start s) (drop (trim_start s) s)) same)
