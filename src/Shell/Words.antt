-- ===== src/Shell/Words.antt =====
-- `shell_parse` of kernel/kernel.c on every line, and on the lines that spell given words.
use pl_dos.Base.{
  ℕ, zero, suc, ◌≤◌, ◌<◌, ◌≡◌, ◌⊎◌, refl, inl, inr, Bool, false, Option, some, List, [], ◌∷◌,
  length, All, Bool-cases, ◌==◌, arith,
}
use pl_dos.Strings.{CString, NoNul}
use pl_dos.Shell.{quote, is_gap, skip_gap, cut_word, cut_arg, parse_args, shell_parse}
use mathlib.Core.Option

-- What is left of a line of length `n`.
abbrev IsRest : ℕ → CString → Type 0
IsRest n s = (length s ≤ n) × NoNul s

abbrev Skipped : CString → CString → Type 0
Skipped s r =
    (r ≡ [])
    ⊎ ((c : ℕ) × (s' : CString) × (r ≡ c ∷ s')
        × (is_gap c ≡ false)
        × (length s' < length s)
        × NoNul (c ∷ s'))

skip_gap-Skipped : (s : CString) → NoNul s → Skipped s (skip_gap s)
unfolding skip_gap
skip_gap-Skipped [] n = inl refl
skip_gap-Skipped (c ∷ s) n = elim (Bool-cases (is_gap c)) [
  | inr other ↦ rw other (inr (c, s, refl, other, omega arith, n))
  | inl gap ↦ rw gap (elim (skip_gap-Skipped s n.1) [
    | inl e ↦ inl e
    | inr (c', s', e, solid, l, k) ↦ inr (c', s', e, solid, omega (arith, l), k)
  ])
]

cut_word-IsRest :
    (ends : ℕ → Bool) (s : CString)
    → NoNul s
    → NoNul (cut_word ends s).0 × IsRest (length s) (cut_word ends s).1
unfolding cut_word
cut_word-IsRest ends [] n = (tt, (omega arith, tt))
cut_word-IsRest ends (c ∷ s) n = elim (Bool-cases (ends c)) [
  | inl e ↦ rw e (tt, (omega arith, n.1))
  | inr e ↦ rw e (let (w, (l, k)) = cut_word-IsRest ends s n.1 in ((n.0, w), (omega (arith, l), k)))
]

cut_arg-IsRest :
    (c : ℕ) (s : CString)
    → NoNul (c ∷ s)
    → is_gap c ≡ false
    → NoNul (cut_arg c s).0 × IsRest (length s) (cut_arg c s).1
unfolding cut_arg cut_word
cut_arg-IsRest c s n solid = elim (Bool-cases (c == quote)) [
  | inl q ↦ rw q (cut_word-IsRest _ s n.1)
  | inr plain ↦
      rw (plain, solid) (let (w, (l, k)) = cut_word-IsRest is_gap s n.1 in ((n.0, w), (l, k)))
]

-- The loop returned arguments, no more than there is room for, each a string.
abbrev pub Parsed : ℕ → Option (List CString) → Type 0
Parsed room r = (args : List CString) × (r ≡ some args) × (length args ≤ room) × All NoNul args

onward-Parsed :
    (a : CString) (room : ℕ) (r : Option (List CString))
    → NoNul a
    → Parsed room r
    → Parsed (suc room) (Option.map (◌∷◌ a) r)
onward-Parsed a room r n (args, e, l, k) = (a ∷ args, rw e, omega (arith, l), (n, k))

parse_args-Parsed :
    (fuel room : ℕ) (cursor : CString)
    → length cursor < fuel
    → NoNul cursor
    → Parsed room (parse_args fuel room cursor)
unfolding parse_args
parse_args-Parsed zero room cursor l n = absurd (omega (arith, l))
parse_args-Parsed (suc fuel) zero cursor l n = ([], refl, omega arith, tt)
parse_args-Parsed (suc fuel) (suc room) cursor l n = elim (skip_gap-Skipped cursor n) [
  | inl e ↦ rw (e, parse_args) ([], refl, omega arith, tt)
  | inr (c, s, e, solid, less, k) ↦
      let (w, (m, rest)) = cut_arg-IsRest c s k solid in
      rw (e, parse_args)
        (onward-Parsed (cut_arg c s).0 room _ w
          (parse_args-Parsed fuel room (cut_arg c s).1 (omega (arith, l, less, m)) rest))
]

-- On every line the split returns, fills at most `max_args` entries of `argv`, and each entry is a
-- string of its own.
pub shell_parse-Parsed :
    (line : CString) (max_args : ℕ) → NoNul line → Parsed max_args (shell_parse line max_args)
unfolding shell_parse
shell_parse-Parsed line max_args n = parse_args-Parsed _ max_args line (omega arith) n
