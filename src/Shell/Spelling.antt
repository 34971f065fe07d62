-- ===== src/Shell/Spelling.antt =====
-- Command lines that spell given words, and what `shell_parse` of kernel/kernel.c makes of them.
use pl_dos.Base.{
  ℕ, zero, suc, ◌≤◌, ◌<◌, ◌≡◌, ◌∙◌, ap, refl, inl, inr, Bool, true, false, ◌||◌, some, List, [],
  ◌∷◌, ◌++◌, length, All, Bool-cases, if◌then◌else◌, ◌==◌, arith, append_assoc, length-append,
}
use pl_dos.Strings.{CString}
use pl_dos.Shell.{quote, is_gap, skip_gap, cut_word, cut_arg, parse_args, shell_parse}
use mathlib.Core.Option

abbrev NoQuote : CString → Type 0
NoQuote = All (λ c. (c == quote) ≡ false)

abbrev has_gap : CString → Bool
has_gap [] = false
has_gap (c ∷ w) = is_gap c || has_gap w

-- A word is quoted when it is empty or has a blank in it.
unfoldable pub spell : CString → CString
spell [] = quote ∷ quote ∷ []
spell (c ∷ w) = if has_gap (c ∷ w) then quote ∷ c ∷ w ++ quote ∷ [] else c ∷ w

unfoldable pub command_line : List CString → CString
command_line [] = []
command_line (w ∷ ws) = spell w ++ b' ' ∷ command_line ws

cut_word_at :
    (ends : ℕ → Bool) (w s : CString) (c : ℕ)
    → All (λ x. ends x ≡ false) w
    → ends c ≡ true
    → cut_word ends (w ++ c ∷ s) ≡ (w, s)
unfolding cut_word
cut_word_at ends [] s c free at = rw at refl
cut_word_at ends (x ∷ w) s c free at = rw (free.0, cut_word_at ends w s c free.1 at) refl

solid : (w : CString) → has_gap w ≡ false → All (λ x. is_gap x ≡ false) w
solid [] h = tt
solid (c ∷ w) h = (ground arith, solid w (ground arith))

-- The line that starts with a quoted word.
parse_quoted :
    (fuel room : ℕ) (w s : CString)
    → NoQuote w
    → parse_args (suc fuel) (suc room) (quote ∷ w ++ quote ∷ s)
      ≡ Option.map (◌∷◌ w) (parse_args fuel room s)
unfolding parse_args skip_gap cut_arg
parse_quoted fuel room w s n = rw (cut_word_at (λ x. x == quote) w s quote n refl) refl

skip_gap_none : (c : ℕ) (s : CString) → is_gap c ≡ false → skip_gap (c ∷ s) ≡ c ∷ s
unfolding skip_gap
skip_gap_none c s h = rw h refl

cut_plain :
    (c : ℕ) (w s : CString)
    → NoQuote (c ∷ w)
    → has_gap (c ∷ w) ≡ false
    → cut_arg c (w ++ b' ' ∷ s) ≡ (c ∷ w, s)
unfolding cut_arg
cut_plain c w s n h = rw n.0 (cut_word_at is_gap (c ∷ w) s b' ' (solid (c ∷ w) h) refl)

-- The line that starts with a plain word.
parse_plain :
    (fuel room c : ℕ) (w s : CString)
    → NoQuote (c ∷ w)
    → has_gap (c ∷ w) ≡ false
    → parse_args (suc fuel) (suc room) (c ∷ w ++ b' ' ∷ s)
      ≡ Option.map (◌∷◌ (c ∷ w)) (parse_args fuel room s)
unfolding parse_args
parse_plain fuel room c w s n h =
    rw (parse_args, skip_gap_none c (w ++ b' ' ∷ s) (solid (c ∷ w) h).0, cut_plain c w s n h) refl

parse_space :
    (fuel room : ℕ) (s : CString) → parse_args fuel room (b' ' ∷ s) ≡ parse_args fuel room s
unfolding parse_args skip_gap
parse_space zero room s = refl
parse_space (suc fuel) zero s = refl
parse_space (suc fuel) (suc room) s = refl

parse_word :
    (fuel room : ℕ) (w s : CString)
    → NoQuote w
    → parse_args (suc fuel) (suc room) (spell w ++ b' ' ∷ s)
      ≡ Option.map (◌∷◌ w) (parse_args fuel room s)
unfolding spell
parse_word fuel room [] s n =
    parse_quoted fuel room [] (b' ' ∷ s) n ∙ ap (Option.map (◌∷◌ [])) (parse_space fuel room s)
parse_word fuel room (c ∷ w) s n = elim (Bool-cases (has_gap (c ∷ w))) [
  | inl gaps ↦
      rw
        (
          gaps,
          append_assoc w (quote ∷ []) (b' ' ∷ s),
          parse_quoted fuel room (c ∷ w) (b' ' ∷ s) n,
          parse_space fuel room s,
        )
        refl
  | inr plain ↦ rw plain (parse_plain fuel room c w s n plain)
]

parse_end : (fuel room : ℕ) → parse_args (suc fuel) room [] ≡ some []
unfolding parse_args skip_gap
parse_end fuel zero = refl
parse_end fuel (suc room) = refl

length-spell : (w : CString) → 0 < length (spell w)
unfolding spell
length-spell [] = omega arith
length-spell (c ∷ w) = elim (Bool-cases (has_gap (c ∷ w))) [
  | inl gaps ↦ rw gaps (omega arith)
  | inr plain ↦ rw plain (omega arith)
]

parse_line :
    (fuel room : ℕ) (ws : List CString)
    → length (command_line ws) < fuel
    → length ws ≤ room
    → All NoQuote ws
    → parse_args fuel room (command_line ws) ≡ some ws
unfolding command_line
parse_line zero room ws l fits n = absurd (omega (arith, l))
parse_line (suc fuel) room [] l fits n = parse_end fuel room
parse_line (suc fuel) zero (w ∷ ws) l fits n = absurd (omega (arith, fits))
parse_line (suc fuel) (suc room) (w ∷ ws) l fits n =
    let shorter : length (command_line ws) < fuel =
      omega (arith, l, length-spell w, length-append (spell w) (b' ' ∷ command_line ws)) in
    parse_word fuel room w (command_line ws) n.0
    ∙ ap (Option.map (◌∷◌ w)) (parse_line fuel room ws shorter (omega (arith, fits)) n.1)

-- Words without a quote come back from the line that spells them, each quoted where it is empty or
-- has a blank, when they are no more than `max_args`.
pub shell_parse-command_line :
    (ws : List CString) (max_args : ℕ)
    → length ws ≤ max_args
    → All NoQuote ws
    → shell_parse (command_line ws) max_args ≡ some ws
unfolding shell_parse
shell_parse-command_line ws max_args fits n = parse_line _ max_args ws (omega arith) fits n
