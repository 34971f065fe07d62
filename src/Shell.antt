-- ===== src/Shell.antt =====
-- `shell_parse` of kernel/kernel.c: the words of a command line.
pub mod Spelling
pub mod Words
mod Tests
use pl_dos.Base.{
  ℕ, zero, suc, Bool, ◌||◌, Option, none, some, List, [], ◌∷◌, length, ◌==◌, if◌then◌else◌,
}
use pl_dos.Strings.{CString}
use mathlib.Core.Option

abbrev pub quote : ℕ
quote = b'"'

abbrev pub tab : ℕ
tab = 9

abbrev pub is_gap : ℕ → Bool
is_gap c = c == b' ' || c == tab

unfoldable pub skip_gap : CString → CString
skip_gap [] = []
skip_gap (c ∷ s) = if is_gap c then skip_gap s else c ∷ s

-- The bytes before the first one that ends a word, and what follows that one, whose place the code
-- overwrites with the NUL that terminates the argument.
unfoldable pub cut_word : (ℕ → Bool) → CString → CString × CString
cut_word ends [] = ([], [])
cut_word ends (c ∷ s) =
    let (word, rest) = cut_word ends s in if ends c then ([], s) else (c ∷ word, rest)

-- The argument that starts at a byte that is no gap.
unfoldable pub cut_arg : ℕ → CString → CString × CString
cut_arg c s = if c == quote then cut_word (λ x. x == quote) s else cut_word is_gap (c ∷ s)

-- The loop over the line, with room for `room` more arguments; `none` is a lack of fuel.
unfoldable pub parse_args : ℕ → ℕ → CString → Option (List CString)
parse_args zero room cursor = none
parse_args (suc fuel) zero cursor = some []
parse_args (suc fuel) (suc room) cursor = elim (skip_gap cursor) [
  | [] ↦ some []
  | c ∷ s ↦ let (arg, rest) = cut_arg c s in Option.map (◌∷◌ arg) (parse_args fuel room rest)
]

-- The list `argv[0 .. argc)`.
unfoldable pub shell_parse : CString → ℕ → Option (List CString)
shell_parse line max_args = parse_args (suc (length line)) max_args line
