-- ===== src/Shell/Tests.antt =====
-- The theorems about `shell_parse` on given lines.
use pl_dos.Base.{◌≡◌, refl, some, List, [], ◌∷◌, arith, codes}
use pl_dos.Strings.{CString}
use pl_dos.Shell.{shell_parse}
use pl_dos.Shell.Words.{Parsed, shell_parse-Parsed}
use pl_dos.Shell.Spelling.{command_line, shell_parse-command_line}

split_line_example : Parsed 16 (shell_parse (codes "write a \"b c\" d") 16)
split_line_example = shell_parse-Parsed (codes "write a \"b c\" d") 16 (omega arith)

-- `write a "b c" ""`
abbrev words : List CString
words = codes "write" ∷ codes "a" ∷ codes "b c" ∷ [] ∷ []

command_line_example : shell_parse (command_line words) 16 ≡ some words
command_line_example = shell_parse-command_line words 16 (omega arith) (
  (refl, (refl, (refl, (refl, (refl, tt))))),
  ((refl, tt), ((refl, (refl, (refl, tt))), (tt, tt))),
)
