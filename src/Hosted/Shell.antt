-- ===== src/Hosted/Shell.antt =====
-- `shell_parse_command` of src/shell.c, and the test of `shell_run` on what it leaves.
use pl_dos.Base.{
  ℕ, ◌+◌, ◌-◌, Bool, true, false, ◌&&◌, Option, some, List, [], ◌∷◌, ◌++◌, map, length, get_or, set,
  ltb, if◌then◌else◌, ◌>>=◌,
}
use pl_dos.Strings.{CString, Buffer, cstr, str_len, str_copy, is_blank}

abbrev pub args_max : ℕ
args_max = 16

abbrev pub arg_max_len : ℕ
arg_max_len = 64

-- `argv`, `arg_idx` and the first `current_len` bytes of `current_arg`. `in_word` holds exactly where
-- there are such bytes: it is set with the first of them and cleared with `current_len`.
pub record Scan : Type 0 where
  pub argv : List Buffer
  pub arg_idx : ℕ
  pub current : CString
  pub in_word : Bool

-- `current_arg` ends: it is copied where there is room for one more argument.
unfoldable pub end_word : Scan → Option Scan
end_word s =
    if ltb s.arg_idx args_max
    then (do
      arg ← str_copy (get_or s.argv s.arg_idx []) s.current
      some (record s { argv = set s.argv s.arg_idx arg; arg_idx = s.arg_idx + 1 }))
    else some s

-- The byte is kept while `current_arg` has room.
abbrev pub add_char : Scan → ℕ → Scan
add_char s c =
    let kept = if s.in_word then s.current else [] in
    record s {
      in_word = true;
      current = if ltb (length kept) (arg_max_len - 1) then kept ++ c ∷ [] else kept;
    }

-- One round of the loop over the input.
unfoldable pub scan_char : Scan → ℕ → Option Scan
scan_char s c =
    if is_blank c
    then (if s.in_word && ltb 0 (length s.current)
        then (do s ← end_word s; some (record s { current = []; in_word = false }))
        else some s)
    else some (add_char s c)

unfoldable pub scan_line : CString → Scan → Option Scan
scan_line [] s = some s
scan_line (c ∷ line) s = scan_char s c >>= scan_line line

-- The last word.
unfoldable pub scan_end : Scan → Option Scan
scan_end s = if s.in_word && ltb 0 (length s.current) then end_word s else some s

-- The arrays of `argv` are as `malloc` gives them, where it does, and `argc` is `arg_idx`.
unfoldable pub shell_parse_command : CString → List Buffer → Option (List Buffer × ℕ)
shell_parse_command input argv = do
  s ←
      scan_line input
        (record { argv = map (λ b. set b 0 0) argv; arg_idx = 1; current = []; in_word = false })
  s ← scan_end s
  some (s.argv, s.arg_idx)

-- `argc > 0 && str_len(argv[0]) > 0`, under which `shell_run` looks for a command.
unfoldable pub runs_command : List Buffer × ℕ → Bool
runs_command (argv, argc) = ltb 0 argc && ltb 0 (str_len (cstr (get_or argv 0 [])))
