-- ===== src/Hosted/Unrun.antt =====
-- What `shell_parse_command` of src/shell.c leaves in `argv[0]`.
use pl_dos.Base.{
  ℕ, ◌+◌, ◌-◌, ◌≤◌, ◌<◌, ◌≡◌, refl, ap, ◌∙◌, inl, inr, Bool, true, false, ◌&&◌, Option, some, List,
  [], ◌∷◌, ◌++◌, map, length, get_or, set, ltb, if◌then◌else◌, ◌>>=◌, arith, All, All-set,
  All-get_or, length-set, length-append, length-map, get_or-set_ne, Bool-cases,
}
use pl_dos.Strings.{CString, Buffer, cstr, str_len, is_blank}
use pl_dos.Strings.Buffers.{str_copy_fits}
use pl_dos.Hosted.Shell.{
  args_max, arg_max_len, Scan, end_word, add_char, scan_char, scan_line, scan_end,
  shell_parse_command, runs_command,
}

abbrev pub IsArray : Buffer → Type 0
IsArray b = length b ≡ arg_max_len

-- The scan has not written to `argv[0]`, and its next argument and its word fit.
record IsScan (s : Scan) : Type 0 where
  count : length s.argv ≡ args_max
  sizes : All IsArray s.argv
  above : 1 ≤ s.arg_idx
  below : s.arg_idx ≤ args_max
  short : length s.current < arg_max_len
  first : cstr (get_or s.argv 0 []) ≡ []

abbrev Scanned : Option Scan → Type 0
Scanned r = (s : Scan) × (r ≡ some s) × IsScan s

end_word-Scanned : (s : Scan) → IsScan s → Scanned (end_word s)
unfolding end_word
end_word-Scanned s v = elim (Bool-cases (ltb s.arg_idx args_max)) [
  | inr full ↦ (s, rw full refl, v)
  | inl room ↦
      let array : IsArray (get_or s.argv s.arg_idx []) =
        All-get_or IsArray s.argv s.arg_idx [] v.sizes (ground (arith, v.count)) in
      let (out, e, l) =
        str_copy_fits (get_or s.argv s.arg_idx []) s.current (omega (arith, array, v.short)) in
      (
        record s { argv = set s.argv s.arg_idx out; arg_idx = s.arg_idx + 1 },
        rw (room, e) refl,
        record {
          count = rw length-set v.count;
          sizes = All-set IsArray s.argv s.arg_idx out v.sizes (l ∙ array);
          above = omega arith;
          below = ground arith;
          short = v.short;
          first =
              ap cstr (get_or-set_ne s.argv s.arg_idx 0 out [] (omega (arith, v.above))) ∙ v.first;
        },
      )
]

reset : (s : Scan) → IsScan s → IsScan (record s { current = []; in_word = false })
reset s v = record {
  count = v.count;
  sizes = v.sizes;
  above = v.above;
  below = v.below;
  short = omega arith;
  first = v.first;
}

grown :
    (kept : CString) (c : ℕ)
    → length kept < arg_max_len
    → length (if ltb (length kept) (arg_max_len - 1) then kept ++ c ∷ [] else kept) < arg_max_len
grown kept c h = elim (Bool-cases (ltb (length kept) (arg_max_len - 1))) [
  | inl room ↦ rw room (ground (arith, length-append kept (c ∷ [])))
  | inr full ↦ rw full h
]

kept_short :
    (b : Bool) (word : CString)
    → length word < arg_max_len
    → length (if b then word else []) < arg_max_len
kept_short true word h = h
kept_short false word h = omega arith

ended-Scanned :
    (s : Scan) (r : Option Scan)
    → Scanned r
    → Scanned (r >>= λ t. some (record t { current = []; in_word = false }))
ended-Scanned s r (t, e, v) = (_, rw e refl, reset t v)

scan_char-Scanned : (s : Scan) (c : ℕ) → IsScan s → Scanned (scan_char s c)
unfolding scan_char
scan_char-Scanned s c v = elim (Bool-cases (is_blank c)) [
  | inr solid ↦ (
    add_char s c,
    rw solid refl,
    record {
      count = v.count;
      sizes = v.sizes;
      above = v.above;
      below = v.below;
      short = grown _ c (kept_short s.in_word s.current v.short);
      first = v.first;
    },
  )
  | inl blank ↦ elim (Bool-cases (s.in_word && ltb 0 (length s.current))) [
    | inl word ↦ rw (blank, word) (ended-Scanned s (end_word s) (end_word-Scanned s v))
    | inr none_left ↦ rw (blank, none_left) (s, refl, v)
  ]
]

scan_line-Scanned : (line : CString) (s : Scan) → IsScan s → Scanned (scan_line line s)
unfolding scan_line
scan_line-Scanned [] s v = (s, refl, v)
scan_line-Scanned (c ∷ line) s v =
    let (t, e, w) = scan_char-Scanned s c v in rw e (scan_line-Scanned line t w)

scan_end-Scanned : (s : Scan) → IsScan s → Scanned (scan_end s)
unfolding scan_end
scan_end-Scanned s v = elim (Bool-cases (s.in_word && ltb 0 (length s.current))) [
  | inl word ↦ rw word (end_word-Scanned s v)
  | inr none_left ↦ rw none_left (s, refl, v)
]

cleared-IsArray : (argv : List Buffer) → All IsArray argv → All IsArray (map (λ b. set b 0 0) argv)
cleared-IsArray [] a = tt
cleared-IsArray (b ∷ argv) (l, a) = (rw length-set l, cleared-IsArray argv a)

cleared_first : (argv : List Buffer) → cstr (get_or (map (λ b. set b 0 0) argv) 0 []) ≡ []
cleared_first [] = refl
cleared_first ([] ∷ argv) = refl
cleared_first ((x ∷ b) ∷ argv) = refl

-- Whatever the input, `shell_parse_command` overruns no array, gives at most 16 arguments, and never
-- writes to `argv[0]`: `shell_run` finds no command name there and runs nothing.
pub shell_parse_command_lem :
    (input : CString) (argv : List Buffer)
    → length argv ≡ args_max
    → All IsArray argv
    → (r : List Buffer × ℕ) × (shell_parse_command input argv ≡ some r)
      × (r.1 ≤ args_max)
      × (runs_command r ≡ false)
unfolding shell_parse_command runs_command str_len
shell_parse_command_lem input argv count sizes =
    let start : Scan = record {
      argv = map (λ b. set b 0 0) argv;
      arg_idx = 1;
      current = [];
      in_word = false;
    } in
    let v : IsScan start = record {
      count = omega (arith, count, length-map argv (λ b. set b 0 0));
      sizes = cleared-IsArray argv sizes;
      above = omega arith;
      below = omega arith;
      short = omega arith;
      first = cleared_first argv;
    } in
    let (s, e, w) = scan_line-Scanned input start v in
    let (t, e', w') = scan_end-Scanned s w in
    ((t.argv, t.arg_idx), rw (e, e') refl, w'.below, rw w'.first (unrun (ltb 0 t.arg_idx)))
  where
    unrun : (b : Bool) → (b && false) ≡ false
    unrun true = refl
    unrun false = refl
