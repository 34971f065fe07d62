-- ===== src/Strings.antt =====
-- kernel/string.c. A `const char *` that the code reads is the list of the bytes before its NUL; a
-- `char` array that it writes is the list of all its bytes, and a write past its end is a fault.

pub mod Buffers
pub mod Compare
pub mod Names
pub mod Trim
use pl_dos.Base.{
  ℕ, zero, suc, ◌+◌, ◌-◌, Bool, true, false, not, ◌&&◌, ◌||◌, Option, none, some, List, [], ◌∷◌, ℤ,
  pos, sub_ℕ, is_zero, ltb, ◌==◌, if◌then◌else◌, get_or, take, drop, ◌≢◌, All, min,
}
use mathlib.Core.Option

abbrev pub CString : Type 0
CString = List ℕ

abbrev pub Buffer : Type 0
Buffer = List ℕ

-- The string that a buffer holds: its bytes before the first NUL.
abbrev pub cstr : Buffer → CString
cstr [] = []
cstr (b ∷ bs) = if b == 0 then [] else b ∷ cstr bs

-- A buffer that some byte terminates, so that a reader stops inside it.
abbrev pub terminated : Buffer → Bool
terminated [] = false
terminated (b ∷ bs) = b == 0 || terminated bs

-- No byte of a string is its terminator.
abbrev pub NoNul : CString → Type 0
NoNul = All (λ c. c ≢ 0)

unfoldable pub str_len : CString → ℕ
str_len [] = 0
str_len (c ∷ s) = suc (str_len s)

-- `while (*src) *dest++ = *src++; *dest = 0;` over the array that starts at `dest`.
unfoldable pub str_copy : Buffer → CString → Option Buffer
str_copy [] src = none
str_copy (d ∷ ds) [] = some (0 ∷ ds)
str_copy (d ∷ ds) (c ∷ src) = Option.map (◌∷◌ c) (str_copy ds src)

-- The loop of `str_copy_n` with `room` bytes of `max_len` left, the current one included.
unfoldable pub copy_n : Buffer → CString → ℕ → Option Buffer
copy_n ds src zero = some ds
copy_n [] src (suc room) = none
copy_n (d ∷ ds) [] (suc room) = some (0 ∷ ds)
copy_n (d ∷ ds) (c ∷ src) (suc zero) = some (0 ∷ ds)
copy_n (d ∷ ds) (c ∷ src) (suc (suc room)) = Option.map (◌∷◌ c) (copy_n ds src (suc room))

unfoldable pub str_copy_n : Buffer → CString → ℕ → Option Buffer
unfolding copy_n
str_copy_n dest src max_len = copy_n dest src max_len

-- `str_len(dest)` finds the NUL of `dest`, and the bytes of `src` are written from there on.
unfoldable pub str_concat : Buffer → CString → Option Buffer
unfolding str_copy
str_concat [] src = none
str_concat (d ∷ ds) src =
    if d == 0 then str_copy (d ∷ ds) src else Option.map (◌∷◌ d) (str_concat ds src)

unfoldable pub str_compare : CString → CString → ℤ
str_compare [] [] = pos 0
str_compare [] (b ∷ bs) = sub_ℕ 0 b
str_compare (a ∷ as') [] = sub_ℕ a 0
str_compare (a ∷ as') (b ∷ bs) = if a == b then str_compare as' bs else sub_ℕ a b

-- The test `str_compare(a, b) == 0`.
abbrev pub str_eq : CString → CString → Bool
str_eq a b = is_zero (str_compare a b)

-- The byte at an index: 0 at the end of the string, where each loop stops.
abbrev char_at : CString → ℕ → ℕ
char_at s i = get_or s i 0

-- The loop of `str_compare_n` at index `i`, with the rounds that are left.
unfoldable pub compare_n : CString → CString → ℕ → ℕ → ℤ
compare_n a b i zero = pos 0
compare_n a b i (suc rounds) =
    let rest = compare_n a b (suc i) rounds in
    let x = char_at a i in
    let y = char_at b i in if not (x == y) || x == 0 || y == 0 then sub_ℕ x y else rest

unfoldable pub str_compare_n : CString → CString → ℕ → ℤ
unfolding compare_n
str_compare_n a b n = compare_n a b 0 n

abbrev pub is_blank : ℕ → Bool
is_blank c = c == b' ' || c == 9 || c == 10

-- `while (blank(str[start])) start++;`
unfoldable pub trim_start : CString → ℕ
trim_start [] = 0
trim_start (c ∷ s) = if is_blank c then suc (trim_start s) else 0

-- `while (end > start && blank(str[end - 1])) end--;`
unfoldable pub trim_end : CString → ℕ → ℕ → ℕ
trim_end s start zero = zero
trim_end s start (suc end) =
    let rest = trim_end s start end in
    if ltb start (suc end) && is_blank (char_at s end) then rest else suc end

-- The string in the array afterwards; it only gets shorter, so no write leaves the array.
unfoldable pub str_trim : CString → CString
unfolding trim_start trim_end str_len
str_trim s =
    let start = trim_start s in
    let end = trim_end s start (str_len s) in take (end - start) (drop start s)

unfoldable pub str_starts_with : CString → CString → Bool
str_starts_with s [] = true
str_starts_with [] (p ∷ prefix) = false
str_starts_with (c ∷ s) (p ∷ prefix) = if c == p then str_starts_with s prefix else false

-- The loop of `str_last_index_of` at index `i`; -1 is `none`.
unfoldable pub last_index : ℕ → Option ℕ → CString → ℕ → Option ℕ
last_index i last [] c = last
last_index i last (x ∷ s) c = last_index (suc i) (if x == c then some i else last) s c

unfoldable pub str_last_index_of : CString → ℕ → Option ℕ
unfolding last_index
str_last_index_of s c = last_index 0 none s c

abbrev pub slash : ℕ
slash = b'/'

unfoldable pub path_get_filename : CString → CString
path_get_filename path = elim (str_last_index_of path slash) [
  | none ↦ path
  | some idx ↦ drop (idx + 1) path
]

-- `for (i = 0; i < idx && i < 127; i++) { dirname[i] = path[i]; dirname[i + 1] = 0; }`
unfoldable pub copy_dirname : Buffer → CString → ℕ → Option Buffer
copy_dirname ds path zero = some ds
copy_dirname ds [] (suc n) = some ds
copy_dirname [] (c ∷ path) (suc n) = none
copy_dirname (d ∷ []) (c ∷ path) (suc n) = none
copy_dirname (d ∷ e ∷ ds) (c ∷ path) (suc n) = Option.map (◌∷◌ c) (copy_dirname (0 ∷ ds) path n)

-- The buffer is the function's static array, as the call finds it.
unfoldable pub path_get_dirname : Buffer → CString → Option Buffer
path_get_dirname dirname path = elim (str_last_index_of path slash) [
  | none ↦ str_copy dirname (slash ∷ [])
  | some zero ↦ str_copy dirname (slash ∷ [])
  | some (suc idx) ↦ copy_dirname dirname path (min (suc idx) 127)
]
