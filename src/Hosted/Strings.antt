-- ===== src/Hosted/Strings.antt =====
-- The routines of src/string.c that kernel/string.c does not have, or has otherwise.
use pl_dos.Base.{
  ℕ, zero, suc, ◌+◌, ◌-◌, ◌%◌, not, ◌&&◌, ◌||◌, ℤ, pos, sub_ℕ, Option, none, some, List, [], ◌∷◌,
  ◌++◌, map, take, drop, length, get_or, set, ltb, leb, ◌==◌, if◌then◌else◌,
}
use mathlib.Core.Option
use pl_dos.Strings.{CString, Buffer, is_blank, trim_start, str_len, str_copy}

unfoldable pub str_to_upper : CString → CString
str_to_upper s = map (λ c. if leb b'a' c && leb c b'z' then c - 32 else c) s

unfoldable pub str_to_lower : CString → CString
str_to_lower s = map (λ c. if leb b'A' c && leb c b'Z' then c + 32 else c) s

-- -1 is `none`.
unfoldable pub str_index_of : CString → ℕ → Option ℕ
str_index_of [] c = none
str_index_of (x ∷ s) c =
    let rest = Option.map suc (str_index_of s c) in if x == c then some 0 else rest

-- `start` is an index of the string or of its terminator.
unfoldable pub str_substring : Buffer → CString → ℕ → ℕ → Option Buffer
str_substring dest src start len = str_copy dest (take len (drop start src))

-- `while (end > start && blank(str[end])) end--;`, where the argument is `end + 1`.
unfoldable pub trim_last : CString → ℕ → ℕ → ℕ
trim_last s start zero = zero
trim_last s start (suc end) =
    let rest = trim_last s start end in
    if ltb start end && is_blank (get_or s end 0) then rest else suc end

-- The copy loop moves the bytes from `start` to `end` to the front.
unfoldable pub str_trim : CString → CString
str_trim s = let start = trim_start s in take (trim_last s start (str_len s) - start) (drop start s)

-- `char current_part[64]`
abbrev part_size : ℕ
part_size = 64

-- `if (current_part_len > 0) str_copy(parts[count], current_part)`, where `none` leaves the count.
unfoldable pub put_part : List Buffer → ℕ → CString → Option (List Buffer × ℕ)
put_part parts count [] = some (parts, count)
put_part parts count (c ∷ part) = elim (str_copy (get_or parts count []) (c ∷ part)) [
  | none ↦ none
  | some b ↦ some (set parts count b, count + 1)
]

-- The loop; `part` is what is collected of the current part.
unfoldable pub split_loop : CString → ℕ → ℕ → List Buffer → ℕ → CString → Option (List Buffer × ℕ)
split_loop [] delimiter max_parts parts count part =
    if ltb count max_parts then put_part parts count part else some (parts, count)
split_loop (c ∷ s) delimiter max_parts parts count part =
    if ltb count max_parts
    then (if c == delimiter
        then (elim (put_part parts count part) [
          | none ↦ none
          | some (parts', count') ↦ split_loop s delimiter max_parts parts' count' []
        ])
        else split_loop s delimiter max_parts parts count
            (if ltb (length part) (part_size - 1) then part ++ c ∷ [] else part))
    else some (parts, count)

-- The arrays of the parts afterwards, and how many were filled.
unfoldable pub str_split : CString → ℕ → List Buffer → ℕ → Option (List Buffer × ℕ)
str_split s delimiter parts max_parts = split_loop s delimiter max_parts parts 0 []

-- A plain `char` is signed: 128 more than its value, for a byte.
abbrev pub excess : ℕ → ℕ
excess c = (c + 128) % 256

-- The difference of two plain `char`s.
abbrev pub char_diff : ℕ → ℕ → ℤ
char_diff a b = sub_ℕ (excess a) (excess b)

unfoldable pub str_compare : CString → CString → ℤ
str_compare [] [] = pos 0
str_compare [] (b ∷ bs) = char_diff 0 b
str_compare (a ∷ as') [] = char_diff a 0
str_compare (a ∷ as') (b ∷ bs) = if a == b then str_compare as' bs else char_diff a b

-- The loop of `str_compare_n` at index `i`, with the rounds that are left.
unfoldable pub compare_n : CString → CString → ℕ → ℕ → ℤ
compare_n a b i zero = pos 0
compare_n a b i (suc rounds) =
    let rest = compare_n a b (suc i) rounds in
    let x = get_or a i 0 in
    let y = get_or b i 0 in if not (x == y) || x == 0 || y == 0 then char_diff x y else rest

unfoldable pub str_compare_n : CString → CString → ℕ → ℤ
str_compare_n a b n = compare_n a b 0 n
