-- ===== src/Hosted/Loops.antt =====
-- str_len, str_copy and str_concat of src/string.c, which index their arrays where kernel/string.c moves
-- pointers. A read or a write outside an array gives `none`.
use pl_dos.Base.{
  ℕ, suc, ◌+◌, ◌≡◌, refl, ap, ◌∙◌, true, false, Option, none, some, [], ◌∷◌, length, set, ltb, ◌==◌,
  if◌then◌else◌, ◌>>=◌, Bool-cases, inl, inr, arith,
}
use mathlib.Core.Option
use pl_dos.Strings.{CString, Buffer, cstr, terminated}
use pl_dos.Strings

-- `while (str[len] != '\0') len++`, where the array is what stands from index `len` on.
unfoldable pub len_loop : Buffer → ℕ → Option ℕ
len_loop [] len = none
len_loop (c ∷ str) len = if c == 0 then some len else len_loop str (len + 1)

unfoldable pub str_len : Buffer → Option ℕ
str_len str = len_loop str 0

-- `dest[i] = c`
unfoldable pub put_char : Buffer → ℕ → ℕ → Option Buffer
put_char dest i c = if ltb i (length dest) then some (set dest i c) else none

-- The loop and the write of the terminator, where `at` is the index of the next byte in `dest` and the
-- array is what is left of `src`.
unfoldable pub copy_loop : Buffer → ℕ → Buffer → Option Buffer
copy_loop dest at [] = none
copy_loop dest at (c ∷ src) =
    if c == 0
    then put_char dest at 0
    else put_char dest at c >>= λ dest. copy_loop dest (at + 1) src

unfoldable pub str_copy : Buffer → Buffer → Option Buffer
str_copy dest src = copy_loop dest 0 src

unfoldable pub str_concat : Buffer → Buffer → Option Buffer
str_concat dest src = do dest_len ← str_len dest; copy_loop dest dest_len src

later :
    (c : ℕ) (str : Buffer) → terminated (c ∷ str) ≡ true → (c == 0) ≡ false → terminated str ≡ true
later c str t more = ground (arith, t, more)

len_loop-cstr :
    (str : Buffer) (len : ℕ)
    → terminated str ≡ true
    → len_loop str len ≡ some (len + Strings.str_len (cstr str))
unfolding len_loop Strings.str_len
len_loop-cstr [] len t = cc
len_loop-cstr (c ∷ str) len t = elim (Bool-cases (c == 0)) [
  | inl nul ↦ rw nul (ap some (omega arith))
  | inr more ↦ rw more (len_loop-cstr str (len + 1) (later c str t more) ∙ ap some (omega arith))
]

-- The length is the kernel's.
str_len-str_len :
    (str : Buffer) → terminated str ≡ true → str_len str ≡ some (Strings.str_len (cstr str))
unfolding str_len
str_len-str_len str t = len_loop-cstr str 0 t ∙ ap some (omega arith)

-- Behind the first byte of the array, the loop works as from its start.
copy_loop-suc :
    (d : ℕ) (dest : Buffer) (at : ℕ) (src : Buffer)
    → copy_loop (d ∷ dest) (suc at) src ≡ Option.map (◌∷◌ d) (copy_loop dest at src)
unfolding copy_loop put_char
copy_loop-suc d dest at [] = refl
copy_loop-suc d dest at (c ∷ src) = elim (Bool-cases (ltb at (length dest))) [
  | inl fits ↦
      let fits' : ltb (suc at) (length (d ∷ dest)) ≡ true = ground (arith, fits) in
      elim (Bool-cases (c == 0)) [
        | inl nul ↦ rw (nul, fits, fits') refl
        | inr more ↦
            let next : suc at + 1 ≡ suc (at + 1) = omega arith in
            rw (more, fits, fits')
              (ap (λ k. copy_loop (d ∷ set dest at c) k src) next
                ∙ copy_loop-suc d (set dest at c) (at + 1) src)
      ]
  | inr over ↦
      let over' : ltb (suc at) (length (d ∷ dest)) ≡ false = ground (arith, over) in
      elim (Bool-cases (c == 0)) [
        | inl nul ↦ rw (nul, over, over') refl
        | inr more ↦ rw (more, over, over') refl
      ]
]

copy_loop-zero :
    (dest src : Buffer)
    → terminated src ≡ true
    → copy_loop dest 0 src ≡ Strings.str_copy dest (cstr src)
unfolding copy_loop put_char Strings.str_copy
copy_loop-zero dest [] t = cc
copy_loop-zero [] (c ∷ src) t = elim (Bool-cases (c == 0)) [
  | inl nul ↦ rw nul refl
  | inr more ↦ rw more refl
]
copy_loop-zero (d ∷ dest) (c ∷ src) t =
    let fits : ltb 0 (length (d ∷ dest)) ≡ true = ground arith in
    elim (Bool-cases (c == 0)) [
      | inl nul ↦ rw (nul, fits) refl
      | inr more ↦
          rw (more, fits)
            (copy_loop-suc c dest 0 src
              ∙ ap (Option.map (◌∷◌ c)) (copy_loop-zero dest src (later c src t more)))
    ]

-- The same copy as the kernel's, and the same overruns.
str_copy-str_copy :
    (dest src : Buffer)
    → terminated src ≡ true
    → str_copy dest src ≡ Strings.str_copy dest (cstr src)
unfolding str_copy
str_copy-str_copy dest src t = copy_loop-zero dest src t

copy_loop-str_len :
    (dest src : Buffer)
    → terminated dest ≡ true
    → terminated src ≡ true
    → copy_loop dest (Strings.str_len (cstr dest)) src ≡ Strings.str_concat dest (cstr src)
unfolding Strings.str_len Strings.str_concat
copy_loop-str_len [] src t u = cc
copy_loop-str_len (d ∷ dest) src t u = elim (Bool-cases (d == 0)) [
  | inl nul ↦ rw nul (copy_loop-zero (d ∷ dest) src u)
  | inr more ↦ rw more (
      copy_loop-suc d dest (Strings.str_len (cstr dest)) src
      ∙ ap (Option.map (◌∷◌ d)) (copy_loop-str_len dest src (later d dest t more) u))
]

str_concat-str_concat :
    (dest src : Buffer)
    → terminated dest ≡ true
    → terminated src ≡ true
    → str_concat dest src ≡ Strings.str_concat dest (cstr src)
unfolding str_concat
str_concat-str_concat dest src t u = rw (str_len-str_len dest t) (copy_loop-str_len dest src t u)
