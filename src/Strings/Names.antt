-- ===== src/Strings/Names.antt =====
-- The path helpers of kernel/string.c on a path that is a directory, a slash and a last name.
use pl_dos.Base.{
  take-append, ℕ, zero, suc, ◌+◌, ◌≤◌, ◌≡◌, refl, ap, ◌∙◌, ◌≢◌, Option, none, some, [], ◌∷◌, ◌++◌,
  arith, length, take, drop, All, ◌==◌, if◌then◌else◌, min,
}
use native.Mathlib.Nat.{add-zero}
use pl_dos.Strings.{
  CString, Buffer, NoNul, slash, last_index, str_last_index_of, path_get_filename, copy_dirname,
  path_get_dirname,
}
use pl_dos.Strings.Buffers.{Writes, Writes-cons, str_copy-Writes}

abbrev pub NoSlash : CString → Type 0
NoSlash = All (λ c. c ≢ slash)

last_index-NoSlash :
    (i : ℕ) (last : Option ℕ) (s : CString) → NoSlash s → last_index i last s slash ≡ last
unfolding last_index
last_index-NoSlash i last [] n = refl
last_index-NoSlash i last (c ∷ s) n = ground (arith, last_index-NoSlash (suc i) last s n.1, n.0)

last_index-append :
    (i : ℕ) (last : Option ℕ) (p s : CString)
    → NoSlash s
    → last_index i last (p ++ slash ∷ s) slash ≡ some (i + length p)
unfolding last_index
last_index-append i last [] s n = rw (last_index-NoSlash (suc i) (some i) s n, add-zero)
last_index-append i last (c ∷ p) s n =
    last_index-append (suc i) (if c == slash then some i else last) p s n
    ∙ ap (λ (k : ℕ). some k) (omega arith)

pub str_last_index_of-append :
    (p s : CString) → NoSlash s → str_last_index_of (p ++ slash ∷ s) slash ≡ some (length p)
unfolding str_last_index_of
str_last_index_of-append p s n =
    last_index-append 0 none p s n ∙ ap (λ (k : ℕ). some k) (omega arith)

drop-append : (p s : CString) (c : ℕ) → drop (suc (length p)) (p ++ c ∷ s) ≡ s
drop-append [] s c = refl
drop-append (x ∷ p) s c = drop-append p s c

-- The file name is what stands behind the last slash.
pub path_get_filename-append : (p s : CString) → NoSlash s → path_get_filename (p ++ slash ∷ s) ≡ s
unfolding path_get_filename
path_get_filename-append p s n =
    let e : length p + 1 ≡ suc (length p) = omega arith in
    rw (str_last_index_of-append p s n, path_get_filename, e) (drop-append p s slash)

copy_dirname-Writes :
    (ds : Buffer) (path : CString) (n : ℕ)
    → NoNul path
    → n ≤ length ds
    → Writes (copy_dirname (0 ∷ ds) path n) (suc (length ds)) (take n path)
unfolding copy_dirname
copy_dirname-Writes ds path zero nn h = (refl, refl, refl)
copy_dirname-Writes ds [] (suc n) nn h = (refl, refl, refl)
copy_dirname-Writes [] (c ∷ path) (suc n) nn h = absurd (omega arith)
copy_dirname-Writes (e ∷ ds) (c ∷ path) (suc n) nn h =
    Writes-cons (copy_dirname (0 ∷ ds) path n) c _ (take n path) nn.0
      (copy_dirname-Writes ds path n nn.1 (omega arith))

copy_dirname_pos :
    (d : ℕ) (ds : Buffer) (c : ℕ) (path : CString) (n : ℕ)
    → copy_dirname (d ∷ ds) (c ∷ path) (suc n) ≡ copy_dirname (0 ∷ ds) (c ∷ path) (suc n)
unfolding copy_dirname
copy_dirname_pos d [] c path n = refl
copy_dirname_pos d (e ∷ ds) c path n = refl

-- Whatever the static array held before, it now holds the part before the last slash.
pub path_get_dirname-append :
    (dirname : Buffer) (c : ℕ) (p s : CString)
    → length dirname ≡ 128
    → NoNul (c ∷ p ++ slash ∷ s)
    → NoSlash s
    → suc (length p) ≤ 127
    → Writes (path_get_dirname dirname (c ∷ p ++ slash ∷ s)) 128 (c ∷ p)
unfolding path_get_dirname
path_get_dirname-append [] c p s e n m h = absurd (omega arith)
path_get_dirname-append (d ∷ ds) c p s e n m h =
    let full : min (suc (length p)) 127 ≡ suc (length p) = omega arith in
    let size : suc (length ds) ≡ 128 = omega arith in
    rw
      (
        str_last_index_of-append (c ∷ p) s m,
        path_get_dirname,
        full,
        copy_dirname_pos d ds c (p ++ slash ∷ s) (length p),
        ← size,
        ← take-append (c ∷ p) (slash ∷ s),
      )
      (copy_dirname-Writes ds (c ∷ p ++ slash ∷ s) (suc (length p)) n (omega arith))

pub path_get_dirname_root :
    (dirname : Buffer) (s : CString)
    → length dirname ≡ 128
    → NoSlash s
    → Writes (path_get_dirname dirname (slash ∷ s)) 128 (slash ∷ [])
unfolding path_get_dirname
path_get_dirname_root dirname s e n =
    rw (str_last_index_of-append [] s n, path_get_dirname, ← e)
      (str_copy-Writes dirname (slash ∷ []) (omega arith) (omega arith))
