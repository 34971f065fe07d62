-- ===== src/Filesystem/Path/Resolved.antt =====
-- What `fs_resolve_path` answers, for any input and any current directory.
use pl_dos.Base.{
  suc, ◌≤◌, ◌<◌, ◌≡◌, inl, inr, true, subst, Option, none, some, List, [], arith, length, All,
  ◌>>=◌, take, take_of_le,
}
use native.Mathlib.Decide.{dec_lt}
use pl_dos.Strings.{CString, Buffer, cstr, terminated, str_copy_n}
use pl_dos.Strings.Buffers.{Writes, cstr-NoNul, str_copy_n-Writes}
use pl_dos.Filesystem.{fs_max_path}
use pl_dos.Filesystem.Path.{raw_path, split_raw, join_parts, or_current, fs_resolve_path}
use pl_dos.Filesystem.Path.Canonical.{IsPart, IsParts, render}
use pl_dos.Filesystem.Path.Split.{Collects, split_raw-Collects}
use pl_dos.Filesystem.Path.Join.{Fits, NoNul-render, join_parts-Fits}

-- The path of at most 16 components, each plain, in less than 128 bytes.
pub record IsCanonical (s : CString) : Type 0 where
  pub parts : List CString
  pub parts_ok : IsParts parts
  pub spelled : s ≡ render parts
  pub short : length s < fs_max_path

-- The call has overrun an array, or `out` holds a canonical path.
abbrev pub Resolves : Option Buffer → Type 0
Resolves none = Unit {0}
Resolves (some out) = (length out ≡ fs_max_path) × (terminated out ≡ true) × IsCanonical (cstr out)

-- The last step: the components are spelled into `result`, and that is copied to `out`.
abbrev pub finish_path : List CString → Buffer → Option Buffer
finish_path ps out = join_parts ps >>= λ result. str_copy_n out (cstr result) fs_max_path

pub finish_path-Writes :
    (ps : List CString) (out : Buffer)
    → All IsPart ps
    → length (render ps) < fs_max_path
    → length out ≡ fs_max_path
    → Writes (finish_path ps out) fs_max_path (render ps)
finish_path-Writes ps out v h e = copy (join_parts ps) (join_parts-Fits ps v)
  where
    copy :
        (r : Option Buffer)
        → Fits r (render ps)
        → Writes (r >>= λ result. str_copy_n out (cstr result) fs_max_path) fs_max_path (render ps)
    copy r (inr (long, _)) = absurd (omega arith)
    copy none (inl (_, w)) = absurd w
    copy (some b) (inl (_, w)) = rw w.0 (
        subst (λ x. Writes (str_copy_n out (render ps) fs_max_path) fs_max_path x)
          (take_of_le 127 (render ps) (omega arith))
          (subst (λ k. Writes (str_copy_n out (render ps) fs_max_path) k (take 127 (render ps))) e
            (str_copy_n-Writes out (render ps) fs_max_path (NoNul-render ps v) (omega arith)
              (omega arith))))

pub finish_path_overrun :
    (ps : List CString) (out : Buffer)
    → All IsPart ps
    → fs_max_path ≤ length (render ps)
    → finish_path ps out ≡ none
finish_path_overrun ps out v h = elim (join_parts-Fits ps v) [
  | inl (short, _) ↦ absurd (omega arith)
  | inr (_, e) ↦ rw e
]

Writes-Resolves :
    (r : Option Buffer) (ps : List CString)
    → IsParts ps
    → length (render ps) < fs_max_path
    → Writes r fs_max_path (render ps)
    → Resolves r
Writes-Resolves none ps v h w = absurd w
Writes-Resolves (some b) ps v h w =
    (w.1, w.2, record { parts = ps; parts_ok = v; spelled = w.0; short = rw w.0 h })

finish_path-Resolves :
    (ps : List CString) (out : Buffer)
    → IsParts ps
    → length out ≡ fs_max_path
    → Resolves (finish_path ps out)
finish_path-Resolves ps out v e = elim (dec_lt (length (render ps)) fs_max_path) [
  | yes lt ↦ Writes-Resolves _ ps v lt (finish_path-Writes ps out v.each lt e)
  | no ge ↦ rw (finish_path_overrun ps out v.each (omega arith)) tt
]

-- Whatever the input and the current directory are: if no array is overrun, `out` holds a canonical
-- path, absolute, without empty, "." or ".." components, 16 components deep and 127 bytes long at
-- most.
pub fs_resolve_path-Resolves :
    (current_dir : CString) (input : Option CString) (out : Buffer)
    → length out ≡ fs_max_path
    → Resolves (fs_resolve_path current_dir input out fs_max_path)
unfolding fs_resolve_path
fs_resolve_path-Resolves current_dir input out e =
    from_raw (raw_path current_dir (or_current current_dir input))
  where
    from_parts :
        (r : Option (List CString)) → Collects r → Resolves (r >>= λ ps. finish_path ps out)
    from_parts none c = absurd c
    from_parts (some ps) v = finish_path-Resolves ps out v e

    from_raw :
        (r : Option Buffer)
        → Resolves (
            r >>= λ raw.
            split_raw (suc (length (cstr raw))) (cstr raw) [] >>= λ ps. finish_path ps out)
    from_raw none = tt
    from_raw (some raw) = from_parts (split_raw (suc (length (cstr raw))) (cstr raw) []) (
        split_raw-Collects _ (cstr raw) [] (cstr-NoNul raw)
          (record { each = tt; depth = omega arith }) (omega arith))
