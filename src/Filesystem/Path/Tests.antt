-- ===== src/Filesystem/Path/Tests.antt =====
-- Runs of the path resolver of kernel/filesystem.c, and its theorems on concrete paths.
use pl_dos.Base.{
  ℕ, ◌≡◌, refl, ap, ◌≢◌, All-replicate, none, some, List, [], ◌∷◌, replicate, ◌<◌, length, arith,
  codes, ◌>>=◌,
}
use pl_dos.Strings.{CString, Buffer, cstr, str_copy_n, str_compare, str_concat}
use pl_dos.Strings.Buffers.{Writes}
use pl_dos.Filesystem.{fs_max_path}
use pl_dos.Filesystem.Path.{
  fs_resolve_path, split_raw, raw_path, or_current, add_slash, skip_slashes, take_part, join_parts,
  push_part,
}
use pl_dos.Filesystem.Path.Canonical.{IsPart, IsParts, render}
use pl_dos.Filesystem.Path.Resolved.{Resolves, fs_resolve_path-Resolves}
use pl_dos.Filesystem.Path.Known.{fs_resolve_path_canonical}
use pl_dos.Filesystem.Path.Relative.{fs_resolve_path_name, fs_resolve_path_overrun}

abbrev out : Buffer
out = replicate fs_max_path 0

-- The directories "b" in "a", innermost first.
abbrev a_b : List CString
a_b = (98 ∷ []) ∷ (97 ∷ []) ∷ []

abbrev only : ℕ → CString
only c = c ∷ []

one-IsPart : (c : ℕ) → 47 < c → IsPart (only c)
one-IsPart c h = record {
  no_nul = (omega arith, tt);
  no_slash = (omega arith, tt);
  non_empty = λ e. absurd (omega (arith, ap length e));
  short = omega arith;
  ne_dot = λ e. absurd (omega (arith, ap first e));
  ne_dot_dot = λ e. absurd (omega (arith, ap length e));
}
  where
    first : CString → ℕ
    first [] = 0
    first (x ∷ xs) = x

a_b-IsParts : IsParts a_b
a_b-IsParts = record {
  each = (one-IsPart 98 (omega arith), (one-IsPart 97 (omega arith), tt));
  depth = omega arith;
}

up_and_down :
    (fs_resolve_path (codes "/x") (some (codes "../a//./b/")) out fs_max_path >>= λ o.
    some (cstr o))
    ≡ some (codes "/a/b")
unfolding fs_resolve_path raw_path or_current str_copy_n add_slash str_compare str_concat split_raw
    skip_slashes take_part join_parts push_part
up_and_down = refl

dots_example : Resolves (fs_resolve_path (codes "/x") (some (codes "../a//./b/")) out fs_max_path)
dots_example = fs_resolve_path-Resolves (codes "/x") (some (codes "../a//./b/")) out refl

canonical_example :
    Writes
      (fs_resolve_path (codes "/x") (some (render a_b)) out fs_max_path)
      fs_max_path
      (codes "/a/b")
canonical_example = fs_resolve_path_canonical (codes "/x") a_b out a_b-IsParts (omega arith) refl

name_example :
    Writes
      (fs_resolve_path (codes "/a") (some (codes "b")) out fs_max_path)
      fs_max_path
      (codes "/a/b")
name_example = fs_resolve_path_name (only 97 ∷ []) (only 98) out a_b-IsParts (omega arith) refl

nil-IsParts : IsParts []
nil-IsParts = record { each = tt; depth = omega arith }

overrun_example : fs_resolve_path (codes "/") (some (97 ∷ replicate 126 97)) out fs_max_path ≡ none
overrun_example =
    fs_resolve_path_overrun [] 97 (replicate 126 97) out nil-IsParts (omega arith)
      (omega arith, All-replicate (λ c. c ≢ 0) 126 97 (omega arith)) (omega arith) (omega arith)

-- A name of 126 bytes is cut into five components, whose path overruns `result`.
long_name_overrun :
    fs_resolve_path (codes "/") (some (47 ∷ replicate 126 97)) out fs_max_path ≡ none
unfolding fs_resolve_path raw_path or_current str_copy_n add_slash str_compare str_concat split_raw
    skip_slashes take_part join_parts push_part
long_name_overrun = refl
