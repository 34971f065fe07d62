-- ===== src/Filesystem/Path/Relative.antt =====
-- `fs_resolve_path` on an input that does not start with a slash.
use pl_dos.Base.{
  ℕ, ◌≤◌, ◌<◌, ◌≡◌, refl, ap, ◌≢◌, inl, inr, false, subst, Option, none, some, List, [], ◌∷◌, ◌++◌,
  append_assoc, arith, length, length-append, All, ◌>>=◌, take_of_le, Bool-cases, ◌==◌,
}
use pl_dos.Strings.{
  CString, Buffer, NoNul, cstr, slash, str_eq, str_compare, str_concat, str_copy_n,
}
use pl_dos.Strings.Buffers.{Writes, str_copy_n-Writes}
use pl_dos.Strings.Compare.{eq_of_str_eq}
use pl_dos.Filesystem.{fs_max_path, root_path}
use pl_dos.Filesystem.Path.{blank, add_slash, raw_path, or_current, fs_resolve_path}
use pl_dos.Filesystem.Path.Canonical.{IsPart, IsParts, spell, render}
use pl_dos.Filesystem.Path.Join.{Fits, concat-Fits, NoNul-render}
use pl_dos.Filesystem.Path.Known.{raw-Writes}

add_slash_root : (raw : Buffer) → cstr raw ≡ root_path → add_slash raw ≡ some raw
unfolding add_slash
add_slash_root raw e = rw e (unfold str_compare in refl)

spell_long : (p : CString) (ps : List CString) → p ≢ [] → 2 ≤ length (spell (p ∷ ps))
spell_long [] ps ne = absurd (ne refl)
spell_long (c ∷ p) ps ne = omega (arith, length-append (spell ps) (slash ∷ c ∷ p))

-- The path of a component is not the root.
pub not_root :
    (p : CString) (ps : List CString)
    → All IsPart (p ∷ ps)
    → str_eq (spell (p ∷ ps)) root_path ≡ false
not_root p ps v = elim (Bool-cases (str_eq (spell (p ∷ ps)) root_path)) [
  | inr e ↦ e
  | inl root ↦
      let short : spell (p ∷ ps) ≡ root_path =
        eq_of_str_eq (spell (p ∷ ps)) root_path (NoNul-render (p ∷ ps) v) (omega arith) root in
      absurd (omega (arith, spell_long p ps v.0.non_empty, ap length short))
]

add_slash_dir :
    (raw : Buffer) (p : CString) (ps : List CString)
    → cstr raw ≡ spell (p ∷ ps)
    → All IsPart (p ∷ ps)
    → add_slash raw ≡ str_concat raw root_path
unfolding add_slash
add_slash_dir raw p ps e v = rw (e, not_root p ps v)

-- The input under the directory of some components, before it is split.
abbrev pub under : List CString → CString → CString
under ps s = spell ps ++ slash ∷ s

pub render-le-under : (ps : List CString) (s : CString) → length (render ps) ≤ length (under ps s)
render-le-under [] s = omega arith
render-le-under (p ∷ ps) s = omega (arith, length-append (spell (p ∷ ps)) (slash ∷ s))

concat_under :
    (r : Option Buffer) (ps : List CString) (s : CString)
    → All IsPart ps
    → NoNul s
    → Writes r fs_max_path (render ps)
    → length (render ps) < fs_max_path
    → Fits (r >>= λ raw. add_slash raw >>= λ raw. str_concat raw s) (under ps s)
concat_under none ps s v n w h = absurd w
concat_under (some raw) [] s v n w h =
    rw (add_slash_root raw w.0) (concat-Fits (some raw) root_path s n (inl (h, w)))
concat_under (some raw) (p ∷ ps) s v n w h =
    rw (add_slash_dir raw p ps w.0 v, ← append_assoc (spell (p ∷ ps)) root_path s)
      (concat-Fits (some raw >>= λ b. str_concat b root_path) (spell (p ∷ ps) ++ root_path) s n
        (concat-Fits (some raw) (spell (p ∷ ps)) root_path (omega arith) (inl (h, w))))

raw_path_relative :
    (ps : List CString) (c : ℕ) (s : CString)
    → IsParts ps
    → NoNul (c ∷ s)
    → c ≢ slash
    → length (render ps) < fs_max_path
    → Fits (raw_path (render ps) (c ∷ s)) (under ps (c ∷ s))
unfolding raw_path
raw_path_relative ps c s v n ne h =
    let e : (c == slash) ≡ false = ground arith in
    rw e (
      concat_under (str_copy_n blank (render ps) fs_max_path) ps (c ∷ s) v.each n
        (subst (λ x. Writes (str_copy_n blank (render ps) fs_max_path) fs_max_path x)
          (take_of_le 127 (render ps) (omega arith))
          (str_copy_n-Writes blank (render ps) fs_max_path (NoNul-render ps v.each) (omega arith)
            (omega arith)))
        h)

-- A plain name resolves to that name in the current directory, where the two together have at most 16
-- components and fit in 128 bytes with the terminator.
pub fs_resolve_path_name :
    (ps : List CString) (name : CString) (out : Buffer)
    → IsParts (name ∷ ps)
    → length (render (name ∷ ps)) < fs_max_path
    → length out ≡ fs_max_path
    → Writes
        (fs_resolve_path (render ps) (some name) out fs_max_path)
        fs_max_path
        (render (name ∷ ps))
unfolding fs_resolve_path or_current
fs_resolve_path_name ps [] out v h e = absurd (v.each.0.non_empty refl)
fs_resolve_path_name ps (c ∷ name) out v h e =
    raw-Writes (raw_path (render ps) (c ∷ name)) ((c ∷ name) ∷ ps) out v h e
      (elim (raw_path_relative ps c name parent v.each.0.no_nul v.each.0.no_slash.0 shorter) [
        | inl (_, w) ↦ w
        | inr (long, _) ↦ absurd (omega arith)
      ])
  where
    parent : IsParts ps
    parent = record { each = v.each.1; depth = omega (arith, v.depth) }

    shorter : length (render ps) < fs_max_path
    shorter = omega (arith, render-le-under ps (c ∷ name))

-- The code does not check the length of a relative input: if the current directory, a slash and the
-- input make up 128 bytes or more, `str_concat` writes past the end of `raw`.
pub fs_resolve_path_overrun :
    (ps : List CString) (c : ℕ) (s : CString) (out : Buffer)
    → IsParts ps
    → length (render ps) < fs_max_path
    → NoNul (c ∷ s)
    → c ≢ slash
    → fs_max_path ≤ length (under ps (c ∷ s))
    → fs_resolve_path (render ps) (some (c ∷ s)) out fs_max_path ≡ none
unfolding fs_resolve_path or_current
fs_resolve_path_overrun ps c s out v h n ne long = elim (raw_path_relative ps c s v n ne h) [
  | inl (short, _) ↦ absurd (omega arith)
  | inr (_, e) ↦ rw e
]
