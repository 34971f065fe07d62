-- ===== src/Filesystem/Path/Known.antt =====
-- Canonical paths are the fixed points of `fs_resolve_path`.
use pl_dos.Base.{
  ℕ, zero, suc, ◌<◌, ◌≡◌, refl, sym, ap, ◌∙◌, subst, Option, none, some, List, [], ◌∷◌, ◌++◌,
  append-nil, arith, length, ◌>>=◌, take_of_le,
}
use pl_dos.Strings.{CString, Buffer, NoNul, cstr, slash, str_copy_n}
use pl_dos.Strings.Buffers.{Writes, str_copy_n-Writes}
use pl_dos.Filesystem.{fs_max_path}
use pl_dos.Filesystem.Path.{blank, raw_path, split_raw, skip_slashes, or_current, fs_resolve_path}
use pl_dos.Filesystem.Path.Canonical.{
  IsParts, spell, render, spell_on, onto, spell-spell_on, onto-onto, All-onto, length-onto,
}
use pl_dos.Filesystem.Path.Split.{split_raw-spell_on}
use pl_dos.Filesystem.Path.Join.{NoNul-render}
use pl_dos.Filesystem.Path.Resolved.{finish_path, finish_path-Writes}

spell_on_of_spell : (ps : List CString) → spell ps ≡ spell_on (onto ps [])
spell_on_of_spell ps = sym (append-nil (spell ps)) ∙ spell-spell_on ps []

onto_twice : (ps : List CString) → onto (onto ps []) [] ≡ ps
onto_twice ps = onto-onto ps [] [] ∙ append-nil ps

split-spell :
    (ps : List CString) (fuel : ℕ)
    → IsParts ps
    → length (spell ps) < fuel
    → split_raw fuel (spell ps) [] ≡ some ps
split-spell ps fuel v h = rw (spell_on_of_spell ps) (
    split_raw-spell_on (onto ps []) [] fuel (All-onto ps [] v.each tt)
      (omega (arith, length-onto ps [], v.depth)) (rw (spell_on_of_spell ps) at h)
    ∙ ap (λ (x : List CString). some x) (onto_twice ps))

pub split-render :
    (ps : List CString) (fuel : ℕ)
    → IsParts ps
    → length (render ps) < fuel
    → split_raw fuel (render ps) [] ≡ some ps
unfolding split_raw skip_slashes
split-render [] zero v h = absurd (omega arith)
split-render [] (suc zero) v h = absurd (omega arith)
split-render [] (suc (suc fuel)) v h = refl
split-render (p ∷ ps) fuel v h = split-spell (p ∷ ps) fuel v h

-- What follows once the raw path is the path of some components.
pub raw-Writes :
    (r : Option Buffer) (ps : List CString) (out : Buffer)
    → IsParts ps
    → length (render ps) < fs_max_path
    → length out ≡ fs_max_path
    → Writes r fs_max_path (render ps)
    → Writes
        (r >>= λ raw.
          split_raw (suc (length (cstr raw))) (cstr raw) [] >>= λ qs. finish_path qs out)
        fs_max_path
        (render ps)
raw-Writes none ps out v h e w = absurd w
raw-Writes (some raw) ps out v h e w =
    let known : split_raw (suc (length (cstr raw))) (cstr raw) [] ≡ some ps =
      rw w.0 (split-render ps (suc (length (render ps))) v (omega arith)) in
    rw known (finish_path-Writes ps out v.each h e)

pub spell-cons : (p : CString) (ps : List CString) → (t : CString) × (spell (p ∷ ps) ≡ slash ∷ t)
spell-cons p [] = (p, refl)
spell-cons p (q ∷ ps) = let (t, e) = spell-cons q ps in (t ++ slash ∷ p, rw e)

render-cons : (ps : List CString) → (t : CString) × (render ps ≡ slash ∷ t)
render-cons [] = ([], refl)
render-cons (p ∷ ps) = spell-cons p ps

pub raw_path_absolute :
    (current_dir t : CString)
    → NoNul (slash ∷ t)
    → length (slash ∷ t) < fs_max_path
    → Writes (raw_path current_dir (slash ∷ t)) fs_max_path (slash ∷ t)
unfolding raw_path
raw_path_absolute current_dir t n h =
    subst (λ x. Writes (str_copy_n blank (slash ∷ t) fs_max_path) fs_max_path x)
      (take_of_le 127 (slash ∷ t) (omega arith))
      (str_copy_n-Writes blank (slash ∷ t) fs_max_path n (omega arith) (omega arith))

-- A canonical path resolves to itself, wherever the current directory is.
pub fs_resolve_path_canonical :
    (current_dir : CString) (ps : List CString) (out : Buffer)
    → IsParts ps
    → length (render ps) < fs_max_path
    → length out ≡ fs_max_path
    → Writes
        (fs_resolve_path current_dir (some (render ps)) out fs_max_path)
        fs_max_path
        (render ps)
unfolding fs_resolve_path or_current
fs_resolve_path_canonical current_dir ps out v h e =
    let (t, q) = render-cons ps in
    raw-Writes (raw_path current_dir (or_current current_dir (some (render ps)))) ps out v h e
      (rw q (raw_path_absolute current_dir t (rw q at (NoNul-render ps v.each)) (rw q at h)))
