-- ===== src/Filesystem/Path/Join.antt =====
-- The loop that spells the components into `result`: it fits exactly when the path is short enough.
use pl_dos.Base.{
  ◌+◌, ◌≤◌, ◌<◌, ◌≡◌, ◌⊎◌, inl, inr, subst, Option, none, some, List, [], ◌∷◌, ◌++◌, append_assoc,
  arith, length, length-append, All, ◌>>=◌, >>=-assoc,
}
use native.Mathlib.Decide.{dec_lt}
use pl_dos.Strings.{CString, Buffer, NoNul, slash, str_concat}
use pl_dos.Strings.Buffers.{Writes, str_copy-Writes, str_concat-Writes, str_concat_overrun}
use pl_dos.Filesystem.{fs_max_path, root_path}
use pl_dos.Filesystem.Path.{join_parts}
use pl_dos.Filesystem.Path.Canonical.{IsPart, spell, render}

-- The call holds `s` in an array of 128 bytes, or `s` is too long for that and the call overran.
abbrev pub Fits : Option Buffer → CString → Type 0
Fits r s =
    ((length s < fs_max_path) × Writes r fs_max_path s) ⊎ ((fs_max_path ≤ length s) × (r ≡ none))

pub concat-Fits :
    (r : Option Buffer) (s t : CString)
    → NoNul t
    → Fits r s
    → Fits (r >>= λ b. str_concat b t) (s ++ t)
concat-Fits none s t n (inl (h, w)) = absurd w
concat-Fits (some b) s t n (inl (h, w)) = elim (dec_lt (length s + length t) fs_max_path) [
  | yes lt ↦ inl (
    omega (arith, length-append s t),
    subst (λ k. Writes (str_concat b t) k (s ++ t)) w.1
        (subst (λ x. Writes (str_concat b t) (length b) (x ++ t)) w.0
          (str_concat-Writes b t n w.2 (rw w.0 (omega (arith, w.1))))),
  )
  | no ge ↦
      inr (omega (arith, length-append s t), str_concat_overrun b t (rw w.0 (omega (arith, w.1))))
]
concat-Fits r s t n (inr (h, e)) = inr (omega (arith, length-append s t), rw e)

NoNul-append : (s t : CString) → NoNul s → NoNul t → NoNul (s ++ t)
NoNul-append [] t m n = n
NoNul-append (c ∷ s) t m n = (m.0, NoNul-append s t m.1 n)

NoNul-spell : (ps : List CString) → All IsPart ps → NoNul (spell ps)
NoNul-spell [] v = tt
NoNul-spell (p ∷ ps) v =
    NoNul-append (spell ps) (slash ∷ p) (NoNul-spell ps v.1) (omega arith, v.0.no_nul)

pub NoNul-render : (ps : List CString) → All IsPart ps → NoNul (render ps)
NoNul-render [] v = omega arith
NoNul-render (p ∷ ps) v = NoNul-spell (p ∷ ps) v

-- `result` ends up with the path of the components, and is overrun exactly when that path has 128
-- bytes or more.
pub join_parts-Fits : (ps : List CString) → All IsPart ps → Fits (join_parts ps) (render ps)
unfolding join_parts
join_parts-Fits [] v = inl (omega arith, str_copy-Writes _ root_path (omega arith) (omega arith))
join_parts-Fits (p ∷ []) v =
    concat-Fits (join_parts []) root_path p v.0.no_nul (join_parts-Fits [] tt)
join_parts-Fits (p ∷ q ∷ ps) v =
    rw
      (
        ← >>=-assoc (join_parts (q ∷ ps)) (λ b. str_concat b root_path) (λ b. str_concat b p),
        ← append_assoc (spell (q ∷ ps)) root_path p,
      )
      (concat-Fits _ _ p v.0.no_nul
        (concat-Fits _ _ root_path (omega arith) (join_parts-Fits (q ∷ ps) v.1)))
