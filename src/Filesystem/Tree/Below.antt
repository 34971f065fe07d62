-- ===== src/Filesystem/Tree/Below.antt =====
-- The nodes below a directory in the table of kernel/filesystem.c, by the links to their parents.
use pl_dos.Base.{
  ℕ, ◌≤◌, ◌<◌, ◌≡◌, refl, sym, ap, ◌∙◌, subst, ◌⊎◌, inl, inr, List, [], ◌∷◌, ◌++◌, length,
  length-append, append_assoc, append-nil, arith,
}
use pl_dos.Strings.{CString, cstr, slash}
use pl_dos.Filesystem.{Node, node_at, fs_max_files}
use pl_dos.Filesystem.Path.Canonical.{spell_on}
use pl_dos.Filesystem.Valid.{UsedAt}

abbrev pub name_at : List Node → ℕ → CString
name_at nodes i = cstr (node_at nodes i).name

-- Slot `j` holds an entry of the node `c`.
pub record IsChild (nodes : List Node) (c j : ℕ) : Type 0 where
  pub bound : j < fs_max_files
  pub used : UsedAt nodes j
  pub link : (node_at nodes j).parent ≡ c

-- Slot `j` is `p` or lies below it; the names on the way down.
pub data Below (nodes : List Node) (p : ℕ) : ℕ → List CString → Type 0 where
  here : Below nodes p p []
  down :
      {c j : ℕ} {names names' : List CString}
      → Below nodes p c names
      → IsChild nodes c j
      → names' ≡ names ++ name_at nodes j ∷ []
      → Below nodes p j names'

-- From the top: a node below an entry.
pub Below-child :
    (nodes : List Node) {p c j : ℕ} {names : List CString}
    → IsChild nodes p c
    → Below nodes c j names
    → Below nodes p j (name_at nodes c ∷ names)
Below-child nodes k here = down here k refl
Below-child nodes {c = c} k (down b k' e) =
    down (Below-child nodes k b) k' (ap (λ x. name_at nodes c ∷ x) e)

pub Below-cases :
    (nodes : List Node) {p j : ℕ} {names : List CString}
    → Below nodes p j names
    → ((j ≡ p) × (names ≡ []))
      ⊎ ((c : ℕ) × (rest : List CString) × IsChild nodes p c
          × Below nodes c j rest
          × (names ≡ name_at nodes c ∷ rest))
Below-cases nodes here = inl (refl, refl)
Below-cases nodes {p} {j} {names} (down {c} {names = above} b k e) = elim (Below-cases nodes b) [
  | inl (same, none_above) ↦ inr (
    j,
    [],
    subst (λ x. IsChild nodes x j) same k,
    here,
    e ∙ ap (λ x. x ++ name_at nodes j ∷ []) none_above,
  )
  | inr (c', rest, first, b', e') ↦ inr (
    c',
    rest ++ name_at nodes j ∷ [],
    first,
    down b' k refl,
    e ∙ ap (λ x. x ++ name_at nodes j ∷ []) e',
  )
]

pub Below-top :
    (nodes : List Node) {p j : ℕ} {names : List CString}
    → Below nodes p j names
    → length names ≡ 0
    → j ≡ p
Below-top nodes here e = refl
Below-top nodes {j = j} (down {names = above} b k s) e =
    absurd (omega (arith, e, ap length s, length-append above (name_at nodes j ∷ [])))

-- A rank that grows from each node to its entries.
abbrev pub IsRank : List Node → (ℕ → ℕ) → Type 0
IsRank nodes rank = (c j : ℕ) → IsChild nodes c j → rank c < rank j

pub Below-rank :
    (nodes : List Node) (rank : ℕ → ℕ) {p j : ℕ} {names : List CString}
    → IsRank nodes rank
    → Below nodes p j names
    → rank p ≤ rank j
Below-rank nodes rank r here = omega arith
Below-rank nodes rank {j = j} r (down {c} b k e) = omega (arith, Below-rank nodes rank r b, r c j k)

-- Nothing below a node is above it.
pub not_above :
    (nodes : List Node) (rank : ℕ → ℕ) {p c : ℕ} {names : List CString}
    → IsRank nodes rank
    → Below nodes p c names
    → IsChild nodes c p
    → ⊥
not_above nodes rank {p} {c} r b k = omega (arith, Below-rank nodes rank r b, r c p k)

pub spell_on-snoc :
    (names : List CString) (name : CString)
    → spell_on (names ++ name ∷ []) ≡ spell_on names ++ slash ∷ name
spell_on-snoc [] name = ap (λ x. slash ∷ x) (append-nil name)
spell_on-snoc (x ∷ names) name =
    ap (λ y. slash ∷ y)
      (ap (λ y. x ++ y) (spell_on-snoc names name)
        ∙ sym (append_assoc x (spell_on names) (slash ∷ name)))
