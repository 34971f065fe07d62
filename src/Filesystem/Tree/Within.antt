-- ===== src/Filesystem/Tree/Within.antt =====
-- Paths of kernel/filesystem.c below other paths, and the nodes of a valid table that have them.
use pl_dos.Base.{
  ℕ, zero, suc, ◌+◌, ◌≤◌, ◌<◌, ◌≡◌, ◌≢◌, refl, sym, ap, ◌∙◌, subst, ◌⊎◌, inl, inr, Bool, true,
  false, ◌&&◌, List, [], ◌∷◌, ◌++◌, length, length-append, append_assoc, append-nil, ◌==◌,
  if◌then◌else◌, Bool-cases, arith,
}
use pl_dos.Strings.{CString, cstr, slash, str_eq}
use pl_dos.Strings.Buffers.{cstr-NoNul}
use pl_dos.Strings.Compare.{str_eq_iff}
use pl_dos.Filesystem.{Node, node_at, zero_node, fs_max_path, fs_max_files, root_path}
use pl_dos.Filesystem.Path.Canonical.{IsParts, spell, render, spell_on}
use pl_dos.Filesystem.Valid.{IsTree, UsedAt, path_at, entry_path}
use pl_dos.Filesystem.Tree.Below.{name_at, IsChild, Below, spell_on-snoc}
use pl_dos.Filesystem.Tree.Below.Below.{here, down}

-- The path `s` is `f` or lies below it.
unfoldable pub within : CString → CString → Bool
within [] [] = true
within [] (c ∷ s) = c == slash
within (a ∷ f) [] = false
within (a ∷ f) (c ∷ s) = (a == c) && within f s

pub within_self : (f : CString) → within f f ≡ true
unfolding within
within_self [] = refl
within_self (a ∷ f) = let e = within_self f in ground (arith, e)

pub within-append : (f s x : CString) → within f s ≡ true → within f (s ++ slash ∷ x) ≡ true
unfolding within
within-append [] [] x h = refl
within-append [] (c ∷ s) x h = h
within-append (a ∷ f) [] x h = cc
within-append (a ∷ f) (c ∷ s) x h = let e = within-append f s x in ground (arith, e, h)

pub length-within : (f s : CString) → within f s ≡ true → length f ≤ length s
unfolding within
length-within [] s h = omega arith
length-within (a ∷ f) [] h = cc
length-within (a ∷ f) (c ∷ s) h = let e = length-within f s in ground (arith, e, h)

positive : (p : CString) → p ≢ [] → 0 < length p
positive [] h = absurd (h refl)
positive (c ∷ p) h = omega arith

past_end : (xs : List Node) (i : ℕ) → length xs ≤ i → node_at xs i ≡ zero_node
past_end [] i h = refl
past_end (x ∷ xs) zero h = absurd (omega arith)
past_end (x ∷ xs) (suc i) h = past_end xs i (omega arith)

pub render_long :
    (p : CString) (ps : List CString) → IsParts (p ∷ ps) → 2 ≤ length (render (p ∷ ps))
render_long p ps ok =
    omega (arith, length-append (spell ps) (slash ∷ p), positive p ok.each.0.non_empty)

long_parts :
    (parts : List CString)
    → IsParts parts
    → (render parts ≡ root_path) ⊎ (2 ≤ length (render parts))
long_parts [] ok = inl refl
long_parts (p ∷ ps) ok = inr (render_long p ps ok)

pub short_outside : (f s : CString) → 2 ≤ length f → length s ≤ 1 → within f s ≡ false
short_outside f s deep h = elim (Bool-cases (within f s)) [
  | inr out ↦ out
  | inl is ↦ absurd (omega (arith, length-within f s is, deep))
]

module _ (nodes : List Node) (v : IsTree nodes) where
  -- The slot that the root is linked to is none.
  none_above : (c : ℕ) → fs_max_files ≤ c → length (path_at nodes c) ≡ 0
  none_above c h =
      ap (λ (n : Node). length (cstr n.path)) (past_end nodes c (omega (arith, v.count, h)))

  pub path_long : (j : ℕ) → 0 < j → j < fs_max_files → UsedAt nodes j → 2 ≤ length (path_at nodes j)
  path_long j pos h u =
      let c = v.canonical j h u in
      elim (long_parts c.parts c.parts_ok) [
        | inl root ↦ absurd (
            omega (
              arith,
              pos,
              v.unique j 0 h (omega arith) u v.root_used (c.spelled ∙ root ∙ sym v.root_at),
            ))
        | inr long ↦ subst (λ x. 2 ≤ length x) (sym c.spelled) long
      ]

  -- The parent is the root, or the path of the entry goes on where that of the parent ends.
  pub entry_cases :
      (c j : ℕ)
      → 0 < j
      → IsChild nodes c j
      → ((path_at nodes c ≡ root_path)
          ⊎ (path_at nodes j ≡ path_at nodes c ++ slash ∷ name_at nodes j))
  entry_cases c j pos k =
      let up = v.parent j pos k.bound k.used in
      let at = up.spelled ∙ ap (λ x. entry_path (path_at nodes x) (name_at nodes j)) k.link in
      elim (Bool-cases (str_eq (path_at nodes c) root_path)) [
        | inl root ↦ inl (
            (str_eq_iff (path_at nodes c) root_path (cstr-NoNul (node_at nodes c).path)
                (omega arith, tt)).0
              root)
        | inr other ↦ inr (at ∙ rw other refl)
      ]

  module _ (f : CString) (deep : 2 ≤ length f) where
    abbrev pub rank : ℕ → ℕ
    rank c = length (path_at nodes c) + (if within f (path_at nodes c) then fs_max_path else 0)

    rank_short : (c : ℕ) → length (path_at nodes c) ≤ 1 → rank c ≡ length (path_at nodes c)
    rank_short c h = rw (short_outside f (path_at nodes c) deep h) (omega arith)

    pub rank-IsChild :
        (c j : ℕ) → fs_max_files ≤ (node_at nodes 0).parent → IsChild nodes c j → rank c < rank j
    rank-IsChild c zero loose k = omega (
      arith,
      rank_short c (omega (arith, none_above c (omega (arith, k.link, loose)))),
      rank_short 0 (omega (arith, ap length v.root_at)),
      ap length v.root_at,
      none_above c (omega (arith, k.link, loose)),
    )
    rank-IsChild c (suc i) loose k = elim (entry_cases c (suc i) (omega arith) k) [
      | inl root ↦ omega (
        arith,
        rank_short c (omega (arith, ap length root)),
        ap length root,
        path_long (suc i) (omega arith) k.bound k.used,
      )
      | inr at ↦ elim (Bool-cases (within f (path_at nodes c))) [
        | inr out ↦ rw out (
            omega (
              arith,
              ap length at,
              length-append (path_at nodes c) (slash ∷ name_at nodes (suc i)),
            ))
        | inl is ↦
            let is' =
              subst (λ x. within f x ≡ true) (sym at)
                (within-append f (path_at nodes c) (name_at nodes (suc i)) is) in
            rw (is, is')
              (omega (
                arith,
                ap length at,
                length-append (path_at nodes c) (slash ∷ name_at nodes (suc i)),
              ))
      ]
    ]

  -- The entry of a directory that is not the root.
  pub entry_path_on :
      (c j : ℕ)
      → fs_max_files ≤ (node_at nodes 0).parent
      → IsChild nodes c j
      → 2 ≤ length (path_at nodes c)
      → path_at nodes j ≡ path_at nodes c ++ slash ∷ name_at nodes j
  entry_path_on c zero loose k long =
      absurd (omega (arith, none_above c (omega (arith, k.link, loose)), long))
  entry_path_on c (suc i) loose k long = elim (entry_cases c (suc i) (omega arith) k) [
    | inl root ↦ absurd (omega (arith, ap length root, long))
    | inr at ↦ at
  ]

  -- Below a node that is not the root, the paths go on by the names.
  pub path_at-Below :
      {i j : ℕ} {names : List CString}
      → fs_max_files ≤ (node_at nodes 0).parent
      → 2 ≤ length (path_at nodes i)
      → Below nodes i j names
      → path_at nodes j ≡ path_at nodes i ++ spell_on names
  path_at-Below {i} loose long here = sym (append-nil (path_at nodes i))
  path_at-Below {i} {j} {names} loose long (down {c} {names = above} b k e) =
      let up = path_at-Below loose long b in
      entry_path_on c j loose k
        (omega (arith, ap length up, length-append (path_at nodes i) (spell_on above), long))
      ∙ ap (λ x. x ++ slash ∷ name_at nodes j) up
      ∙ append_assoc (path_at nodes i) (spell_on above) (slash ∷ name_at nodes j)
      ∙ ap (λ x. path_at nodes i ++ x)
          (sym (spell_on-snoc above (name_at nodes j)) ∙ ap spell_on (sym e))
