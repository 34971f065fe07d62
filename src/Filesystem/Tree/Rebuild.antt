-- ===== src/Filesystem/Tree/Rebuild.antt =====
-- `rebuild_child_paths` of kernel/filesystem.c: the new paths of all nodes below a directory.
use pl_dos.Base.{
  ℕ, zero, suc, ◌+◌, ◌-◌, ◌≤◌, ◌<◌, ◌≡◌, refl, ap, ◌∙◌, subst, inl, inr, true, Option, none, some,
  List, ◌∷◌, length, ◌==◌, ◌>>=◌, Bool-cases, arith,
}
use pl_dos.Strings.{CString, cstr}
use pl_dos.Strings.Buffers.{length-cstr}
use pl_dos.Filesystem.{Node, node_at, is_dir, fs_max_path, fs_max_files}
use pl_dos.Filesystem.Valid.{path_at}
use pl_dos.Filesystem.Tree.{rebuild_child, rebuild_children, rebuild_child_paths}
use pl_dos.Filesystem.Tree.Below.{
  name_at, IsChild, Below, Below-child, Below-cases, IsRank, not_above,
}
use pl_dos.Filesystem.Tree.Paths.{IsRepathed}
use pl_dos.Filesystem.Tree.Fates.{
  Repathed, RebuildsEntries, RebuildsEntry, Rebuilds, Entry, Entries, Descends,
}
use pl_dos.Filesystem.Tree.Entries.{child-Rebuilds}

module _ (start : List Node) where
  module _ (rank : ℕ → ℕ) (ranked : IsRank start rank)
      (dirs : (c j : ℕ)
        → c < fs_max_files
        → IsChild start c j
        → is_dir (node_at start c) ≡ true) where
    module _ (descend : ℕ → List Node → Option (List Node)) (room : ℕ)
        (descends : Descends start descend room) where
      -- One round, and the rounds behind it.
      both :
          (p i rounds : ℕ) (s : CString) (nodes nodes' nodes2 : List Node)
          → ((j : ℕ) → Entry start p s i nodes nodes' j)
          → ((j : ℕ) → Entries start p s (suc i) rounds nodes' nodes2 j)
          → (j : ℕ) → Entries start p s i (suc rounds) nodes nodes2 j
      both p i rounds s nodes nodes' nodes2 first later j = elim (later j) [
        | inl new ↦ inl new
        | inr (same, none_later) ↦ elim (first j) [
          | inl (names, child, b, new) ↦
              inl (i, names, child, b, ap (λ (n : Node). cstr n.path) same ∙ new)
          | inr (same', none_first) ↦ inr (
            same ∙ same',
            λ c names lo hi child b. elim (Bool-cases (i == c)) [
              | inl it ↦
                  let e : c ≡ i = ground arith in
                  none_first names (subst (λ x. IsChild start p x) e child)
                    (subst (λ x. Below start x j names) e b)
              | inr other ↦ none_later c names (ground arith) (omega arith) child b
            ],
          )
        ]
      ]

      children-Rebuilds :
          (p i rounds : ℕ) (s : CString) (nodes : List Node)
          → i + rounds ≤ fs_max_files
          → IsRepathed start nodes
          → p < fs_max_files
          → path_at nodes p ≡ s
          → 2 ≤ length s
          → room ≤ suc (length s)
          → RebuildsEntries start p s i rounds nodes (rebuild_children descend p i rounds nodes)
      unfolding rebuild_children
      children-Rebuilds p i zero s nodes h k b e long fits =
          (k, λ j. inr (refl, λ c names lo hi. absurd (omega arith)))
      children-Rebuilds p i (suc rounds) s nodes h k b e long fits =
          first_round (rebuild_child descend p i nodes)
            (subst (λ x. RebuildsEntry start p x i nodes (rebuild_child descend p i nodes)) e
              (child-Rebuilds start rank ranked dirs descend room descends p i nodes (omega arith) k
                b (omega (arith, ap length e)) (omega (arith, ap length e))))
            (λ nodes' k' e'.
              children-Rebuilds p (suc i) rounds s nodes' (omega arith) k' b e' long fits)
        where
          later_rounds :
              (nodes' : List Node) (r : Option (List Node))
              → ((j : ℕ) → Entry start p s i nodes nodes' j)
              → RebuildsEntries start p s (suc i) rounds nodes' r
              → RebuildsEntries start p s i (suc rounds) nodes r
          later_rounds nodes' none fates long = long
          later_rounds nodes' (some nodes2) fates (k2, fates2) =
              (k2, both p i rounds s nodes nodes' nodes2 fates fates2)

          kept_path : (nodes' : List Node) → Entry start p s i nodes nodes' p → path_at nodes' p ≡ s
          kept_path nodes' (inl (names, child, b', new)) =
              absurd (not_above start rank ranked b' child)
          kept_path nodes' (inr (same, none_here)) = ap (λ (n : Node). cstr n.path) same ∙ e

          first_round :
              (r : Option (List Node))
              → RebuildsEntry start p s i nodes r
              → ((nodes' : List Node)
                  → IsRepathed start nodes'
                  → path_at nodes' p ≡ s
                  → RebuildsEntries start p s
                      (suc i)
                      rounds
                      nodes'
                      (rebuild_children descend p (suc i) rounds nodes'))
              → RebuildsEntries start p s i
                  (suc rounds)
                  nodes
                  (r >>= λ nodes'. rebuild_children descend p (suc i) rounds nodes')
          first_round none long go = long
          first_round (some nodes') (k', fates) go =
              later_rounds nodes' (rebuild_children descend p (suc i) rounds nodes') fates
                (go nodes' k' (kept_path nodes' (fates p)))

    -- The entries of a directory with all below them are what lies below it.
    all_entries :
        (p : ℕ) (s : CString) (nodes : List Node) (r : Option (List Node))
        → RebuildsEntries start p s 0 fs_max_files nodes r
        → Rebuilds start p s nodes r
    all_entries p s nodes none long = long
    all_entries p s nodes (some nodes') (k, fates) = (k, λ j. from_entries j (fates j))
      where
        from_entries :
            (j : ℕ)
            → Entries start p s 0 fs_max_files nodes nodes' j
            → Repathed start p s nodes nodes' j
        from_entries j (inl (c, names, child, b, new)) =
            inl (name_at start c ∷ names, Below-child start child b, omega arith, new)
        from_entries j (inr (same, no_entry)) = inr (
          same,
          λ names b. elim (Below-cases start b) [
            | inl (is, e) ↦ ap length e
            | inr (c, rest, child, b', e) ↦
                absurd (no_entry c rest (omega arith) (omega (arith, child.bound)) child b')
          ],
        )

    pub rebuild_child_paths-Rebuilds :
        (depth p : ℕ) (nodes : List Node)
        → p < fs_max_files
        → IsRepathed start nodes
        → 2 ≤ length (path_at nodes p)
        → fs_max_path ≤ depth + length (path_at nodes p)
        → Rebuilds start p (path_at nodes p) nodes (rebuild_child_paths depth p nodes)
    unfolding rebuild_child_paths
    rebuild_child_paths-Rebuilds zero p nodes b k long fits =
        absurd (omega (arith, length-cstr (node_at nodes p).path (k.ends p b), k.size p b, fits))
    rebuild_child_paths-Rebuilds (suc depth) p nodes b k long fits =
        all_entries p (path_at nodes p) nodes (rebuild_child_paths (suc depth) p nodes) (
          children-Rebuilds (rebuild_child_paths depth) (fs_max_path - depth)
            (λ c nodes' b' k' long' fits'.
              rebuild_child_paths-Rebuilds depth c nodes' b' k' long' (omega arith))
            p 0 fs_max_files (path_at nodes p) nodes (omega arith) k b refl long (omega arith))
