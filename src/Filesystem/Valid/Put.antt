-- ===== src/Filesystem/Valid/Put.antt =====
-- A write to one slot of the node table that keeps the tree.
use pl_dos.Base.{
  ℕ, ◌<◌, ◌≡◌, sym, ap, ◌∙◌, ◌≢◌, ◌⊎◌, inl, inr, true, false, List, set, length-set, All-set,
  get_or-set, ◌==◌, Bool-cases, if◌then◌else◌, arith,
}
use pl_dos.Strings.{cstr}
use pl_dos.Filesystem.{Node, node_at, zero_node, is_used, is_dir, fs_max_files, root_path}
use pl_dos.Filesystem.Path.Resolved.{IsCanonical}
use pl_dos.Filesystem.Valid.{IsNode, IsTree, HasParent, UsedAt, path_at, entry_path}

module _ (nodes : List Node) (idx : ℕ) (n : Node) (v : IsTree nodes) (h : idx < fs_max_files) where
  -- What the nodes below slot `idx` rely on.
  pub record IsSameDir : Type 0 where
    pub used : is_used n ≡ true
    pub dir : is_dir n ≡ true
    pub path : cstr n.path ≡ path_at nodes idx

  -- What the tree asks of the new node.
  pub record IsFitting : Type 0 where
    pub ok : IsNode n
    pub root : idx ≡ 0 → IsSameDir
    pub fresh :
        is_used n ≡ true
        → (j : ℕ) → j < fs_max_files
        → j ≢ idx
        → UsedAt nodes j
        → path_at nodes j ≢ cstr n.path
    pub plain : is_used n ≡ true → IsCanonical (cstr n.path)
    pub placed : is_used n ≡ true → 0 < idx → HasParent nodes n × (n.parent ≡ idx → IsSameDir)
    pub below :
        (j : ℕ)
        → 0 < j
        → j < fs_max_files
        → UsedAt nodes j
        → (node_at nodes j).parent ≡ idx
        → IsSameDir

  abbrev after : List Node
  after = set nodes idx n

  pub at_node : (j : ℕ) → node_at after j ≡ (if idx == j then n else node_at nodes j)
  at_node j = get_or-set nodes idx j n zero_node (omega (arith, v.count))

  pub at_idx : (j : ℕ) → (idx == j) ≡ true → node_at after j ≡ n
  at_idx j e = at_node j ∙ rw e

  pub at_other : (j : ℕ) → (idx == j) ≡ false → node_at after j ≡ node_at nodes j
  at_other j e = at_node j ∙ rw e

  HasParent-after :
      (m : Node) → HasParent nodes m → (m.parent ≡ idx → IsSameDir) → HasParent after m
  HasParent-after m p same = elim (Bool-cases (idx == m.parent)) [
    | inr e ↦
        let eq = at_other m.parent e in
        record {
          below = p.below;
          parent_used = ap is_used eq ∙ p.parent_used;
          parent_dir = ap is_dir eq ∙ p.parent_dir;
          spelled = p.spelled ∙ ap (λ x. entry_path (cstr x.path) (cstr m.name)) (sym eq);
        }
    | inl e ↦
        let eq = at_idx m.parent e in
        let at : m.parent ≡ idx = ground arith in
        let s = same at in
        record {
          below = p.below;
          parent_used = ap is_used eq ∙ s.used;
          parent_dir = ap is_dir eq ∙ s.dir;
          spelled =
              p.spelled
              ∙ ap (λ x. entry_path x (cstr m.name))
                  (ap (path_at nodes) at ∙ sym s.path ∙ ap (λ x. cstr x.path) (sym eq));
        }
  ]

  module _ (f : IsFitting) where
    after_unique :
        (i j : ℕ)
        → i < fs_max_files
        → j < fs_max_files
        → UsedAt after i
        → UsedAt after j
        → path_at after i ≡ path_at after j
        → i ≡ j
    after_unique i j hi hj ui uj e = split (Bool-cases (idx == i)) (Bool-cases (idx == j))
      where
        split :
            ((idx == i) ≡ true) ⊎ ((idx == i) ≡ false)
            → ((idx == j) ≡ true) ⊎ ((idx == j) ≡ false)
            → i ≡ j
        split (inl a) (inl b) = ground arith
        split (inl a) (inr b) = absurd (
            f.fresh (ap is_used (sym (at_idx i a)) ∙ ui) j hj (ground arith)
              (ap is_used (sym (at_other j b)) ∙ uj)
              (ap (λ x. cstr x.path) (sym (at_other j b))
                ∙ sym e
                ∙ ap (λ x. cstr x.path) (at_idx i a)))
        split (inr a) (inl b) = absurd (
            f.fresh (ap is_used (sym (at_idx j b)) ∙ uj) i hi (ground arith)
              (ap is_used (sym (at_other i a)) ∙ ui)
              (ap (λ x. cstr x.path) (sym (at_other i a)) ∙ e ∙ ap (λ x. cstr x.path) (at_idx j b)))
        split (inr a) (inr b) =
            v.unique i j hi hj (ap is_used (sym (at_other i a)) ∙ ui)
              (ap is_used (sym (at_other j b)) ∙ uj)
              (ap (λ x. cstr x.path) (sym (at_other i a))
                ∙ e
                ∙ ap (λ x. cstr x.path) (at_other j b))

    after-IsCanonical : (i : ℕ) → i < fs_max_files → UsedAt after i → IsCanonical (path_at after i)
    after-IsCanonical i hi u = elim (Bool-cases (idx == i)) [
      | inl a ↦ rw (at_idx i a) (f.plain (ap is_used (sym (at_idx i a)) ∙ u))
      | inr a ↦ rw (at_other i a) (v.canonical i hi (ap is_used (sym (at_other i a)) ∙ u))
    ]

    after-parent :
        (i : ℕ) → 0 < i → i < fs_max_files → UsedAt after i → HasParent after (node_at after i)
    after-parent i pi hi u = elim (Bool-cases (idx == i)) [
      | inl a ↦
          let (p, same) = f.placed (ap is_used (sym (at_idx i a)) ∙ u) (ground arith) in
          rw (at_idx i a) (HasParent-after n p same)
      | inr a ↦
          let u' = ap is_used (sym (at_other i a)) ∙ u in
          rw (at_other i a)
            (HasParent-after (node_at nodes i) (v.parent i pi hi u') (f.below i pi hi u'))
    ]

    root_node :
        (is_used (node_at after 0) ≡ true)
        × (is_dir (node_at after 0) ≡ true)
        × (path_at after 0 ≡ root_path)
    root_node = elim (Bool-cases (idx == 0)) [
      | inl a ↦
          let z : idx ≡ 0 = ground arith in
          let s = f.root z in
          rw (at_idx 0 a) (s.used, s.dir, s.path ∙ ap (path_at nodes) z ∙ v.root_at)
      | inr a ↦ rw (at_other 0 a) (v.root_used, v.root_dir, v.root_at)
    ]

    pub put-IsTree : IsTree after
    put-IsTree = record {
      count = length-set nodes idx n ∙ v.count;
      each = All-set IsNode nodes idx n v.each f.ok;
      root_used = root_node.0;
      root_dir = root_node.1;
      root_at = root_node.2;
      unique = after_unique;
      canonical = after-IsCanonical;
      parent = after-parent;
    }
