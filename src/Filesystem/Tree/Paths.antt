-- ===== src/Filesystem/Tree/Paths.antt =====
-- A node table of kernel/filesystem.c in which only paths are written.
use pl_dos.Base.{
  ℕ, ◌<◌, ◌≡◌, refl, sym, ap, ◌∙◌, subst, inl, inr, true, false, List, length, set, length-set,
  get_or-set, ◌==◌, Bool-cases, if◌then◌else◌, arith,
}
use pl_dos.Strings.{Buffer, terminated}
use pl_dos.Filesystem.{Node, node_at, zero_node, fs_max_path, fs_max_files}

abbrev pub with_path : Node → Buffer → Node
with_path n path = record n { path = path }

-- The table `nodes` differs from `start` in paths alone, each of which ends within its array.
pub record IsRepathed (start nodes : List Node) : Type 0 where
  pub count : length nodes ≡ fs_max_files
  pub rest : (i : ℕ) → node_at nodes i ≡ with_path (node_at start i) (node_at nodes i).path
  pub size : (i : ℕ) → i < fs_max_files → length (node_at nodes i).path ≡ fs_max_path
  pub ends : (i : ℕ) → i < fs_max_files → terminated (node_at nodes i).path ≡ true

module _ (start nodes : List Node) (k : IsRepathed start nodes) (i : ℕ) (path : Buffer)
    (h : i < fs_max_files) where
  abbrev after : List Node
  after = set nodes i (with_path (node_at nodes i) path)

  put_at :
      (j : ℕ)
      → node_at after j ≡ (if i == j then with_path (node_at nodes i) path else node_at nodes j)
  put_at j =
      get_or-set nodes i j (with_path (node_at nodes i) path) zero_node (omega (arith, k.count, h))

  pub put_here : node_at after i ≡ with_path (node_at nodes i) path
  put_here = let e : (i == i) ≡ true = ground arith in put_at i ∙ rw e refl

  pub put_there : (j : ℕ) → (i == j) ≡ false → node_at after j ≡ node_at nodes j
  put_there j e = put_at j ∙ rw e refl

  pub put-IsRepathed : length path ≡ fs_max_path → terminated path ≡ true → IsRepathed start after
  put-IsRepathed l t = record {
    count = length-set nodes i (with_path (node_at nodes i) path) ∙ k.count;
    rest = λ j. elim (Bool-cases (i == j)) [
      | inr other ↦
          subst (λ n. n ≡ with_path (node_at start j) n.path) (sym (put_there j other)) (k.rest j)
      | inl same ↦
          let e : i ≡ j = ground arith in
          subst (λ x. node_at after x ≡ with_path (node_at start x) (node_at after x).path) e
            (subst (λ n. n ≡ with_path (node_at start i) n.path) (sym put_here)
              (ap (λ (n : Node). with_path n path) (k.rest i)))
    ];
    size = λ j b. elim (Bool-cases (i == j)) [
      | inr other ↦ ap (λ (n : Node). length n.path) (put_there j other) ∙ k.size j b
      | inl same ↦
          let e : i ≡ j = ground arith in
          subst (λ x. length (node_at after x).path ≡ fs_max_path) e
            (ap (λ (n : Node). length n.path) put_here ∙ l)
    ];
    ends = λ j b. elim (Bool-cases (i == j)) [
      | inr other ↦ ap (λ (n : Node). terminated n.path) (put_there j other) ∙ k.ends j b
      | inl same ↦
          let e : i ≡ j = ground arith in
          subst (λ x. terminated (node_at after x).path ≡ true) e
            (ap (λ (n : Node). terminated n.path) put_here ∙ t)
    ];
  }
