-- ===== src/Filesystem/Tree/Subtree.antt =====
-- A directory of kernel/filesystem.c under its new parent and name, and what `rebuild_child_paths` then
-- makes of the nodes below it.
use pl_dos.Base.{
  ℕ, zero, suc, ◌≤◌, ◌<◌, ◌≡◌, refl, sym, ap, ◌∙◌, subst, ◌⊎◌, inl, inr, true, false, Option, none,
  some, List, [], ◌∷◌, ◌++◌, length, length-append, length-set, append-nil, set, ◌==◌, Bool-cases,
  arith,
}
use mathlib.Core.Bool.{false≢true}
use pl_dos.Strings.{CString, cstr, terminated}
use pl_dos.Filesystem.{Node, node_at, is_used, is_dir, fs_dir, fs_max_path, fs_max_files}
use pl_dos.Filesystem.Path.Canonical.{render, spell_on}
use pl_dos.Filesystem.Valid.{IsTree, UsedAt, path_at, node_at-IsNode}
use pl_dos.Filesystem.Valid.Put.{at_idx, at_other}
use pl_dos.Filesystem.Tree.{rebuild_child_paths}
use pl_dos.Filesystem.Tree.Moved.{IsMovedNode}
use pl_dos.Filesystem.Tree.Below.{IsChild, Below, Below-top, IsRank, not_above}
use pl_dos.Filesystem.Tree.Below.Below.{here, down}
use pl_dos.Filesystem.Tree.Paths.{IsRepathed, with_path}
use pl_dos.Filesystem.Tree.Rebuild.{rebuild_child_paths-Rebuilds}
use pl_dos.Filesystem.Tree.Fates.{Repathed, Rebuilds}
use pl_dos.Filesystem.Tree.Within.{
  within, within_self, path_long, rank, rank-IsChild, path_at-Below,
}
use pl_dos.Filesystem.Tree.Rehung.{Rehangs, cancel, no_names, spelled_out}

module _ (nodes : List Node) (v : IsTree nodes) (loose : fs_max_files ≤ (node_at nodes 0).parent)
    (i : ℕ) (pos : 0 < i) (h : i < fs_max_files) (used : UsedAt nodes i) (p : CString)
    (ps : List CString) (parent : ℕ) (n : Node)
    (short : length (path_at nodes parent) < fs_max_path)
    (dir : is_dir (node_at nodes parent) ≡ true)
    (out : within (path_at nodes i) (path_at nodes parent) ≡ false)
    (long : 2 ≤ length (render (p ∷ ps))) (made : IsMovedNode (node_at nodes i) n parent p ps) where
  abbrev start : List Node
  start = set nodes i n

  deep : 2 ≤ length (path_at nodes i)
  deep = path_long nodes v i pos h used

  abbrev height : ℕ → ℕ
  height = rank nodes v (path_at nodes i) deep

  start_other : (j : ℕ) → (i == j) ≡ false → node_at start j ≡ node_at nodes j
  start_other = at_other nodes i n v h

  start_top : node_at start i ≡ n
  start_top = at_idx nodes i n v h i (ground arith)

  apart : (i == parent) ≡ false
  apart = elim (Bool-cases (i == parent)) [
    | inr other ↦ other
    | inl same ↦
        let e : parent ≡ i = ground arith in
        absurd (
          false≢true (
            sym out
            ∙ ap (λ x. within (path_at nodes i) (path_at nodes x)) e
            ∙ within_self (path_at nodes i)))
  ]

  -- An entry in the new table is the moved node, or an entry as before.
  start_entry :
      (c j : ℕ)
      → IsChild start c j
      → ((j ≡ i) × (c ≡ parent)) ⊎ (((i == j) ≡ false) × IsChild nodes c j)
  start_entry c j k = elim (Bool-cases (i == j)) [
    | inl same ↦
        let e : j ≡ i = ground arith in
        inl (
          e,
          sym k.link
              ∙ ap (λ x. (node_at start x).parent) e
              ∙ ap (λ (m : Node). m.parent) start_top
              ∙ made.placed.parent_set,
        )
    | inr other ↦
        let keep = sym (start_other j other) in
        inr (
          other,
          record {
            bound = k.bound;
            used = ap is_used keep ∙ k.used;
            link = ap (λ (m : Node). m.parent) keep ∙ k.link;
          },
        )
  ]

  old-IsRank : IsRank nodes height
  old-IsRank c j k = rank-IsChild nodes v (path_at nodes i) deep c j loose k

  start-IsRank : IsRank start height
  start-IsRank c j k = elim (start_entry c j k) [
    | inr (other, k') ↦ old-IsRank c j k'
    | inl (same, at) ↦
        let in_self = within_self (path_at nodes i) in
        subst (λ x. height x < height j) (sym at)
          (subst (λ x. height parent < height x) (sym same)
            (rw (out, in_self) (omega (arith, short))))
  ]

  old_dirs : (c j : ℕ) → c < fs_max_files → IsChild nodes c j → is_dir (node_at nodes c) ≡ true
  old_dirs c zero b k = absurd (omega (arith, loose, k.link, b))
  old_dirs c (suc j) b k =
      ap (λ x. is_dir (node_at nodes x)) (sym k.link)
      ∙ (v.parent (suc j) (omega arith) k.bound k.used).parent_dir

  start_dirs : (c j : ℕ) → c < fs_max_files → IsChild start c j → is_dir (node_at start c) ≡ true
  start_dirs c j b k = elim (start_entry c j k) [
    | inl (same, at) ↦
        subst (λ x. is_dir (node_at start x) ≡ true) (sym at)
          (ap is_dir (start_other parent apart) ∙ dir)
    | inr (other, k') ↦ elim (Bool-cases (i == c)) [
      | inr other' ↦ ap is_dir (start_other c other') ∙ old_dirs c j b k'
      | inl same ↦
          let e : c ≡ i = ground arith in
          ap is_dir (at_idx nodes i n v h c same)
          ∙ ap (λ x. x == fs_dir) made.type_kept
          ∙ ap (λ x. is_dir (node_at nodes x)) (sym e)
          ∙ old_dirs c j b k'
    ]
  ]

  start-IsRepathed : IsRepathed start start
  start-IsRepathed = record {
    count = length-set nodes i n ∙ v.count;
    rest = λ j. refl;
    size = λ j b. elim (Bool-cases (i == j)) [
      | inl same ↦
          ap (λ (m : Node). length m.path) (at_idx nodes i n v h j same) ∙ made.placed.ok.path_size
      | inr other ↦
          ap (λ (m : Node). length m.path) (start_other j other)
          ∙ (node_at-IsNode nodes j v b).path_size
    ];
    ends = λ j b. elim (Bool-cases (i == j)) [
      | inl same ↦
          ap (λ (m : Node). terminated m.path) (at_idx nodes i n v h j same)
          ∙ made.placed.ok.path_ends
      | inr other ↦
          ap (λ (m : Node). terminated m.path) (start_other j other)
          ∙ (node_at-IsNode nodes j v b).path_ends
    ];
  }

  Below-start : {j : ℕ} {names : List CString} → Below nodes i j names → Below start i j names
  Below-start here = here
  Below-start {j} (down {c} {names = above} b k e) =
      let other : (i == j) ≡ false = elim (Bool-cases (i == j)) [
        | inr it ↦ it
        | inl same ↦
            let eq : j ≡ i = ground arith in
            absurd (not_above nodes height old-IsRank b (subst (λ x. IsChild nodes c x) eq k))
      ] in
      let keep = start_other j other in
      down (Below-start b)
        (record {
          bound = k.bound;
          used = ap is_used keep ∙ k.used;
          link = ap (λ (m : Node). m.parent) keep ∙ k.link;
        })
        (e ∙ ap (λ (m : Node). above ++ cstr m.name ∷ []) (sym keep))

  Below-back : {j : ℕ} {names : List CString} → Below start i j names → Below nodes i j names
  Below-back here = here
  Below-back {j} (down {c} {names = above} b k e) = elim (start_entry c j k) [
    | inl (same, at) ↦
        absurd (not_above start height start-IsRank b (subst (λ x. IsChild start c x) same k))
    | inr (other, k') ↦
        down (Below-back b) k'
          (e ∙ ap (λ (m : Node). above ++ cstr m.name ∷ []) (start_other j other))
  ]

  rebuilt :
      (r : Option (List Node))
      → Rebuilds start i (path_at start i) start r
      → path_at start i ≡ render (p ∷ ps)
      → Rehangs nodes i n (render (p ∷ ps)) r
  rebuilt none (j, names, b, over) at =
      (j, names, Below-back b, subst (λ x. fs_max_path ≤ length (x ++ spell_on names)) at over)
  rebuilt (some nodes') (k, fates) at = record {
    top = on_top (fates i);
    inside = λ j names b. (path_at-Below nodes v loose deep b, on_path j names b (fates j));
    rest = λ j other.
        k.rest j ∙ ap (λ (m : Node). with_path m (node_at nodes' j).path) (start_other j other);
    outside = λ j none_below. on_others j none_below (fates j);
  }
    where
      on_top : Repathed start i (path_at start i) start nodes' i → node_at nodes' i ≡ n
      on_top (inr (same, top)) = same ∙ start_top
      on_top (inl (names, b, more, new)) = absurd (
          omega (
            arith,
            ap length (path_at-Below nodes v loose deep (Below-back b)),
            length-append (path_at nodes i) (spell_on names),
            spelled_out names more,
          ))

      on_path :
          (j : ℕ) (names : List CString)
          → Below nodes i j names
          → Repathed start i (path_at start i) start nodes' j
          → path_at nodes' j ≡ render (p ∷ ps) ++ spell_on names
      on_path j names b (inl (names', b', more, new)) =
          new
          ∙ ap (λ x. x ++ spell_on names') at
          ∙ ap (λ x. render (p ∷ ps) ++ x)
              (cancel (path_at nodes i) (spell_on names') (spell_on names) (
                sym (path_at-Below nodes v loose deep (Below-back b'))
                ∙ path_at-Below nodes v loose deep b))
      on_path j names b (inr (same, top)) =
          let e = top names (Below-start b) in
          ap (λ (m : Node). cstr m.path) same
          ∙ ap (λ x. path_at start x) (Below-top nodes b e)
          ∙ at
          ∙ sym (append-nil (render (p ∷ ps)))
          ∙ ap (λ x. render (p ∷ ps) ++ spell_on x) (sym (no_names names e))

      on_others :
          (j : ℕ)
          → ((names : List CString) → Below nodes i j names → ⊥)
          → Repathed start i (path_at start i) start nodes' j
          → node_at nodes' j ≡ node_at nodes j
      on_others j none_below (inl (names, b, more, new)) = absurd (none_below names (Below-back b))
      on_others j none_below (inr (same, top)) = elim (Bool-cases (i == j)) [
        | inr other ↦ same ∙ start_other j other
        | inl it ↦
            let e : i ≡ j = ground arith in
            absurd (none_below [] (subst (λ x. Below nodes i x []) e here))
      ]

  pub rebuild_child_paths-Rehangs :
      Rehangs nodes i n (render (p ∷ ps)) (rebuild_child_paths fs_max_path i start)
  rebuild_child_paths-Rehangs =
      let at : path_at start i ≡ render (p ∷ ps) =
        ap (λ (m : Node). cstr m.path) start_top ∙ made.placed.path in
      rebuilt (rebuild_child_paths fs_max_path i start)
        (rebuild_child_paths-Rebuilds start height start-IsRank start_dirs fs_max_path i start h
          start-IsRepathed (subst (λ x. 2 ≤ length x) (sym at) long) (omega arith))
        at
