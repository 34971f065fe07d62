-- ===== src/Filesystem/Calls/Create.antt =====
-- `fs_create_file` and `fs_create_dir` of kernel/filesystem.c on every branch.
use pl_dos.Base.{
  ℕ, ◌<◌, ◌≡◌, sym, ap, ◌∙◌, ◌⊎◌, inl, inr, true, false, Option, none, some, List, [], ◌∷◌, length,
  Option-cases, arith, subst, ◌==◌, is_some, codes,
}
use pl_dos.Strings.{CString, cstr}
use pl_dos.Filesystem.{
  Fs, Disk, Node, node_at, is_used, is_dir, fs_max_path, fs_max_files, fs_file, fs_dir, root_path,
  find_node, allocate_node, dir_index, find_parent,
}
use pl_dos.Filesystem.Storage.Saving.{IsKept, persist-IsKept}
use pl_dos.Filesystem.Path.Canonical.{IsParts, render}
use pl_dos.Filesystem.Path.Join.{NoNul-render}
use pl_dos.Filesystem.Path.Resolved.{IsCanonical}
use pl_dos.Filesystem.Valid.{IsTree, node_at-IsNode}
use pl_dos.Filesystem.Valid.Put.{at_idx, at_other, put-IsTree}
use pl_dos.Filesystem.Calls.{
  refuse, put_node, resolve, finish, create_at, create_node, fs_create_file, fs_create_dir,
}
use pl_dos.Filesystem.Calls.Filled.{IsFilled, fill_node-IsFilled, placed-IsFitting}
use pl_dos.Filesystem.Calls.Lookup.{
  resolve_cases, find_node_used, dir_index-some, allocate_node-some, find_parent-render,
}

module _ (d : Disk) where
  open d use {Dev}

  pub finish-IsKept :
      (fs : Fs Dev) → (fs' : Fs Dev) × (finish d fs ≡ some (0, fs')) × IsKept d fs fs'
  unfolding finish
  finish-IsKept fs = let (fs', e, k) = persist-IsKept d fs in (fs', rw e, k)

  -- What a successful creation of `path` leaves: slot `idx` holds the new entry and no other slot changed.
  pub record IsCreated (fs : Fs Dev) (type : ℕ) (path : CString) (fs' : Fs Dev) : Type 0 where
    pub idx : ℕ
    pub below : idx < fs_max_files
    pub was_free : is_used (node_at fs.nodes idx) ≡ false
    pub found : find_node fs'.nodes path ≡ some idx
    pub type_set : (node_at fs'.nodes idx).type ≡ type
    pub emptied : (node_at fs'.nodes idx).size ≡ 0
    pub others : (j : ℕ) → (idx == j) ≡ false → node_at fs'.nodes j ≡ node_at fs.nodes j
    pub tree : IsTree fs'.nodes
    pub same_dir : fs'.current_dir ≡ fs.current_dir

  -- The four ways a creation ends, each with its cause.
  abbrev pub Creation : Fs Dev → ℕ → CString → CString → Option (ℕ × Fs Dev) → Type 0
  Creation fs type exists path r =
      ((is_some (find_node fs.nodes path) ≡ true) × (r ≡ refuse fs exists))
      ⊎ ((find_parent fs.nodes path ≡ some none)
          × (r ≡ refuse fs (codes "Parent directory not found")))
      ⊎ ((allocate_node fs.nodes ≡ none) × (r ≡ refuse fs (codes "Filesystem full")))
      ⊎ ((fs' : Fs Dev) × (r ≡ some (0, fs')) × IsCreated fs type path fs')

  module _ (fs : Fs Dev) (v : IsTree fs.nodes) (type : ℕ) (p : CString) (ps : List CString) where
    created :
        (idx parent : ℕ) (n : Node) (fs' : Fs Dev)
        → IsParts (p ∷ ps)
        → length (render (p ∷ ps)) < fs_max_path
        → find_node fs.nodes (render (p ∷ ps)) ≡ none
        → find_node fs.nodes (render ps) ≡ some parent
        → is_dir (node_at fs.nodes parent) ≡ true
        → allocate_node fs.nodes ≡ some idx
        → IsFilled (node_at fs.nodes idx) n type parent p ps
        → IsKept d (put_node fs idx n) fs'
        → IsCreated fs type (render (p ∷ ps)) fs'
    created idx parent n fs' parts short miss hit dir free f kept =
        let (pos, h, idle) = allocate_node-some fs.nodes idx v free in
        let fits =
          placed-IsFitting fs.nodes idx n parent p ps v h pos idle parts short miss hit dir
            f.placed in
        let tree = put-IsTree fs.nodes idx n v h fits in
        let self = at_idx fs.nodes idx n v h idx (ground arith) in
        record {
          idx = idx;
          below = h;
          was_free = idle;
          found = rw kept.nodes (
              find_node_used _ tree (render (p ∷ ps)) idx (NoNul-render (p ∷ ps) parts.each) h
                (rw self (ground (arith, f.in_use))) (ap (λ x. cstr x.path) self ∙ f.placed.path));
          type_set = rw (kept.nodes, self) f.type_set;
          emptied = rw (kept.nodes, self) f.emptied;
          others = λ j ne. rw kept.nodes (at_other fs.nodes idx n v h j ne);
          tree = rw kept.nodes tree;
          same_dir = kept.current_dir;
        }

    -- The entry of an existing directory `parent`.
    create_in :
        (parent : ℕ) (exists : CString) (fs_r : Option (ℕ × Fs Dev))
        → IsParts (p ∷ ps)
        → length (render (p ∷ ps)) < fs_max_path
        → find_node fs.nodes (render (p ∷ ps)) ≡ none
        → find_node fs.nodes (render ps) ≡ some parent
        → is_dir (node_at fs.nodes parent) ≡ true
        → fs_r ≡ create_at d fs type (render (p ∷ ps)) (some parent)
        → Creation fs type exists (render (p ∷ ps)) fs_r
    unfolding create_at
    create_in parent exists fs_r parts short miss hit dir eq =
        elim (Option-cases (allocate_node fs.nodes)) [
          | inl full ↦ inr (inr (inl (full, eq ∙ rw (create_at, full))))
          | inr (idx, free) ↦
              let (pos, h, idle) = allocate_node-some fs.nodes idx v free in
              let (n, filled, f) =
                fill_node-IsFilled (node_at fs.nodes idx) type parent p ps
                  (node_at-IsNode fs.nodes idx v h) parts.each short in
              let (fs', done, kept) = finish-IsKept (put_node fs idx n) in
              inr (
                inr (
                  inr (
                    fs',
                    eq ∙ rw (create_at, free, filled, done),
                    created idx parent n fs' parts short miss hit dir free f kept,
                  )))
        ]

    create_entry :
        (exists : CString)
        → IsParts (p ∷ ps)
        → length (render (p ∷ ps)) < fs_max_path
        → Creation fs type exists (render (p ∷ ps)) (create_node d fs type exists (render (p ∷ ps)))
    unfolding create_node create_at
    create_entry exists parts short = elim (Option-cases (find_node fs.nodes (render (p ∷ ps)))) [
      | inr (i, hit) ↦ inl (rw hit, rw hit)
      | inl miss ↦
          let up = find_parent-render fs.nodes p ps parts.each short in
          elim (Option-cases (dir_index fs.nodes (find_node fs.nodes (render ps)))) [
            | inl orphan ↦ inr (inl (up ∙ rw orphan, rw (miss, up, orphan, create_at)))
            | inr (parent, at) ↦
                let (hit, dir) = dir_index-some fs.nodes v _ parent at in
                create_in parent exists _ parts short miss hit dir (rw (miss, up, at))
          ]
    ]

  create_node-Creation :
      (fs : Fs Dev) (type : ℕ) (exists s : CString)
      → IsTree fs.nodes
      → IsCanonical s
      → Creation fs type exists s (create_node d fs type exists s)
  unfolding create_node
  create_node-Creation fs type exists s v c = by_parts c.parts c.parts_ok c.spelled c.short
    where
      by_parts :
          (parts : List CString)
          → IsParts parts
          → s ≡ render parts
          → length s < fs_max_path
          → Creation fs type exists s (create_node d fs type exists s)
      by_parts [] ok e h =
          let root : find_node fs.nodes root_path ≡ some 0 =
            find_node_used fs.nodes v root_path 0 (NoNul-render [] ok.each) (omega arith)
              v.root_used v.root_at in
          inl (rw (e, root), rw (e, root))
      by_parts (p ∷ ps) ok e h =
          subst (λ x. Creation fs type exists x (create_node d fs type exists x)) (sym e)
            (create_entry fs v type p ps exists ok (subst (λ x. length x < fs_max_path) e h))

  -- What `fs_create_file` and `fs_create_dir` answer for any path whose resolution fits the arrays.
  abbrev pub CreatesAt : Fs Dev → ℕ → CString → CString → Option (ℕ × Fs Dev) → Type 0
  CreatesAt fs type exists path r =
      ((resolve fs path ≡ none) × (r ≡ none))
      ⊎ ((s : CString) × (resolve fs path ≡ some s) × IsCanonical s × Creation fs type exists s r)

  -- On a valid table, `fs_create_file` overruns an array while it resolves the path, or it resolves the
  -- path and refuses it because the path exists, because its directory does not, or because the table
  -- is full, or it answers 0: then a free slot holds an empty file, the search of the path finds it,
  -- every other slot is as before and the table is valid.
  pub fs_create_file-CreatesAt :
      (fs : Fs Dev) (path : CString)
      → IsTree fs.nodes
      → CreatesAt fs fs_file (codes "File already exists") path (fs_create_file d fs path)
  unfolding fs_create_file
  fs_create_file-CreatesAt fs path v = elim (resolve_cases fs path) [
    | inl fault ↦ inl (fault, rw fault)
    | inr (s, e, c) ↦
        inr (s, e, c, rw e (create_node-Creation fs fs_file (codes "File already exists") s v c))
  ]

  -- The same of `fs_create_dir`, with an empty directory and the message of `fs_create_dir`.
  pub fs_create_dir-CreatesAt :
      (fs : Fs Dev) (path : CString)
      → IsTree fs.nodes
      → CreatesAt fs fs_dir (codes "Directory already exists") path (fs_create_dir d fs path)
  unfolding fs_create_dir
  fs_create_dir-CreatesAt fs path v = elim (resolve_cases fs path) [
    | inl fault ↦ inl (fault, rw fault)
    | inr (s, e, c) ↦
        inr
          (s, e, c, rw e (create_node-Creation fs fs_dir (codes "Directory already exists") s v c))
  ]
