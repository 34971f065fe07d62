-- ===== src/Filesystem/Tree/Fates.antt =====
-- What `rebuild_child_paths` of kernel/filesystem.c is to do to the node table: its two loops, one within
-- the other, seen from the directory, from one entry and from the entries that are left.
use pl_dos.Base.{ℕ, ◌+◌, ◌≤◌, ◌<◌, ◌≡◌, ◌⊎◌, Option, none, some, List, ◌∷◌, ◌++◌, length}
use pl_dos.Strings.{CString}
use pl_dos.Filesystem.{Node, node_at, fs_max_path, fs_max_files}
use pl_dos.Filesystem.Path.Canonical.{spell_on}
use pl_dos.Filesystem.Valid.{path_at}
use pl_dos.Filesystem.Tree.Below.{name_at, IsChild, Below}
use pl_dos.Filesystem.Tree.Paths.{IsRepathed}

module _ (start : List Node) where
  -- A node below `p`, whose path is to be `s`, would get a path that does not fit.
  abbrev pub TooLong : ℕ → CString → Type 0
  TooLong p s =
      (j : ℕ) × (names : List CString) × Below start p j names
      × (fs_max_path ≤ length (s ++ spell_on names))

  -- Slot `j` afterwards: below `p`, and its path is the new one; or not below, and as before.
  abbrev pub Repathed : ℕ → CString → List Node → List Node → ℕ → Type 0
  Repathed p s nodes nodes' j =
      ((names : List CString) × Below start p j names
        × (0 < length names)
        × (path_at nodes' j ≡ s ++ spell_on names))
      ⊎ ((node_at nodes' j ≡ node_at nodes j)
          × ((names : List CString) → Below start p j names → length names ≡ 0))

  -- What `rebuild_child_paths` does to the nodes below `p`.
  abbrev pub Rebuilds : ℕ → CString → List Node → Option (List Node) → Type 0
  Rebuilds p s nodes none = TooLong p s
  Rebuilds p s nodes (some nodes') =
      IsRepathed start nodes' × ((j : ℕ) → Repathed p s nodes nodes' j)

  -- The same for the entry `i` of `p` with all below it, and for the entries from `i` on.
  abbrev pub Entry : ℕ → CString → ℕ → List Node → List Node → ℕ → Type 0
  Entry p s i nodes nodes' j =
      ((names : List CString) × IsChild start p i
        × Below start i j names
        × (path_at nodes' j ≡ s ++ spell_on (name_at start i ∷ names)))
      ⊎ ((node_at nodes' j ≡ node_at nodes j)
          × ((names : List CString) → IsChild start p i → Below start i j names → ⊥))

  abbrev pub RebuildsEntry : ℕ → CString → ℕ → List Node → Option (List Node) → Type 0
  RebuildsEntry p s i nodes none = TooLong p s
  RebuildsEntry p s i nodes (some nodes') =
      IsRepathed start nodes' × ((j : ℕ) → Entry p s i nodes nodes' j)

  abbrev pub Entries : ℕ → CString → ℕ → ℕ → List Node → List Node → ℕ → Type 0
  Entries p s i rounds nodes nodes' j =
      ((c : ℕ) × (names : List CString) × IsChild start p c
        × Below start c j names
        × (path_at nodes' j ≡ s ++ spell_on (name_at start c ∷ names)))
      ⊎ ((node_at nodes' j ≡ node_at nodes j)
          × ((c : ℕ) (names : List CString)
              → i ≤ c
              → c < i + rounds
              → IsChild start p c
              → Below start c j names
              → ⊥))

  abbrev pub RebuildsEntries : ℕ → CString → ℕ → ℕ → List Node → Option (List Node) → Type 0
  RebuildsEntries p s i rounds nodes none = TooLong p s
  RebuildsEntries p s i rounds nodes (some nodes') =
      IsRepathed start nodes' × ((j : ℕ) → Entries p s i rounds nodes nodes' j)

  -- A recursive call that does what it means to, on the paths `s` of at least `room` bytes.
  abbrev pub Descends : (ℕ → List Node → Option (List Node)) → ℕ → Type 0
  Descends descend room =
      (c : ℕ) (nodes : List Node)
      → c < fs_max_files
      → IsRepathed start nodes
      → 2 ≤ length (path_at nodes c)
      → room ≤ length (path_at nodes c)
      → Rebuilds c (path_at nodes c) nodes (descend c nodes)
