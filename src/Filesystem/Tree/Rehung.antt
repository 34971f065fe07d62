-- ===== src/Filesystem/Tree/Rehung.antt =====
-- What a move of a directory of kernel/filesystem.c makes of the nodes below it.
use pl_dos.Base.{
  ℕ, ◌≤◌, ◌<◌, ◌≡◌, refl, false, Option, none, some, List, [], ◌∷◌, ◌++◌, length, ◌==◌, arith,
}
use pl_dos.Strings.{CString}
use pl_dos.Filesystem.{Node, node_at, fs_max_path}
use pl_dos.Filesystem.Path.Canonical.{spell_on}
use pl_dos.Filesystem.Valid.{path_at}
use pl_dos.Filesystem.Tree.Below.{Below}
use pl_dos.Filesystem.Tree.Paths.{with_path}

-- A node at or below `i` would get a path that does not fit its array.
abbrev pub TooDeep : List Node → ℕ → CString → Type 0
TooDeep nodes i to =
    (j : ℕ) × (names : List CString) × Below nodes i j names
    × (fs_max_path ≤ length (to ++ spell_on names))

-- Slot `i` holds `n`, each node below it has its path below `to` as it had it below the old path, and is
-- as before otherwise, and all other slots are as before.
pub record IsRehung (nodes : List Node) (i : ℕ) (n : Node) (to : CString) (nodes' : List Node)
    : Type 0 where
  pub top : node_at nodes' i ≡ n
  pub inside :
      (j : ℕ) (names : List CString)
      → Below nodes i j names
      → (path_at nodes j ≡ path_at nodes i ++ spell_on names)
        × (path_at nodes' j ≡ to ++ spell_on names)
  pub rest :
      (j : ℕ)
      → (i == j) ≡ false
      → node_at nodes' j ≡ with_path (node_at nodes j) (node_at nodes' j).path
  pub outside :
      (j : ℕ)
      → ((names : List CString) → Below nodes i j names → ⊥)
      → node_at nodes' j ≡ node_at nodes j

abbrev pub Rehangs : List Node → ℕ → Node → CString → Option (List Node) → Type 0
Rehangs nodes i n to none = TooDeep nodes i to
Rehangs nodes i n to (some nodes') = IsRehung nodes i n to nodes'

pub cancel : (s x y : CString) → s ++ x ≡ s ++ y → x ≡ y
cancel [] x y e = e
cancel (c ∷ s) x y e = cancel s x y (cc)

pub no_names : (names : List CString) → length names ≡ 0 → names ≡ []
no_names [] e = refl
no_names (x ∷ names) e = absurd (omega arith)

pub spelled_out : (names : List CString) → 0 < length names → 0 < length (spell_on names)
spelled_out [] h = absurd (omega arith)
spelled_out (x ∷ names) h = omega arith
