-- ===== src/Filesystem/Valid.antt =====
-- The invariant of the node table of kernel/filesystem.c: a tree of directories and files, whose
-- nodes carry their full paths.
pub mod Put
use pl_dos.Base.{
  ℕ, ◌+◌, ◌≤◌, ◌<◌, ◌≡◌, ◌≢◌, true, List, [], ◌∷◌, ◌++◌, length, All, All-get_or, if◌then◌else◌,
  arith,
}
use pl_dos.Strings.{CString, cstr, terminated, slash, str_eq}
use pl_dos.Filesystem.{
  Node, node_at, is_used, is_dir, fs_max_name, fs_max_path, fs_max_files, fs_max_file_size,
  root_path,
}
use pl_dos.Filesystem.Path.Resolved.{IsCanonical}

-- A node as the C struct holds it.
pub record IsNode (n : Node) : Type 0 where
  pub name_size : length n.name ≡ fs_max_name
  pub name_ends : terminated n.name ≡ true
  pub path_size : length n.path ≡ fs_max_path
  pub path_ends : terminated n.path ≡ true
  pub content_size : length n.content ≡ fs_max_file_size
  pub size_fits : n.size ≤ fs_max_file_size

abbrev pub UsedAt : List Node → ℕ → Type 0
UsedAt nodes i = is_used (node_at nodes i) ≡ true

abbrev pub path_at : List Node → ℕ → CString
path_at nodes i = cstr (node_at nodes i).path

-- The path of an entry `name` of the directory `dir`.
abbrev pub entry_path : CString → CString → CString
entry_path dir name = (if str_eq dir root_path then [] else dir) ++ slash ∷ name

-- The parent of `n` is a directory in use, and the path of `n` is that of an entry of it.
pub record HasParent (nodes : List Node) (n : Node) : Type 0 where
  pub below : n.parent < fs_max_files
  pub parent_used : UsedAt nodes n.parent
  pub parent_dir : is_dir (node_at nodes n.parent) ≡ true
  pub spelled : cstr n.path ≡ entry_path (path_at nodes n.parent) (cstr n.name)

pub record IsTree (nodes : List Node) : Type 0 where
  pub count : length nodes ≡ fs_max_files
  pub each : All IsNode nodes
  pub root_used : UsedAt nodes 0
  pub root_dir : is_dir (node_at nodes 0) ≡ true
  pub root_at : path_at nodes 0 ≡ root_path
  pub unique :
      (i j : ℕ)
      → i < fs_max_files
      → j < fs_max_files
      → UsedAt nodes i
      → UsedAt nodes j
      → path_at nodes i ≡ path_at nodes j
      → i ≡ j
  pub canonical : (i : ℕ) → i < fs_max_files → UsedAt nodes i → IsCanonical (path_at nodes i)
  pub parent :
      (i : ℕ) → 0 < i → i < fs_max_files → UsedAt nodes i → HasParent nodes (node_at nodes i)

pub node_at-IsNode :
    (nodes : List Node) (i : ℕ) → IsTree nodes → i < fs_max_files → IsNode (node_at nodes i)
node_at-IsNode nodes i v h = All-get_or IsNode nodes i _ v.each (omega (arith, v.count))
