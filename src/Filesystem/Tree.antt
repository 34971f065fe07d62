-- ===== src/Filesystem/Tree.antt =====
-- `fs_move` with `rebuild_child_paths`, and the boot of kernel/filesystem.c.
pub mod Below
pub mod Child
pub mod Moved
pub mod Paths
pub mod Rebuild
pub mod Fates
pub mod Entries
pub mod Subtree
pub mod Within
pub mod Moves
pub mod Plain
pub mod Rehung
pub mod Directory
use pl_dos.Base.{
  ℕ, zero, suc, Bool, true, false, ◌&&◌, Option, none, some, List, [], ◌∷◌, ◌++◌, set, replicate,
  ◌==◌, if◌then◌else◌, ◌>>=◌, codes, is_some,
}
use pl_dos.Strings.{CString, Buffer, cstr, str_copy, str_copy_n, str_concat, path_get_filename}
use pl_dos.Filesystem.{
  Fs, Disk, Node, node_at, zero_node, is_used, is_dir, fs_dir, fs_max_name, fs_max_path,
  fs_max_files, minus_one, root_path, find_node, find_parent,
}
use pl_dos.Filesystem.Path.{add_slash}
use pl_dos.Filesystem.Storage.{fs_disk_load, fs_disk_save}
use pl_dos.Filesystem.Calls.{refuse, put_node, resolve, finish, fs_create_file, fs_create_dir}
use pl_dos.Filesystem.Files.{fs_write_file}

-- The path that a child gets, in the array `next`.
unfoldable pub child_path : CString → CString → Option Buffer
child_path parent name = do
  next ← str_copy (replicate fs_max_path 0) parent
  next ← add_slash next
  str_concat next name

-- One round of the loop of `rebuild_child_paths`; `descend` is the recursive call.
unfoldable pub rebuild_child :
    (ℕ → List Node → Option (List Node)) → ℕ → ℕ → List Node → Option (List Node)
rebuild_child descend parent i nodes =
    let n = node_at nodes i in
    if is_used n && (n.parent == parent)
    then (do
      next ← child_path (cstr (node_at nodes parent).path) (cstr n.name)
      path ← str_copy_n n.path (cstr next) fs_max_path
      let nodes' = set nodes i (record n { path = path })
      if is_dir n then descend i nodes' else some nodes')
    else some nodes

-- The rounds that are left, from index `i` on.
unfoldable pub rebuild_children :
    (ℕ → List Node → Option (List Node)) → ℕ → ℕ → ℕ → List Node → Option (List Node)
rebuild_children descend parent i zero nodes = some nodes
rebuild_children descend parent i (suc rounds) nodes = do
  nodes' ← rebuild_child descend parent i nodes
  rebuild_children descend parent (suc i) rounds nodes'

-- `depth` bounds the recursion; a recursion that goes on counts as a fault, as it exhausts the stack.
unfoldable pub rebuild_child_paths : ℕ → ℕ → List Node → Option (List Node)
rebuild_child_paths zero parent nodes = none
rebuild_child_paths (suc depth) parent nodes =
    rebuild_children (rebuild_child_paths depth) parent 0 fs_max_files nodes

-- `nodes[idx]` under its new parent and name.
unfoldable pub move_node : Node → ℕ → CString → Option Node
move_node n parent to = do
  name ← str_copy_n n.name (path_get_filename to) fs_max_name
  path ← str_copy_n n.path to fs_max_path
  some (record n { parent = parent; name = name; path = path })

module _ (d : Disk) where
  open d use {Dev}

  unfoldable pub move_to : Fs Dev → ℕ → CString → Option ℕ → Option (ℕ × Fs Dev)
  move_to fs idx to none = refuse fs (codes "Destination parent not found")
  move_to fs idx to (some parent) = do
    n ← move_node (node_at fs.nodes idx) parent to
    let nodes = set fs.nodes idx n
    nodes ← (if is_dir n then rebuild_child_paths fs_max_path idx nodes else some nodes)
    finish d (record fs { nodes = nodes })

  unfoldable pub move_at : Fs Dev → Option ℕ → CString → Option (ℕ × Fs Dev)
  move_at fs none to = refuse fs (codes "Source not found")
  move_at fs (some zero) to = refuse fs (codes "Source not found")
  move_at fs (some (suc i)) to =
      if is_some (find_node fs.nodes to)
      then refuse fs (codes "Destination already exists")
      else do parent ← find_parent fs.nodes to; move_to fs (suc i) to parent

  unfoldable pub fs_move : Fs Dev → CString → CString → Option (ℕ × Fs Dev)
  fs_move fs src dest = do
    from ← resolve fs src
    to ← resolve fs dest
    move_at fs (find_node fs.nodes from) to

  abbrev pub welcome : CString
  welcome =
      codes "Welcome to plDOS. Commands live in /progs as kernel-linked C modules." ++ (10 ∷ [])

  unfoldable pub create_default_tree : Fs Dev → Option (Fs Dev)
  create_default_tree fs = do
    name ← str_copy (node_at fs.nodes 0).name root_path
    path ← str_copy (node_at fs.nodes 0).path root_path
    let root = node_at fs.nodes 0
    let fs =
        put_node fs 0
          (record root { used = 1; type = fs_dir; parent = minus_one; name = name; path = path })
    (_, fs) ← fs_create_dir d fs (codes "/progs")
    (_, fs) ← fs_create_dir d fs (codes "/home")
    (_, fs) ← fs_create_file d fs (codes "/home/readme.txt")
    (_, fs) ← fs_write_file d fs (codes "/home/readme.txt") welcome 70
    some fs

  -- Boot with a disk: its table, or the default one, which is then written there.
  unfoldable pub init_disk : Bool × Fs Dev → Option (Fs Dev)
  init_disk (true, fs) = some (record fs { fs_booting = false })
  init_disk (false, fs) = do
    fs ← create_default_tree fs
    (_, fs) ← fs_disk_save d fs
    some (record fs { fs_booting = false })

  -- The argument is the static storage that the call finds.
  unfoldable pub fs_init : Fs Dev → Option (Fs Dev)
  fs_init fs = do
    dir ← str_copy fs.current_dir root_path
    let fs = record fs {
      nodes = replicate fs_max_files zero_node;
      current_dir = dir;
      persistence_enabled = false;
      fs_booting = true;
    }
    if d.disk_present fs.dev
        then fs_disk_load d fs >>= init_disk
        else do fs ← create_default_tree fs; some (record fs { fs_booting = false })
