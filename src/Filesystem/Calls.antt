-- ===== src/Filesystem/Calls.antt =====
-- The operations of kernel/filesystem.c that programs call. A result is the status of the C function
-- and the new state; the outer `none` is a write outside an array.
pub mod Create
pub mod Delete
pub mod Filled
pub mod Lookup
use pl_dos.Base.{
  ℕ, zero, suc, ◌+◌, ◌%◌, ◌^◌, Bool, true, false, not, ◌&&◌, ◌||◌, Option, none, some, List, [],
  ◌∷◌, ◌++◌, take, drop, set, replicate, min, ltb, ◌==◌, if◌then◌else◌, ◌>>=◌, codes, pos, is_some,
}
use pl_dos.Strings.{
  CString, Buffer, cstr, str_eq, str_copy, str_copy_n, str_concat, path_get_filename,
}
use pl_dos.Memory.{kmemcpy}
use pl_dos.Io.Numbers.{int_chars}
use pl_dos.Filesystem.{
  Fs, Disk, Node, node_at, zero_node, is_used, is_dir, is_file, fs_file, fs_dir, fs_max_name,
  fs_max_path, fs_max_files, fs_max_file_size, minus_one, root_path, find_node, allocate_node,
  find_parent,
}
use pl_dos.Filesystem.Path.{fs_resolve_path, add_slash}
use pl_dos.Filesystem.Storage.{persist_if_enabled}

abbrev newline : CString
newline = 10 ∷ []

-- The six assignments that set up a new node; `data` keeps what the slot held.
unfoldable pub fill_node : Node → ℕ → ℕ → CString → Option Node
fill_node n type parent resolved = do
  name ← str_copy_n n.name (path_get_filename resolved) fs_max_name
  path ← str_copy_n n.path resolved fs_max_path
  some (record n { name = name; path = path; type = type; parent = parent; size = 0; used = 1 })

-- Whether some used node has the parent `idx`.
unfoldable pub has_child : List Node → ℕ → Bool
has_child [] idx = false
has_child (n ∷ nodes) idx = (is_used n && (n.parent == idx)) || has_child nodes idx

module _ {Dev : Type 0} where
  abbrev pub io_print : Fs Dev → CString → Fs Dev
  io_print fs text = record fs { console = fs.console ++ text }

  abbrev pub io_println : Fs Dev → CString → Fs Dev
  io_println fs text = record fs { console = fs.console ++ (text ++ newline) }

  -- `io_println(text); return 1;`
  abbrev pub refuse : Fs Dev → CString → Option (ℕ × Fs Dev)
  refuse fs text = some (1, io_println fs text)

  abbrev pub put_node : Fs Dev → ℕ → Node → Fs Dev
  put_node fs i n = record fs { nodes = set fs.nodes i n }

  -- `char resolved[FS_MAX_PATH]; fs_resolve_path(path, resolved, sizeof(resolved));`
  unfoldable pub resolve : Fs Dev → CString → Option CString
  resolve fs path = do
    resolved ←
        fs_resolve_path (cstr fs.current_dir) (some path) (replicate fs_max_path 0) fs_max_path
    some (cstr resolved)

  unfoldable pub fs_get_current_dir : Fs Dev → CString
  fs_get_current_dir fs = cstr fs.current_dir

  -- The node that a path names, where the index test `idx < 0` is `none`.
  unfoldable pub node_of : Fs Dev → CString → Option Node
  node_of fs path = elim (find_node fs.nodes path) [
    | none ↦ none
    | some i ↦ some (node_at fs.nodes i)
  ]

  unfoldable pub enter_dir : Fs Dev → CString → Option (ℕ × Fs Dev)
  enter_dir fs resolved = elim (node_of fs resolved) [
    | none ↦ refuse fs (codes "Directory not found")
    | some n ↦
        if is_dir n
        then (do dir ← str_copy fs.current_dir resolved; some (0, record fs { current_dir = dir }))
        else refuse fs (codes "Directory not found")
  ]

  unfoldable pub fs_change_dir : Fs Dev → CString → Option (ℕ × Fs Dev)
  fs_change_dir fs path = resolve fs path >>= enter_dir fs

module _ (d : Disk) where
  open d use {Dev}

  -- `persist_if_enabled(); return 0;`
  unfoldable pub finish : Fs Dev → Option (ℕ × Fs Dev)
  finish fs = do fs' ← persist_if_enabled d fs; some (0, fs')

  -- `fs_create_file` and `fs_create_dir` behind `find_node(resolved) >= 0`: they differ in the type.
  unfoldable pub create_at : Fs Dev → ℕ → CString → Option (ℕ) → Option (ℕ × Fs Dev)
  create_at fs type resolved none = refuse fs (codes "Parent directory not found")
  create_at fs type resolved (some parent) = elim (allocate_node fs.nodes) [
    | none ↦ refuse fs (codes "Filesystem full")
    | some idx ↦ do
      n ← fill_node (node_at fs.nodes idx) type parent resolved
      finish (put_node fs idx n)
  ]

  unfoldable pub create_node : Fs Dev → ℕ → CString → CString → Option (ℕ × Fs Dev)
  create_node fs type exists resolved =
      if is_some (find_node fs.nodes resolved)
      then refuse fs exists
      else do parent ← find_parent fs.nodes resolved; create_at fs type resolved parent

  unfoldable pub fs_create_file : Fs Dev → CString → Option (ℕ × Fs Dev)
  fs_create_file fs path = resolve fs path >>= create_node fs fs_file (codes "File already exists")

  unfoldable pub fs_create_dir : Fs Dev → CString → Option (ℕ × Fs Dev)
  fs_create_dir fs path =
      resolve fs path >>= create_node fs fs_dir (codes "Directory already exists")

  unfoldable pub delete_at : Fs Dev → Option ℕ → Option (ℕ × Fs Dev)
  delete_at fs none = refuse fs (codes "Cannot delete that path")
  delete_at fs (some zero) = refuse fs (codes "Cannot delete that path")
  delete_at fs (some (suc i)) =
      let n = node_at fs.nodes (suc i) in
      if is_dir n && has_child fs.nodes (suc i)
      then refuse fs (codes "Directory is not empty")
      else finish (put_node fs (suc i) (record n { used = 0 }))

  unfoldable pub fs_delete : Fs Dev → CString → Option (ℕ × Fs Dev)
  fs_delete fs path = resolve fs path >>= λ resolved. delete_at fs (find_node fs.nodes resolved)
