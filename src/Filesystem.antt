-- ===== src/Filesystem.antt =====
-- kernel/filesystem.c: the node table, its state, and the searches that the operations share.
pub mod Calls
pub mod Files
pub mod History
pub mod Image
pub mod Path
pub mod Storage
pub mod Samples
pub mod Startup
mod Tests
pub mod Tree
pub mod Valid
pub mod View
use pl_dos.Base.{
  ℕ, zero, suc, ◌+◌, ◌-◌, ◌*◌, ◌^◌, Bool, true, false, not, ◌&&◌, Option, none, some, List, [], ◌∷◌,
  ◌++◌, get_or, set, replicate, find_index, ◌==◌, if◌then◌else◌, ◌>>=◌,
}
use mathlib.Core.Option
use pl_dos.Strings.{CString, Buffer, cstr, slash, str_eq, str_copy_n, path_get_dirname}

abbrev pub fs_max_name : ℕ
fs_max_name = 32

abbrev pub fs_max_path : ℕ
fs_max_path = 128

abbrev pub fs_max_files : ℕ
fs_max_files = 128

abbrev pub fs_max_file_size : ℕ
fs_max_file_size = 4096

-- `fs_node_type_t`
abbrev pub fs_file : ℕ
fs_file = 0

abbrev pub fs_dir : ℕ
fs_dir = 1

-- `fs_node_t`. An `int` is its 32-bit pattern, so that -1 is 2 ^ 32 - 1; `content` is `data`.
pub record Node : Type 0 where
  pub name : Buffer
  pub path : Buffer
  pub type : ℕ
  pub parent : ℕ
  pub size : ℕ
  pub content : List ℕ
  pub used : ℕ

abbrev pub minus_one : ℕ
minus_one = 2 ^ 32 - 1

-- A node after `kmemset(nodes, 0, sizeof(nodes))`.
abbrev pub zero_node : Node
zero_node = record {
  name = replicate fs_max_name 0;
  path = replicate fs_max_path 0;
  type = 0;
  parent = 0;
  size = 0;
  content = replicate fs_max_file_size 0;
  used = 0;
}

-- The file's static variables, the device behind kernel/disk.c, and the bytes that `io_print` and
-- `io_println` have been given so far.
pub record Fs (Dev : Type 0) : Type 0 where
  pub nodes : List Node
  pub current_dir : Buffer
  pub persistence_enabled : Bool
  pub fs_booting : Bool
  pub dev : Dev
  pub console : List ℕ

-- What the model reads outside the table; the operations index it below `fs_max_files`.
abbrev pub node_at : List Node → ℕ → Node
node_at nodes i = get_or nodes i zero_node

abbrev pub is_used : Node → Bool
is_used n = not (n.used == 0)

abbrev pub is_dir : Node → Bool
is_dir n = n.type == fs_dir

abbrev pub is_file : Node → Bool
is_file n = n.type == fs_file

abbrev pub root_path : CString
root_path = slash ∷ []

abbrev pub has_path : CString → Node → Bool
has_path path n = is_used n && str_eq (cstr n.path) path

unfoldable pub find_node : List Node → CString → Option ℕ
find_node nodes path = find_index (has_path path) nodes

abbrev is_free : Node → Bool
is_free n = not (is_used n)

-- The search starts behind slot 0.
unfoldable pub allocate_node : List Node → Option ℕ
allocate_node [] = none
allocate_node (root ∷ nodes) = Option.map suc (find_index is_free nodes)

-- The index, if it is one of a directory.
unfoldable pub dir_index : List Node → Option ℕ → Option ℕ
dir_index nodes none = none
dir_index nodes (some i) = if is_dir (node_at nodes i) then some i else none

-- `dirname` is a fresh array, and `path_get_dirname`'s static one starts as it does: what that array
-- held before does not reach the result. The outer option is a fault, the inner one the answer -1.
unfoldable pub find_parent : List Node → CString → Option (Option ℕ)
find_parent nodes path = do
  static_dirname ← path_get_dirname (replicate fs_max_path 0) path
  dirname ← str_copy_n (replicate fs_max_path 0) (cstr static_dirname) fs_max_path
  some (dir_index nodes (find_node nodes (cstr dirname)))

-- What kernel/disk.c offers: the detection and its outcome, and the two sector transfers, whose result 0 is `none`
-- and `false`. A transfer may change the device.
pub record Disk : Type 1 where
  pub Dev : Type 0
  pub disk_init : Dev → Dev
  pub disk_present : Dev → Bool
  pub disk_status : Dev → CString
  pub disk_read_sector : ℕ → Dev → Option (List ℕ) × Dev
  pub disk_write_sector : ℕ → List ℕ → Dev → Bool × Dev
