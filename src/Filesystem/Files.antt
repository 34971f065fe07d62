-- ===== src/Filesystem/Files.antt =====
-- The operations of kernel/filesystem.c on the contents of files, and the queries.
pub mod Read
pub mod Refill
pub mod Write
use pl_dos.Base.{
  ℕ, zero, suc, ◌+◌, ◌%◌, ◌^◌, Bool, true, false, not, ◌&&◌, ◌||◌, Option, none, some, List, [],
  ◌∷◌, ◌++◌, take, drop, set, replicate, min, ltb, ◌==◌, if◌then◌else◌, ◌>>=◌, codes, ℤ, pos,
  negsuc, ◌-◌, is_some,
}
use pl_dos.Strings.{CString, Buffer, cstr}
use pl_dos.Memory.{kmemcpy}
use pl_dos.Io.Numbers.{int_chars}
use pl_dos.Filesystem.{
  Fs, Disk, Node, node_at, is_used, is_dir, is_file, fs_file, fs_dir, fs_max_file_size, find_node,
}
use pl_dos.Filesystem.Calls.{
  io_print, io_println, refuse, put_node, resolve, node_of, finish, fs_create_file,
}

-- `idx < 0 || nodes[idx].type != FS_FILE` gives `none`.
unfoldable pub only_file : List Node → Option ℕ → Option ℕ
only_file nodes none = none
only_file nodes (some i) = if is_file (node_at nodes i) then some i else none

-- The index of a file.
unfoldable pub file_index : List Node → CString → Option ℕ
file_index nodes path = only_file nodes (find_node nodes path)

-- `kmemcpy(content + offset, bytes, size)`
unfoldable pub copy_into : List ℕ → ℕ → List ℕ → ℕ → Option (List ℕ)
copy_into content offset bytes size = do
  tail ← kmemcpy (drop offset content) bytes size
  some (take offset content ++ tail)

unfoldable pub read_at : List Node → List ℕ → ℕ → Option ℕ → Option (Option (ℕ × List ℕ))
read_at nodes buffer max_size none = some none
read_at nodes buffer max_size (some i) =
    let n = node_at nodes i in
    let count = if ltb n.size max_size then n.size else max_size in
    do buffer ← kmemcpy buffer n.content count; some (some (count, buffer))

abbrev test_node : (Node → Bool) → Option Node → Bool
test_node p none = false
test_node p (some n) = p n

abbrev size_of : Option Node → ℕ
size_of none = 0
size_of (some n) = n.size

-- `(int)size`, of a 32-bit number.
abbrev to_int : ℕ → ℤ
to_int n = if ltb n (2 ^ 31) then pos n else negsuc (2 ^ 32 - 1 - n)

-- The line that `fs_list_dir` prints for a node.
unfoldable pub node_line : Node → CString
node_line n =
    (if is_dir n then codes "<DIR>  " else codes "       ")
    ++ (cstr n.name
        ++ ((if is_file n then codes "  " ++ (int_chars (to_int n.size) ++ codes " bytes") else [])
            ++ (10 ∷ [])))

unfoldable pub list_nodes : List Node → ℕ → CString
list_nodes [] dir = []
list_nodes (n ∷ nodes) dir =
    (if is_used n && (n.parent == dir) then node_line n else []) ++ list_nodes nodes dir

module _ (d : Disk) where
  open d use {Dev}

  unfoldable pub write_at : Fs Dev → List ℕ → ℕ → Option ℕ → Option (ℕ × Fs Dev)
  write_at fs bytes size none = refuse fs (codes "File not found")
  write_at fs bytes size (some i) =
      let n = node_at fs.nodes i in
      if ltb fs_max_file_size size then refuse fs (codes "File too large") else do
        content ← kmemcpy n.content bytes size
        finish d (put_node fs i (record n { content = content; size = size }))

  -- The caller's array is `bytes`, of which the first `size` are written.
  unfoldable pub fs_write_file : Fs Dev → CString → List ℕ → ℕ → Option (ℕ × Fs Dev)
  fs_write_file fs path bytes size =
      resolve fs path >>= λ resolved. write_at fs bytes size (file_index fs.nodes resolved)

  unfoldable pub append_at : Fs Dev → List ℕ → ℕ → Option ℕ → Option (ℕ × Fs Dev)
  append_at fs bytes size none = refuse fs (codes "File not found")
  append_at fs bytes size (some i) =
      let n = node_at fs.nodes i in
      let total = (n.size + size) % 2 ^ 32 in
      if ltb fs_max_file_size total then refuse fs (codes "File too large") else do
        content ← copy_into n.content n.size bytes size
        finish d (put_node fs i (record n { content = content; size = total }))

  unfoldable pub fs_append_file : Fs Dev → CString → List ℕ → ℕ → Option (ℕ × Fs Dev)
  fs_append_file fs path bytes size =
      resolve fs path >>= λ resolved. append_at fs bytes size (file_index fs.nodes resolved)

  -- `fs_write_file(dest, nodes[src_idx].data, nodes[src_idx].size)`, once the copy exists.
  unfoldable pub copy_content : CString → ℕ → ℕ × Fs Dev → Option (ℕ × Fs Dev)
  copy_content dest src (zero, fs) =
      let n = node_at fs.nodes src in fs_write_file fs dest n.content n.size
  copy_content dest src (suc rc, fs) = some (1, fs)

  unfoldable pub copy_from : Fs Dev → CString → Option ℕ → Option (ℕ × Fs Dev)
  copy_from fs dest none = refuse fs (codes "Source file not found")
  copy_from fs dest (some src) = fs_create_file d fs dest >>= copy_content dest src

  unfoldable pub fs_copy : Fs Dev → CString → CString → Option (ℕ × Fs Dev)
  fs_copy fs src dest = resolve fs src >>= λ from. copy_from fs dest (file_index fs.nodes from)

module _ {Dev : Type 0} where
  -- The inner `none` is the result -1; otherwise the count and the caller's array afterwards.
  unfoldable pub fs_read_file : Fs Dev → CString → List ℕ → ℕ → Option (Option (ℕ × List ℕ))
  fs_read_file fs path buffer max_size = resolve fs path >>= λ resolved.
      read_at fs.nodes buffer max_size (file_index fs.nodes resolved)

  unfoldable pub fs_exists : Fs Dev → CString → Option Bool
  fs_exists fs path = do resolved ← resolve fs path; some (is_some (find_node fs.nodes resolved))

  unfoldable pub fs_is_file : Fs Dev → CString → Option Bool
  fs_is_file fs path = do resolved ← resolve fs path; some (is_some (file_index fs.nodes resolved))

  unfoldable pub fs_is_dir : Fs Dev → CString → Option Bool
  fs_is_dir fs path = do resolved ← resolve fs path; some (test_node is_dir (node_of fs resolved))

  unfoldable pub fs_get_file_size : Fs Dev → CString → Option ℕ
  fs_get_file_size fs path = do resolved ← resolve fs path; some (size_of (node_of fs resolved))

  -- The inner `none` is the result 0.
  unfoldable pub fs_get_file_info : Fs Dev → CString → Option (Option Node)
  fs_get_file_info fs path = do resolved ← resolve fs path; some (node_of fs resolved)

  unfoldable pub list_at : Fs Dev → Option ℕ → ℕ × Fs Dev
  list_at fs none = (1, io_println fs (codes "Directory not found"))
  list_at fs (some i) =
      if is_dir (node_at fs.nodes i)
      then (0, io_print fs (list_nodes fs.nodes i))
      else (1, io_println fs (codes "Directory not found"))

  unfoldable pub fs_list_dir : Fs Dev → CString → Option (ℕ × Fs Dev)
  fs_list_dir fs path = do
    resolved ← resolve fs path
    some (list_at fs (find_node fs.nodes resolved))
