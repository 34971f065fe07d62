-- ===== src/Filesystem/Image.antt =====
-- The node table as the bytes that kernel/filesystem.c writes to the disk: `fs_node_t` as the
-- compiler lays it out for a 32-bit little-endian machine, without padding.
pub mod Decode
use pl_dos.Base.{
  ℕ, zero, suc, ◌+◌, ◌*◌, ◌/◌, ◌%◌, ◌^◌, List, [], ◌∷◌, ◌++◌, get_or, set, take, drop,
}
use pl_dos.Filesystem.{Node, fs_max_name, fs_max_path, fs_max_files, fs_max_file_size}

-- `write_u32(buf + offset, value)`
unfoldable pub write_u32 : List ℕ → ℕ → ℕ → List ℕ
write_u32 buf offset value =
    let buf = set buf offset (value % 256) in
    let buf = set buf (offset + 1) (value / 2 ^ 8 % 256) in
    let buf = set buf (offset + 2) (value / 2 ^ 16 % 256) in
    set buf (offset + 3) (value / 2 ^ 24 % 256)

-- `read_u32(buf + offset)`: the shifted bytes do not overlap, so `|` adds them.
unfoldable pub read_u32 : List ℕ → ℕ → ℕ
read_u32 buf offset =
    get_or buf offset 0
    + get_or buf (offset + 1) 0 * 2 ^ 8
    + get_or buf (offset + 2) 0 * 2 ^ 16
    + get_or buf (offset + 3) 0 * 2 ^ 24

-- The four bytes of an `int` in memory, and the `int` of four bytes.
abbrev pub int_bytes : ℕ → List ℕ
int_bytes v = v % 256 ∷ v / 2 ^ 8 % 256 ∷ v / 2 ^ 16 % 256 ∷ v / 2 ^ 24 % 256 ∷ []

unfoldable pub node_bytes : Node → List ℕ
node_bytes n =
    n.name
    ++ (n.path
        ++ (int_bytes n.type
            ++ (int_bytes n.parent ++ (int_bytes n.size ++ (n.content ++ int_bytes n.used)))))

abbrev pub node_size : ℕ
node_size = fs_max_name + fs_max_path + 12 + fs_max_file_size + 4

-- The node that lies at the start of some bytes.
unfoldable pub node_of_bytes : List ℕ → Node
unfolding read_u32
node_of_bytes raw =
    let after_name = drop fs_max_name raw in
    let after_path = drop fs_max_path after_name in
    let after_size = drop 12 after_path in
    record {
      name = take fs_max_name raw;
      path = take fs_max_path after_name;
      type = read_u32 after_path 0;
      parent = read_u32 after_path 4;
      size = read_u32 after_path 8;
      content = take fs_max_file_size after_size;
      used = read_u32 (drop fs_max_file_size after_size) 0;
    }

-- The bytes of the nodes, one behind the other.
unfoldable pub all_bytes : List Node → List ℕ
all_bytes [] = []
all_bytes (n ∷ nodes) = node_bytes n ++ all_bytes nodes

-- The table that lies in some bytes.
unfoldable pub nodes_of_image : ℕ → List ℕ → List Node
nodes_of_image zero raw = []
nodes_of_image (suc count) raw = node_of_bytes raw ∷ nodes_of_image count (drop node_size raw)

-- `FS_DISK_BYTES`, that is `sizeof(nodes)`.
abbrev pub fs_disk_bytes : ℕ
fs_disk_bytes = fs_max_files * node_size

abbrev pub fs_disk_data_sectors : ℕ
fs_disk_data_sectors = (fs_disk_bytes + 511) / 512

-- A number of bytes: those of a list that is longer or shorter are cut or filled up with zeros.
unfoldable pub fit : ℕ → List ℕ → List ℕ
fit zero bytes = []
fit (suc size) [] = 0 ∷ fit size []
fit (suc size) (b ∷ bytes) = b ∷ fit size bytes

-- `(unsigned char *)nodes`: the static array has its size, whatever is in it.
unfoldable pub image : List Node → List ℕ
image nodes = fit fs_disk_bytes (all_bytes nodes)
