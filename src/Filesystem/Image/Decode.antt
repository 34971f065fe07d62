-- ===== src/Filesystem/Image/Decode.antt =====
-- The bytes of the node table of kernel/filesystem.c on disk, read as nodes.
use pl_dos.Base.{
  ℕ, zero, suc, ◌*◌, ◌^◌, ◌≡◌, ◌<◌, refl, sym, ap, ◌∙◌, subst, List, [], ◌∷◌, ◌++◌, length,
  length-append, take, drop, All, All-append, arith,
}
use pl_dos.Filesystem.{Node, fs_max_name, fs_max_path, fs_max_files, fs_max_file_size}
use pl_dos.Filesystem.Image.{
  read_u32, int_bytes, node_bytes, node_size, node_of_bytes, all_bytes, fit, image, nodes_of_image,
  fs_disk_bytes,
}

-- A node as the C struct holds it, with bytes in its arrays and numbers of 32 bits.
pub record IsStored (n : Node) : Type 0 where
  pub name_size : length n.name ≡ fs_max_name
  pub path_size : length n.path ≡ fs_max_path
  pub content_size : length n.content ≡ fs_max_file_size
  pub name_bytes : All (λ b. b < 256) n.name
  pub path_bytes : All (λ b. b < 256) n.path
  pub content_bytes : All (λ b. b < 256) n.content
  pub type_fits : n.type < 2 ^ 32
  pub parent_fits : n.parent < 2 ^ 32
  pub size_fits : n.size < 2 ^ 32
  pub used_fits : n.used < 2 ^ 32

take_front : (k : ℕ) (xs ys zs : List ℕ) → length xs ≡ k → take k ((xs ++ ys) ++ zs) ≡ xs
take_front zero [] ys zs e = refl
take_front (suc k) [] ys zs e = absurd (omega arith)
take_front zero (x ∷ xs) ys zs e = absurd (omega arith)
take_front (suc k) (x ∷ xs) ys zs e = ap (◌∷◌ x) (take_front k xs ys zs (omega arith))

drop_front : (k : ℕ) (xs ys zs : List ℕ) → length xs ≡ k → drop k ((xs ++ ys) ++ zs) ≡ ys ++ zs
drop_front zero [] ys zs e = refl
drop_front (suc k) [] ys zs e = absurd (omega arith)
drop_front zero (x ∷ xs) ys zs e = absurd (omega arith)
drop_front (suc k) (x ∷ xs) ys zs e = drop_front k xs ys zs (omega arith)

-- The bytes of a 32-bit number give back the number.
read_u32_int : (v : ℕ) (rest : List ℕ) → v < 2 ^ 32 → read_u32 (int_bytes v ++ rest) 0 ≡ v
unfolding read_u32
read_u32_int v rest h = omega arith

node_of_bytes-node_bytes :
    (n : Node) (rest : List ℕ) → IsStored n → node_of_bytes (node_bytes n ++ rest) ≡ n
unfolding node_of_bytes node_bytes read_u32
node_of_bytes-node_bytes n rest s =
    let tail =
      int_bytes n.type
      ++ (int_bytes n.parent ++ (int_bytes n.size ++ (n.content ++ int_bytes n.used))) in
    rw
      (
        take_front fs_max_name n.name (n.path ++ tail) rest s.name_size,
        drop_front fs_max_name n.name (n.path ++ tail) rest s.name_size,
        take_front fs_max_path n.path tail rest s.path_size,
        drop_front fs_max_path n.path tail rest s.path_size,
        take_front fs_max_file_size n.content (int_bytes n.used) rest s.content_size,
        drop_front fs_max_file_size n.content (int_bytes n.used) rest s.content_size,
        read_u32_int n.type rest s.type_fits,
        read_u32_int n.parent rest s.parent_fits,
        read_u32_int n.size rest s.size_fits,
        read_u32_int n.used rest s.used_fits,
      )
      refl

drop_prefix : (k : ℕ) (xs ys : List ℕ) → length xs ≡ k → drop k (xs ++ ys) ≡ ys
drop_prefix zero [] ys e = refl
drop_prefix (suc k) [] ys e = absurd (omega arith)
drop_prefix zero (x ∷ xs) ys e = absurd (omega arith)
drop_prefix (suc k) (x ∷ xs) ys e = drop_prefix k xs ys (omega arith)

length-node_bytes : (n : Node) → IsStored n → length (node_bytes n) ≡ node_size
unfolding node_bytes
length-node_bytes n s =
    let tail =
      int_bytes n.type
      ++ (int_bytes n.parent ++ (int_bytes n.size ++ (n.content ++ int_bytes n.used))) in
    omega (
      arith,
      length-append n.name (n.path ++ tail),
      length-append n.path tail,
      length-append n.content (int_bytes n.used),
      s.name_size,
      s.path_size,
      s.content_size,
    )

all_bytes-nodes :
    (nodes : List Node)
    → All IsStored nodes
    → nodes_of_image (length nodes) (all_bytes nodes) ≡ nodes
unfolding nodes_of_image all_bytes
all_bytes-nodes [] v = refl
all_bytes-nodes (n ∷ nodes) v =
    rw
      (
        node_of_bytes-node_bytes n (all_bytes nodes) v.0,
        drop_prefix node_size (node_bytes n) (all_bytes nodes) (length-node_bytes n v.0),
        all_bytes-nodes nodes v.1,
      )
      refl

length-all_bytes :
    (nodes : List Node) → All IsStored nodes → length (all_bytes nodes) ≡ length nodes * node_size
unfolding all_bytes
length-all_bytes [] v = refl
length-all_bytes (n ∷ nodes) v = omega (
  arith,
  length-append (node_bytes n) (all_bytes nodes),
  length-node_bytes n v.0,
  length-all_bytes nodes v.1,
)

length-fit : (size : ℕ) (bytes : List ℕ) → length (fit size bytes) ≡ size
unfolding fit
length-fit zero bytes = refl
length-fit (suc size) [] = ap suc (length-fit size [])
length-fit (suc size) (b ∷ bytes) = ap suc (length-fit size bytes)

fit-length : (size : ℕ) (bytes : List ℕ) → length bytes ≡ size → fit size bytes ≡ bytes
unfolding fit
fit-length zero [] e = refl
fit-length zero (b ∷ bytes) e = absurd (omega (arith, e))
fit-length (suc size) [] e = absurd (omega (arith, e))
fit-length (suc size) (b ∷ bytes) e = ap (◌∷◌ b) (fit-length size bytes (omega (arith, e)))

-- The bytes of the whole array.
pub length-image : (nodes : List Node) → length (image nodes) ≡ fs_disk_bytes
unfolding image
length-image nodes = length-fit fs_disk_bytes (all_bytes nodes)

-- A table of the size of the C array.
pub record IsStoredTable (nodes : List Node) : Type 0 where
  pub count : length nodes ≡ fs_max_files
  pub each : All IsStored nodes

-- The image of such a table is nothing but the bytes of its nodes.
image-all_bytes : (nodes : List Node) → IsStoredTable nodes → image nodes ≡ all_bytes nodes
unfolding image
image-all_bytes nodes v =
    fit-length fs_disk_bytes (all_bytes nodes)
      (omega (arith, length-all_bytes nodes v.each, v.count))

-- Reading the bytes of a node table as nodes gives back the table, when every node has the array
-- sizes of the C struct and numbers of 32 bits.
pub nodes_of_image-image :
    (nodes : List Node) → IsStoredTable nodes → nodes_of_image fs_max_files (image nodes) ≡ nodes
nodes_of_image-image nodes v =
    ap (nodes_of_image fs_max_files) (image-all_bytes nodes v)
    ∙ subst (λ k. nodes_of_image k (all_bytes nodes) ≡ nodes) v.count (all_bytes-nodes nodes v.each)

All-int_bytes : (v : ℕ) → All (λ b. b < 256) (int_bytes v)
All-int_bytes v = (omega arith, (omega arith, (omega arith, (omega arith, tt))))

All-node_bytes : (n : Node) → IsStored n → All (λ b. b < 256) (node_bytes n)
unfolding node_bytes
All-node_bytes n s =
    let join = λ (xs ys : List ℕ). All-append (λ b. b < 256) xs ys in
    let used = int_bytes n.used in
    let size = int_bytes n.size ++ (n.content ++ used) in
    let parent = int_bytes n.parent ++ size in
    let type = int_bytes n.type ++ parent in
    join n.name (n.path ++ type) s.name_bytes (
      join n.path type s.path_bytes (
        join (int_bytes n.type) parent (All-int_bytes n.type) (
          join (int_bytes n.parent) size (All-int_bytes n.parent) (
            join (int_bytes n.size) (n.content ++ used) (All-int_bytes n.size)
              (join n.content used s.content_bytes (All-int_bytes n.used))))))

All-all_bytes : (nodes : List Node) → All IsStored nodes → All (λ b. b < 256) (all_bytes nodes)
unfolding all_bytes
All-all_bytes [] v = tt
All-all_bytes (n ∷ nodes) v =
    All-append (λ b. b < 256) (node_bytes n) (all_bytes nodes) (All-node_bytes n v.0)
      (All-all_bytes nodes v.1)

-- The image of a table consists of bytes.
pub All-image : (nodes : List Node) → IsStoredTable nodes → All (λ b. b < 256) (image nodes)
All-image nodes v =
    subst (All (λ b. b < 256)) (sym (image-all_bytes nodes v)) (All-all_bytes nodes v.each)
