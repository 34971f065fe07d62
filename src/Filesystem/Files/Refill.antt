-- ===== src/Filesystem/Files/Refill.antt =====
-- A write of the content of one node of kernel/filesystem.c, on a valid table.
use pl_dos.Base.{
  ℕ, ◌≤◌, ◌<◌, ◌≡◌, refl, sym, ap, inl, inr, true, false, Option, none, some, List, length, set,
  Bool-cases, arith, subst, ◌==◌,
}
use pl_dos.Strings.{CString, NoNul}
use pl_dos.Filesystem.{
  Fs, Disk, Node, node_at, is_dir, is_file, fs_max_files, fs_max_file_size, find_node,
}
use pl_dos.Filesystem.Storage.Saving.{IsKept}
use pl_dos.Filesystem.Valid.{IsTree, UsedAt, node_at-IsNode}
use pl_dos.Filesystem.Valid.Put.{IsFitting, IsSameDir, at_idx, at_other, put-IsTree}
use pl_dos.Filesystem.Calls.{put_node}
use pl_dos.Filesystem.Calls.Lookup.{find_node_used, find_node-some}
use pl_dos.Filesystem.Files.{only_file, file_index}

abbrev pub refilled : Node → List ℕ → ℕ → Node
refilled n content size = record n { content = content; size = size }

module _ (nodes : List Node) (idx : ℕ) (content : List ℕ) (size : ℕ) (v : IsTree nodes)
    (h : idx < fs_max_files) where
  abbrev new : Node
  new = refilled (node_at nodes idx) content size

  refilled-IsFitting :
      UsedAt nodes idx
      → length content ≡ fs_max_file_size
      → size ≤ fs_max_file_size
      → IsFitting nodes idx new v h
  refilled-IsFitting u full fits =
      let o = node_at-IsNode nodes idx v h in
      let same : is_dir (node_at nodes idx) ≡ true → IsSameDir nodes idx new v h =
        λ dir. record { used = u; dir = dir; path = refl } in
      let below : (k : ℕ)
          → k ≡ idx
          → is_dir (node_at nodes k) ≡ true
          → IsSameDir nodes idx new v h =
        λ k at dir. same (subst (λ i. is_dir (node_at nodes i) ≡ true) at dir) in
      record {
        ok = record {
          name_size = o.name_size;
          name_ends = o.name_ends;
          path_size = o.path_size;
          path_ends = o.path_ends;
          content_size = full;
          size_fits = fits;
        };
        root = λ z. below 0 (sym z) v.root_dir;
        fresh = λ used j hj ne uj at. ne (v.unique j idx hj h uj u at);
        plain = λ used. v.canonical idx h u;
        placed = λ used pos.
            let p = v.parent idx pos h u in
            (
              record {
                below = p.below;
                parent_used = p.parent_used;
                parent_dir = p.parent_dir;
                spelled = p.spelled;
              },
              λ at. below _ at p.parent_dir,
            );
        below = λ j pj hj uj at. below _ at (v.parent j pj hj uj).parent_dir;
      }

only_file-some :
    (nodes : List Node) (o : Option ℕ) (i : ℕ)
    → only_file nodes o ≡ some i
    → (o ≡ some i) × (is_file (node_at nodes i) ≡ true)
unfolding only_file
only_file-some nodes none i e = cc
only_file-some nodes (some j) i e = elim (Bool-cases (is_file (node_at nodes j))) [
  | inl f ↦
      let same : j ≡ i = ground arith in
      (ap (λ (k : ℕ). some k) same, subst (λ k. is_file (node_at nodes k) ≡ true) same f)
  | inr nf ↦ absurd (ground arith)
]

pub file_index-some :
    (nodes : List Node) (path : CString) (i : ℕ)
    → file_index nodes path ≡ some i
    → (find_node nodes path ≡ some i) × (is_file (node_at nodes i) ≡ true)
unfolding file_index
file_index-some nodes path i e = only_file-some nodes (find_node nodes path) i e

-- What a write to the file `path` leaves: the new content and size in its slot, no other change.
pub record IsRefilled {Dev : Type 0} (fs : Fs Dev) (path : CString) (idx : ℕ) (content : List ℕ)
    (size : ℕ) (fs' : Fs Dev) : Type 0 where
  pub slot : node_at fs'.nodes idx ≡ refilled (node_at fs.nodes idx) content size
  pub others : (j : ℕ) → (idx == j) ≡ false → node_at fs'.nodes j ≡ node_at fs.nodes j
  pub still_found : file_index fs'.nodes path ≡ some idx
  pub tree : IsTree fs'.nodes
  pub same_dir : fs'.current_dir ≡ fs.current_dir

pub IsRefilled-of_kept :
    (d : Disk) (fs fs' : Fs d.Dev) (path : CString) (idx : ℕ) (content : List ℕ) (size : ℕ)
    → IsTree fs.nodes
    → NoNul path
    → file_index fs.nodes path ≡ some idx
    → length content ≡ fs_max_file_size
    → size ≤ fs_max_file_size
    → IsKept d (put_node fs idx (refilled (node_at fs.nodes idx) content size)) fs'
    → IsRefilled fs path idx content size fs'
unfolding file_index only_file
IsRefilled-of_kept d fs fs' path idx content size v nn hit full fits kept =
    let (at, file) = file_index-some fs.nodes path idx hit in
    let (h, u, same) = find_node-some fs.nodes v path idx nn at in
    let m = refilled (node_at fs.nodes idx) content size in
    let tree =
      put-IsTree fs.nodes idx m v h
        (refilled-IsFitting fs.nodes idx content size v h u full fits) in
    let self = at_idx fs.nodes idx m v h idx (ground arith) in
    let again : find_node (set fs.nodes idx m) path ≡ some idx =
      find_node_used _ tree path idx nn h (rw self u) (rw self same) in
    record {
      slot = rw kept.nodes self;
      others = λ j ne. rw kept.nodes (at_other fs.nodes idx m v h j ne);
      still_found = rw (kept.nodes, again, self, file);
      tree = rw kept.nodes tree;
      same_dir = kept.current_dir;
    }
