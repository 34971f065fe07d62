-- ===== src/Filesystem/Files/Write.antt =====
-- `fs_write_file`, `fs_append_file` and `fs_read_file` of kernel/filesystem.c.
use pl_dos.Base.{
  ℕ, ◌+◌, ◌-◌, ◌%◌, ◌^◌, ◌≤◌, ◌<◌, ◌≡◌, refl, ◌∙◌, ◌⊎◌, inl, inr, Option, none, some, List, ◌++◌,
  length, length-append, length-take, length-drop, take, drop, Bool-cases, arith, ltb, codes,
}
use pl_dos.Strings.{CString, NoNul}
use pl_dos.Memory.{kmemcpy}
use pl_dos.Memory.Bytes.{kmemcpy_lem}
use pl_dos.Filesystem.{Fs, Disk, Node, node_at, fs_max_file_size}
use pl_dos.Filesystem.Path.Resolved.{IsCanonical}
use pl_dos.Filesystem.Valid.{IsNode, IsTree, node_at-IsNode}
use pl_dos.Filesystem.Calls.{refuse, put_node, resolve}
use pl_dos.Filesystem.Calls.Create.{finish-IsKept}
use pl_dos.Filesystem.Calls.Lookup.{resolve_cases, canonical-NoNul, find_node-some}
use pl_dos.Filesystem.Files.{
  file_index, copy_into, write_at, fs_write_file, append_at, fs_append_file,
}
use pl_dos.Filesystem.Files.Refill.{refilled, file_index-some, IsRefilled, IsRefilled-of_kept}

-- The bytes of `old` with those of `bytes` from `offset` on.
abbrev pub overwrite : List ℕ → ℕ → List ℕ → List ℕ
overwrite old offset bytes = take offset old ++ (bytes ++ drop (length bytes) (drop offset old))

file_node :
    (nodes : List Node) (path : CString) (i : ℕ)
    → IsTree nodes
    → NoNul path
    → file_index nodes path ≡ some i
    → IsNode (node_at nodes i)
file_node nodes path i v n e =
    node_at-IsNode nodes i v (find_node-some nodes v path i n (file_index-some nodes path i e).0).0

length-overwrite :
    (old : List ℕ) (offset : ℕ) (bytes : List ℕ)
    → offset + length bytes ≤ length old
    → length (overwrite old offset bytes) ≡ length old
length-overwrite old offset bytes h = omega (
  arith,
  length-append (take offset old) (bytes ++ drop (length bytes) (drop offset old)),
  length-append bytes (drop (length bytes) (drop offset old)),
  length-take offset old,
  length-drop offset old,
  length-drop (length bytes) (drop offset old),
)

module _ (d : Disk) where
  open d use {Dev}

  -- The three ways a write ends, each with its cause; `content` and `size` are those of file `i` after it.
  abbrev pub Writing : Fs Dev → CString → ℕ → (ℕ → List ℕ) → (ℕ → ℕ) → Option (ℕ × Fs Dev) → Type 0
  Writing fs path limit content size r =
      ((file_index fs.nodes path ≡ none) × (r ≡ refuse fs (codes "File not found")))
      ⊎ ((i : ℕ) × (file_index fs.nodes path ≡ some i)
          × (limit < size i)
          × (r ≡ refuse fs (codes "File too large")))
      ⊎ ((i : ℕ) × (fs' : Fs Dev) × (r ≡ some (0, fs'))
          × (file_index fs.nodes path ≡ some i)
          × (size i ≤ limit)
          × IsRefilled fs path i (content i) (size i) fs')

  abbrev pub WritesAt : Fs Dev → CString → (ℕ → List ℕ) → (ℕ → ℕ) → Option (ℕ × Fs Dev) → Type 0
  WritesAt fs path content size r =
      ((resolve fs path ≡ none) × (r ≡ none))
      ⊎ ((s : CString) × (resolve fs path ≡ some s)
          × IsCanonical s
          × Writing fs s fs_max_file_size content size r)

  module _ (fs : Fs Dev) (v : IsTree fs.nodes) (path : CString) (nn : NoNul path) (bytes : List ℕ)
      (size : ℕ) (given : size ≤ length bytes) where
    write_at-Writing :
        (o : Option ℕ)
        → file_index fs.nodes path ≡ o
        → Writing fs path fs_max_file_size
            (λ i. overwrite (node_at fs.nodes i).content 0 (take size bytes))
            (λ i. size)
            (write_at d fs bytes size o)
    unfolding write_at
    write_at-Writing none e = inl (e, refl)
    write_at-Writing (some i) e = elim (Bool-cases (ltb fs_max_file_size size)) [
      | inl large ↦ inr (inl (i, e, ground arith, rw large))
      | inr fits ↦
          let o = file_node fs.nodes path i v nn e in
          let old = (node_at fs.nodes i).content in
          let le : size ≤ fs_max_file_size = ground arith in
          let len : length (take size bytes) ≡ size = omega (arith, length-take size bytes) in
          let content = overwrite old 0 (take size bytes) in
          let copied : kmemcpy old bytes size ≡ some content =
            rw len (kmemcpy_lem old bytes size (omega (arith, o.content_size)) given) in
          let (fs', done, kept) =
            finish-IsKept d (put_node fs i (refilled (node_at fs.nodes i) content size)) in
          inr (
            inr (
              i,
              fs',
              rw (fits, copied, done),
              e,
              le,
              IsRefilled-of_kept d fs fs' path i content size v nn e
                  (length-overwrite old 0 (take size bytes) (omega (arith, len, o.content_size))
                    ∙ o.content_size)
                  le kept,
            ))
    ]

    append_at-Writing :
        (o : Option ℕ)
        → file_index fs.nodes path ≡ o
        → size + fs_max_file_size < 2 ^ 32
        → Writing fs path fs_max_file_size
            (λ i.
              overwrite (node_at fs.nodes i).content (node_at fs.nodes i).size (take size bytes))
            (λ i. (node_at fs.nodes i).size + size)
            (append_at d fs bytes size o)
    unfolding append_at copy_into
    append_at-Writing none e small = inl (e, refl)
    append_at-Writing (some i) e small =
        let o = file_node fs.nodes path i v nn e in
        let n = node_at fs.nodes i in
        let total : (n.size + size) % 2 ^ 32 ≡ n.size + size = omega (arith, o.size_fits) in
        elim (Bool-cases (ltb fs_max_file_size (n.size + size))) [
          | inl large ↦ inr (inl (i, e, ground arith, rw (total, large)))
          | inr fits ↦
              let le : n.size + size ≤ fs_max_file_size = ground arith in
              let len : length (take size bytes) ≡ size = omega (arith, length-take size bytes) in
              let content = overwrite n.content n.size (take size bytes) in
              let room : length (drop n.size n.content) ≡ length n.content - n.size =
                length-drop n.size n.content in
              let copied : kmemcpy (drop n.size n.content) bytes size
                  ≡ some
                      (take size bytes ++ drop (length (take size bytes)) (drop n.size n.content)) =
                rw len (
                  kmemcpy_lem (drop n.size n.content) bytes size
                    (omega (arith, o.content_size, room)) given) in
              let (fs', done, kept) =
                finish-IsKept d (put_node fs i (refilled n content (n.size + size))) in
              inr (
                inr (
                  i,
                  fs',
                  rw (total, fits, copied, done),
                  e,
                  le,
                  IsRefilled-of_kept d fs fs' path i content (n.size + size) v nn e
                      (length-overwrite n.content n.size (take size bytes)
                          (omega (arith, len, o.content_size))
                        ∙ o.content_size)
                      le kept,
                ))
        ]

  -- On a valid table, `fs_write_file` of `size` bytes of an array that holds them overruns an array
  -- while it resolves the path, or it refuses because no file has the path or `size` is over the limit
  -- of a file, or it answers 0: then the file has these bytes before what its array held after them, its
  -- size is `size`, every other slot is as before and the table is valid.
  pub fs_write_file-WritesAt :
      (fs : Fs Dev) (path : CString) (bytes : List ℕ) (size : ℕ)
      → IsTree fs.nodes
      → size ≤ length bytes
      → WritesAt fs path
          (λ i. overwrite (node_at fs.nodes i).content 0 (take size bytes))
          (λ i. size)
          (fs_write_file d fs path bytes size)
  unfolding fs_write_file
  fs_write_file-WritesAt fs path bytes size v given = elim (resolve_cases fs path) [
    | inl fault ↦ inl (fault, rw fault)
    | inr (s, e, c) ↦ inr (
      s,
      e,
      c,
      rw e (
          write_at-Writing fs v s (canonical-NoNul s c) bytes size given (file_index fs.nodes s)
            refl),
    )
  ]

  -- The same of `fs_append_file`, when `size` plus the limit of a file stays below 2^32: the file keeps
  -- its bytes, the new ones follow them, and its size grows by `size`.
  pub fs_append_file-WritesAt :
      (fs : Fs Dev) (path : CString) (bytes : List ℕ) (size : ℕ)
      → IsTree fs.nodes
      → size ≤ length bytes
      → size + fs_max_file_size < 2 ^ 32
      → WritesAt fs path
          (λ i. overwrite (node_at fs.nodes i).content (node_at fs.nodes i).size (take size bytes))
          (λ i. (node_at fs.nodes i).size + size)
          (fs_append_file d fs path bytes size)
  unfolding fs_append_file
  fs_append_file-WritesAt fs path bytes size v given small = elim (resolve_cases fs path) [
    | inl fault ↦ inl (fault, rw fault)
    | inr (s, e, c) ↦ inr (
      s,
      e,
      c,
      rw e (
          append_at-Writing fs v s (canonical-NoNul s c) bytes size given (file_index fs.nodes s)
            refl small),
    )
  ]
