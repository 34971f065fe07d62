-- ===== src/Filesystem/View/Reading.antt =====
-- `fs_read_file` of kernel/filesystem.c as a query of the abstract filesystem.
use pl_dos.Base.{
  ℕ, ◌≤◌, ◌≡◌, refl, sym, ap, subst, ◌⊎◌, inl, inr, Option, none, some, List, ◌++◌, length, take,
  drop, length-take, take-drop, arith,
}
use pl_dos.Strings.{CString, NoNul}
use pl_dos.Filesystem.{Fs, Disk, node_at, fs_max_file_size}
use pl_dos.Filesystem.Valid.{IsTree, node_at-IsNode}
use pl_dos.Filesystem.Calls.{resolve}
use pl_dos.Filesystem.Calls.Lookup.{resolve_cases, canonical-NoNul, find_node-some}
use pl_dos.Filesystem.Files.{file_index, read_at, fs_read_file}
use pl_dos.Filesystem.Files.Read.{read_at_lem}
use pl_dos.Filesystem.Files.Refill.{file_index-some}
use pl_dos.Filesystem.View.{Entry, view}
use pl_dos.Filesystem.View.Entry.{file}
use pl_dos.Filesystem.View.Abstract.{NoFile}
use pl_dos.Filesystem.View.Contents.{no_file, file_entry}

-- What `fs_read_file` answers for a path, where a whole file fits the array and the size.
abbrev pub Reads :
    {Dev : Type 0} → Fs Dev → CString → List ℕ → Option (Option (ℕ × List ℕ)) → Type 0
Reads fs path buffer r =
    ((resolve fs path ≡ none) × (r ≡ none))
    ⊎ ((s : CString) × (resolve fs path ≡ some s)
        × ((NoFile (view fs.nodes) s × (r ≡ some none))
            ⊎ ((bytes : List ℕ) × (view fs.nodes s ≡ some (file bytes))
                × (length bytes ≤ fs_max_file_size)
                × (r ≡ some (some (length bytes, bytes ++ drop (length bytes) buffer))))))

module _ (d : Disk) where
  open d use {Dev}

  found-Reads :
      (fs : Fs Dev) (path s : CString) (buffer : List ℕ) (max_size : ℕ) (o : Option ℕ)
      → IsTree fs.nodes
      → fs_max_file_size ≤ max_size
      → fs_max_file_size ≤ length buffer
      → resolve fs path ≡ some s
      → NoNul s
      → file_index fs.nodes s ≡ o
      → Reads fs path buffer (fs_read_file fs path buffer max_size)
  unfolding fs_read_file read_at
  found-Reads fs path s buffer max_size none v fits room e n miss =
      inr (s, e, inl (no_file d fs s miss, rw (e, miss) refl))
  found-Reads fs path s buffer max_size (some i) v fits room e n hit =
      let (found, plain) = file_index-some fs.nodes s i hit in
      let (h, used, named) = find_node-some fs.nodes v s i n found in
      let o = node_at-IsNode fs.nodes i v h in
      let content = (node_at fs.nodes i).content in
      let size = (node_at fs.nodes i).size in
      let count : length (take size content) ≡ size =
        omega (arith, length-take size content, o.size_fits, o.content_size) in
      let read =
        read_at_lem fs.nodes buffer content (drop size content) size max_size i
          (omega (arith, o.size_fits, o.content_size)) (sym (take-drop size content)) refl
          (omega (arith, o.size_fits)) (omega (arith, o.size_fits)) in
      inr (
        s,
        e,
        inr (
          take size content,
          rw found (ap (λ (x : Entry). some x) (file_entry d (node_at fs.nodes i) plain)),
          omega (arith, count, o.size_fits),
          rw (e, hit)
              (subst
                (λ k.
                  read_at fs.nodes buffer max_size (some i)
                  ≡ some (some (k, take size content ++ drop k buffer)))
                (sym count) read),
        ),
      )

  pub fs_read_file-Reads :
      (fs : Fs Dev) (path : CString) (buffer : List ℕ) (max_size : ℕ)
      → IsTree fs.nodes
      → fs_max_file_size ≤ max_size
      → fs_max_file_size ≤ length buffer
      → Reads fs path buffer (fs_read_file fs path buffer max_size)
  unfolding fs_read_file
  fs_read_file-Reads fs path buffer max_size v fits room = elim (resolve_cases fs path) [
    | inl fault ↦ inl (fault, rw fault)
    | inr (s, e, c) ↦
        found-Reads fs path s buffer max_size (file_index fs.nodes s) v fits room e
          (canonical-NoNul s c) refl
  ]
