-- ===== src/Filesystem/View/Contents.antt =====
-- Writes and appends of kernel/filesystem.c as steps of the abstract filesystem.
use mathlib.Core.Option
use pl_dos.Base.{
  Bool-cases, ℕ, ◌+◌, ◌≤◌, ◌<◌, ◌≡◌, ◌≢◌, refl, sym, ap, subst, ◌∙◌, ◌⊎◌, inl, inr, true, Option,
  none, some, List, ◌++◌, length, take, drop, take-append, take_of_le, length-take, length-append,
  append_assoc, if◌then◌else◌, arith, codes,
}
use pl_dos.Strings.{CString, NoNul}
use pl_dos.Filesystem.{Fs, Disk, Node, node_at, is_file, fs_max_files, fs_max_file_size, find_node}
use pl_dos.Filesystem.Valid.{IsTree}
use pl_dos.Filesystem.Calls.Lookup.{canonical-NoNul, find_node-some}
use pl_dos.Filesystem.Files.{only_file, file_index}
use pl_dos.Filesystem.Files.Refill.{IsRefilled, refilled, file_index-some}
use pl_dos.Filesystem.Files.Write.{WritesAt, overwrite}
use pl_dos.Filesystem.View.{Entry, entry_of, view, view-put}
use pl_dos.Filesystem.View.Entry.{dir, file}
use pl_dos.Filesystem.View.Abstract.{
  Op, target, Allows, NoFile, Refuses, AbstractStep, Refines, refused,
}
use pl_dos.Filesystem.View.Entries.{present_absurd}

module _ (d : Disk) where
  open d use {Dev}

  pub file_entry : (m : Node) → is_file m ≡ true → entry_of m ≡ file (take m.size m.content)
  file_entry m h = rw h refl

  no_file_at :
      (nodes : List Node) (o : Option ℕ) (bytes : List ℕ)
      → only_file nodes o ≡ none
      → Option.map (λ i. entry_of (node_at nodes i)) o ≢ some (file bytes)
  unfolding only_file
  no_file_at nodes none bytes miss e = cc
  no_file_at nodes (some i) bytes miss e = elim (Bool-cases (is_file (node_at nodes i))) [
    | inl f ↦ present_absurd (subst (λ b. (if b then some i else none) ≡ none) f miss)
    | inr f ↦ dir_file (
        subst
          (λ b.
            some (if b then file (take (node_at nodes i).size (node_at nodes i).content) else dir)
            ≡ some (file bytes))
          f e)
  ]
    where
      dir_file : some dir ≡ some (file bytes) → ⊥
      dir_file h = cc

  pub no_file :
      (fs : Fs Dev) (s : CString) → file_index fs.nodes s ≡ none → NoFile (view fs.nodes) s
  unfolding file_index
  no_file fs s miss bytes e = no_file_at fs.nodes (find_node fs.nodes s) bytes miss e

  -- A write that was done: the entry before and after.
  refilled-AbstractStep :
      (op : Op) (fs fs' : Fs Dev) (s : CString) (i : ℕ) (content : List ℕ) (size : ℕ)
      → IsTree fs.nodes
      → NoNul s
      → file_index fs.nodes s ≡ some i
      → IsRefilled fs s i content size fs'
      → ((was : List ℕ)
          → was ≡ take (node_at fs.nodes i).size (node_at fs.nodes i).content
          → Allows op (some (file was)) (some (file (take size content))))
      → AbstractStep op s fs.nodes 0 fs'.nodes
  refilled-AbstractStep op fs fs' s i content size v n hit done allows =
      let (found, plain) = file_index-some fs.nodes s i hit in
      let (found', plain') = file_index-some fs'.nodes s i done.still_found in
      let (below, used, named) = find_node-some fs.nodes v s i n found in
      let (below', used', named') = find_node-some fs'.nodes done.tree s i n found' in
      inr (
        refl,
        (
          some (file (take size content)),
          subst (λ old. Allows op old (some (file (take size content))))
              (sym (rw found (ap (λ (x : Entry). some x) (file_entry (node_at fs.nodes i) plain))))
              (allows _ refl),
          view-put fs.nodes fs'.nodes v done.tree i s (λ u. named) (λ u. named') done.others _ n
              (rw found' (
                ap (λ (x : Entry). some x)
                  (refilled_entry (node_at fs.nodes i) (node_at fs'.nodes i) content size plain
                    done.slot))),
        ),
      )
    where
      refilled_entry :
          (m m' : Node) (content : List ℕ) (size : ℕ)
          → is_file m ≡ true
          → m' ≡ refilled m content size
          → entry_of m' ≡ file (take size content)
      refilled_entry m m' content size h e = ap entry_of e ∙ file_entry (refilled m content size) h

  pub writes-Refines :
      (op : Op) (fs : Fs Dev) (content : ℕ → List ℕ) (size : ℕ → ℕ) (r : Option (ℕ × Fs Dev))
      → IsTree fs.nodes
      → ((i : ℕ)
          → i < fs_max_files
          → size i ≤ fs_max_file_size
          → Allows op
              (some (file (take (node_at fs.nodes i).size (node_at fs.nodes i).content)))
              (some (file (take (size i) (content i)))))
      → ((s : CString)
          → NoFile (view fs.nodes) s
            ⊎ ((i : ℕ) × (view fs.nodes s
                  ≡ some (file (take (node_at fs.nodes i).size (node_at fs.nodes i).content)))
                × (i < fs_max_files)
                × (fs_max_file_size < size i))
          → Refuses op s fs.nodes)
      → WritesAt d fs (target op) content size r
      → Refines op fs r
  writes-Refines op fs content size r v allows refuses w = elim w [
    | inl (fault, eq) ↦ subst (Refines op fs) (sym eq) fault
    | inr (s, at, c, inl (hit, eq)) ↦
        refused op fs s (codes "File not found") r v at (refuses s (inl (no_file fs s hit))) eq
    | inr (s, at, c, inr (inl (i, hit, large, eq))) ↦
        let (found, plain) = file_index-some fs.nodes s i hit in
        let (below, used, named) = find_node-some fs.nodes v s i (canonical-NoNul s c) found in
        refused op fs s (codes "File too large") r v at
          (refuses s (
            inr (
              i,
              rw found (ap (λ (x : Entry). some x) (file_entry (node_at fs.nodes i) plain)),
              below,
              large,
            )))
          eq
    | inr (s, at, c, inr (inr (i, fs', eq, hit, fits, done))) ↦
        let n = canonical-NoNul s c in
        let below = (find_node-some fs.nodes v s i n (file_index-some fs.nodes s i hit).0).0 in
        subst (Refines op fs) (sym eq) (
          s,
          at,
          done.tree,
          done.same_dir,
          refilled-AbstractStep op fs fs' s i (content i) (size i) v n hit done (λ was e.
              subst (λ x. Allows op (some (file x)) (some (file (take (size i) (content i)))))
                (sym e) (allows i below fits)),
        )
  ]

  -- The bytes of a file after a write and after an append.
  pub written_bytes :
      (old bytes : List ℕ)
      → take (length bytes) (overwrite old 0 (take (length bytes) bytes)) ≡ bytes
  written_bytes old bytes =
      rw (take_of_le (length bytes) bytes (omega arith))
        (take-append bytes (drop (length bytes) old))

  pub appended_bytes :
      (old bytes : List ℕ) (size : ℕ)
      → size ≤ length old
      → take (size + length bytes) (overwrite old size (take (length bytes) bytes))
        ≡ take size old ++ bytes
  appended_bytes old bytes size fits =
      let len : length (take size old ++ bytes) ≡ size + length bytes =
        omega (arith, length-append (take size old) bytes, length-take size old, fits) in
      rw (take_of_le (length bytes) bytes (omega arith)) (
        subst
          (λ k.
            take k (take size old ++ (bytes ++ drop (length bytes) (drop size old)))
            ≡ take size old ++ bytes)
          len
          (ap (take (length (take size old ++ bytes))) (sym (append_assoc (take size old) bytes _))
            ∙ take-append (take size old ++ bytes) _))
