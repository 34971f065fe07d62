-- ===== src/Filesystem/History.antt =====
-- Histories of calls of kernel/filesystem.c, and the node table they leave.
use pl_dos.Base.{
  ℕ, zero, suc, ◌+◌, ◌%◌, ◌^◌, ◌<◌, ◌≡◌, refl, sym, inl, inr, Option, none, some, List, [], ◌∷◌,
  length, length-drop, drop, Bool-cases, if◌then◌else◌, ◌>>=◌, arith, subst, ltb, codes,
}
use native.Mathlib.Decide.{dec_lt}
use pl_dos.Strings.{CString, Buffer, NoNul, str_copy}
use pl_dos.Memory.Bytes.{kmemcpy_overrun}
use pl_dos.Filesystem.{Fs, Disk, Node, node_at, is_dir, fs_max_files, fs_max_file_size}
use pl_dos.Filesystem.Valid.{IsTree, node_at-IsNode}
use pl_dos.Filesystem.Calls.{
  refuse, node_of, enter_dir, fs_change_dir, fs_create_file, fs_create_dir, fs_delete,
}
use pl_dos.Filesystem.Calls.Create.{CreatesAt, fs_create_file-CreatesAt, fs_create_dir-CreatesAt}
use pl_dos.Filesystem.Calls.Delete.{DeletesAt, fs_delete-DeletesAt}
use pl_dos.Filesystem.Calls.Lookup.{canonical-NoNul, resolve_cases, find_node-some}
use pl_dos.Filesystem.Files.{
  file_index, copy_into, append_at, fs_append_file, fs_write_file, copy_content, copy_from, fs_copy,
}
use pl_dos.Filesystem.Files.Refill.{file_index-some}
use pl_dos.Filesystem.Files.Write.{WritesAt, fs_write_file-WritesAt, fs_append_file-WritesAt}

-- The call overran an array, or it leaves a tree.
abbrev pub KeepsTree : {Dev : Type 0} → Option (ℕ × Fs Dev) → Type 0
KeepsTree none = Unit {0}
KeepsTree (some (status, fs)) = IsTree fs.nodes

-- The calls of a program, in the order in which it makes them.
pub data Call : Type 0 where
  create_file : CString → Call
  create_dir : CString → Call
  delete : CString → Call
  change_dir : CString → Call
  write_file : CString → List ℕ → Call
  append_file : CString → List ℕ → Call
  copy : CString → CString → Call

module _ (d : Disk) where
  open d use {Dev}

  abbrev pub step : Fs Dev → Call → Option (ℕ × Fs Dev)
  step fs (create_file path) = fs_create_file d fs path
  step fs (create_dir path) = fs_create_dir d fs path
  step fs (delete path) = fs_delete d fs path
  step fs (change_dir path) = fs_change_dir fs path
  step fs (write_file path bytes) = fs_write_file d fs path bytes (length bytes)
  step fs (append_file path bytes) = fs_append_file d fs path bytes (length bytes)
  step fs (copy src dest) = fs_copy d fs src dest

  abbrev pub run : Fs Dev → List Call → Option (ℕ × Fs Dev)
  run fs [] = some (0, fs)
  run fs (c ∷ cs) = step fs c >>= λ r. run r.1 cs

  creates :
      (fs : Fs Dev) (type : ℕ) (exists path : CString) (r : Option (ℕ × Fs Dev))
      → IsTree fs.nodes
      → CreatesAt d fs type exists path r
      → KeepsTree r
  creates fs type exists path r v w = elim w [
    | inl (fault, e) ↦ subst KeepsTree (sym e) tt
    | inr (s, at, c, inl (hit, e)) ↦ subst KeepsTree (sym e) v
    | inr (s, at, c, inr (inl (hit, e))) ↦ subst KeepsTree (sym e) v
    | inr (s, at, c, inr (inr (inl (hit, e)))) ↦ subst KeepsTree (sym e) v
    | inr (s, at, c, inr (inr (inr (fs', e, made)))) ↦ subst KeepsTree (sym e) made.tree
  ]

  deletes :
      (fs : Fs Dev) (path : CString) (r : Option (ℕ × Fs Dev))
      → IsTree fs.nodes
      → DeletesAt d fs path r
      → KeepsTree r
  deletes fs path r v w = elim w [
    | inl (fault, e) ↦ subst KeepsTree (sym e) tt
    | inr (s, at, c, inl (hit, e)) ↦ subst KeepsTree (sym e) v
    | inr (s, at, c, inr (inl (i, hit, dir, busy, e))) ↦ subst KeepsTree (sym e) v
    | inr (s, at, c, inr (inr (fs', e, gone))) ↦ subst KeepsTree (sym e) gone.tree
  ]

  pub writes :
      (fs : Fs Dev) (path : CString) (content : ℕ → List ℕ) (size : ℕ → ℕ) (r : Option (ℕ × Fs Dev))
      → IsTree fs.nodes
      → WritesAt d fs path content size r
      → KeepsTree r
  writes fs path content size r v w = elim w [
    | inl (fault, e) ↦ subst KeepsTree (sym e) tt
    | inr (s, at, c, inl (hit, e)) ↦ subst KeepsTree (sym e) v
    | inr (s, at, c, inr (inl (i, hit, large, e))) ↦ subst KeepsTree (sym e) v
    | inr (s, at, c, inr (inr (i, fs', e, hit, fits, done))) ↦ subst KeepsTree (sym e) done.tree
  ]

  enters : (fs : Fs Dev) (s : CString) → IsTree fs.nodes → KeepsTree (enter_dir fs s)
  unfolding enter_dir
  enters fs s v = entered (node_of fs s)
    where
      moved :
          (r : Option Buffer) → KeepsTree (r >>= λ dir. some (0, record fs { current_dir = dir }))
      moved none = tt
      moved (some b) = v

      entered :
          (o : Option Node)
          → KeepsTree (elim o [
            | none ↦ refuse fs (codes "Directory not found")
            | some n ↦
                if is_dir n
                then (do dir ← str_copy fs.current_dir s; some (0, record fs { current_dir = dir }))
                else refuse fs (codes "Directory not found")
          ])
      entered none = v
      entered (some n) = elim (Bool-cases (is_dir n)) [
        | inl dir ↦ rw dir (moved (str_copy fs.current_dir s))
        | inr file ↦ rw file v
      ]

  changes : (fs : Fs Dev) (path : CString) → IsTree fs.nodes → KeepsTree (fs_change_dir fs path)
  unfolding fs_change_dir
  changes fs path v = elim (resolve_cases fs path) [
    | inl fault ↦ rw fault tt
    | inr (s, e, c) ↦ rw e (enters fs s v)
  ]

  -- An append of so many bytes that the sum may wrap is refused, or overruns the array of the file.
  appends_large :
      (fs : Fs Dev) (bytes : List ℕ) (o : Option ℕ)
      → IsTree fs.nodes
      → ((i : ℕ) → o ≡ some i → i < fs_max_files)
      → fs_max_file_size < length bytes
      → KeepsTree (append_at d fs bytes (length bytes) o)
  unfolding append_at copy_into
  appends_large fs bytes none v below large = v
  appends_large fs bytes (some i) v below large =
      let n = node_at fs.nodes i in
      let o = node_at-IsNode fs.nodes i v (below i refl) in
      let over =
        kmemcpy_overrun (drop n.size n.content) bytes (length bytes)
          (omega (arith, length-drop n.size n.content, o.content_size)) in
      elim (Bool-cases (ltb fs_max_file_size ((n.size + length bytes) % 2 ^ 32))) [
        | inl refused ↦ rw refused v
        | inr wraps ↦ rw (wraps, over) tt
      ]

  file_below :
      (fs : Fs Dev) (s : CString) (i : ℕ)
      → IsTree fs.nodes
      → NoNul s
      → file_index fs.nodes s ≡ some i
      → i < fs_max_files
  file_below fs s i v n e = (find_node-some fs.nodes v s i n (file_index-some fs.nodes s i e).0).0

  appends :
      (fs : Fs Dev) (path : CString) (bytes : List ℕ)
      → IsTree fs.nodes
      → KeepsTree (fs_append_file d fs path bytes (length bytes))
  unfolding fs_append_file
  appends fs path bytes v = elim (dec_lt fs_max_file_size (length bytes)) [
    | yes large ↦ elim (resolve_cases fs path) [
      | inl fault ↦ rw fault tt
      | inr (s, e, c) ↦ rw e (
          appends_large fs bytes (file_index fs.nodes s) v
            (λ i hit. file_below fs s i v (canonical-NoNul s c) hit) large)
    ]
    | no small ↦
        writes fs path _ _ _ v
          (fs_append_file-WritesAt d fs path bytes (length bytes) v (omega arith) (omega arith))
  ]

  copies_content :
      (dest : CString) (src : ℕ) (r : Option (ℕ × Fs Dev))
      → src < fs_max_files
      → KeepsTree r
      → KeepsTree (r >>= copy_content d dest src)
  unfolding copy_content
  copies_content dest src none h k = tt
  copies_content dest src (some (zero, fs)) h v =
      let o = node_at-IsNode fs.nodes src v h in
      writes fs dest _ _ _ v (
        fs_write_file-WritesAt d fs dest (node_at fs.nodes src).content (node_at fs.nodes src).size
          v (omega (arith, o.size_fits, o.content_size)))
  copies_content dest src (some (suc rc, fs)) h v = v

  copies : (fs : Fs Dev) (src dest : CString) → IsTree fs.nodes → KeepsTree (fs_copy d fs src dest)
  unfolding fs_copy copy_from
  copies fs src dest v = elim (resolve_cases fs src) [
    | inl fault ↦ rw fault tt
    | inr (s, e, c) ↦ rw e (copied s (canonical-NoNul s c) (file_index fs.nodes s) refl)
  ]
    where
      copied :
          (s : CString)
          → NoNul s
          → (o : Option ℕ) → file_index fs.nodes s ≡ o
          → KeepsTree (copy_from d fs dest o)
      copied s n none e = v
      copied s n (some i) e =
          copies_content dest i (fs_create_file d fs dest) (file_below fs s i v n e) (
            creates fs _ (codes "File already exists") dest _ v
              (fs_create_file-CreatesAt d fs dest v))

  pub step-KeepsTree : (fs : Fs Dev) (c : Call) → IsTree fs.nodes → KeepsTree (step fs c)
  step-KeepsTree fs (create_file path) v =
      creates fs _ (codes "File already exists") path _ v (fs_create_file-CreatesAt d fs path v)
  step-KeepsTree fs (create_dir path) v =
      creates fs _ (codes "Directory already exists") path _ v (fs_create_dir-CreatesAt d fs path v)
  step-KeepsTree fs (delete path) v = deletes fs path _ v (fs_delete-DeletesAt d fs path v)
  step-KeepsTree fs (change_dir path) v = changes fs path v
  step-KeepsTree fs (write_file path bytes) v =
      writes fs path _ _ _ v (fs_write_file-WritesAt d fs path bytes (length bytes) v (omega arith))
  step-KeepsTree fs (append_file path bytes) v = appends fs path bytes v
  step-KeepsTree fs (copy src dest) v = copies fs src dest v

  -- Any history of creations, deletions, changes of directory, writes, appends and copies that starts
  -- from a valid table leaves a valid table, unless one of the calls overruns an array.
  pub run-KeepsTree : (fs : Fs Dev) (cs : List Call) → IsTree fs.nodes → KeepsTree (run fs cs)
  run-KeepsTree fs [] v = v
  run-KeepsTree fs (c ∷ cs) v =
      onward (step fs c) (step-KeepsTree fs c v) (λ fs' k. run-KeepsTree fs' cs k)
    where
      onward :
          (r : Option (ℕ × Fs Dev))
          → KeepsTree r
          → ((fs' : Fs Dev) → IsTree fs'.nodes → KeepsTree (run fs' cs))
          → KeepsTree (r >>= λ q. run q.1 cs)
      onward none k rest = tt
      onward (some (status, fs')) k rest = rest fs' k
