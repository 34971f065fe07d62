-- ===== src/Filesystem/View/Refines.antt =====
-- The operations of kernel/filesystem.c refine the abstract filesystem, one by one and in any order.
use pl_dos.Base.{
  ℕ, ◌≡◌, refl, sym, ap, ◌∙◌, inl, inr, Option, none, some, List, [], ◌∷◌, length, All, length-take,
  arith, codes, ◌>>=◌,
}
use pl_dos.Strings.{CString}
use pl_dos.Filesystem.{Fs, Disk, Node, node_at, fs_file, fs_dir}
use pl_dos.Filesystem.Valid.{IsTree, node_at-IsNode}
use pl_dos.Filesystem.Calls.{resolve, fs_create_file, fs_create_dir, fs_delete}
use pl_dos.Filesystem.Calls.Create.{fs_create_file-CreatesAt, fs_create_dir-CreatesAt}
use pl_dos.Filesystem.Calls.Delete.{fs_delete-DeletesAt}
use pl_dos.Filesystem.Files.{fs_write_file, fs_append_file}
use pl_dos.Filesystem.Files.Write.{fs_write_file-WritesAt, fs_append_file-WritesAt}
use pl_dos.Filesystem.View.{view, SameView}
use pl_dos.Filesystem.View.Entry.{dir, file}
use pl_dos.Filesystem.View.Abstract.{Op, target, IsSmall, AbstractStep, Refines}
use pl_dos.Filesystem.View.Abstract.Op.{create_file, create_dir, delete, write_file, append_file}
use pl_dos.Filesystem.View.Entries.{creates-Refines, deletes-Refines, created_file, created_dir}
use pl_dos.Filesystem.View.Contents.{writes-Refines, written_bytes, appended_bytes}
use pl_dos.Filesystem.Files.Read.{resolve-same_dir}

-- A run of the abstract filesystem, where `at` resolves the paths of the operations.
abbrev pub AbstractRun : (CString → Option CString) → List Op → List Node → List Node → Type 0
AbstractRun at [] nodes nodes' = SameView (view nodes) (view nodes')
AbstractRun at (op ∷ ops) nodes nodes' =
    (s : CString) × (at (target op) ≡ some s)
    × (status : ℕ) × (mid : List Node) × AbstractStep op s nodes status mid
    × AbstractRun at ops mid nodes'

-- A run that overran no array is one of the abstract filesystem.
abbrev pub RunRefines :
    {Dev : Type 0} → (CString → Option CString) → List Op → List Node → Option (ℕ × Fs Dev) → Type 0
RunRefines at ops nodes none = Unit {0}
RunRefines at ops nodes (some (status, fs')) = IsTree fs'.nodes × AbstractRun at ops nodes fs'.nodes

module _ (d : Disk) where
  open d use {Dev}

  abbrev pub do_op : Fs Dev → Op → Option (ℕ × Fs Dev)
  do_op fs (create_file path) = fs_create_file d fs path
  do_op fs (create_dir path) = fs_create_dir d fs path
  do_op fs (delete path) = fs_delete d fs path
  do_op fs (write_file path bytes) = fs_write_file d fs path bytes (length bytes)
  do_op fs (append_file path bytes) = fs_append_file d fs path bytes (length bytes)

  -- On a valid table each of the five operations overruns an array while it resolves its path, or it is a
  -- step of the abstract filesystem at the resolved path and keeps the table valid: it answers 1, for one
  -- of the causes named, and changes no entry, or it answers 0 and changes that one entry as the abstract
  -- operation does. An append is to stay below the sizes at which the sum of the sizes wraps.
  pub do_op-Refines :
      (fs : Fs Dev) (op : Op) → IsTree fs.nodes → IsSmall op → Refines op fs (do_op fs op)
  do_op-Refines fs (create_file path) v small =
      creates-Refines d (create_file path) fs fs_file (codes "File already exists") (file []) _ v
        (refl, refl) (λ s h. h) (created_file d) (fs_create_file-CreatesAt d fs path v)
  do_op-Refines fs (create_dir path) v small =
      creates-Refines d (create_dir path) fs fs_dir (codes "Directory already exists") dir _ v
        (refl, refl) (λ s h. h) (λ m t z. created_dir d m t) (fs_create_dir-CreatesAt d fs path v)
  do_op-Refines fs (delete path) v small =
      deletes-Refines d fs path _ v (fs_delete-DeletesAt d fs path v)
  do_op-Refines fs (write_file path bytes) v small =
      writes-Refines d (write_file path bytes) fs _ _ _ v
        (λ i h fits.
          (_, refl, ap (λ x. some (file x)) (written_bytes d (node_at fs.nodes i).content bytes)))
        (λ s cause. elim cause [ inl other ↦ inl other | inr (i, at, h, large) ↦ inr large ])
        (fs_write_file-WritesAt d fs path bytes (length bytes) v (omega arith))
  do_op-Refines fs (append_file path bytes) v small =
      writes-Refines d (append_file path bytes) fs _ _ _ v
        (λ i h fits.
          let o = node_at-IsNode fs.nodes i v h in
          (
            _,
            refl,
            ap (λ x. some (file x))
                (appended_bytes d (node_at fs.nodes i).content bytes (node_at fs.nodes i).size
                  (omega (arith, o.size_fits, o.content_size))),
          ))
        (λ s cause. elim cause [
          | inl other ↦ inl other
          | inr (i, at, h, large) ↦
              let o = node_at-IsNode fs.nodes i v h in
              let whole = length-take (node_at fs.nodes i).size (node_at fs.nodes i).content in
              inr (_, at, omega (arith, whole, o.size_fits, o.content_size, large))
        ])
        (fs_append_file-WritesAt d fs path bytes (length bytes) v (omega arith) small)

  abbrev pub do_ops : Fs Dev → List Op → Option (ℕ × Fs Dev)
  do_ops fs [] = some (0, fs)
  do_ops fs (op ∷ ops) = do_op fs op >>= λ r. do_ops r.1 ops

  do_ops-RunRefines :
      (at : CString → Option CString) (fs : Fs Dev) (ops : List Op)
      → ((path : CString) → resolve fs path ≡ at path)
      → IsTree fs.nodes
      → All IsSmall ops
      → RunRefines at ops fs.nodes (do_ops fs ops)
  do_ops-RunRefines at fs [] same v small = (v, λ path n. refl)
  do_ops-RunRefines at fs (op ∷ ops) same v small =
      onward (do_op fs op) (do_op-Refines fs op v small.0) (λ fs' e t.
        do_ops-RunRefines at fs' ops (λ path. resolve-same_dir fs fs' path e ∙ same path) t small.1)
    where
      joined :
          (s : CString) (status : ℕ) (mid : List Node) (r : Option (ℕ × Fs Dev))
          → at (target op) ≡ some s
          → AbstractStep op s fs.nodes status mid
          → RunRefines at ops mid r
          → RunRefines at (op ∷ ops) fs.nodes r
      joined s status mid none e step run = tt
      joined s status mid (some (rc, fs')) e step (t, run) = (t, (s, e, status, mid, step, run))

      onward :
          (r : Option (ℕ × Fs Dev))
          → Refines op fs r
          → ((fs' : Fs Dev)
              → fs'.current_dir ≡ fs.current_dir
              → IsTree fs'.nodes
              → RunRefines at ops fs'.nodes (do_ops fs' ops))
          → RunRefines at (op ∷ ops) fs.nodes (r >>= λ q. do_ops q.1 ops)
      onward none fault goes_on = tt
      onward (some (status, fs')) (s, e, t, dir_same, step) goes_on =
          joined s status fs'.nodes (do_ops fs' ops) (sym (same (target op)) ∙ e) step
            (goes_on fs' dir_same t)

  -- Any sequence of such operations from a valid table that overruns no array does to the paths what a
  -- run of the abstract filesystem does, and leaves a valid table. The bytes of each append are fewer than
  -- 2 ^ 32 - 4096, so that the sum of sizes does not wrap.
  pub do_ops-AbstractRun :
      (fs : Fs Dev) (ops : List Op)
      → IsTree fs.nodes
      → All IsSmall ops
      → RunRefines (resolve fs) ops fs.nodes (do_ops fs ops)
  do_ops-AbstractRun fs ops v small = do_ops-RunRefines (resolve fs) fs ops (λ path. refl) v small
