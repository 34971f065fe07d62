-- ===== src/Filesystem/Startup.antt =====
-- `fs_init` of kernel/filesystem.c on a machine without a disk.
use pl_dos.Base.{
  ℕ, ◌<◌, ◌≡◌, ◌≢◌, refl, ap, subst, true, false, Option, none, some, List, [], ◌∷◌, length,
  replicate, arith, codes, ◌>>=◌, All,
}
use pl_dos.Strings.{CString, Buffer, cstr, str_copy}
use pl_dos.Strings.Buffers.{Writes, str_copy_fits}
use pl_dos.Filesystem.{Fs, Disk, zero_node, fs_max_path, fs_max_files, root_path}
use pl_dos.Filesystem.Valid.{IsTree}
use pl_dos.Filesystem.Path.Canonical.{IsPart, IsParts, render}
use pl_dos.Filesystem.Path.Known.{fs_resolve_path_canonical}
use pl_dos.Filesystem.Calls.{resolve}
use pl_dos.Filesystem.Tree.{welcome, create_default_tree, fs_init}
use pl_dos.Filesystem.View.Abstract.{Op, target, IsSmall, Refines}
use pl_dos.Filesystem.View.Abstract.Op.{create_file, create_dir, write_file}
use pl_dos.Filesystem.View.Refines.{do_op, do_op-Refines}
use pl_dos.Filesystem.Samples.{root_only, root_only-IsTree}

long-IsPart :
    (p : CString)
    → 2 < length p
    → length p < 32
    → All (λ c. c ≢ 0) p
    → All (λ c. c ≢ 47) p
    → IsPart p
long-IsPart p long short nn ns = record {
  no_nul = nn;
  no_slash = ns;
  non_empty = λ e. absurd (omega (arith, ap length e, long));
  short = short;
  ne_dot = λ e. absurd (omega (arith, ap length e, long));
  ne_dot_dot = λ e. absurd (omega (arith, ap length e, long));
}

progs-IsPart : IsPart (codes "progs")
progs-IsPart = long-IsPart (codes "progs") (omega arith) (omega arith) (omega arith) (omega arith)

home-IsPart : IsPart (codes "home")
home-IsPart = long-IsPart (codes "home") (omega arith) (omega arith) (omega arith) (omega arith)

readme-IsPart : IsPart (codes "readme.txt")
readme-IsPart =
    long-IsPart (codes "readme.txt") (omega arith) (omega arith) (omega arith) (omega arith)

-- A call that writes its array does not fault.
written :
    (r : Option Buffer) (n : ℕ) (s : CString) → Writes r n s → (r >>= λ out. some (cstr out)) ≢ none
written none n s w e = w
written (some out) n s w e = cc

resolved :
    {Dev : Type 0} (fs : Fs Dev) (ps : List CString)
    → IsParts ps
    → length (render ps) < fs_max_path
    → resolve fs (render ps) ≢ none
unfolding resolve
resolved fs ps v h =
    written _ fs_max_path (render ps)
      (fs_resolve_path_canonical (cstr fs.current_dir) ps (replicate fs_max_path 0) v h refl)

module _ (d : Disk) where
  open d use {Dev}

  -- A call on a canonical path returns and leaves a tree.
  abbrev Done : Option (ℕ × Fs Dev) → Type 0
  Done r = (out : ℕ × Fs Dev) × (r ≡ some out) × IsTree out.1.nodes

  op-Done :
      (fs : Fs Dev) (op : Op) (ps : List CString)
      → target op ≡ render ps
      → IsParts ps
      → length (render ps) < fs_max_path
      → IsSmall op
      → IsTree fs.nodes
      → Done (do_op d fs op)
  op-Done fs op ps e v h small t = returned (do_op d fs op) (do_op-Refines d fs op t small)
    where
      returned : (r : Option (ℕ × Fs Dev)) → Refines op fs r → Done r
      returned none fault =
          absurd (resolved fs ps v h (subst (λ path. resolve fs path ≡ none) e fault))
      returned (some (status, fs')) (s, at, tree, _, _) = ((status, fs'), refl, tree)

  abbrev with_root : Fs Dev → Fs Dev
  with_root fs = record fs { nodes = root_only }

  abbrev pub HasTree : Option (Fs Dev) → Type 0
  HasTree r = (fs' : Fs Dev) × (r ≡ some fs') × IsTree fs'.nodes

  progs : IsParts (codes "progs" ∷ [])
  progs = record { each = (progs-IsPart, tt); depth = omega arith }

  home : IsParts (codes "home" ∷ [])
  home = record { each = (home-IsPart, tt); depth = omega arith }

  readme : IsParts (codes "readme.txt" ∷ codes "home" ∷ [])
  readme = record { each = (readme-IsPart, (home-IsPart, tt)); depth = omega arith }

  default-HasTree :
      (fs : Fs Dev)
      → fs.nodes ≡ replicate fs_max_files zero_node
      → HasTree (create_default_tree d fs)
  unfolding create_default_tree str_copy
  default-HasTree fs blank =
      let ((a, fs1), e1, t1) =
        op-Done (with_root fs) (create_dir (codes "/progs")) (codes "progs" ∷ []) refl progs
          (omega arith) tt root_only-IsTree in
      let ((b, fs2), e2, t2) =
        op-Done fs1 (create_dir (codes "/home")) (codes "home" ∷ []) refl home (omega arith) tt
          t1 in
      let ((c, fs3), e3, t3) =
        op-Done fs2 (create_file (codes "/home/readme.txt"))
          (codes "readme.txt" ∷ codes "home" ∷ []) refl readme (omega arith) tt t2 in
      let ((x, fs4), e4, t4) =
        op-Done fs3 (write_file (codes "/home/readme.txt") (welcome d))
          (codes "readme.txt" ∷ codes "home" ∷ []) refl readme (omega arith) tt t3 in
      rw (blank, e1, e2, e3, e4) (fs4, refl, t4)

  -- With no disk, whatever the static storage held, and an array of at least two bytes for the current
  -- directory, `fs_init` overruns no array and leaves a valid node table.
  pub fs_init-HasTree :
      (fs : Fs Dev)
      → 1 < length fs.current_dir
      → d.disk_present fs.dev ≡ false
      → HasTree (fs_init d fs)
  unfolding fs_init
  fs_init-HasTree fs room no_disk =
      let (dir, e, _) = str_copy_fits fs.current_dir root_path room in
      let (fs', e', t) =
        default-HasTree
          (record fs {
            nodes = replicate fs_max_files zero_node;
            current_dir = dir;
            persistence_enabled = false;
            fs_booting = true;
          })
          refl in
      rw (e, no_disk, e') (record fs' { fs_booting = false }, refl, t)
