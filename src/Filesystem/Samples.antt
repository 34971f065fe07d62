-- ===== src/Filesystem/Samples.antt =====
-- A device in memory, a table with the root alone, and one with a file "a": both are trees.
use pl_dos.Base.{
  ℕ, zero, suc, ◌<◌, ◌≡◌, refl, ap, sym, subst, ◌∙◌, true, false, none, some, List, [], ◌∷◌, get_or,
  set, length, replicate, All-replicate, All-get_or, length-replicate, arith, codes,
}
use mathlib.Core.Bool.{false≢true}
use pl_dos.Strings.{str_compare, CString}
use pl_dos.Filesystem.{
  Fs, Disk, Node, zero_node, is_used, fs_dir, fs_max_files, minus_one, root_path, find_node,
}
use pl_dos.Filesystem.Valid.{IsNode, IsTree, UsedAt, path_at}
use pl_dos.Filesystem.Path.Resolved.{IsCanonical}
use pl_dos.Filesystem.Path.Canonical.{IsParts}
use pl_dos.Filesystem.Valid.Put.{put-IsTree}
use pl_dos.Filesystem.Calls.Filled.{IsPlaced, placed-IsFitting}

-- Sectors kept in a list; reads out of range fail.
abbrev pub disk_in_memory : Disk
disk_in_memory = record {
  Dev = List (List ℕ);
  disk_init = λ dev. dev;
  disk_present = λ dev. true;
  disk_status = λ dev. [];
  disk_read_sector = λ lba dev. (some (get_or dev lba (replicate 512 0)), dev);
  disk_write_sector = λ lba sector dev. (true, set dev lba sector);
}

abbrev pub root : Node
root = record zero_node {
  name = 47 ∷ replicate 31 0;
  path = 47 ∷ replicate 127 0;
  type = fs_dir;
  parent = minus_one;
  used = 1;
}

abbrev pub root_only : List Node
root_only = root ∷ replicate 127 zero_node

abbrev pub booted : Fs (List (List ℕ))
booted = record {
  nodes = root_only;
  current_dir = 47 ∷ replicate 127 0;
  persistence_enabled = true;
  fs_booting = false;
  dev = replicate 1200 (replicate 512 0);
  console = [];
}

zero_node-IsNode : IsNode zero_node
zero_node-IsNode = record {
  name_size = refl;
  name_ends = refl;
  path_size = refl;
  path_ends = refl;
  content_size = length-replicate {A = ℕ} 4096 0;
  size_fits = omega arith;
}

root-IsNode : IsNode root
root-IsNode = record {
  name_size = refl;
  name_ends = refl;
  path_size = refl;
  path_ends = refl;
  content_size = length-replicate {A = ℕ} 4096 0;
  size_fits = omega arith;
}

used_root : (i : ℕ) → i < fs_max_files → UsedAt root_only i → i ≡ 0
used_root zero h u = refl
used_root (suc i) h u = absurd (
    false≢true (
      sym (
        All-get_or (λ n. is_used n ≡ false) (replicate 127 zero_node) i zero_node
          (All-replicate (λ n. is_used n ≡ false) 127 zero_node refl)
          (omega (arith, length-replicate 127 zero_node)))
      ∙ u))

root-IsCanonical : IsCanonical root_path
root-IsCanonical = record {
  parts = [];
  parts_ok = record { each = tt; depth = omega arith };
  spelled = refl;
  short = omega arith;
}

pub root_only-IsTree : IsTree root_only
root_only-IsTree = record {
  count = refl;
  each = (root-IsNode, All-replicate IsNode 127 zero_node zero_node-IsNode);
  root_used = refl;
  root_dir = refl;
  root_at = refl;
  unique = λ i j hi hj ui uj e. used_root i hi ui ∙ sym (used_root j hj uj);
  canonical = λ i h u.
      subst (λ k. IsCanonical (path_at root_only k)) (sym (used_root i h u)) root-IsCanonical;
  parent = λ i pos h u. absurd (omega (arith, used_root i h u));
}

-- The table with an empty file "a" in slot 1.
abbrev pub file_a : Node
file_a = record zero_node {
  name = 97 ∷ replicate 31 0;
  path = 47 ∷ 97 ∷ replicate 126 0;
  parent = 0;
  used = 1;
}

abbrev pub with_a : Fs (List (List ℕ))
with_a = record booted { nodes = set root_only 1 file_a; persistence_enabled = false }

pub a-IsParts : IsParts ((97 ∷ []) ∷ [])
a-IsParts = record {
  each = (
    record {
      no_nul = omega arith;
      no_slash = omega arith;
      non_empty = λ e. absurd (omega (arith, ap length e));
      short = omega arith;
      ne_dot = λ e. absurd (omega (arith, ap first e));
      ne_dot_dot = λ e. absurd (omega (arith, ap length e));
    },
    tt,
  );
  depth = omega arith;
}
  where
    first : CString → ℕ
    first [] = 0
    first (x ∷ xs) = x

file_a-IsNode : IsNode file_a
file_a-IsNode = record {
  name_size = refl;
  name_ends = refl;
  path_size = refl;
  path_ends = refl;
  content_size = length-replicate {A = ℕ} 4096 0;
  size_fits = omega arith;
}

file_a-IsPlaced : IsPlaced file_a 0 (97 ∷ []) []
file_a-IsPlaced = record { ok = file_a-IsNode; name = refl; path = refl; parent_set = refl }

a_missing : find_node root_only (codes "/a") ≡ none
unfolding find_node str_compare
a_missing = refl

root_found : find_node root_only root_path ≡ some 0
unfolding find_node str_compare
root_found = refl

pub with_a-IsTree : IsTree with_a.nodes
with_a-IsTree = put-IsTree root_only 1 file_a root_only-IsTree (omega arith) (
    placed-IsFitting root_only 1 file_a 0 (97 ∷ []) [] root_only-IsTree (omega arith) (omega arith)
      refl a-IsParts (omega arith) a_missing root_found refl file_a-IsPlaced)
