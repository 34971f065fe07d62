-- ===== src/Filesystem/Tests.antt =====
-- The theorems about kernel/filesystem.c on the sample tables.
use pl_dos.Base.{
  ℕ, ◌+◌, ◌≡◌, refl, none, false, true, some, List, [], ◌∷◌, set, replicate, arith, codes,
}
use pl_dos.Memory.{kmemcpy}
use pl_dos.Filesystem.Path.{
  fs_resolve_path, split_raw, raw_path, or_current, add_slash, skip_slashes, take_part, join_parts,
  push_part,
}
use pl_dos.Strings.{str_compare, str_copy_n, str_concat}
use pl_dos.Filesystem.{Fs, Disk, node_at, fs_dir, fs_file, find_node}
use pl_dos.Filesystem.Storage.{persist_if_enabled}
use pl_dos.Filesystem.Storage.Saving.{Persists, persist-Persists}
use pl_dos.Filesystem.Calls.{resolve, finish, fs_create_file, fs_create_dir, fs_delete}
use pl_dos.Filesystem.Calls.Create.{CreatesAt, fs_create_file-CreatesAt, fs_create_dir-CreatesAt}
use pl_dos.Filesystem.Calls.Delete.{DeletesAt, fs_delete-DeletesAt}
use pl_dos.Filesystem.Files.{file_index, only_file, write_at, fs_write_file, fs_append_file}
use pl_dos.Filesystem.Files.Write.{
  WritesAt, overwrite, fs_write_file-WritesAt, fs_append_file-WritesAt,
}
use pl_dos.Filesystem.History.{KeepsTree, run, run-KeepsTree}
use pl_dos.Filesystem.History.Call.{
  create_dir, create_file, change_dir, write_file, append_file, copy, delete,
}
use pl_dos.Filesystem.Tree.{fs_init}
use pl_dos.Filesystem.Startup.{HasTree, fs_init-HasTree}
use pl_dos.Filesystem.Samples.{
  disk_in_memory, root_only, root_only-IsTree, booted, file_a, with_a, with_a-IsTree,
}

create_file_example :
    CreatesAt disk_in_memory booted fs_file
      (codes "File already exists")
      (codes "a")
      (fs_create_file disk_in_memory booted (codes "a"))
create_file_example = fs_create_file-CreatesAt disk_in_memory booted (codes "a") root_only-IsTree

create_dir_example :
    CreatesAt disk_in_memory booted fs_dir
      (codes "Directory already exists")
      (codes "/a")
      (fs_create_dir disk_in_memory booted (codes "/a"))
create_dir_example = fs_create_dir-CreatesAt disk_in_memory booted (codes "/a") root_only-IsTree

history_example : KeepsTree (
    run disk_in_memory booted (
      create_dir (codes "a")
      ∷ change_dir (codes "a")
      ∷ create_file (codes "b")
      ∷ write_file (codes "b") (1 ∷ 2 ∷ [])
      ∷ append_file (codes "b") (3 ∷ [])
      ∷ copy (codes "b") (codes "../c")
      ∷ delete (codes "/a/b")
      ∷ []))
history_example =
    run-KeepsTree disk_in_memory booted
      (create_dir (codes "a")
        ∷ change_dir (codes "a")
        ∷ create_file (codes "b")
        ∷ write_file (codes "b") (1 ∷ 2 ∷ [])
        ∷ append_file (codes "b") (3 ∷ [])
        ∷ copy (codes "b") (codes "../c")
        ∷ delete (codes "/a/b")
        ∷ [])
      root_only-IsTree

delete_example :
    DeletesAt disk_in_memory with_a (codes "a") (fs_delete disk_in_memory with_a (codes "a"))
delete_example = fs_delete-DeletesAt disk_in_memory with_a (codes "a") with_a-IsTree

write_example :
    WritesAt disk_in_memory with_a
      (codes "a")
      (λ i. overwrite (node_at with_a.nodes i).content 0 (1 ∷ 2 ∷ []))
      (λ i. 2)
      (fs_write_file disk_in_memory with_a (codes "a") (1 ∷ 2 ∷ 3 ∷ []) 2)
write_example =
    fs_write_file-WritesAt disk_in_memory with_a (codes "a") (1 ∷ 2 ∷ 3 ∷ []) 2 with_a-IsTree
      (omega arith)

append_example :
    WritesAt disk_in_memory with_a
      (codes "a")
      (λ i. overwrite (node_at with_a.nodes i).content (node_at with_a.nodes i).size (1 ∷ 2 ∷ []))
      (λ i. (node_at with_a.nodes i).size + 2)
      (fs_append_file disk_in_memory with_a (codes "a") (1 ∷ 2 ∷ []) 2)
append_example =
    fs_append_file-WritesAt disk_in_memory with_a (codes "a") (1 ∷ 2 ∷ []) 2 with_a-IsTree
      (omega arith) (omega arith)

abbrev written : Fs (List (List ℕ))
written = record with_a {
  nodes = set root_only 1 (record file_a { size = 2; content = 1 ∷ 2 ∷ replicate 4094 0 });
}

a_resolved : resolve with_a (codes "a") ≡ some (codes "/a")
unfolding resolve fs_resolve_path raw_path or_current str_copy_n add_slash str_compare str_concat
    split_raw skip_slashes take_part join_parts push_part
a_resolved = refl

a_index : file_index with_a.nodes (codes "/a") ≡ some 1
unfolding file_index only_file find_node str_compare
a_index = refl

a_put : write_at disk_in_memory with_a (1 ∷ 2 ∷ 3 ∷ []) 2 (some 1) ≡ some (0, written)
unfolding write_at finish persist_if_enabled kmemcpy
a_put = refl

a_written : fs_write_file disk_in_memory with_a (codes "a") (1 ∷ 2 ∷ 3 ∷ []) 2 ≡ some (0, written)
unfolding fs_write_file
a_written = rw (a_resolved, a_index, a_put)

saved_example :
    (fs' : Fs (List (List ℕ))) × (persist_if_enabled disk_in_memory booted ≡ some fs')
    × Persists disk_in_memory booted fs'
saved_example = persist-Persists disk_in_memory booted

-- A machine with no disk.
abbrev no_disk : Disk
no_disk = record {
  Dev = ℕ;
  disk_init = λ dev. dev;
  disk_present = λ dev. false;
  disk_status = λ dev. [];
  disk_read_sector = λ lba dev. (none, dev);
  disk_write_sector = λ lba sector dev. (false, dev);
}

abbrev blank_storage : Fs ℕ
blank_storage = record {
  nodes = [];
  current_dir = replicate 128 7;
  persistence_enabled = true;
  fs_booting = false;
  dev = 0;
  console = [];
}

startup_example : HasTree no_disk (fs_init no_disk blank_storage)
startup_example = fs_init-HasTree no_disk blank_storage (omega arith) refl
