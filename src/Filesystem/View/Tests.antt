-- ===== src/Filesystem/View/Tests.antt =====
-- The refinement theorems on the table with the root alone.
use pl_dos.Base.{List, [], ◌∷◌, arith, codes}
use pl_dos.Filesystem.Calls.{resolve}
use pl_dos.Filesystem.Samples.{
  disk_in_memory, booted, root_only, root_only-IsTree, with_a, with_a-IsTree,
}
use pl_dos.Filesystem.Files.{fs_copy}
use pl_dos.Filesystem.Tree.{fs_move}
use pl_dos.Filesystem.Tree.Moves.{MovesTo, fs_move-MovesTo}
use pl_dos.Filesystem.View.Copies.{CopiesTo, fs_copy-CopiesTo}
use pl_dos.Filesystem.View.Abstract.{Op}
use pl_dos.Filesystem.View.Abstract.Op.{create_file, create_dir, delete, write_file, append_file}
use pl_dos.Filesystem.View.Refines.{RunRefines, do_ops, do_ops-AbstractRun}

abbrev some_ops : List Op
some_ops =
    create_dir (codes "d")
    ∷ create_file (codes "d/a")
    ∷ write_file (codes "d/a") (1 ∷ 2 ∷ [])
    ∷ append_file (codes "d/a") (3 ∷ [])
    ∷ delete (codes "d")
    ∷ []

ops_example : RunRefines (resolve booted) some_ops root_only (do_ops disk_in_memory booted some_ops)
ops_example =
    do_ops-AbstractRun disk_in_memory booted some_ops root_only-IsTree
      (tt, (tt, (tt, (omega arith, (tt, tt)))))

move_example :
    MovesTo disk_in_memory with_a
      (codes "a")
      (codes "/b")
      (fs_move disk_in_memory with_a (codes "a") (codes "/b"))
move_example = fs_move-MovesTo disk_in_memory with_a (codes "a") (codes "/b") with_a-IsTree

copy_example :
    CopiesTo disk_in_memory with_a
      (codes "a")
      (codes "/b")
      (fs_copy disk_in_memory with_a (codes "a") (codes "/b"))
copy_example = fs_copy-CopiesTo disk_in_memory with_a (codes "a") (codes "/b") with_a-IsTree
