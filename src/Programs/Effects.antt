-- ===== src/Programs/Effects.antt =====
-- The commands touch, mkdir and del of progs/ as steps of the abstract filesystem.
use pl_dos.Base.{
  ℕ, ◌≡◌, refl, ◌∙◌, false, Option, none, some, List, [], ◌∷◌, length, ltb, codes, arith,
}
use pl_dos.Strings.{CString}
use pl_dos.Filesystem.{Fs, Disk}
use pl_dos.Filesystem.Valid.{IsTree}
use pl_dos.Filesystem.Calls.{resolve}
use pl_dos.Filesystem.Files.Read.{resolve-same_dir}
use pl_dos.Filesystem.View.Abstract.{Op, target, AbstractStep, Refines}
use pl_dos.Filesystem.View.Abstract.Op.{create_file, create_dir, delete}
use pl_dos.Filesystem.View.Refines.{do_op-Refines}
use pl_dos.System.{System, M, printed}
use pl_dos.Connector.{kernel_connector_request}
use pl_dos.Programs.{Main}
use pl_dos.Programs.Commands.{prog_touch, prog_mkdir, prog_del}
use pl_dos.Programs.Dispatch.{run_main}

-- The commands, with their names, their entries and what each does to the file named behind it.
pub data Verb : Type 0 where
  touch mkdir del : Verb

abbrev pub word : Verb → CString
word touch = codes "touch"
word mkdir = codes "mkdir"
word del = codes "del"

abbrev pub entry : Verb → Main
entry touch = Main.prog_touch
entry mkdir = Main.prog_mkdir
entry del = Main.prog_del

abbrev pub op_of : Verb → CString → Op
op_of touch path = create_file path
op_of mkdir path = create_dir path
op_of del path = delete path

module _ {Dev : Type 0} where
  -- What the command does: a fault in the resolution of its path, or a step of the abstract filesystem
  -- that answers its status and leaves the users and the keyboard alone.
  abbrev pub Effect : Op → System Dev → ℕ → System Dev → Type 0
  Effect op s status s' =
      (p : CString) × (resolve s.fs (target op) ≡ some p)
      × IsTree s'.fs.nodes
      × (s'.fs.current_dir ≡ s.fs.current_dir)
      × AbstractStep op p s.fs.nodes status s'.fs.nodes
      × (s'.users ≡ s.users)
      × (s'.keys ≡ s.keys)

  abbrev pub Effects : Op → System Dev → Option (ℕ × System Dev) → Type 0
  Effects op s none = resolve s.fs (target op) ≡ none
  Effects op s (some (status, s')) = Effect op s status s'

  -- A call of the filesystem on behalf of a program.
  pub called-Effects :
      (op : Op) (s : System Dev) (r : Option (ℕ × Fs Dev))
      → Refines op (record s.fs { console = [] }) r
      → Effects op s (elim r [ none ↦ none | some (status, fs) ↦ some (status, printed s fs) ])
  called-Effects op s none fault =
      resolve-same_dir (record s.fs { console = [] }) s.fs (target op) refl ∙ fault
  called-Effects op s (some (status, fs)) (p, e, t, dir, step) = (
    p,
    resolve-same_dir (record s.fs { console = [] }) s.fs (target op) refl ∙ e,
    t,
    dir,
    step,
    refl,
    refl,
  )

-- On a valid node table touch, mkdir and del, called with a path, overrun an array while the path is
-- resolved, or do to the files what the abstract filesystem allows, with its status, and leave the
-- users and the keyboard alone.
pub run_main-Effects :
    (d : Disk) (desktop_run : List CString → M d.Dev ℕ) (v : Verb) (name path : CString)
    (args : List CString) (s : System d.Dev)
    → IsTree s.fs.nodes
    → Effects (op_of v path) s (run_main d desktop_run (entry v) (name ∷ path ∷ args) s)
unfolding run_main prog_touch prog_mkdir prog_del kernel_connector_request
run_main-Effects d desktop_run touch name path args s v =
    let enough : ltb (length (name ∷ path ∷ args)) 2 ≡ false = ground arith in
    rw enough (
      called-Effects (create_file path) s _
        (do_op-Refines d (record s.fs { console = [] }) (create_file path) v tt))
run_main-Effects d desktop_run mkdir name path args s v =
    let enough : ltb (length (name ∷ path ∷ args)) 2 ≡ false = ground arith in
    rw enough (
      called-Effects (create_dir path) s _
        (do_op-Refines d (record s.fs { console = [] }) (create_dir path) v tt))
run_main-Effects d desktop_run del name path args s v =
    let enough : ltb (length (name ∷ path ∷ args)) 2 ≡ false = ground arith in
    rw enough (
      called-Effects (delete path) s _
        (do_op-Refines d (record s.fs { console = [] }) (delete path) v tt))
