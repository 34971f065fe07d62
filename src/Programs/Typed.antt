-- ===== src/Programs/Typed.antt =====
-- Command lines of touch, mkdir, del and write, with their words and what each does to the files.
use pl_dos.Base.{ℕ, ◌+◌, ◌<◌, ◌≡◌, Option, some, List, ◌∷◌, length, All, codes}
use pl_dos.Strings.{CString, NoNul}
use pl_dos.Filesystem.{Disk}
use pl_dos.Filesystem.Valid.{IsTree}
use pl_dos.System.{System, M}
use pl_dos.Programs.{Main}
use pl_dos.Programs.Commands.{kc_fs_max_file_size}
use pl_dos.Programs.Dispatch.{run_main}
use pl_dos.Programs.Effects.{Verb, word, entry, op_of, Effects, run_main-Effects}
use pl_dos.Programs.Line.{spaced, line_of}
use pl_dos.Programs.Written.{LineWritten}
use pl_dos.Programs.Writing.{prog_write-LineWritten}

-- touch, mkdir or del with a path, and perhaps more words; or write with a path, a word and perhaps more.
pub data Command : Type 0 where
  change : Verb → CString → List CString → Command
  write : CString → CString → List CString → Command

abbrev pub words : Command → List CString
words (change v path args) = word v ∷ path ∷ args
words (write path a args) = codes "write" ∷ path ∷ a ∷ args

abbrev pub main_of : Command → Main
main_of (change v path args) = entry v
main_of (write path a args) = Main.prog_write

-- The line that write makes fits its array.
abbrev pub Fits : Command → Type 0
Fits (change v path args) = Unit {0}
Fits (write path a args) =
    All NoNul (a ∷ args) × (length (spaced (a ∷ args)) + 1 < kc_fs_max_file_size)

-- What the command does: a fault in the resolution of its path, or its effect on the files.
abbrev pub Does : {Dev : Type 0} → Command → System Dev → Option (ℕ × System Dev) → Type 0
Does (change v path args) s r = Effects (op_of v path) s r
Does (write path a args) s r = LineWritten path (line_of (a ∷ args)) s r

pub run_main-Does :
    (d : Disk) (desktop_run : List CString → M d.Dev ℕ) (c : Command) (s : System d.Dev)
    → Fits c
    → IsTree s.fs.nodes
    → Does c s (run_main d desktop_run (main_of c) (words c) s)
unfolding run_main
run_main-Does d desktop_run (change v path args) s h t =
    run_main-Effects d desktop_run v (word v) path args s t
run_main-Does d desktop_run (write path a args) s h t =
    prog_write-LineWritten d (codes "write") path a args s t h.0 h.1

-- The state behind a command: its node table is valid, and the keyboard is as it was.
pub Does-IsTree :
    {Dev : Type 0} (c : Command) (s : System Dev) (status : ℕ) (s' : System Dev)
    → Does c s (some (status, s'))
    → IsTree s'.fs.nodes
Does-IsTree (change v path args) s status s' h = h.2
Does-IsTree (write path a args) s status s' h = h.2

pub Does-keys :
    {Dev : Type 0} (c : Command) (s : System Dev) (status : ℕ) (s' : System Dev)
    → Does c s (some (status, s'))
    → s'.keys ≡ s.keys
Does-keys (change v path args) s status s' h = h.6
Does-keys (write path a args) s status s' h = h.5
