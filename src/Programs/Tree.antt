-- ===== src/Programs/Tree.antt =====
-- The commands that keep the node table a tree: all but move and load.
use pl_dos.Base.{ℕ, ◌≡◌, refl, Bool, true, false, List}
use pl_dos.Strings.{CString}
use pl_dos.Filesystem.{Disk}
use pl_dos.Filesystem.Valid.{IsTree}
use pl_dos.System.{System, M}
use pl_dos.System.Keeps.{After, Keeps}
use pl_dos.Connector.{Request, kernel_connector_request}
use pl_dos.Connector.Request.{user_add, user_remove, user_login, move, write, disk_load}
use pl_dos.Connector.Tree.{HasTree, written-HasTree, request-HasTree}
use pl_dos.Programs.{Main, programs_init}
use pl_dos.Programs.Commands.{arg}
use pl_dos.Programs.Dispatch.{prog_desktop, run_main}
use pl_dos.Programs.Requests.{is_basic}
use pl_dos.Programs.Changes.{
  prog_login-Keeps, prog_useradd-Keeps, prog_userdel-Keeps, prog_write-Keeps, run_main-Keeps,
  programs_init-Keeps,
}

-- A move can leave paths of more components than the resolver follows, and a load takes what the disk
-- holds.
abbrev pub rearranges : Main → Bool
rearranges Main.prog_move = true
rearranges Main.prog_load = true
rearranges p = false

asked :
    (d : Disk) (r : Request) → is_basic r ≡ true → Keeps (HasTree d) (kernel_connector_request d r)
asked d (user_add name admin) b = absurd (cc)
asked d (user_remove name) b = absurd (cc)
asked d (user_login name) b = absurd (cc)
asked d (move src dest) b = absurd (cc)
asked d (write path bytes size) b = absurd (cc)
asked d disk_load b = absurd (cc)
asked d r b = request-HasTree d r refl

-- `programs_init` keeps the tree of the files that it finds.
pub programs_init-HasTree : (d : Disk) → Keeps (HasTree d) (programs_init d)
programs_init-HasTree d = programs_init-Keeps d (HasTree d) (asked d) (written-HasTree d)

run_main-HasTree :
    (d : Disk) (desktop_run : List CString → M d.Dev ℕ) (p : Main) (argv : List CString)
    → rearranges p ≡ false
    → Keeps (HasTree d) (desktop_run argv)
    → Keeps (HasTree d) (run_main d desktop_run p argv)
unfolding run_main prog_desktop
run_main-HasTree d desktop_run Main.prog_desktop argv h desktop = desktop
run_main-HasTree d desktop_run Main.prog_move argv h desktop = absurd (cc)
run_main-HasTree d desktop_run Main.prog_load argv h desktop = absurd (cc)
run_main-HasTree d desktop_run Main.prog_login argv h desktop =
    prog_login-Keeps d (HasTree d) (asked d) argv (request-HasTree d (user_login (arg argv 1)) refl)
run_main-HasTree d desktop_run Main.prog_useradd argv h desktop =
    prog_useradd-Keeps d (HasTree d) (asked d) argv
      (λ admin. request-HasTree d (user_add (arg argv 1) admin) refl)
run_main-HasTree d desktop_run Main.prog_userdel argv h desktop =
    prog_userdel-Keeps d (HasTree d) (asked d) argv
      (request-HasTree d (user_remove (arg argv 1)) refl)
run_main-HasTree d desktop_run Main.prog_write argv h desktop =
    prog_write-Keeps d (HasTree d) (asked d) (written-HasTree d) argv
run_main-HasTree d desktop_run p argv h desktop =
    run_main-Keeps d (HasTree d) (asked d) desktop_run argv p (λ e. absurd (cc))

-- Every command but move and load that overruns no array leaves a valid node table valid, if the
-- desktop, which is not part of the repository, does.
pub run_main-IsTree :
    (d : Disk) (desktop_run : List CString → M d.Dev ℕ) (p : Main) (argv : List CString)
    (s : System d.Dev)
    → rearranges p ≡ false
    → Keeps (HasTree d) (desktop_run argv)
    → IsTree s.fs.nodes
    → After (HasTree d) (run_main d desktop_run p argv s)
run_main-IsTree d desktop_run p argv s h desktop v =
    run_main-HasTree d desktop_run p argv h desktop s v
