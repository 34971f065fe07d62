-- ===== src/Programs/Tests.antt =====
-- The theorems about the commands on a guest's session.
use pl_dos.Base.{ℕ, refl, All, arith, false, List, [], ◌∷◌, ◌++◌, replicate, codes}
use pl_dos.Strings.{CString, NoNul}
use pl_dos.Users.{User, users_current_is_admin}
use pl_dos.Filesystem.Samples.{disk_in_memory, booted, root_only-IsTree}
use pl_dos.System.{System, M, return}
use pl_dos.System.Keeps.{After}
use pl_dos.Programs.{Main}
use pl_dos.Programs.Dispatch.{run_main}
use pl_dos.Programs.Commands.{prog_write}
use pl_dos.Programs.Shown.{ShownBack, prog_cat-prog_write}
use pl_dos.Programs.Written.{LineWritten}
use pl_dos.Programs.Writing.{prog_write-LineWritten}
use pl_dos.Connector.Tree.{HasTree}
use pl_dos.Programs.Tree.{run_main-IsTree}
use pl_dos.Programs.Rights.{HasUsers, run_main_guest}

abbrev user_named : CString → ℕ → User
user_named name admin = record { name = name; active = 1; admin = admin }

abbrev two_users : List User
two_users =
    user_named (codes "root" ++ replicate 20 0) 1
    ∷ user_named (codes "guest" ++ replicate 19 0) 0
    ∷ []

-- The guest is logged in.
abbrev guest_session : System (List (List ℕ))
guest_session = record {
  terminal = record {
    scrollback = [];
    terminal_line = 0;
    terminal_column = 0;
    viewport_top = 0;
    terminal_color = 7;
    extended_scancode = false;
    vga_memory = [];
    cursor = 0;
  };
  heap_used = 0;
  users = record { users = two_users; current_user = 1 };
  fs = booted;
  keys = [];
}

abbrev no_desktop : List CString → M (List (List ℕ)) ℕ
no_desktop argv = return 0

abbrev useradd_mallory : List CString
useradd_mallory = codes "useradd" ∷ codes "mallory" ∷ codes "admin" ∷ []

run_main_example :
    After
      (HasUsers disk_in_memory two_users)
      (run_main disk_in_memory no_desktop Main.prog_useradd useradd_mallory guest_session)
unfolding users_current_is_admin
run_main_example =
    run_main_guest disk_in_memory no_desktop Main.prog_useradd useradd_mallory guest_session refl
      (λ s e. e)

abbrev write_a : List CString
write_a = codes "write" ∷ codes "a" ∷ codes "hi" ∷ []

write_program_example :
    After
      (HasTree disk_in_memory)
      (run_main disk_in_memory no_desktop Main.prog_write write_a guest_session)
write_program_example =
    run_main-IsTree disk_in_memory no_desktop Main.prog_write write_a guest_session refl (λ s v. v)
      root_only-IsTree

abbrev hello_world : List CString
hello_world = codes "hello" ∷ codes "world" ∷ []

no_nul : All NoNul hello_world
no_nul = (
  (omega arith, (omega arith, (omega arith, (omega arith, (omega arith, tt))))),
  ((omega arith, (omega arith, (omega arith, (omega arith, (omega arith, tt))))), tt),
)

prog_write_example :
    LineWritten
      (codes "a")
      (codes "hello world" ++ 10 ∷ [])
      guest_session
      (prog_write disk_in_memory (codes "write" ∷ codes "a" ∷ hello_world) guest_session)
prog_write_example =
    prog_write-LineWritten disk_in_memory (codes "write") (codes "a") (codes "hello")
      (codes "world" ∷ []) guest_session root_only-IsTree no_nul (omega arith)

prog_cat_example :
    ShownBack disk_in_memory
      (codes "a")
      (codes "cat")
      []
      (codes "hello world" ++ 10 ∷ [])
      guest_session
      (prog_write disk_in_memory (codes "write" ∷ codes "a" ∷ hello_world) guest_session)
prog_cat_example =
    prog_cat-prog_write disk_in_memory (codes "write") (codes "a") (codes "cat") (codes "hello")
      (codes "world" ∷ []) [] guest_session root_only-IsTree no_nul (omega arith)
