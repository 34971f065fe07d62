-- ===== src/Programs/Dispatch.antt =====
-- The call `program->main(argc, argv)`.
use pl_dos.Base.{ℕ, List}
use pl_dos.Strings.{CString}
use pl_dos.Filesystem.{Disk}
use pl_dos.System.{M}
use pl_dos.Programs.{Main}
use pl_dos.Programs.Commands
use pl_dos.Programs.Accounts

-- `desktop_run` is not part of the repository: it may do anything to the state.
module _ (d : Disk) (desktop_run : List CString → M d.Dev ℕ) where
  open d use {Dev}

  -- progs/desktop.c
  unfoldable pub prog_desktop : List CString → M Dev ℕ
  prog_desktop argv = desktop_run argv

  unfoldable pub run_main : Main → List CString → M Dev ℕ
  run_main Main.prog_about = Commands.prog_about d
  run_main Main.prog_cat = Commands.prog_cat d
  run_main Main.prog_cd = Commands.prog_cd d
  run_main Main.prog_clear = Commands.prog_clear d
  run_main Main.prog_copy = Commands.prog_copy d
  run_main Main.prog_del = Commands.prog_del d
  run_main Main.prog_desktop = prog_desktop
  run_main Main.prog_disk = Commands.prog_disk d
  run_main Main.prog_echo = Commands.prog_echo d
  run_main Main.prog_help = Commands.prog_help d
  run_main Main.prog_initdisk = Commands.prog_initdisk d
  run_main Main.prog_load = Commands.prog_load d
  run_main Main.prog_ls = Commands.prog_ls d
  run_main Main.prog_login = Accounts.prog_login d
  run_main Main.prog_logout = Accounts.prog_logout d
  run_main Main.prog_mkdir = Commands.prog_mkdir d
  run_main Main.prog_move = Commands.prog_move d
  run_main Main.prog_pwd = Commands.prog_pwd d
  run_main Main.prog_save = Commands.prog_save d
  run_main Main.prog_touch = Commands.prog_touch d
  run_main Main.prog_useradd = Accounts.prog_useradd d
  run_main Main.prog_userdel = Accounts.prog_userdel d
  run_main Main.prog_users = Accounts.prog_users d
  run_main Main.prog_whoami = Accounts.prog_whoami d
  run_main Main.prog_write = Commands.prog_write d
