-- ===== src/Programs.antt =====
-- progs/programs.c: the registry of the commands, and the files that name them.
pub mod Accounts
pub mod Cat
pub mod Changes
pub mod Commands
pub mod Dispatch
pub mod Effects
pub mod Line
pub mod Requests
pub mod Rights
pub mod Shown
pub mod Sound
pub mod Tree
pub mod Typed
pub mod Writing
pub mod Written
mod Tests
use pl_dos.Base.{
  ℕ, Bool, true, false, Option, none, some, List, [], ◌∷◌, length, replicate, if◌then◌else◌, codes,
}
use pl_dos.Strings.{CString, cstr, str_eq}
use pl_dos.Filesystem.{Disk}
use pl_dos.System.{M, return, ◌>>=◌, ◌>>◌}
use pl_dos.Connector.Calls.{kc_strcpy, kc_strcat, kc_strlen, kc_fs_exists, kc_fs_touch, kc_fs_write}

-- The functions `prog_...` that the table names.
pub data Main : Type 0 where
  prog_about : Main
  prog_cat : Main
  prog_cd : Main
  prog_clear : Main
  prog_copy : Main
  prog_del : Main
  prog_desktop : Main
  prog_disk : Main
  prog_echo : Main
  prog_help : Main
  prog_initdisk : Main
  prog_load : Main
  prog_ls : Main
  prog_login : Main
  prog_logout : Main
  prog_mkdir : Main
  prog_move : Main
  prog_pwd : Main
  prog_save : Main
  prog_touch : Main
  prog_useradd : Main
  prog_userdel : Main
  prog_users : Main
  prog_whoami : Main
  prog_write : Main

-- `program_t`
pub record Program : Type 0 where
  pub name : CString
  pub help : CString
  pub main : Main
  pub visible : Bool

abbrev program : CString → CString → Main → Bool → Program
program name help main visible = record { name = name; help = help; main = main; visible = visible }

abbrev pub programs : List Program
programs =
    program (codes "about") (codes "show system information") Main.prog_about true
    ∷ program (codes "cat") (codes "view a file") Main.prog_cat true
    ∷ program (codes "cd") (codes "change directory") Main.prog_cd true
    ∷ program (codes "clear") (codes "clear the terminal") Main.prog_clear true
    ∷ program (codes "cls") (codes "clear the terminal") Main.prog_clear true
    ∷ program (codes "copy") (codes "copy a file") Main.prog_copy true
    ∷ program (codes "cp") (codes "copy a file") Main.prog_copy true
    ∷ program (codes "del") (codes "delete a file or empty folder") Main.prog_del true
    ∷ program (codes "rm") (codes "delete a file or empty folder") Main.prog_del true
    ∷ program (codes "desktop") (codes "developer desktop experiment") Main.prog_desktop false
    ∷ program (codes "disk") (codes "show disk persistence status") Main.prog_disk true
    ∷ program (codes "echo") (codes "print text") Main.prog_echo true
    ∷ program (codes "help") (codes "list commands") Main.prog_help true
    ∷ program (codes "initdisk") (codes "initialize persistent storage") Main.prog_initdisk true
    ∷ program (codes "load") (codes "load filesystem from disk") Main.prog_load true
    ∷ program (codes "ls") (codes "list a directory") Main.prog_ls true
    ∷ program (codes "dir") (codes "list a directory") Main.prog_ls true
    ∷ program (codes "login") (codes "switch to a user") Main.prog_login true
    ∷ program (codes "logout") (codes "return to guest") Main.prog_logout true
    ∷ program (codes "mkdir") (codes "create a folder") Main.prog_mkdir true
    ∷ program (codes "md") (codes "create a folder") Main.prog_mkdir true
    ∷ program (codes "move") (codes "move or rename a file/folder") Main.prog_move true
    ∷ program (codes "mv") (codes "move or rename a file/folder") Main.prog_move true
    ∷ program (codes "pwd") (codes "print working directory") Main.prog_pwd true
    ∷ program (codes "save") (codes "save filesystem to disk") Main.prog_save true
    ∷ program (codes "touch") (codes "create an empty file") Main.prog_touch true
    ∷ program (codes "mkf") (codes "create an empty file") Main.prog_touch true
    ∷ program (codes "useradd") (codes "add a user") Main.prog_useradd true
    ∷ program (codes "userdel") (codes "delete a user") Main.prog_userdel true
    ∷ program (codes "users") (codes "list users") Main.prog_users true
    ∷ program (codes "whoami") (codes "print current user") Main.prog_whoami true
    ∷ program (codes "write") (codes "write text to a file") Main.prog_write true
    ∷ program (codes "wri") (codes "write text to a file") Main.prog_write true
    ∷ []

unfoldable pub find_in : List Program → CString → Option Program
find_in [] name = none
find_in (p ∷ ps) name = if str_eq p.name name then some p else find_in ps name

unfoldable pub programs_find : CString → Option Program
programs_find name = find_in programs name

-- The table and its length.
unfoldable pub programs_all : ℕ × List Program
programs_all = (length programs, programs)

module _ (d : Disk) where
  open d use {Dev}

  -- What follows the test `!kc_fs_exists(path)`; the statuses are not looked at.
  unfoldable pub add_entry : CString → CString → Bool → M Dev (Unit {0})
  add_entry path help true = return tt
  add_entry path help false = do
    kc_fs_touch d path
    size ← kc_strlen d help
    kc_fs_write d path help size
    return tt

  -- One round of the loop of `programs_init`, for an entry that is shown.
  unfoldable pub enter_program : Program → M Dev (Unit {0})
  enter_program p = do
    path ← kc_strcpy d (replicate 128 0) (codes "/progs/")
    path ← kc_strcat d path p.name
    found ← kc_fs_exists d (cstr path)
    add_entry (cstr path) p.help found

  unfoldable pub add_entries : List Program → M Dev (Unit {0})
  add_entries [] = return tt
  add_entries (p ∷ ps) = (if p.visible then enter_program p else return tt) >> add_entries ps

  unfoldable pub programs_init : M Dev (Unit {0})
  programs_init = add_entries programs
