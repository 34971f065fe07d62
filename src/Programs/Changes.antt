-- ===== src/Programs/Changes.antt =====
-- The commands that make other requests than the basic ones: each keeps what these requests keep. And
-- all commands together.
use pl_dos.Base.{ℕ, Bool, true, false, List, [], ◌∷◌, ◌≡◌, ◌≤◌, refl, length, drop, ◌==◌}
use pl_dos.Strings.{CString, Buffer, cstr, str_len}
use pl_dos.Filesystem.{Disk}
use pl_dos.System.{System, M, return, ◌>>=◌, ◌>>◌}
use pl_dos.Connector.{Request, kernel_connector_request}
use pl_dos.Connector.Request.{user_add, user_remove, user_login, move, write, disk_load}
use pl_dos.Programs.{Main, Program, programs, add_entry, enter_program, add_entries, programs_init}
use pl_dos.Programs.Commands.{
  arg, complain, report, join_args, write_args, prog_load, prog_move, prog_write,
}
use pl_dos.Programs.Accounts.{
  report_add, add_named, report_remove, prog_login, prog_useradd, prog_userdel,
}
use pl_dos.Programs.Dispatch.{run_main}
use pl_dos.System.Keeps.{Keeps, Keeps-return, Keeps-bind}
use pl_dos.Base.{arith, Bool-cases, inl, inr}
use pl_dos.Programs.Requests.{keeping, is_basic}
use pl_dos.Programs.Requests

str_len_le : (s : CString) → str_len s ≤ length s
unfolding str_len
str_len_le [] = omega arith
str_len_le (c ∷ s) = omega (arith, str_len_le s)

str_len-cstr : (b : Buffer) → str_len (cstr b) ≤ length b
unfolding str_len
str_len-cstr [] = omega arith
str_len-cstr (c ∷ b) = elim (Bool-cases (c == 0)) [
  | inl e ↦ rw e (omega arith)
  | inr e ↦ rw e (omega (arith, str_len-cstr b))
]

-- The commands that make other requests.
abbrev pub is_special : Main → Bool
is_special Main.prog_desktop = true
is_special Main.prog_load = true
is_special Main.prog_login = true
is_special Main.prog_move = true
is_special Main.prog_useradd = true
is_special Main.prog_userdel = true
is_special Main.prog_write = true
is_special p = false

module _ (d : Disk) (P : System d.Dev → Type 0)
    (basic : (r : Request) → is_basic r ≡ true → Keeps P (kernel_connector_request d r)) where
  open d use {Dev}

  complain_kept : (text : CString) → Keeps P (complain d text)
  complain_kept = Requests.complain-Keeps d P basic

  report_kept : (bad good : CString) (status : ℕ) → Keeps P (report d bad good status)
  report_kept = Requests.report-Keeps d P basic

  report_add_kept : (rc : ℕ) → Keeps P (report_add d rc)
  report_add_kept = Requests.report_add-Keeps d P basic

  report_remove_kept : (rc : ℕ) → Keeps P (report_remove d rc)
  report_remove_kept = Requests.report_remove-Keeps d P basic

  join_args_kept : (text : Buffer) (args : List CString) → Keeps P (join_args d text args)
  join_args_kept = Requests.join_args-Keeps d P basic

  pub prog_login-Keeps :
      (argv : List CString)
      → Keeps P (kernel_connector_request d (user_login (arg argv 1)))
      → Keeps P (prog_login d argv)
  unfolding prog_login
  prog_login-Keeps argv logs = search (keeping, complain_kept, logs)

  pub prog_move-Keeps :
      (argv : List CString)
      → Keeps P (kernel_connector_request d (move (arg argv 1) (arg argv 2)))
      → Keeps P (prog_move d argv)
  unfolding prog_move
  prog_move-Keeps argv moves = search (keeping, complain_kept, moves)

  pub prog_load-Keeps :
      (argv : List CString)
      → Keeps P (kernel_connector_request d disk_load)
      → Keeps P (prog_load d argv)
  unfolding prog_load
  prog_load-Keeps argv loads = search (keeping, report_kept, loads)

  add_named-Keeps :
      (argv : List CString)
      → ((admin : ℕ) → Keeps P (kernel_connector_request d (user_add (arg argv 1) admin)))
      → Keeps P (add_named d argv)
  unfolding add_named
  add_named-Keeps argv adds = search (keeping, basic, report_add_kept, adds) depth 9

  pub prog_useradd-Keeps :
      (argv : List CString)
      → ((admin : ℕ) → Keeps P (kernel_connector_request d (user_add (arg argv 1) admin)))
      → Keeps P (prog_useradd d argv)
  unfolding prog_useradd
  prog_useradd-Keeps argv adds = search (keeping, basic, complain_kept, add_named-Keeps argv adds)

  pub prog_userdel-Keeps :
      (argv : List CString)
      → Keeps P (kernel_connector_request d (user_remove (arg argv 1)))
      → Keeps P (prog_userdel d argv)
  unfolding prog_userdel
  prog_userdel-Keeps argv removes =
      search (keeping, basic, complain_kept, report_remove_kept, removes) depth 9

  module _
      (writes : (path : CString) (bytes : List ℕ) (size : ℕ)
        → size ≤ length bytes
        → Keeps P (kernel_connector_request d (write path bytes size))) where
    write_text-Keeps :
        (path : CString) (text : Buffer)
        → Keeps P (
            kernel_connector_request d (Request.strlen (cstr text)) >>= λ size.
            kernel_connector_request d (write path text size))
    unfolding kernel_connector_request
    write_text-Keeps path text = writes path text _ (str_len-cstr text)

    write_args-Keeps : (argv : List CString) → Keeps P (write_args d argv)
    unfolding write_args
    write_args-Keeps argv = Keeps-bind P _ _ (join_args_kept _ (drop 2 argv)) (λ text.
        Keeps-bind P _ _ (basic (Request.strcat text (10 ∷ [])) refl)
          (write_text-Keeps (arg argv 1)))

    pub prog_write-Keeps : (argv : List CString) → Keeps P (prog_write d argv)
    unfolding prog_write
    prog_write-Keeps argv = search (keeping, basic, complain_kept, write_args-Keeps) depth 9

    entry_text-Keeps :
        (path help : CString)
        → Keeps P (
            kernel_connector_request d (Request.strlen help) >>= λ size.
            kernel_connector_request d (write path help size) >> return tt)
    unfolding kernel_connector_request
    entry_text-Keeps path help =
        Keeps-bind P _ _ (writes path help _ (omega (arith, str_len_le help)))
          (λ rc. Keeps-return P tt)

    -- The entries that `programs_init` makes.
    add_entry-Keeps : (path help : CString) (found : Bool) → Keeps P (add_entry d path help found)
    unfolding add_entry
    add_entry-Keeps path help true = Keeps-return P tt
    add_entry-Keeps path help false =
        Keeps-bind P _ _ (basic (Request.touch path) refl) (λ rc. entry_text-Keeps path help)

    enter_program-Keeps : (p : Program) → Keeps P (enter_program d p)
    unfolding enter_program
    enter_program-Keeps p = search (keeping, basic, add_entry-Keeps) depth 9

    add_entries-Keeps : (ps : List Program) → Keeps P (add_entries d ps)
    unfolding add_entries
    add_entries-Keeps [] = Keeps-return P tt
    add_entries-Keeps (p ∷ ps) = search (keeping, enter_program-Keeps, add_entries-Keeps ps)

    pub programs_init-Keeps : Keeps P (programs_init d)
    unfolding programs_init
    programs_init-Keeps = add_entries-Keeps programs

  module _ (desktop_run : List CString → M Dev ℕ) (argv : List CString) where
    pub run_main-Keeps :
        (p : Main)
        → (is_special p ≡ true → Keeps P (run_main d desktop_run p argv))
        → Keeps P (run_main d desktop_run p argv)
    unfolding run_main
    run_main-Keeps Main.prog_about special = Requests.prog_about-Keeps d P basic argv
    run_main-Keeps Main.prog_cat special = Requests.prog_cat-Keeps d P basic argv
    run_main-Keeps Main.prog_cd special = Requests.prog_cd-Keeps d P basic argv
    run_main-Keeps Main.prog_clear special = Requests.prog_clear-Keeps d P basic argv
    run_main-Keeps Main.prog_copy special = Requests.prog_copy-Keeps d P basic argv
    run_main-Keeps Main.prog_del special = Requests.prog_del-Keeps d P basic argv
    run_main-Keeps Main.prog_disk special = Requests.prog_disk-Keeps d P basic argv
    run_main-Keeps Main.prog_echo special = Requests.prog_echo-Keeps d P basic argv
    run_main-Keeps Main.prog_help special = Requests.prog_help-Keeps d P basic argv
    run_main-Keeps Main.prog_initdisk special = Requests.prog_initdisk-Keeps d P basic argv
    run_main-Keeps Main.prog_ls special = Requests.prog_ls-Keeps d P basic argv
    run_main-Keeps Main.prog_logout special = Requests.prog_logout-Keeps d P basic argv
    run_main-Keeps Main.prog_mkdir special = Requests.prog_mkdir-Keeps d P basic argv
    run_main-Keeps Main.prog_pwd special = Requests.prog_pwd-Keeps d P basic argv
    run_main-Keeps Main.prog_save special = Requests.prog_save-Keeps d P basic argv
    run_main-Keeps Main.prog_touch special = Requests.prog_touch-Keeps d P basic argv
    run_main-Keeps Main.prog_users special = Requests.prog_users-Keeps d P basic argv
    run_main-Keeps Main.prog_whoami special = Requests.prog_whoami-Keeps d P basic argv
    run_main-Keeps Main.prog_desktop special = special refl
    run_main-Keeps Main.prog_load special = special refl
    run_main-Keeps Main.prog_login special = special refl
    run_main-Keeps Main.prog_move special = special refl
    run_main-Keeps Main.prog_useradd special = special refl
    run_main-Keeps Main.prog_userdel special = special refl
    run_main-Keeps Main.prog_write special = special refl
