-- ===== src/Programs/Requests.antt =====
-- A property of the kernel's state that every request a program makes keeps is kept by the program.
use pl_dos.Base.{
  ℕ, zero, suc, ◌+◌, Bool, true, false, Option, none, some, List, [], ◌∷◌, ◌≡◌, ◌≤◌, refl,
  if◌then◌else◌, length, drop, replicate, codes, ◌==◌, not, ◌||◌,
}
use pl_dos.Strings.{CString, Buffer}
use pl_dos.Users.{User}
use pl_dos.Filesystem.{Disk}
use pl_dos.System.{System}
use pl_dos.Connector.{Request, kernel_connector_request}
use pl_dos.Connector.Request.{
  print, println, user_add, user_remove, user_login, move, write, disk_load,
}
use pl_dos.Programs.{Program}
use pl_dos.Programs.Commands.{
  complain, report, show_file, echo_args, help_lines, disk_lines, join_args, prog_about, prog_cat,
  prog_cd, prog_clear, prog_copy, prog_del, prog_disk, prog_initdisk, prog_save, prog_echo,
  prog_help, prog_ls, prog_mkdir, prog_pwd, prog_touch,
}
use pl_dos.Programs.Accounts.{
  report_add, report_remove, user_line, list_user, list_users, prog_logout, prog_whoami, prog_users,
}
use pl_dos.System.Keeps.{After, Keeps, Keeps-return, Keeps-bind, Keeps-if}

-- The requests that change the users, move a node, load the table or write a file.
abbrev pub is_basic : Request → Bool
is_basic (user_add name admin) = false
is_basic (user_remove name) = false
is_basic (user_login name) = false
is_basic (move src dest) = false
is_basic (write path bytes size) = false
is_basic disk_load = false
is_basic r = true

pub ruleset keeping = (Keeps-bind, Keeps-return, Keeps-if, refl)

module _ (d : Disk) (P : System d.Dev → Type 0)
    (basic : (r : Request) → is_basic r ≡ true → Keeps P (kernel_connector_request d r)) where
  open d use {Dev}

  pub complain-Keeps : (text : CString) → Keeps P (complain d text)
  complain-Keeps text = Keeps-bind P _ _ (basic (println text) refl) (λ a. Keeps-return P {A = ℕ} 1)

  pub report-Keeps : (bad good : CString) (status : ℕ) → Keeps P (report d bad good status)
  report-Keeps bad good status = search (keeping, basic, complain-Keeps)

  pub prog_about-Keeps : (argv : List CString) → Keeps P (prog_about d argv)
  unfolding prog_about
  prog_about-Keeps argv = search (keeping, basic)

  pub prog_cd-Keeps : (argv : List CString) → Keeps P (prog_cd d argv)
  unfolding prog_cd
  prog_cd-Keeps argv = search (keeping, basic)

  pub prog_clear-Keeps : (argv : List CString) → Keeps P (prog_clear d argv)
  unfolding prog_clear
  prog_clear-Keeps argv = search (keeping, basic)

  pub prog_copy-Keeps : (argv : List CString) → Keeps P (prog_copy d argv)
  unfolding prog_copy
  prog_copy-Keeps argv = search (keeping, basic, complain-Keeps)

  pub prog_del-Keeps : (argv : List CString) → Keeps P (prog_del d argv)
  unfolding prog_del
  prog_del-Keeps argv = search (keeping, basic, complain-Keeps)

  pub prog_mkdir-Keeps : (argv : List CString) → Keeps P (prog_mkdir d argv)
  unfolding prog_mkdir
  prog_mkdir-Keeps argv = search (keeping, basic, complain-Keeps)

  pub prog_touch-Keeps : (argv : List CString) → Keeps P (prog_touch d argv)
  unfolding prog_touch
  prog_touch-Keeps argv = search (keeping, basic, complain-Keeps)

  pub prog_pwd-Keeps : (argv : List CString) → Keeps P (prog_pwd d argv)
  unfolding prog_pwd
  prog_pwd-Keeps argv = search (keeping, basic)

  pub prog_ls-Keeps : (argv : List CString) → Keeps P (prog_ls d argv)
  unfolding prog_ls
  prog_ls-Keeps argv = search (keeping, basic)

  pub prog_save-Keeps : (argv : List CString) → Keeps P (prog_save d argv)
  unfolding prog_save
  prog_save-Keeps argv = search (keeping, basic, report-Keeps)

  pub prog_initdisk-Keeps : (argv : List CString) → Keeps P (prog_initdisk d argv)
  unfolding prog_initdisk
  prog_initdisk-Keeps argv = search (keeping, basic, report-Keeps, complain-Keeps) depth 9

  pub disk_lines-Keeps : Keeps P (disk_lines d)
  unfolding disk_lines
  disk_lines-Keeps = search (keeping, basic) depth 9

  pub prog_disk-Keeps : (argv : List CString) → Keeps P (prog_disk d argv)
  unfolding prog_disk
  prog_disk-Keeps argv = search (keeping, basic, disk_lines-Keeps) depth 9

  pub show_file-Keeps : (r : Option (ℕ × List ℕ)) → Keeps P (show_file d r)
  unfolding show_file
  show_file-Keeps none = complain-Keeps _
  show_file-Keeps (some (count, buffer)) = search (keeping, basic)

  pub prog_cat-Keeps : (argv : List CString) → Keeps P (prog_cat d argv)
  unfolding prog_cat
  prog_cat-Keeps argv = search (keeping, basic, complain-Keeps, show_file-Keeps)

  pub echo_args-Keeps : (args : List CString) → Keeps P (echo_args d args)
  unfolding echo_args
  echo_args-Keeps [] = Keeps-return P tt
  echo_args-Keeps (a ∷ []) = basic (print a) refl
  echo_args-Keeps (a ∷ b ∷ args) = search (keeping, basic, echo_args-Keeps (b ∷ args))

  pub prog_echo-Keeps : (argv : List CString) → Keeps P (prog_echo d argv)
  unfolding prog_echo
  prog_echo-Keeps argv = search (keeping, basic, echo_args-Keeps)

  pub help_lines-Keeps : (ps : List Program) → Keeps P (help_lines d ps)
  unfolding help_lines
  help_lines-Keeps [] = Keeps-return P tt
  help_lines-Keeps (p ∷ ps) = search (keeping, basic, help_lines-Keeps ps) depth 9

  pub prog_help-Keeps : (argv : List CString) → Keeps P (prog_help d argv)
  unfolding prog_help
  prog_help-Keeps argv = search (keeping, basic, help_lines-Keeps) depth 9

  pub user_line-Keeps : (user : User) → Keeps P (user_line d user)
  unfolding user_line
  user_line-Keeps user = search (keeping, basic) depth 12

  pub list_user-Keeps : (found : Option User) (old : User) → Keeps P (list_user d found old)
  unfolding list_user
  list_user-Keeps none old = Keeps-return P old
  list_user-Keeps (some user) old = search (keeping, user_line-Keeps)

  pub list_users-Keeps : (i rounds : ℕ) (user : User) → Keeps P (list_users d i rounds user)
  unfolding list_users
  list_users-Keeps i zero user = Keeps-return P tt
  list_users-Keeps i (suc rounds) user =
      search (keeping, basic, list_user-Keeps, list_users-Keeps (i + 1) rounds)

  pub prog_users-Keeps : (argv : List CString) → Keeps P (prog_users d argv)
  unfolding prog_users
  prog_users-Keeps argv = search (keeping, basic, list_users-Keeps)

  pub prog_logout-Keeps : (argv : List CString) → Keeps P (prog_logout d argv)
  unfolding prog_logout
  prog_logout-Keeps argv = search (keeping, basic)

  pub prog_whoami-Keeps : (argv : List CString) → Keeps P (prog_whoami d argv)
  unfolding prog_whoami
  prog_whoami-Keeps argv = search (keeping, basic)

  pub report_add-Keeps : (rc : ℕ) → Keeps P (report_add d rc)
  unfolding report_add
  report_add-Keeps rc = search (keeping, basic) depth 9

  pub report_remove-Keeps : (rc : ℕ) → Keeps P (report_remove d rc)
  unfolding report_remove
  report_remove-Keeps rc = search (keeping, basic) depth 9

  pub join_args-Keeps : (text : Buffer) (args : List CString) → Keeps P (join_args d text args)
  unfolding join_args
  join_args-Keeps text [] = Keeps-return P text
  join_args-Keeps text (a ∷ []) = search (keeping, basic)
  join_args-Keeps text (a ∷ b ∷ args) =
      search (keeping, basic, λ (x : Buffer). join_args-Keeps x (b ∷ args))
