-- ===== src/Programs/Accounts.antt =====
-- The commands of progs/ that work on the users.
use pl_dos.Base.{
  ℕ, zero, suc, ◌+◌, Option, none, some, List, [], replicate, ◌==◌, if◌then◌else◌, codes, is_zero,
}
use pl_dos.Strings.{CString, cstr}
use pl_dos.Users.{User, user_max_name}
use pl_dos.Filesystem.{Disk}
use pl_dos.System.{M, return, ◌>>=◌, ◌>>◌}
use pl_dos.Connector.Calls.{
  kc_print, kc_println, kc_strcmp, kc_users_add, kc_users_remove, kc_users_login, kc_users_logout,
  kc_users_current_name, kc_users_current_is_admin, kc_users_count, kc_users_get,
}
use pl_dos.Programs.Commands.{arg, fewer, complain}

module _ (d : Disk) where
  open d use {Dev}

  unfoldable pub prog_login : List CString → M Dev ℕ
  prog_login argv = if fewer argv 2 then complain d (codes "Usage: login <name>") else do
    rc ← kc_users_login d (arg argv 1)
    if rc == 0 then return 0 else complain d (codes "User not found")

  unfoldable pub prog_logout : List CString → M Dev ℕ
  prog_logout argv = kc_users_logout d

  unfoldable pub prog_whoami : List CString → M Dev ℕ
  prog_whoami argv = do name ← kc_users_current_name d; kc_println d name; return 0

  -- The messages of `prog_useradd`, and its answer.
  unfoldable pub report_add : ℕ → M Dev ℕ
  report_add rc = do
    if rc == 1
        then kc_println d (codes "Invalid user name")
        else if rc == 2
        then kc_println d (codes "User already exists")
        else if rc == 3
        then kc_println d (codes "User table full")
        else return tt
    return (if rc == 0 then 0 else 1)

  -- The call, with the flag that the third argument sets.
  unfoldable pub add_named : List CString → M Dev ℕ
  add_named argv = do
    admin ←
        (if fewer argv 3 then return 0 else do
          order ← kc_strcmp d (arg argv 2) (codes "admin")
          return (if is_zero order then 1 else 0))
    kc_users_add d (arg argv 1) admin >>= report_add

  unfoldable pub prog_useradd : List CString → M Dev ℕ
  prog_useradd argv = do
    is_admin ← kc_users_current_is_admin d
    if is_admin == 0
        then complain d (codes "Only an admin can add users")
        else if fewer argv 2
        then complain d (codes "Usage: useradd <name> [admin]")
        else add_named argv

  unfoldable pub report_remove : ℕ → M Dev ℕ
  report_remove rc = do
    if rc == 1
        then kc_println d (codes "User not found or protected")
        else if rc == 2
        then kc_println d (codes "Cannot delete the logged-in user")
        else return tt
    return (if rc == 0 then 0 else 1)

  unfoldable pub prog_userdel : List CString → M Dev ℕ
  prog_userdel argv = do
    is_admin ← kc_users_current_is_admin d
    if is_admin == 0
        then complain d (codes "Only an admin can delete users")
        else if fewer argv 2
        then complain d (codes "Usage: userdel <name>")
        else kc_users_remove d (arg argv 1) >>= report_remove

  -- The line of one user.
  unfoldable pub user_line : User → M Dev (Unit {0})
  user_line user = do
    kc_print d (cstr user.name)
    if user.admin == 0 then return tt else kc_print d (codes "  admin")
    name ← kc_users_current_name d
    order ← kc_strcmp d (cstr user.name) name
    if is_zero order then kc_print d (codes "  current") else return tt
    kc_println d []

  -- What a round does with the answer of `kc_users_get`; the structure is then passed on.
  unfoldable pub list_user : Option User → User → M Dev User
  list_user none user = return user
  list_user (some user) old = do user_line user; return user

  -- The loop of `prog_users` from index `i` on, with the rounds that are left.
  unfoldable pub list_users : ℕ → ℕ → User → M Dev (Unit {0})
  list_users i zero user = return tt
  list_users i (suc rounds) user = do
    found ← kc_users_get d i user
    user ← list_user found user
    list_users (i + 1) rounds user

  unfoldable pub prog_users : List CString → M Dev ℕ
  prog_users argv = do
    count ← kc_users_count d
    list_users 0 count (record { name = replicate user_max_name 0; active = 0; admin = 0 })
    return 0
