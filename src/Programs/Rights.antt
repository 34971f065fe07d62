-- ===== src/Programs/Rights.antt =====
-- Who may change the user table: the commands of a user who is no administrator leave it as it is.
use pl_dos.Base.{ℕ, ◌≡◌, refl, ◌∙◌, true, false, Option, none, some, List, [], codes}
use pl_dos.Strings.{CString}
use pl_dos.Users.{User, Users, find_user, users_login, users_logout, users_current_is_admin}
use pl_dos.Io.{Terminal}
use pl_dos.Io.Keyboard.{io_read_char}
use pl_dos.Filesystem.{Fs, Disk}
use pl_dos.System.{System, M, printed, on_fs}
use pl_dos.System.Keeps.{After, Keeps}
use pl_dos.Connector.{Request, take_char, kernel_connector_request}
use pl_dos.Connector.Request.{
  cd, list, mkdir, touch, delete, move, copy, write, disk_format, disk_save, disk_load, user_add,
  user_remove, user_login, user_logout,
}
use pl_dos.Connector.Keeping.{is_file_call, is_user_call, files-Keep, others-Keep}
use pl_dos.Programs.{Main}
use pl_dos.Programs.Commands.{arg}
use pl_dos.Programs.Accounts.{prog_useradd, prog_userdel}
use pl_dos.Programs.Dispatch.{prog_desktop, run_main}
use pl_dos.Programs.Requests.{is_basic, complain-Keeps}
use pl_dos.Programs.Changes.{
  prog_login-Keeps, prog_move-Keeps, prog_load-Keeps, prog_write-Keeps, run_main-Keeps,
}

module _ (d : Disk) (us : List User) where
  open d use {Dev}

  -- The user table is `us`.
  abbrev pub HasUsers : System Dev → Type 0
  HasUsers s = s.users.users ≡ us

  files-HasUsers : (A : Type 0) (call : Fs Dev → Option (A × Fs Dev)) → Keeps HasUsers (on_fs call)
  files-HasUsers A call s e = after (call (record s.fs { console = [] }))
    where
      after :
          (r : Option (A × Fs Dev))
          → After HasUsers (elim r [ none ↦ none | some (a, fs) ↦ some (a, printed s fs) ])
      after none = tt
      after (some (a, fs)) = e

  take_char-HasUsers : Keeps HasUsers (take_char d)
  take_char-HasUsers s e = taken (io_read_char s.keys s.terminal)
    where
      taken :
          (r : Option (ℕ × List ℕ × Terminal))
          → After HasUsers (elim r [
            | none ↦ none
            | some (c, keys, t) ↦ some (c, record s { keys = keys; terminal = t })
          ])
      taken none = tt
      taken (some (c, keys, t)) = e

  login_table : (t : Users) (name : CString) → (users_login t name).1.users ≡ t.users
  unfolding users_login
  login_table t name = chosen (find_user t name)
    where
      chosen :
          (r : Option ℕ)
          → (elim r as (λ k. ℕ × Users) [
            | none ↦ (1, t)
            | some idx ↦ (0, record t { current_user = idx })
          ]).1.users
            ≡ t.users
      chosen none = refl
      chosen (some idx) = refl

  logs-HasUsers : (name : CString) → Keeps HasUsers (kernel_connector_request d (user_login name))
  unfolding kernel_connector_request
  logs-HasUsers name s e = login_table s.users name ∙ e

  logs_out-HasUsers : Keeps HasUsers (kernel_connector_request d user_logout)
  unfolding kernel_connector_request users_logout
  logs_out-HasUsers s e = e

  files_kept : (r : Request) → is_file_call r ≡ true → Keeps HasUsers (kernel_connector_request d r)
  files_kept = files-Keep d HasUsers files-HasUsers

  others_kept :
      (r : Request)
      → is_file_call r ≡ false
      → is_user_call r ≡ false
      → Keeps HasUsers (kernel_connector_request d r)
  others_kept = others-Keep d HasUsers (λ call keeps s e. e) take_char-HasUsers

  asked : (r : Request) → is_basic r ≡ true → Keeps HasUsers (kernel_connector_request d r)
  asked (cd path) b = files_kept (cd path) refl
  asked (list path) b = files_kept (list path) refl
  asked (mkdir path) b = files_kept (mkdir path) refl
  asked (touch path) b = files_kept (touch path) refl
  asked (delete path) b = files_kept (delete path) refl
  asked (move src dest) b = files_kept (move src dest) refl
  asked (copy src dest) b = files_kept (copy src dest) refl
  asked (write path bytes size) b = files_kept (write path bytes size) refl
  asked disk_format b = files_kept disk_format refl
  asked disk_save b = files_kept disk_save refl
  asked disk_load b = files_kept disk_load refl
  asked (user_add name admin) b = absurd (cc)
  asked (user_remove name) b = absurd (cc)
  asked (user_login name) b = absurd (cc)
  asked user_logout b = logs_out-HasUsers
  asked r b = others_kept r refl refl

  module _ (desktop_run : List CString → M Dev ℕ) (argv : List CString) (s : System Dev)
      (h : HasUsers s) (guest : users_current_is_admin s.users ≡ 0) where
    useradd-HasUsers : After HasUsers (prog_useradd d argv s)
    unfolding prog_useradd kernel_connector_request
    useradd-HasUsers =
        rw guest (complain-Keeps d HasUsers asked (codes "Only an admin can add users") s h)

    userdel-HasUsers : After HasUsers (prog_userdel d argv s)
    unfolding prog_userdel kernel_connector_request
    userdel-HasUsers =
        rw guest (complain-Keeps d HasUsers asked (codes "Only an admin can delete users") s h)

    run_main-HasUsers :
        (p : Main)
        → Keeps HasUsers (desktop_run argv)
        → After HasUsers (run_main d desktop_run p argv s)
    unfolding run_main prog_desktop
    run_main-HasUsers Main.prog_useradd desktop = useradd-HasUsers
    run_main-HasUsers Main.prog_userdel desktop = userdel-HasUsers
    run_main-HasUsers Main.prog_desktop desktop = desktop s h
    run_main-HasUsers Main.prog_login desktop =
        prog_login-Keeps d HasUsers asked argv (logs-HasUsers _) s h
    run_main-HasUsers Main.prog_move desktop =
        prog_move-Keeps d HasUsers asked argv (files_kept (move (arg argv 1) (arg argv 2)) refl) s h
    run_main-HasUsers Main.prog_load desktop =
        prog_load-Keeps d HasUsers asked argv (files_kept disk_load refl) s h
    run_main-HasUsers Main.prog_write desktop =
        prog_write-Keeps d HasUsers asked
          (λ path bytes size l. files_kept (write path bytes size) refl) argv s h
    run_main-HasUsers p desktop =
        run_main-Keeps d HasUsers asked desktop_run argv p (λ e. absurd (cc)) s h

-- No command that a user runs who is no administrator changes the user table, if the desktop, which is
-- not part of the repository, does not.
pub run_main_guest :
    (d : Disk) (desktop_run : List CString → M d.Dev ℕ) (p : Main) (argv : List CString)
    (s : System d.Dev)
    → users_current_is_admin s.users ≡ 0
    → Keeps (HasUsers d s.users.users) (desktop_run argv)
    → After (HasUsers d s.users.users) (run_main d desktop_run p argv s)
run_main_guest d desktop_run p argv s guest desktop =
    run_main-HasUsers d s.users.users desktop_run argv s refl guest p desktop
