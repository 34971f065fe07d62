-- ===== src/Connector/Keeping.antt =====
-- What the requests of kernel/kernel_connector.c keep, by what they work on.
use pl_dos.Base.{◌≡◌, Bool, true, false, Option, none, some}
use pl_dos.Strings.{Buffer, cstr, str_copy, str_concat}
use pl_dos.Users.{User, users_get}
use pl_dos.Io.{Terminal, io_clear_screen, io_print, io_println}
use pl_dos.Io.Numbers.{int_chars}
use pl_dos.Filesystem.{Fs, Disk}
use pl_dos.Filesystem.Calls.{
  fs_get_current_dir, fs_change_dir, fs_create_file, fs_create_dir, fs_delete,
}
use pl_dos.Filesystem.Files.{fs_write_file, fs_copy, fs_read_file, fs_exists, fs_list_dir}
use pl_dos.Filesystem.Tree.{fs_move}
use pl_dos.Filesystem.Storage.{
  fs_disk_available, fs_disk_enabled, fs_disk_format, fs_disk_save, fs_disk_load,
}
use pl_dos.System.{System, on_terminal, on_fs}
use pl_dos.Io.Screen.{IsScreen}
use pl_dos.Io.History.{io_print-IsScreen, io_println-IsScreen, io_clear_screen-IsScreen}
use pl_dos.System.Keeps.{After, Keeps}
use pl_dos.System.Sound.{ask_fs-Keeps}
use pl_dos.Connector.{Request, into, hand_user, take_char, status_of, kernel_connector_request}
use pl_dos.Connector.Request.{
  clear, print, println, print_int, read_char, strlen, strcpy, strcat, strcmp, current_dir, cd,
  list, mkdir, touch, delete, move, copy, write, read, exists, disk_available, disk_enabled,
  disk_format, disk_save, disk_load, disk_status, user_add, user_remove, user_login, user_logout,
  current_name, current_is_admin, user_count, user_get,
}

-- The requests that are calls of the filesystem, and change its state or print.
abbrev pub is_file_call : Request → Bool
is_file_call (cd path) = true
is_file_call (list path) = true
is_file_call (mkdir path) = true
is_file_call (touch path) = true
is_file_call (delete path) = true
is_file_call (move src dest) = true
is_file_call (copy src dest) = true
is_file_call (write path bytes size) = true
is_file_call disk_format = true
is_file_call disk_save = true
is_file_call disk_load = true
is_file_call r = false

-- The requests that change the user table or the current user.
abbrev pub is_user_call : Request → Bool
is_user_call (user_add name admin) = true
is_user_call (user_remove name) = true
is_user_call (user_login name) = true
is_user_call user_logout = true
is_user_call r = false

into-Keeps : {Dev : Type 0} (P : System Dev → Type 0) (r : Option Buffer) → Keeps P (into r)
into-Keeps P none s v = tt
into-Keeps P (some b) s v = v

hand_user-Keeps :
    {Dev : Type 0} (P : System Dev → Type 0) (found : Option User) (out : User) (s : System Dev)
    → P s
    → After P (hand_user found out s)
hand_user-Keeps P none out s v = v
hand_user-Keeps {Dev} P (some u) out s v = copied (str_copy out.name (cstr u.name))
  where
    copied :
        (r : Option Buffer)
        → After {A = Option User} P (elim r [
          | none ↦ none
          | some name ↦ some (some (record { name = name; active = u.active; admin = u.admin }), s)
        ])
    copied none = tt
    copied (some name) = v

module _ (d : Disk) (P : System d.Dev → Type 0) where
  open d use {Dev}

  pub files-Keep :
      ((A : Type 0) (call : Fs Dev → Option (A × Fs Dev)) → Keeps P (on_fs call))
      → (r : Request) → is_file_call r ≡ true
      → Keeps P (kernel_connector_request d r)
  unfolding kernel_connector_request
  files-Keep files (cd path) h = files _ (λ fs. fs_change_dir fs path)
  files-Keep files (list path) h = files _ (λ fs. fs_list_dir fs path)
  files-Keep files (mkdir path) h = files _ (λ fs. fs_create_dir d fs path)
  files-Keep files (touch path) h = files _ (λ fs. fs_create_file d fs path)
  files-Keep files (delete path) h = files _ (λ fs. fs_delete d fs path)
  files-Keep files (move src dest) h = files _ (λ fs. fs_move d fs src dest)
  files-Keep files (copy src dest) h = files _ (λ fs. fs_copy d fs src dest)
  files-Keep files (write path bytes size) h = files _ (λ fs. fs_write_file d fs path bytes size)
  files-Keep files disk_format h = files _ (λ fs. status_of (fs_disk_format d fs))
  files-Keep files disk_save h = files _ (λ fs. status_of (fs_disk_save d fs))
  files-Keep files disk_load h = files _ (λ fs. status_of (fs_disk_load d fs))
  files-Keep files r h = absurd (cc)

  module _
      (shows : (call : Terminal → Terminal)
        → ((t : Terminal) → IsScreen t → IsScreen (call t))
        → Keeps P (on_terminal call))
      (types : Keeps P (take_char d)) where
    -- The requests that are left: the terminal, the keyboard, the strings and the questions.
    pub others-Keep :
        (r : Request)
        → is_file_call r ≡ false
        → is_user_call r ≡ false
        → Keeps P (kernel_connector_request d r)
    unfolding kernel_connector_request
    others-Keep clear f u = shows io_clear_screen (λ t v. io_clear_screen-IsScreen t v.rows)
    others-Keep (print text) f u = shows (λ t. io_print t text) (λ t v. io_print-IsScreen t text v)
    others-Keep (println text) f u =
        shows (λ t. io_println t text) (λ t v. io_println-IsScreen t text v)
    others-Keep (print_int value) f u =
        shows (λ t. io_print t (int_chars value)) (λ t v. io_print-IsScreen t _ v)
    others-Keep read_char f u = types
    others-Keep (strlen text) f u = λ s v. v
    others-Keep (strcpy dest src) f u = into-Keeps P (str_copy dest src)
    others-Keep (strcat dest src) f u = into-Keeps P (str_concat dest src)
    others-Keep (strcmp a b) f u = λ s v. v
    others-Keep current_dir f u = ask_fs-Keeps P (λ fs. some (fs_get_current_dir fs))
    others-Keep (read path buffer max_size) f u =
        ask_fs-Keeps P (λ fs. fs_read_file fs path buffer max_size)
    others-Keep (exists path) f u = ask_fs-Keeps P (λ fs. fs_exists fs path)
    others-Keep disk_available f u = ask_fs-Keeps P (λ fs. some (fs_disk_available d fs))
    others-Keep disk_enabled f u = ask_fs-Keeps P (λ fs. some (fs_disk_enabled d fs))
    others-Keep disk_status f u = ask_fs-Keeps P (λ fs. some (d.disk_status fs.dev))
    others-Keep current_name f u = λ s v. v
    others-Keep current_is_admin f u = λ s v. v
    others-Keep user_count f u = λ s v. v
    others-Keep (user_get index out) f u =
        λ s v. hand_user-Keeps P (users_get s.users index) out s v
    others-Keep r f u = absurd (cc)
