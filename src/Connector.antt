-- ===== src/Connector.antt =====
-- kernel/kernel_connector.c: the requests that programs make of the kernel. A request has the arguments
-- that the code packs behind a `void *`, and each has the type of its answer, which the code casts to
-- `uintptr_t` and back.
pub mod Calls
pub mod Keeping
pub mod Sound
pub mod Tree
use pl_dos.Base.{
  ℕ, zero, suc, Bool, true, false, Option, none, some, List, [], ◌∷◌, if◌then◌else◌, ℤ, codes,
  is_some,
}
use pl_dos.Strings.{CString, Buffer, cstr, str_len, str_copy, str_concat, str_compare}
use pl_dos.Users.{
  User, users_add, users_remove, users_login, users_logout, users_current_name,
  users_current_is_admin, users_count, users_get,
}
use pl_dos.Io.{Terminal, io_clear_screen, io_print, io_println}
use pl_dos.Io.Keyboard.{io_read_char}
use pl_dos.Io.Numbers.{int_chars}
use pl_dos.Filesystem.{Fs, Disk}
use pl_dos.Filesystem.Calls.{
  fs_get_current_dir, fs_change_dir, fs_create_file, fs_create_dir, fs_delete,
}
use pl_dos.Filesystem.Files.{fs_write_file, fs_copy, fs_read_file, fs_exists, fs_list_dir}
use pl_dos.Filesystem.Tree.{fs_move}
use pl_dos.Filesystem.Storage.{
  fs_disk_available, fs_disk_enabled, fs_disk_format, fs_disk_save, fs_disk_load,
}
use pl_dos.System.{System, M, return, on_terminal, on_users, on_fs, ask_fs}

-- `kc_request_t`. An array that the kernel writes is an argument as the call finds it.
pub data Request : Type 0 where
  clear : Request
  print : CString → Request
  println : CString → Request
  print_int : ℤ → Request
  read_char : Request
  strlen : CString → Request
  strcpy : Buffer → CString → Request
  strcat : Buffer → CString → Request
  strcmp : CString → CString → Request
  current_dir : Request
  cd : CString → Request
  list : CString → Request
  mkdir : CString → Request
  touch : CString → Request
  delete : CString → Request
  move : CString → CString → Request
  copy : CString → CString → Request
  write : CString → List ℕ → ℕ → Request
  read : CString → List ℕ → ℕ → Request
  exists : CString → Request
  disk_available : Request
  disk_enabled : Request
  disk_format : Request
  disk_save : Request
  disk_load : Request
  disk_status : Request
  user_add : CString → ℕ → Request
  user_remove : CString → Request
  user_login : CString → Request
  user_logout : Request
  current_name : Request
  current_is_admin : Request
  user_count : Request
  user_get : ℕ → User → Request

-- The answer: a status, a string, an array afterwards, or the bytes read with their number, where
-- `none` is -1; `none` for a user is 0.
abbrev pub Reply : Request → Type 0
Reply clear = Unit {0}
Reply (print text) = Unit {0}
Reply (println text) = Unit {0}
Reply (print_int value) = Unit {0}
Reply read_char = ℕ
Reply (strlen text) = ℕ
Reply (strcpy dest src) = Buffer
Reply (strcat dest src) = Buffer
Reply (strcmp a b) = ℤ
Reply current_dir = CString
Reply (cd path) = ℕ
Reply (list path) = ℕ
Reply (mkdir path) = ℕ
Reply (touch path) = ℕ
Reply (delete path) = ℕ
Reply (move src dest) = ℕ
Reply (copy src dest) = ℕ
Reply (write path bytes size) = ℕ
Reply (read path buffer max_size) = Option (ℕ × List ℕ)
Reply (exists path) = Bool
Reply disk_available = Bool
Reply disk_enabled = Bool
Reply disk_format = ℕ
Reply disk_save = ℕ
Reply disk_load = ℕ
Reply disk_status = CString
Reply (user_add name admin) = ℕ
Reply (user_remove name) = ℕ
Reply (user_login name) = ℕ
Reply user_logout = ℕ
Reply current_name = CString
Reply current_is_admin = ℕ
Reply user_count = ℕ
Reply (user_get index out) = Option User

-- `true` is the status 0.
abbrev pub status_of : {Dev : Type 0} → Option (Bool × Fs Dev) → Option (ℕ × Fs Dev)
status_of none = none
status_of (some (done, fs)) = some (if done then 0 else 1, fs)

-- A write into an array of the program.
abbrev pub into : {Dev : Type 0} → Option Buffer → M Dev Buffer
into none s = none
into (some buffer) s = some (buffer, s)

-- The copy of a user to the program's structure.
abbrev pub hand_user : {Dev : Type 0} → Option User → User → M Dev (Option User)
hand_user none out s = some (none, s)
hand_user (some u) out s = elim (str_copy out.name (cstr u.name)) [
  | none ↦ none
  | some name ↦ some (some (record { name = name; active = u.active; admin = u.admin }), s)
]

module _ (d : Disk) where
  open d use {Dev}

  abbrev pub add_user_named : CString → ℕ → M Dev ℕ
  add_user_named name admin s = elim (users_add s.users (some name) admin) [
    | none ↦ none
    | some (status, users) ↦ some (status, record s { users = users })
  ]

  -- The keyboard never answers again where its scancodes end.
  abbrev pub take_char : M Dev ℕ
  take_char s = elim (io_read_char s.keys s.terminal) [
    | none ↦ none
    | some (c, keys, t) ↦ some (c, record s { keys = keys; terminal = t })
  ]

  unfoldable pub kernel_connector_request : (r : Request) → M Dev (Reply r)
  kernel_connector_request clear = on_terminal io_clear_screen
  kernel_connector_request (print text) = on_terminal (λ t. io_print t text)
  kernel_connector_request (println text) = on_terminal (λ t. io_println t text)
  kernel_connector_request (print_int value) = on_terminal (λ t. io_print t (int_chars value))
  kernel_connector_request read_char = take_char
  kernel_connector_request (strlen text) = return (str_len text)
  kernel_connector_request (strcpy dest src) = into (str_copy dest src)
  kernel_connector_request (strcat dest src) = into (str_concat dest src)
  kernel_connector_request (strcmp a b) = return (str_compare a b)
  kernel_connector_request current_dir = ask_fs (λ fs. some (fs_get_current_dir fs))
  kernel_connector_request (cd path) = on_fs (λ fs. fs_change_dir fs path)
  kernel_connector_request (list path) = on_fs (λ fs. fs_list_dir fs path)
  kernel_connector_request (mkdir path) = on_fs (λ fs. fs_create_dir d fs path)
  kernel_connector_request (touch path) = on_fs (λ fs. fs_create_file d fs path)
  kernel_connector_request (delete path) = on_fs (λ fs. fs_delete d fs path)
  kernel_connector_request (move src dest) = on_fs (λ fs. fs_move d fs src dest)
  kernel_connector_request (copy src dest) = on_fs (λ fs. fs_copy d fs src dest)
  kernel_connector_request (write path bytes size) =
      on_fs (λ fs. fs_write_file d fs path bytes size)
  kernel_connector_request (read path buffer max_size) =
      ask_fs (λ fs. fs_read_file fs path buffer max_size)
  kernel_connector_request (exists path) = ask_fs (λ fs. fs_exists fs path)
  kernel_connector_request disk_available = ask_fs (λ fs. some (fs_disk_available d fs))
  kernel_connector_request disk_enabled = ask_fs (λ fs. some (fs_disk_enabled d fs))
  kernel_connector_request disk_format = on_fs (λ fs. status_of (fs_disk_format d fs))
  kernel_connector_request disk_save = on_fs (λ fs. status_of (fs_disk_save d fs))
  kernel_connector_request disk_load = on_fs (λ fs. status_of (fs_disk_load d fs))
  kernel_connector_request disk_status = ask_fs (λ fs. some (d.disk_status fs.dev))
  kernel_connector_request (user_add name admin) = add_user_named name admin
  kernel_connector_request (user_remove name) = on_users (λ t. users_remove t name)
  kernel_connector_request (user_login name) = on_users (λ t. users_login t name)
  kernel_connector_request user_logout = on_users users_logout
  kernel_connector_request current_name = on_users (λ t. (users_current_name t, t))
  kernel_connector_request current_is_admin = on_users (λ t. (users_current_is_admin t, t))
  kernel_connector_request user_count = on_users (λ t. (users_count t, t))
  kernel_connector_request (user_get index out) = λ s. hand_user (users_get s.users index) out s
