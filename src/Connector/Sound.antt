-- ===== src/Connector/Sound.antt =====
-- Every request of kernel/kernel_connector.c leaves a sound state sound.
use pl_dos.Connector.Keeping.{is_file_call, is_user_call, files-Keep, others-Keep}
use pl_dos.Base.{◌≡◌, refl, ℕ, true, false, Option, none, some, List, length, arith}
use pl_dos.Strings.{CString, NoNul}
use pl_dos.Users.{Users, users_add, users_remove, users_login, users_logout}
use pl_dos.Users.Sessions.{keep_table, logout-IsValid, login-IsValid, remove-IsValid, add-Keeps}
use pl_dos.Users.Sessions
use pl_dos.Io.{Terminal}
use pl_dos.Io.Keyboard.{io_read_char}
use pl_dos.Io.Reading.{Read, IsChar, io_read_char-Read}
use pl_dos.Filesystem.{Disk}
use pl_dos.System.Keeps.{After, Keeps}
use pl_dos.System.Sound.{IsSound, on_terminal-IsSound, on_users-IsSound, on_fs-IsSound}
use pl_dos.Connector.{Request, add_user_named, take_char, kernel_connector_request}
use pl_dos.Connector.Request.{
  cd, list, mkdir, touch, delete, move, copy, write, disk_format, disk_save, disk_load, user_add,
  user_remove, user_login, user_logout,
}

-- The name that a request gives to the user table is a string.
abbrev pub NamesString : Request → Type 0
NamesString (user_add name admin) = NoNul name
NamesString (user_remove name) = NoNul name
NamesString (user_login name) = NoNul name
NamesString r = Unit {0}

module _ (d : Disk) (n : ℕ) where
  open d use {Dev}

  take_char-IsSound : Keeps (IsSound {Dev = Dev} n) (take_char d)
  take_char-IsSound s v =
      taken (io_read_char s.keys s.terminal) (io_read_char-Read s.keys s.terminal v.screen)
    where
      taken :
          (r : Option (ℕ × List ℕ × Terminal))
          → Read (length s.keys) IsChar r
          → After (IsSound n) (elim r [
            | none ↦ none
            | some (c, keys, t) ↦ some (c, record s { keys = keys; terminal = t })
          ])
      taken none h = tt
      taken (some (c, keys, t)) (fewer, screen, char) = record {
        keys = omega (arith, fewer, v.keys);
        screen = screen;
        users = v.users;
      }

  add_user_named-IsSound :
      (name : CString) (admin : ℕ)
      → NoNul name
      → Keeps (IsSound {Dev = Dev} n) (add_user_named d name admin)
  add_user_named-IsSound name admin given s v =
      added (users_add s.users (some name) admin) (add-Keeps s.users name admin v.users given)
    where
      added :
          (r : Option (ℕ × Users))
          → Sessions.Keeps (keep_table r)
          → After (IsSound n) (elim r [
            | none ↦ none
            | some (status, users) ↦ some (status, record s { users = users })
          ])
      added none h = tt
      added (some (status, users)) h = record { keys = v.keys; screen = v.screen; users = h }

  files_kept :
      (r : Request)
      → is_file_call r ≡ true
      → Keeps (IsSound {Dev = Dev} n) (kernel_connector_request d r)
  files_kept = files-Keep d (IsSound n) (λ A call. on_fs-IsSound n call)

  others_kept :
      (r : Request)
      → is_file_call r ≡ false
      → is_user_call r ≡ false
      → Keeps (IsSound {Dev = Dev} n) (kernel_connector_request d r)
  others_kept = others-Keep d (IsSound n) (on_terminal-IsSound n) take_char-IsSound

  -- Whatever a program asks of the kernel, the state stays sound.
  pub kernel_connector_request-IsSound :
      (r : Request) → NamesString r → Keeps (IsSound {Dev = Dev} n) (kernel_connector_request d r)
  unfolding kernel_connector_request
  kernel_connector_request-IsSound (user_add name admin) g = add_user_named-IsSound name admin g
  kernel_connector_request-IsSound (user_remove name) g =
      on_users-IsSound n (λ t. users_remove t name) (λ t v. remove-IsValid t name v g)
  kernel_connector_request-IsSound (user_login name) g =
      on_users-IsSound n (λ t. users_login t name) (λ t v. login-IsValid t name v g)
  kernel_connector_request-IsSound user_logout g = on_users-IsSound n users_logout logout-IsValid
  kernel_connector_request-IsSound (cd path) g = files_kept (cd path) refl
  kernel_connector_request-IsSound (list path) g = files_kept (list path) refl
  kernel_connector_request-IsSound (mkdir path) g = files_kept (mkdir path) refl
  kernel_connector_request-IsSound (touch path) g = files_kept (touch path) refl
  kernel_connector_request-IsSound (delete path) g = files_kept (delete path) refl
  kernel_connector_request-IsSound (move src dest) g = files_kept (move src dest) refl
  kernel_connector_request-IsSound (copy src dest) g = files_kept (copy src dest) refl
  kernel_connector_request-IsSound (write path bytes size) g =
      files_kept (write path bytes size) refl
  kernel_connector_request-IsSound disk_format g = files_kept disk_format refl
  kernel_connector_request-IsSound disk_save g = files_kept disk_save refl
  kernel_connector_request-IsSound disk_load g = files_kept disk_load refl
  kernel_connector_request-IsSound r g = others_kept r refl refl
