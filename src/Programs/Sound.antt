-- ===== src/Programs/Sound.antt =====
-- Every command leaves a sound state sound.
use pl_dos.Base.{ℕ, zero, suc, ◌≤◌, ◌≡◌, true, List, [], ◌∷◌, length, All}
use pl_dos.Strings.{CString, NoNul}
use pl_dos.Filesystem.{Disk}
use pl_dos.System.{M}
use pl_dos.System.Keeps.{Keeps}
use pl_dos.System.Sound.{IsSound}
use pl_dos.Connector.{Request, kernel_connector_request}
use pl_dos.Connector.Request.{user_add, user_remove, user_login, move, write, disk_load}
use pl_dos.Connector.Sound.{NamesString, kernel_connector_request-IsSound}
use pl_dos.Programs.{Main, programs_init}
use pl_dos.Programs.Commands.{arg}
use pl_dos.Programs.Dispatch.{prog_desktop, run_main}
use pl_dos.Programs.Requests.{is_basic}
use pl_dos.Programs.Changes.{
  is_special, prog_login-Keeps, prog_move-Keeps, prog_load-Keeps, prog_useradd-Keeps,
  prog_userdel-Keeps, prog_write-Keeps, run_main-Keeps, programs_init-Keeps,
}

basic_names : (r : Request) → is_basic r ≡ true → NamesString r
basic_names (user_add name admin) h = absurd (cc)
basic_names (user_remove name) h = absurd (cc)
basic_names (user_login name) h = absurd (cc)
basic_names r h = tt

pub arg-NoNul : (argv : List CString) (i : ℕ) → All NoNul argv → NoNul (arg argv i)
arg-NoNul [] i a = tt
arg-NoNul (w ∷ argv) zero a = a.0
arg-NoNul (w ∷ argv) (suc i) a = arg-NoNul argv i a.1

module _ (d : Disk) (n : ℕ) where
  open d use {Dev}

  asked :
      (r : Request)
      → is_basic r ≡ true
      → Keeps (IsSound {Dev = Dev} n) (kernel_connector_request d r)
  asked r b = kernel_connector_request-IsSound d n r (basic_names r b)

  written :
      (path : CString) (bytes : List ℕ) (size : ℕ)
      → size ≤ length bytes
      → Keeps (IsSound {Dev = Dev} n) (kernel_connector_request d (write path bytes size))
  written path bytes size given = kernel_connector_request-IsSound d n (write path bytes size) tt

  pub programs_init-IsSound : Keeps (IsSound {Dev = Dev} n) (programs_init d)
  programs_init-IsSound = programs_init-Keeps d (IsSound n) asked written

  -- The arguments are strings, and the desktop, which is not part of the repository, keeps to the rule.
  pub run_main-IsSound :
      (desktop_run : List CString → M Dev ℕ) (p : Main) (argv : List CString)
      → All NoNul argv
      → Keeps (IsSound n) (desktop_run argv)
      → Keeps (IsSound n) (run_main d desktop_run p argv)
  unfolding run_main prog_desktop
  run_main-IsSound desktop_run p argv a keeps =
      run_main-Keeps d (IsSound n) asked desktop_run argv p (special p)
    where
      name : (i : ℕ) → NoNul (arg argv i)
      name i = arg-NoNul argv i a

      special : (p : Main) → is_special p ≡ true → Keeps (IsSound n) (run_main d desktop_run p argv)
      special Main.prog_desktop h = keeps
      special Main.prog_load h =
          prog_load-Keeps d (IsSound n) asked argv
            (kernel_connector_request-IsSound d n disk_load tt)
      special Main.prog_login h =
          prog_login-Keeps d (IsSound n) asked argv
            (kernel_connector_request-IsSound d n (user_login (arg argv 1)) (name 1))
      special Main.prog_move h =
          prog_move-Keeps d (IsSound n) asked argv
            (kernel_connector_request-IsSound d n (move (arg argv 1) (arg argv 2)) tt)
      special Main.prog_useradd h =
          prog_useradd-Keeps d (IsSound n) asked argv
            (λ admin. kernel_connector_request-IsSound d n (user_add (arg argv 1) admin) (name 1))
      special Main.prog_userdel h =
          prog_userdel-Keeps d (IsSound n) asked argv
            (kernel_connector_request-IsSound d n (user_remove (arg argv 1)) (name 1))
      special Main.prog_write h = prog_write-Keeps d (IsSound n) asked written argv
      special p h = absurd (cc)
