-- ===== src/System/Sound.antt =====
-- The state that the kernel keeps sound: the user table, the terminal, and the keyboard, which only
-- gets emptier.
use pl_dos.Base.{ℕ, ◌≤◌, Option, none, some, [], length}
use pl_dos.Users.{Users}
use pl_dos.Users.Table.{IsValid}
use pl_dos.Io.{Terminal}
use pl_dos.Io.Screen.{IsScreen}
use pl_dos.Io.History.{io_print-IsScreen}
use pl_dos.Filesystem.{Fs}
use pl_dos.System.{System, on_terminal, on_users, printed, on_fs, ask_fs}
use pl_dos.System.Keeps.{After, Keeps}

-- No more than `n` scancodes are left.
pub record IsSound {Dev : Type 0} (n : ℕ) (s : System Dev) : Type 0 where
  pub keys : length s.keys ≤ n
  pub screen : IsScreen s.terminal
  pub users : IsValid s.users

module _ {Dev : Type 0} (n : ℕ) where
  pub on_terminal-IsSound :
      (call : Terminal → Terminal)
      → ((t : Terminal) → IsScreen t → IsScreen (call t))
      → Keeps (IsSound {Dev = Dev} n) (on_terminal call)
  on_terminal-IsSound call keeps s v = record {
    keys = v.keys;
    screen = keeps s.terminal v.screen;
    users = v.users;
  }

  pub on_users-IsSound :
      {A : Type 0} (call : Users → A × Users)
      → ((t : Users) → IsValid t → IsValid (call t).1)
      → Keeps (IsSound {Dev = Dev} n) (on_users call)
  on_users-IsSound call keeps s v = record {
    keys = v.keys;
    screen = v.screen;
    users = keeps s.users v.users;
  }

  pub on_fs-IsSound :
      {A : Type 0} (call : Fs Dev → Option (A × Fs Dev)) → Keeps (IsSound n) (on_fs call)
  on_fs-IsSound {A} call s v = after (call (record s.fs { console = [] }))
    where
      after :
          (r : Option (A × Fs Dev))
          → After (IsSound n) (elim r [ none ↦ none | some (a, fs) ↦ some (a, printed s fs) ])
      after none = tt
      after (some (a, fs)) = record {
        keys = v.keys;
        screen = io_print-IsScreen _ fs.console v.screen;
        users = v.users;
      }

-- A query changes nothing.
pub ask_fs-Keeps :
    {Dev A : Type 0} (P : System Dev → Type 0) (query : Fs Dev → Option A) → Keeps P (ask_fs query)
ask_fs-Keeps {Dev} {A} P query s v = after (query s.fs)
  where
    after : (r : Option A) → After P (elim r [ none ↦ none | some a ↦ some (a, s) ])
    after none = tt
    after (some a) = v
