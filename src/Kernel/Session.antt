-- ===== src/Kernel/Session.antt =====
-- Start-up, and a whole session of kernel/kernel.c from `kmain` on.
use pl_dos.Base.{ℕ, ◌≤◌, sym, subst, arith, Option, none, some, List, length}
use pl_dos.Strings.{CString}
use pl_dos.Users.Init.{IsStorage, users_init_lem}
use pl_dos.Io.{io_init, io_clear_screen}
use pl_dos.Io.Screen.{IsScreen, IsRows}
use pl_dos.Io.History.{io_clear_screen-IsScreen, io_init-IsScreen}
use pl_dos.Filesystem.{Disk}
use pl_dos.Filesystem.Tree.{fs_init}
use pl_dos.System.{System, M, ◌>>◌, on_terminal, on_fs}
use pl_dos.System.Keeps.{After, Leads, Leads-bind, Keeps, Keeps-bind}
use pl_dos.System.Sound.{IsSound, on_terminal-IsSound, on_fs-IsSound}
use pl_dos.Programs.{programs_init}
use pl_dos.Programs.Sound.{programs_init-IsSound}
use pl_dos.Kernel.{start_heap, start_disk, start_users, done, kernel_init, shell_run, boot, kmain}
use pl_dos.Kernel.Round.{fault}
use pl_dos.Kernel.Rounds.{SessionEnds, weaken, shell_run-SessionEnds, banner-IsSound}

module _ (d : Disk) (desktop_run : List CString → M d.Dev ℕ)
    (keeps : (n : ℕ) (argv : List CString) → Keeps (IsSound n) (desktop_run argv)) where
  open d use {Dev}

  -- What `kernel_init` finds, and what `io_init` makes of it.
  abbrev Loaded : ℕ → System Dev → Type 0
  Loaded n s = (length s.keys ≤ n) × IsRows s.terminal × IsStorage s.users

  abbrev Shown : ℕ → System Dev → Type 0
  Shown n s = (length s.keys ≤ n) × IsScreen s.terminal × IsStorage s.users

  start_users-Leads : (n : ℕ) → Leads (Shown n) (IsSound n) start_users
  start_users-Leads n s (keys, screen, storage) =
      let (users, e, valid, _) = users_init_lem s.users storage in
      subst
        (λ r.
          After (IsSound n)
            (elim r [ none ↦ none | some users ↦ some (tt, record s { users = users }) ]))
        (sym e) (record { keys = keys; screen = screen; users = valid })

  screen_up : (n : ℕ) → Leads {A = Unit {0}} (Loaded n) (Shown n) (on_terminal io_init)
  screen_up n s (keys, rows, storage) = (keys, io_init-IsScreen s.terminal rows, storage)

  disk_up :
      (n : ℕ)
      → Keeps
          (IsSound {Dev = Dev} n)
          (do start_disk d; on_fs (λ fs. done (fs_init d fs)); programs_init d)
  disk_up n =
      Keeps-bind (IsSound n) (start_disk d) _
        (λ s v. record { keys = v.keys; screen = v.screen; users = v.users })
        (λ a.
          Keeps-bind (IsSound n) _ _ (on_fs-IsSound n (λ fs. done (fs_init d fs)))
            (λ b. programs_init-IsSound d n))

  kernel_init-Leads : (n : ℕ) → Leads (Loaded n) (IsSound n) (kernel_init d)
  unfolding kernel_init
  kernel_init-Leads n =
      Leads-bind (Loaded n) (Shown n) (IsSound n) (on_terminal io_init) _ (screen_up n) (λ a.
        Leads-bind (Shown n) (Shown n) (IsSound n) start_heap _ (λ s h. h)
          (λ b.
            Leads-bind (Shown n) (IsSound n) (IsSound n) start_users _ (start_users-Leads n)
              (λ c. disk_up n)))

  boot-Leads : (n : ℕ) → Leads (Loaded n) (IsSound n) (boot d desktop_run)
  unfolding boot
  boot-Leads n =
      Leads-bind (Loaded n) (IsSound n) (IsSound n) (kernel_init d) _ (kernel_init-Leads n) (λ a.
        Keeps-bind (IsSound n) (on_terminal io_clear_screen) _
          (on_terminal-IsSound n io_clear_screen (λ t v. io_clear_screen-IsScreen t v.rows))
          (λ b. banner-IsSound n))

  -- However the static storage was filled and whatever the disk holds and the keyboard delivers, a
  -- session does not go on for ever: after start-up the shell runs commands until it waits for the
  -- keyboard or overran an array. Where it waits, the terminal and the user table are sound.
  pub kmain-SessionEnds :
      (s : System Dev)
      → IsRows s.terminal
      → IsStorage s.users
      → SessionEnds (length s.keys) (kmain d desktop_run s)
  unfolding kmain
  kmain-SessionEnds s rows storage =
      onward (boot d desktop_run s) (boot-Leads (length s.keys) s (omega arith, rows, storage))
    where
      onward :
          (r : Option (Unit {0} × System Dev))
          → After (IsSound (length s.keys)) r
          → SessionEnds
              (length s.keys)
              (elim r [ none ↦ fault | some (a, s') ↦ shell_run d desktop_run s' ])
      onward none h = tt
      onward (some (a, s')) h =
          weaken d desktop_run keeps _ (length s'.keys) (shell_run d desktop_run s') h.keys (
            shell_run-SessionEnds d desktop_run keeps s'
              (record { keys = omega arith; screen = h.screen; users = h.users }))
