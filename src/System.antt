-- ===== src/System.antt =====
-- The state of the whole kernel, and the sequencing of code that works on it: `none` is a write outside
-- an array, which ends the run.
pub mod Keeps
pub mod Sound
use pl_dos.Base.{ℕ, Option, none, some, List, [], ◌∷◌}
use pl_dos.Users.{Users}
use pl_dos.Io.{Terminal, io_print}
use pl_dos.Filesystem.{Fs}

-- The static variables of the kernel's files, and the scancodes that the keyboard will deliver. The
-- filesystem's own list of printed text is empty between its calls.
pub record System (Dev : Type 0) : Type 0 where
  pub terminal : Terminal
  pub heap_used : ℕ
  pub users : Users
  pub fs : Fs Dev
  pub keys : List ℕ

abbrev pub M : Type 0 → Type 0 → Type 0
M Dev A = System Dev → Option (A × System Dev)

infixl 5 ◌>>=◌ ◌>>◌
abbrev pub ◌>>=◌ : {Dev A B : Type 0} → M Dev A → (A → M Dev B) → M Dev B
◌>>=◌ m f s = elim (m s) [ none ↦ none | some (a, s') ↦ f a s' ]

abbrev pub ◌>>◌ : {Dev A B : Type 0} → M Dev A → M Dev B → M Dev B
m >> k = m >>= λ a. k

abbrev pub return : {Dev A : Type 0} → A → M Dev A
return a s = some (a, s)

module _ {Dev : Type 0} where
  -- A call of the terminal.
  abbrev pub on_terminal : (Terminal → Terminal) → M Dev (Unit {0})
  on_terminal call s = some (tt, record s { terminal = call s.terminal })

  abbrev pub on_users : {A : Type 0} → (Users → A × Users) → M Dev A
  on_users call s = let (a, users) = call s.users in some (a, record s { users = users })

  -- The state after a call of the filesystem: what it printed is on the terminal.
  abbrev pub printed : System Dev → Fs Dev → System Dev
  printed s fs = record s {
    fs = record fs { console = [] };
    terminal = io_print s.terminal fs.console;
  }

  abbrev pub on_fs : {A : Type 0} → (Fs Dev → Option (A × Fs Dev)) → M Dev A
  on_fs call s = elim (call (record s.fs { console = [] })) [
    | none ↦ none
    | some (a, fs) ↦ some (a, printed s fs)
  ]

  -- A query of the filesystem.
  abbrev pub ask_fs : {A : Type 0} → (Fs Dev → Option A) → M Dev A
  ask_fs query s = elim (query s.fs) [ none ↦ none | some a ↦ some (a, s) ]
