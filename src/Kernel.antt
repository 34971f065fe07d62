-- ===== src/Kernel.antt =====
-- kernel/kernel.c: the start-up sequence, and the shell with its loop.
pub mod Commands
pub mod Dialogue
pub mod Lines
pub mod Rounds
pub mod Session
pub mod Typing
mod Tests
use pl_dos.Base.{
  ℕ, zero, suc, Option, none, some, List, [], ◌∷◌, length, replicate, ◌==◌, if◌then◌else◌, codes,
  pos,
}
use pl_dos.Strings.{CString, cstr, str_trim}
use pl_dos.Memory.{memory_init}
use pl_dos.Users.{users_init, users_current_name}
use pl_dos.Io.{black, light_grey, io_init, io_set_color, io_clear_screen, io_print, io_println}
use pl_dos.Io.Numbers.{int_chars}
use pl_dos.Io.Keyboard.{io_read_line}
use pl_dos.Filesystem.{Fs, Disk}
use pl_dos.Filesystem.Calls.{fs_get_current_dir}
use pl_dos.Filesystem.Tree.{fs_init}
use pl_dos.System.{System, M, return, ◌>>=◌, ◌>>◌, on_terminal, on_fs}
use pl_dos.Programs.{Program, programs_init, programs_find}
use pl_dos.Programs.Dispatch.{run_main}
use pl_dos.Shell.{shell_parse}

abbrev pub light_green : ℕ
light_green = 10

abbrev pub light_cyan : ℕ
light_cyan = 11

abbrev pub light_red : ℕ
light_red = 12

-- `char line[256]; char *argv[16];`
abbrev pub line_size : ℕ
line_size = 256

abbrev pub max_args : ℕ
max_args = 16

module _ {Dev : Type 0} where
  abbrev pub say : CString → M Dev (Unit {0})
  say text = on_terminal (λ t. io_print t text)

  abbrev pub say_line : CString → M Dev (Unit {0})
  say_line text = on_terminal (λ t. io_println t text)

  abbrev pub use_color : ℕ → M Dev (Unit {0})
  use_color fg = on_terminal (λ t. io_set_color t fg black)

  -- The state in which the machine is halted.
  unfoldable pub kernel_panic : CString → M Dev (Unit {0})
  kernel_panic message = do use_color light_red; say_line (codes "KERNEL PANIC"); say_line message

  unfoldable pub shell_prompt : M Dev (Unit {0})
  shell_prompt = do
    use_color light_green
    λ s. say (users_current_name s.users) s
    say (codes "@")
    λ s. say (fs_get_current_dir s.fs) s
    say (codes "> ")
    use_color light_grey

  unfoldable pub banner : M Dev (Unit {0})
  banner = do
    use_color light_cyan
    say_line (codes "plDOS 0.1.0")
    use_color light_grey
    say_line (codes "Terminal-first DOS-style OS. Type 'help' to begin.")
    say_line []

  abbrev pub start_heap : M Dev (Unit {0})
  start_heap s = some (tt, record s { heap_used = memory_init })

  abbrev pub start_users : M Dev (Unit {0})
  start_users s = elim (users_init s.users) [
    | none ↦ none
    | some users ↦ some (tt, record s { users = users })
  ]

-- How a round of the shell's loop ends: with a write outside an array, waiting for a line that the
-- keyboard does not finish, or at the head of the next round. In the second case the state is the one
-- that shows the prompt.
pub data Round (Dev : Type 0) : Type 0 where
  fault : Round Dev
  waiting : System Dev → Round Dev
  next : System Dev → Round Dev

-- The `fs_init` of a state, with nothing to answer.
abbrev pub done : {Dev : Type 0} → Option (Fs Dev) → Option (Unit {0} × Fs Dev)
done none = none
done (some fs) = some (tt, fs)

-- A round that was not left early.
abbrev pub ended : {Dev : Type 0} → Option (Unit {0} × System Dev) → Round Dev
ended none = fault
ended (some (a, s)) = next s

module _ (d : Disk) where
  open d use {Dev}

  abbrev pub start_disk : M Dev (Unit {0})
  start_disk s = some (tt, record s { fs = record s.fs { dev = d.disk_init s.fs.dev } })

  unfoldable pub kernel_init : M Dev (Unit {0})
  kernel_init = do
    on_terminal io_init
    start_heap
    start_users
    start_disk
    on_fs (λ fs. done (fs_init d fs))
    programs_init d

module _ (d : Disk) (desktop_run : List CString → M d.Dev ℕ) where
  open d use {Dev}

  -- What is printed of a status.
  unfoldable pub report_status : ℕ → M Dev (Unit {0})
  report_status rc =
      if rc == 0
      then return tt
      else do say (codes "Command returned "); say (int_chars (pos rc)); say_line []

  unfoldable pub run_program : Option Program → CString → List CString → M Dev (Unit {0})
  run_program none name argv = do say (codes "Unknown command: "); say_line name
  run_program (some program) name argv = run_main d desktop_run program.main argv >>= report_status

  -- What follows `shell_parse`; `none`, a lack of fuel, does not happen.
  unfoldable pub run_words : Option (List CString) → M Dev (Unit {0})
  run_words none = return tt
  run_words (some []) = return tt
  run_words (some (name ∷ args)) = run_program (programs_find name) name (name ∷ args)

  -- What follows `str_trim`.
  unfoldable pub run_line : CString → M Dev (Unit {0})
  run_line [] = return tt
  run_line (c ∷ line) = run_words (shell_parse (c ∷ line) max_args)

  -- The round that starts at the prompt. The array `line` is as at its first use: the code reads no
  -- byte of it that this round has not written.
  unfoldable pub read_and_run : System Dev → Round Dev
  read_and_run s = elim (io_read_line s.keys (replicate line_size 0) line_size s.terminal) [
    | none ↦ waiting s
    | some (line, keys, t) ↦
        ended (run_line (str_trim (cstr line)) (record s { keys = keys; terminal = t }))
  ]

  unfoldable pub shell_round : System Dev → Round Dev
  shell_round s = elim (shell_prompt s) [ none ↦ fault | some (a, s') ↦ read_and_run s' ]

  -- The rounds that are left.
  unfoldable pub shell_rounds : ℕ → System Dev → Round Dev
  shell_rounds zero s = next s
  shell_rounds (suc rounds) s = elim (shell_round s) [
    | fault ↦ fault
    | waiting s' ↦ waiting s'
    | next s' ↦ shell_rounds rounds s'
  ]

  -- Each round takes a scancode at least.
  unfoldable pub shell_run : System Dev → Round Dev
  shell_run s = shell_rounds (suc (length s.keys)) s

  -- `kmain` before the first prompt.
  unfoldable pub boot : M Dev (Unit {0})
  boot = do kernel_init d; on_terminal io_clear_screen; banner

  unfoldable pub kmain : System Dev → Round Dev
  kmain s = elim (boot s) [ none ↦ fault | some (a, s') ↦ shell_run s' ]
