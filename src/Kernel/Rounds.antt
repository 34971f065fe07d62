-- ===== src/Kernel/Rounds.antt =====
-- The rounds of `shell_run` of kernel/kernel.c on a sound state.
use pl_dos.Base.{
  ℕ, zero, suc, ◌≤◌, ◌<◌, arith, Option, none, some, List, length, replicate, length-replicate,
}
use pl_dos.Strings.{CString, Buffer, NoNul, cstr, str_trim}
use pl_dos.Strings.Buffers.{cstr-NoNul}
use pl_dos.Io.{Terminal, black}
use pl_dos.Io.History.{Call, step-IsScreen, io_print-IsScreen, io_println-IsScreen}
use pl_dos.Io.Keyboard.{io_read_line}
use pl_dos.Io.Reading.{Read, IsTyped, io_read_line-Read}
use pl_dos.Filesystem.{Disk}
use pl_dos.System.{System, M}
use pl_dos.System.Keeps.{After, Keeps, Keeps-bind}
use pl_dos.System.Sound.{IsSound, on_terminal-IsSound}
use pl_dos.Programs.Sound.{run_main-IsSound}
use pl_dos.Kernel.{
  line_size, say, say_line, use_color, shell_prompt, banner, Round, ended, run_line, read_and_run,
  shell_round, shell_rounds, shell_run,
}
use pl_dos.Kernel.Round.{fault, waiting, next}
use pl_dos.Kernel.Lines.{str_trim-NoNul, shell_prompt-Keeps, run_line-Keeps}

module _ {Dev : Type 0} (n : ℕ) where
  pub say-IsSound : (text : CString) → Keeps (IsSound {Dev = Dev} n) (say text)
  say-IsSound text = on_terminal-IsSound n _ (λ t v. io_print-IsScreen t text v)

  pub say_line-IsSound : (text : CString) → Keeps (IsSound {Dev = Dev} n) (say_line text)
  say_line-IsSound text = on_terminal-IsSound n _ (λ t v. io_println-IsScreen t text v)

  pub use_color-IsSound : (fg : ℕ) → Keeps (IsSound {Dev = Dev} n) (use_color fg)
  use_color-IsSound fg =
      on_terminal-IsSound n _ (λ t v. step-IsScreen t (Call.set_color fg black) v)

  pub banner-IsSound : Keeps (IsSound {Dev = Dev} n) banner
  unfolding banner
  banner-IsSound = search (Keeps-bind, say_line-IsSound, use_color-IsSound) depth 9

-- What a round that starts with at most `n` scancodes comes to.
abbrev RoundEnds : {Dev : Type 0} → ℕ → Round Dev → Type 0
RoundEnds n fault = Unit {0}
RoundEnds n (waiting s) = IsSound n s
RoundEnds n (next s) = (m : ℕ) × (m < n) × IsSound m s

-- A session ends in a state that is sound, where it waits for the keyboard, unless it overran an array.
abbrev pub SessionEnds : {Dev : Type 0} → ℕ → Round Dev → Type 0
SessionEnds n fault = Unit {0}
SessionEnds n (waiting s) = IsSound n s
SessionEnds n (next s) = ⊥

module _ (d : Disk) (desktop_run : List CString → M d.Dev ℕ)
    (keeps : (n : ℕ) (argv : List CString) → Keeps (IsSound n) (desktop_run argv)) where
  open d use {Dev}

  line-IsSound :
      (n : ℕ) (line : CString)
      → NoNul line
      → Keeps (IsSound {Dev = Dev} n) (run_line d desktop_run line)
  line-IsSound n line given =
      run_line-Keeps d desktop_run (IsSound n) (say-IsSound n) (say_line-IsSound n)
        (λ p argv a. run_main-IsSound d n desktop_run p argv a (keeps n argv)) line given

  ended-RoundEnds :
      (n m : ℕ) (r : Option (Unit {0} × System Dev))
      → m < n
      → After (IsSound {Dev = Dev} m) r
      → RoundEnds n (ended r)
  ended-RoundEnds n m none less h = tt
  ended-RoundEnds n m (some (a, s)) less h = (m, less, h)

  read_and_run-RoundEnds :
      (n : ℕ) (s : System Dev) → IsSound n s → RoundEnds n (read_and_run d desktop_run s)
  unfolding read_and_run
  read_and_run-RoundEnds n s v =
      onward (io_read_line s.keys (replicate line_size 0) line_size s.terminal) (
        io_read_line-Read s.keys _ line_size s.terminal (omega arith)
          (omega (arith, length-replicate {A = ℕ} line_size 0)) v.screen)
    where
      onward :
          (r : Option (Buffer × List ℕ × Terminal))
          → Read (length s.keys) (IsTyped (length {A = ℕ} (replicate line_size 0)) line_size) r
          → RoundEnds n (elim r [
            | none ↦ waiting s
            | some (line, keys, t) ↦ ended (
                run_line d desktop_run
                  (str_trim (cstr line))
                  (record s { keys = keys; terminal = t }))
          ])
      onward none h = v
      onward (some (line, keys, t)) (fewer, screen, _) =
          ended-RoundEnds n (length keys) _ (omega (arith, fewer, v.keys)) (
            line-IsSound (length keys) (str_trim (cstr line)) (str_trim-NoNul _ (cstr-NoNul line)) _
              (record { keys = omega arith; screen = screen; users = v.users }))

  shell_round-RoundEnds :
      (n : ℕ) (s : System Dev) → IsSound n s → RoundEnds n (shell_round d desktop_run s)
  unfolding shell_round
  shell_round-RoundEnds n s v =
      onward (shell_prompt s)
        (shell_prompt-Keeps d desktop_run (IsSound n) (say-IsSound n) (use_color-IsSound n) s v)
    where
      onward :
          (r : Option (Unit {0} × System Dev))
          → After (IsSound {Dev = Dev} n) r
          → RoundEnds n (elim r [ none ↦ fault | some (a, s') ↦ read_and_run d desktop_run s' ])
      onward none h = tt
      onward (some (a, s')) h = read_and_run-RoundEnds n s' h

  pub weaken : (n m : ℕ) (r : Round Dev) → m ≤ n → SessionEnds m r → SessionEnds n r
  weaken n m fault le h = tt
  weaken n m (waiting s) le h = record {
    keys = omega (arith, h.keys, le);
    screen = h.screen;
    users = h.users;
  }
  weaken n m (next s) le h = h

  shell_rounds-SessionEnds :
      (rounds n : ℕ) (s : System Dev)
      → n < rounds
      → IsSound n s
      → SessionEnds n (shell_rounds d desktop_run rounds s)
  unfolding shell_rounds
  shell_rounds-SessionEnds zero n s less v = absurd (omega (arith, less))
  shell_rounds-SessionEnds (suc rounds) n s less v =
      onward (shell_round d desktop_run s) (shell_round-RoundEnds n s v) (λ m s' lt h.
        weaken n m _ (omega (arith, lt))
          (shell_rounds-SessionEnds rounds m s' (omega (arith, lt, less)) h))
    where
      onward :
          (r : Round Dev)
          → RoundEnds n r
          → ((m : ℕ) (s' : System Dev)
              → m < n
              → IsSound m s'
              → SessionEnds n (shell_rounds d desktop_run rounds s'))
          → SessionEnds n (elim r [
            | fault ↦ fault
            | waiting s' ↦ waiting s'
            | next s' ↦ shell_rounds d desktop_run rounds s'
          ])
      onward fault h goes_on = tt
      onward (waiting s') h goes_on = h
      onward (next s') (m, lt, h) goes_on = goes_on m s' lt h

  pub shell_run-SessionEnds :
      (s : System Dev)
      → IsSound (length s.keys) s
      → SessionEnds (length s.keys) (shell_run d desktop_run s)
  unfolding shell_run
  shell_run-SessionEnds s v = shell_rounds-SessionEnds _ (length s.keys) s (omega arith) v
