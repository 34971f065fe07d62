-- ===== src/Kernel/Tests.antt =====
-- A machine that is switched on, and the theorems on it.
use pl_dos.Base.{
  ℕ, ◌≡◌, refl, false, List, [], ◌∷◌, length, replicate, All-replicate, ◌++◌, take, arith, codes,
}
use pl_dos.Strings.{CString, str_trim}
use pl_dos.Users.{User, Users}
use pl_dos.Users.Init.{IsStorage}
use pl_dos.Io.{Terminal, blank_cell}
use pl_dos.Io.Screen.{IsRows}
use pl_dos.Filesystem.Samples.{disk_in_memory, booted, root_only-IsTree}
use pl_dos.System.{System, M, return}
use pl_dos.Io.Keyboard.{scancode_to_ascii}
use pl_dos.Io.Typing.{enter, strokes, text_of}
use pl_dos.Kernel.{ended, run_line, read_and_run, shell_run, kmain}
use pl_dos.Shell.{skip_gap, cut_word, cut_arg, parse_args, shell_parse}
use pl_dos.Programs.Effects.Verb.{mkdir}
use pl_dos.Programs.Typed.Command.{change, write}
use pl_dos.Kernel.Dialogue.{Entry, IsEntry, dialogue, Answers, shell_run-Answers}
use pl_dos.Kernel.Typing.{read_and_run_typed}
use pl_dos.Kernel.Rounds.{SessionEnds}
use pl_dos.Kernel.Session.{kmain-SessionEnds}

abbrev blank_terminal : Terminal
blank_terminal = record {
  scrollback = replicate 200 (replicate 80 (blank_cell 0));
  terminal_line = 9;
  terminal_column = 99;
  viewport_top = 7;
  terminal_color = 0;
  extended_scancode = false;
  vga_memory = [];
  cursor = 0;
}

blank_terminal-IsRows : IsRows blank_terminal
blank_terminal-IsRows = record {
  count = refl;
  widths = All-replicate (λ row. length row ≡ 80) 200 (replicate 80 (blank_cell 0)) refl;
}

abbrev blank : User
blank = record { name = replicate 24 0; active = 0; admin = 0 }

abbrev blank_users : Users
blank_users = record { users = replicate 16 blank; current_user = 7 }

blank_users-IsStorage : IsStorage blank_users
blank_users-IsStorage = record {
  count = refl;
  sizes = All-replicate (λ (u : User). length u.name ≡ 24) 16 blank refl;
}

-- The keys p, w, d and Enter.
abbrev powered : System (List (List ℕ))
powered = record {
  terminal = blank_terminal;
  heap_used = 5;
  users = blank_users;
  fs = booted;
  keys = 0x19 ∷ 0x11 ∷ 0x20 ∷ 0x1C ∷ [];
}

-- A desktop that ends at once.
abbrev no_desktop : List CString → M (List (List ℕ)) ℕ
no_desktop argv = return 0

kmain_example : SessionEnds 4 (kmain disk_in_memory no_desktop powered)
kmain_example =
    kmain-SessionEnds disk_in_memory no_desktop (λ n argv s v. v) powered blank_terminal-IsRows
      blank_users-IsStorage

-- The same keys, each of which is released.
abbrev pwd_keys : List ℕ
pwd_keys = 0x19 ∷ 0x11 ∷ 0x20 ∷ []

abbrev typing : System (List (List ℕ))
typing = record powered { keys = strokes pwd_keys ++ enter ∷ [] }

typed_example :
    (t : Terminal) × (read_and_run disk_in_memory no_desktop typing
      ≡ ended (
          run_line disk_in_memory no_desktop
            (str_trim (take 255 (text_of pwd_keys)))
            (record typing { keys = []; terminal = t })))
unfolding scancode_to_ascii
typed_example =
    read_and_run_typed disk_in_memory no_desktop typing pwd_keys [] refl
      ((omega arith, omega arith), ((omega arith, omega arith), ((omega arith, omega arith), tt)))
      refl

pwd_typed : text_of pwd_keys ≡ codes "pwd"
unfolding scancode_to_ascii
pwd_typed = refl

-- The keys of "mkdir d".
abbrev mkdir_keys : List ℕ
mkdir_keys = 0x32 ∷ 0x25 ∷ 0x20 ∷ 0x17 ∷ 0x13 ∷ 0x39 ∷ 0x20 ∷ []

-- The keys of "write a hi".
abbrev write_keys : List ℕ
write_keys = 0x11 ∷ 0x13 ∷ 0x17 ∷ 0x14 ∷ 0x12 ∷ 0x39 ∷ 0x1E ∷ 0x39 ∷ 0x23 ∷ 0x17 ∷ []

abbrev two_lines : List Entry
two_lines =
    record { keys = mkdir_keys; command = change mkdir (codes "d") [] }
    ∷ record { keys = write_keys; command = write (codes "a") (codes "hi") [] }
    ∷ []

abbrev talking : System (List (List ℕ))
talking = record powered { keys = dialogue two_lines }

mkdir_entered : IsEntry (record { keys = mkdir_keys; command = change mkdir (codes "d") [] })
unfolding scancode_to_ascii str_trim shell_parse parse_args skip_gap cut_arg cut_word
mkdir_entered = (omega arith, refl, tt)

write_entered : IsEntry (record { keys = write_keys; command = write (codes "a") (codes "hi") [] })
unfolding scancode_to_ascii str_trim shell_parse parse_args skip_gap cut_arg cut_word
write_entered = (omega arith, refl, ((omega arith, tt), omega arith))

dialogue_example : Answers two_lines talking (shell_run disk_in_memory no_desktop talking)
dialogue_example =
    shell_run-Answers disk_in_memory no_desktop talking two_lines refl refl
      (mkdir_entered, (write_entered, tt)) root_only-IsTree
