-- ===== src/Hosted/Tests.antt =====
-- The theorems about the hosted program on given inputs.
use pl_dos.Base.{
  ℕ, ◌≡◌, refl, true, some, List, [], ◌∷◌, get_or, replicate, arith, codes, ◌+◌, ◌-◌, ◌++◌, none,
  pos, take, drop,
}
use pl_dos.Strings.{Buffer, str_compare}
use pl_dos.Hosted.Files.{
  File, Table, Host, no_file, used_files, is_named, file_named, fs_delete_file,
}
use pl_dos.Hosted.Removal.{without, fs_delete_file_lem}
use pl_dos.Strings.{str_len, str_trim}
use pl_dos.Strings.Trim.{IsCore}
use pl_dos.Hosted.Strings
use pl_dos.Hosted.Trim.{str_trim_lem}
use pl_dos.Hosted.Builtins.{Services, print_all}
use pl_dos.Hosted.Loop.{Outcome, shell_init, allocate, started, main}
use pl_dos.Hosted.Idle.{idle, main_lem}

-- Services that count the arrays allocated and hold the lines to be typed.
abbrev counted : Services
counted = record {
  State = ℕ × List Buffer;
  io_print = λ text k. k;
  io_println = λ text k. k;
  io_printf = λ text args k. k;
  io_clear_screen = λ k. k;
  io_get_string = λ buffer n k. next_line buffer k;
  fs_get_current_dir = λ k. [];
  fs_change_dir = λ path k. (pos 0, k);
  fs_create_dir = λ path k. (pos 0, k);
  fs_list_dir = λ path k. (pos 0, k);
  kernel_init = λ k. (1, k);
  kernel_shutdown = λ k. k;
  malloc = λ size k. (replicate 64 7, (k.0 + 1, k.1));
  free = λ b k. (k.0 - 1, k.1);
  is_executable = λ path k. true;
  run_child = λ path argv k. none;
}
  where
    next_line : Buffer → ℕ × List Buffer → Buffer × (ℕ × List Buffer)
    next_line buffer (n, []) = (buffer, (n, []))
    next_line buffer (n, line ∷ lines) = (line, (n, lines))

abbrev two_lines : ℕ × List Buffer
two_lines = (0, (codes "exit" ++ 0 ∷ []) ∷ (codes "help" ++ 0 ∷ []) ∷ [])

main_example :
    main counted 2 (replicate 256 0) two_lines
    ≡ some (Outcome.running (idle counted 2 (started counted (replicate 256 0) two_lines)))
unfolding shell_init print_all
main_example = main_lem counted (λ k. refl) 2 (replicate 256 0) two_lines two_lines refl

-- Both lines name built-in commands: the loop goes on, with 32 arrays that are not freed.
leaked : (idle counted 2 (started counted (replicate 256 0) two_lines)).program.state ≡ (32, [])
unfolding allocate str_len
leaked = refl

trim_example :
    (start : ℕ) × (stop : ℕ) × IsCore (codes " a b ") start stop
    × (str_trim (codes " a b ") ≡ take (stop - start) (drop start (codes " a b ")))
    × (Strings.str_trim (codes " a b ") ≡ take (stop - start) (drop start (codes " a b ")))
trim_example = str_trim_lem (codes " a b ")

abbrev named : ℕ → File
named c = record { name = c ∷ 0 ∷ []; type = 0; size = 0; content = []; created = 0 }

abbrev three : Table
three = record { files = named b'a' ∷ named b'b' ∷ named b'c' ∷ []; file_count = 3 }

abbrev host : Host
host = record { fs = some three; current_dir = b'/' ∷ 0 ∷ []; console = [] }

removal_example :
    (t' : Table) × ((fs_delete_file host (codes "b")).fs ≡ some t')
    × (is_named (codes "b") (get_or (used_files three) 1 no_file) ≡ true)
    × (used_files t' ≡ without 1 (used_files three))
unfolding file_named str_compare
removal_example = fs_delete_file_lem host three (codes "b") 1 refl (omega arith) refl
