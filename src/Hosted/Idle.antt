-- ===== src/Hosted/Idle.antt =====
-- What the loop of `shell_run` in src/shell.c comes to: the splitter leaves no command name.
use pl_dos.Base.{
  ℕ, zero, suc, ◌≡◌, refl, ap, ◌∙◌, inl, inr, true, some, length, ◌==◌, if◌then◌else◌, All,
  Bool-cases,
}
use pl_dos.Strings.{Buffer, cstr, str_len}
use pl_dos.Hosted.Shell.{args_max, arg_max_len}
use pl_dos.Hosted.Unrun.{IsArray, shell_parse_command_lem}
use pl_dos.Hosted.Builtins.{Services}
use pl_dos.Hosted.Loop.{
  Loop, Standing, Outcome, shell_init, allocate, read_command, finish, execute_line, shell_round,
  shell_run, started, run_started, main,
}

module _ (S : Services) where
  open S use {State}

  -- A prompt and a line, and 16 arrays from `malloc` for a line that is not empty.
  abbrev pub idle_round : Loop S → Loop S
  idle_round l =
      let l' = read_command S l in
      if str_len (cstr l'.command_buffer) == 0 then l' else record l' {
        program = record (l'.program) { state = (allocate S args_max l'.program.state).1 };
      }

  abbrev pub idle : ℕ → Loop S → Loop S
  idle zero l = l
  idle (suc rounds) l = idle rounds (idle_round l)

  module _ (fits : (k : State) → length (S.malloc arg_max_len k).0 ≡ arg_max_len) where
    length-allocate : (n : ℕ) (k : State) → length (allocate S n k).0 ≡ n
    unfolding allocate
    length-allocate zero k = refl
    length-allocate (suc n) k = ap suc (length-allocate n (S.malloc arg_max_len k).1)

    allocate-IsArray : (n : ℕ) (k : State) → All IsArray (allocate S n k).0
    unfolding allocate
    allocate-IsArray zero k = tt
    allocate-IsArray (suc n) k = (fits k, allocate-IsArray n (S.malloc arg_max_len k).1)

    execute_line_lem :
        (l : Loop S)
        → execute_line S l
          ≡ some (record l {
            program = record (l.program) { state = (allocate S args_max l.program.state).1 };
          })
    unfolding execute_line finish
    execute_line_lem l =
        let (argv, k) = allocate S args_max l.program.state in
        let (r, e, _, unrun) =
          shell_parse_command_lem (cstr l.command_buffer) argv
            (length-allocate args_max l.program.state)
            (allocate-IsArray args_max l.program.state) in
        rw (e, unrun) refl

    shell_round_lem : (l : Loop S) → shell_round S l ≡ some (idle_round l)
    unfolding shell_round
    shell_round_lem l = elim (Bool-cases (str_len (cstr (read_command S l).command_buffer) == 0)) [
      | inl none_typed ↦ rw none_typed refl
      | inr typed ↦ rw typed (execute_line_lem (read_command S l))
    ]

    idle_round-should_exit :
        (l : Loop S) → (idle_round l).program.should_exit ≡ l.program.should_exit
    idle_round-should_exit l =
        elim (Bool-cases (str_len (cstr (read_command S l).command_buffer) == 0)) [
          | inl none_typed ↦ rw none_typed refl
          | inr typed ↦ rw typed refl
        ]

    shell_run_lem :
        (rounds : ℕ) (l : Loop S)
        → l.program.should_exit ≡ 0
        → shell_run S rounds l ≡ some (Standing.going (idle rounds l))
    unfolding shell_run
    shell_run_lem zero l stays = refl
    shell_run_lem (suc rounds) l stays =
        let unset : (l.program.should_exit == 0) ≡ true = rw stays refl in
        rw (unset, shell_round_lem l)
          (shell_run_lem rounds (idle_round l) (idle_round-should_exit l ∙ stays))

-- Where `malloc` gives arrays of the size that is asked for and `shell_init` succeeds, the hosted shell
-- still runs after any number of rounds, whatever the lines typed. All that its rounds have done is
-- print prompts, read lines and allocate 16 arrays for each line that is not empty: no built-in
-- command and no program has run, and no array has been freed.
pub main_lem :
    (S : Services)
    → ((k : S.State) → length (S.malloc arg_max_len k).0 ≡ arg_max_len)
    → (rounds : ℕ) (buffer : Buffer) (k k' : S.State) → shell_init S k ≡ inr k'
    → main S rounds buffer k ≡ some (Outcome.running (idle S rounds (started S buffer k')))
unfolding main run_started
main_lem S fits rounds buffer k k' start =
    rw (start, shell_run_lem S fits rounds (started S buffer k') refl) refl
