-- ===== src/Hosted/Loop.antt =====
-- `shell_init`, `shell_run` and `main` of src/shell.c, and src/main.c.
use pl_dos.Base.{
  ℕ, zero, suc, ◌-◌, ◌⊎◌, inl, inr, Option, none, some, List, [], ◌∷◌, ◌++◌, ◌==◌, if◌then◌else◌,
  codes, ◌>>=◌,
}
use pl_dos.Strings.{CString, Buffer, cstr, str_len, str_eq}
use pl_dos.Hosted.Shell.{args_max, arg_max_len, shell_parse_command, runs_command}
use pl_dos.Hosted.Builtins.{
  Services, Command, Builtin, Program, builtins, arg, boxed, edge, call, print_all,
  try_execute_program,
}

abbrev pub command_buffer_size : ℕ
command_buffer_size = 256

module _ (S : Services) where
  open S use {State}

  -- The state of the loop: `argv` and `argc` are set anew before they are read.
  pub record Loop : Type 0 where
    pub program : Program S
    pub command_buffer : Buffer

  -- `inl` is where `exit(1)` ends the process.
  unfoldable pub shell_init : State → State ⊎ State
  shell_init k =
      let (answer, k') = S.kernel_init k in
      if answer == 0
      then inl (S.io_println (codes "Error: Failed to initialize kernel") k')
      else inr (
          print_all S
            ((10 ∷ [])
              ∷ edge 148 151
              ∷ boxed (codes "   Welcome to OpenDOS 2.0 (Kernel)  ")
              ∷ boxed (codes "  A modular, DOS-style OS in C      ")
              ∷ boxed (codes "  Type 'help' for available cmds    ")
              ∷ edge 154 157
              ∷ []
              ∷ [])
            (S.io_clear_screen k'))

  -- The first entry of that name.
  unfoldable pub find_builtin : List Builtin → CString → Option Command
  find_builtin [] cmd = none
  find_builtin (b ∷ bs) cmd = if str_eq b.name cmd then some b.func else find_builtin bs cmd

  -- `if (result == -1)`, with its message.
  abbrev complain : CString → Option ℕ → State → State
  complain cmd (some code) k = k
  complain cmd none k =
      S.io_printf
        (codes "Error: Unknown command '%s'. Type 'help' for available commands." ++ 10 ∷ [])
        (cmd ∷ []) k

  -- The command named by `argv[0]`, built in or a program.
  unfoldable pub run_command : ℕ → List Buffer → Program S → Option (Program S)
  run_command argc argv p = elim (find_builtin builtins (arg argv 0)) [
    | some command ↦ some (call S command argc argv p).1
    | none ↦ do
      (result, k) ← try_execute_program S (arg argv 0) argv p.state
      some (record p { state = complain (arg argv 0) result k })
  ]

  -- The arrays of `argv`, from `malloc`.
  unfoldable pub allocate : ℕ → State → List Buffer × State
  allocate zero k = ([], k)
  allocate (suc n) k =
      let (b, k) = S.malloc arg_max_len k in let (bs, k) = allocate n k in (b ∷ bs, k)

  -- `if (argv[i]) free(argv[i]);` for each of them.
  unfoldable pub free_all : List Buffer → State → State
  free_all [] k = k
  free_all ([] ∷ bs) k = free_all bs k
  free_all ((x ∷ b) ∷ bs) k = free_all bs (S.free (x ∷ b) k)

  -- The prompt and the line.
  abbrev pub read_command : Loop → Loop
  read_command l =
      let (b, k) =
        S.io_get_string l.command_buffer (command_buffer_size - 1)
          (S.io_print (codes "openDOS> ") l.program.state) in
      record { program = record (l.program) { state = k }; command_buffer = b }

  -- The command, where there is one, after which the arrays are freed.
  unfoldable pub finish : List Buffer → ℕ → Loop → Option Loop
  finish argv argc l =
      if runs_command (argv, argc)
      then (do
        p ← run_command argc argv l.program
        some (record l { program = record p { state = free_all argv p.state } }))
      else some l

  -- From the splitting of the line to the end of the round.
  unfoldable pub execute_line : Loop → Option Loop
  execute_line l =
      let (argv, k) = allocate args_max l.program.state in
      do
        (argv, argc) ← shell_parse_command (cstr l.command_buffer) argv
        finish argv argc (record l { program = record (l.program) { state = k } })

  -- A round of the loop.
  unfoldable pub shell_round : Loop → Option Loop
  shell_round l =
      let l' = read_command l in
      if str_len (cstr l'.command_buffer) == 0 then some l' else execute_line l'

  -- How the loop stands after a number of rounds: it goes on, or has ended and shut the kernel down.
  pub data Standing : Type 0 where
    going : Loop → Standing
    ended : Program S → Standing

  unfoldable pub shell_run : ℕ → Loop → Option Standing
  shell_run zero l = some (going l)
  shell_run (suc rounds) l =
      if l.program.should_exit == 0
      then shell_round l >>= shell_run rounds
      else some (ended (record (l.program) { state = S.kernel_shutdown l.program.state }))

  -- The processes: one that runs the loop still, and one that has ended with a status.
  pub data Outcome : Type 0 where
    running : Loop → Outcome
    exited : ℕ → State → Outcome

  -- The end of `main`, for the result of the loop.
  abbrev status : Standing → Outcome
  status (going l) = running l
  status (ended p) = exited 0 p.state

  -- The loop is entered: `should_exit` is 0 in the static storage.
  abbrev pub started : Buffer → State → Loop
  started buffer k = record {
    program = record { state = k; should_exit = 0 };
    command_buffer = buffer;
  }

  -- `main` behind `shell_init`.
  unfoldable pub run_started : ℕ → Buffer → State ⊎ State → Option Outcome
  run_started rounds buffer (inl k) = some (exited 1 k)
  run_started rounds buffer (inr k) = do
    standing ← shell_run rounds (started buffer k)
    some (status standing)

  -- `main` of src/shell.c for a number of rounds. `command_buffer` starts with any bytes.
  unfoldable pub main : ℕ → Buffer → State → Option Outcome
  main rounds buffer k = run_started rounds buffer (shell_init k)
