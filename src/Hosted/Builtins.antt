-- ===== src/Hosted/Builtins.antt =====
-- The built-in commands of src/shell.c and the programs that it runs. The file is written against kernel
-- functions with other types than kernel/ declares, or that kernel/ does not have, and against the C
-- library: all of them are parameters, the fields of `Services`.
use pl_dos.Base.{
  ℕ, zero, suc, ◌+◌, ◌-◌, Bool, Option, none, some, List, [], ◌∷◌, ◌++◌, get_or, ltb, if◌then◌else◌,
  replicate, codes, ℤ, pos, ◌>>=◌,
}
use pl_dos.Strings.{CString, Buffer, cstr, str_copy, str_concat}

-- What the file calls, over the state behind it. `malloc` gives an array, the empty one where it gives
-- NULL; `io_get_string` takes the array that it fills and gives it back. `run_child` is `fork`, the child
-- process, which runs `execv`, and `waitpid`: `none` where the fork fails, and the status of a child that
-- has exited, or `none` of a child that has not.
pub record Services : Type 1 where
  pub State : Type 0
  pub io_print : CString → State → State
  pub io_println : CString → State → State
  pub io_printf : CString → List CString → State → State
  pub io_clear_screen : State → State
  pub io_get_string : Buffer → ℕ → State → Buffer × State
  pub fs_get_current_dir : State → CString
  pub fs_change_dir : CString → State → ℤ × State
  pub fs_create_dir : CString → State → ℤ × State
  pub fs_list_dir : CString → State → ℤ × State
  pub kernel_init : State → ℕ × State
  pub kernel_shutdown : State → State
  pub malloc : ℕ → State → Buffer × State
  pub free : Buffer → State → State
  pub is_executable : CString → State → Bool
  pub run_child : CString → List Buffer → State → Option (Option ℕ × State)

-- The functions that the table names.
pub data Command : Type 0 where
  help clear echo pwd cd mkdir ls about exit : Command

pub record Builtin : Type 0 where
  pub name : CString
  pub func : Command
  pub description : CString

-- Without the entry of null pointers, which ends the table.
unfoldable pub builtins : List Builtin
builtins =
    record { name = codes "help"; func = help; description = codes "Show available commands" }
    ∷ record { name = codes "clear"; func = clear; description = codes "Clear the screen" }
    ∷ record { name = codes "cls"; func = clear; description = codes "Clear the screen (alias)" }
    ∷ record { name = codes "echo"; func = echo; description = codes "Print text to console" }
    ∷ record { name = codes "pwd"; func = pwd; description = codes "Print working directory" }
    ∷ record { name = codes "cd"; func = cd; description = codes "Change directory" }
    ∷ record { name = codes "mkdir"; func = mkdir; description = codes "Create a directory" }
    ∷ record { name = codes "ls"; func = ls; description = codes "List directory contents" }
    ∷ record { name = codes "about"; func = about; description = codes "About OpenDOS" }
    ∷ record { name = codes "exit"; func = exit; description = codes "Exit the system" }
    ∷ record { name = codes "quit"; func = exit; description = codes "Exit the system (alias)" }
    ∷ []

-- The bytes of `║`, and of a line between corners, each of which is given by its last byte.
abbrev bar : CString
bar = 226 ∷ 149 ∷ 145 ∷ []

abbrev pub boxed : CString → CString
boxed text = bar ++ text ++ bar

abbrev double_line : ℕ → CString
double_line zero = []
double_line (suc n) = 226 ∷ 149 ∷ 144 ∷ double_line n

abbrev pub edge : ℕ → ℕ → CString
edge left right = 226 ∷ 149 ∷ left ∷ double_line 37 ++ 226 ∷ 149 ∷ right ∷ []

-- The string `argv[i]`.
abbrev pub arg : List Buffer → ℕ → CString
arg argv i = cstr (get_or argv i [])

module _ (S : Services) where
  open S use {State}

  -- The state behind the file, and its static flag.
  pub record Program : Type 0 where
    pub state : State
    pub should_exit : ℕ

  -- A command whose answer is 0.
  abbrev done : Program → (State → State) → ℤ × Program
  done p f = (pos 0, record p { state = f p.state })

  -- A command that passes on an answer.
  abbrev answer : Program → ℤ × State → ℤ × Program
  answer p r = (r.0, record p { state = r.1 })

  unfoldable pub print_all : List CString → State → State
  print_all [] k = k
  print_all (text ∷ texts) k = print_all texts (S.io_println text k)

  unfoldable pub list_builtins : List Builtin → State → State
  list_builtins [] k = k
  list_builtins (b ∷ bs) k =
      list_builtins bs
        (S.io_printf (codes "  %-15s - %s" ++ 10 ∷ []) (b.name ∷ b.description ∷ []) k)

  unfoldable pub cmd_help : Program → ℤ × Program
  cmd_help p = done p (λ k.
      print_all
        ((10 ∷ codes "You can also create custom programs in /progs/")
          ∷ (codes "and call them like any other command." ++ 10 ∷ [])
          ∷ [])
        (list_builtins builtins (S.io_println (10 ∷ codes "Built-in commands:") k)))

  unfoldable pub cmd_clear : Program → ℤ × Program
  cmd_clear p = done p S.io_clear_screen

  -- The loop at index `i`, with the rounds that are left.
  unfoldable pub echo_args : ℕ → List Buffer → ℕ → ℕ → State → State
  echo_args argc argv i zero k = k
  echo_args argc argv i (suc rounds) k =
      let k' = S.io_print (arg argv i) k in
      echo_args argc argv (i + 1) rounds
        (if ltb i (argc - 1) then S.io_print (b' ' ∷ []) k' else k')

  unfoldable pub cmd_echo : ℕ → List Buffer → Program → ℤ × Program
  cmd_echo argc argv p = done p (λ k. S.io_println [] (echo_args argc argv 1 (argc - 1) k))

  unfoldable pub cmd_pwd : Program → ℤ × Program
  cmd_pwd p = done p (λ k. S.io_println (S.fs_get_current_dir k) k)

  unfoldable pub cmd_cd : ℕ → List Buffer → Program → ℤ × Program
  cmd_cd argc argv p =
      if ltb argc 2
      then answer p (pos 1, S.io_println (codes "Usage: cd <directory>") p.state)
      else answer p (S.fs_change_dir (arg argv 1) p.state)

  unfoldable pub cmd_mkdir : ℕ → List Buffer → Program → ℤ × Program
  cmd_mkdir argc argv p =
      if ltb argc 2
      then answer p (pos 1, S.io_println (codes "Usage: mkdir <directory>") p.state)
      else answer p (S.fs_create_dir (arg argv 1) p.state)

  unfoldable pub cmd_ls : ℕ → List Buffer → Program → ℤ × Program
  cmd_ls argc argv p =
      let path = if ltb 1 argc then arg argv 1 else S.fs_get_current_dir p.state in
      answer p (S.fs_list_dir path p.state)

  unfoldable pub cmd_about : Program → ℤ × Program
  cmd_about p = done p (
      print_all (
        (10 ∷ edge 148 151)
        ∷ boxed (codes "        OpenDOS 2.0 (Microkernel)   ")
        ∷ boxed (codes "   A modular, educational DOS OS    ")
        ∷ boxed (codes "                                     ")
        ∷ boxed (codes "  Kernel-based architecture with    ")
        ∷ boxed (codes "  external programs in /progs       ")
        ∷ (edge 154 157 ++ 10 ∷ [])
        ∷ []))

  unfoldable pub cmd_exit : Program → ℤ × Program
  cmd_exit p = (pos 0, record p { should_exit = 1 })

  -- The call `builtins[i].func(argc, argv)`.
  unfoldable pub call : Command → ℕ → List Buffer → Program → ℤ × Program
  call help argc argv p = cmd_help p
  call clear argc argv p = cmd_clear p
  call echo argc argv p = cmd_echo argc argv p
  call pwd argc argv p = cmd_pwd p
  call cd argc argv p = cmd_cd argc argv p
  call mkdir argc argv p = cmd_mkdir argc argv p
  call ls argc argv p = cmd_ls argc argv p
  call about argc argv p = cmd_about p
  call exit argc argv p = cmd_exit p

  -- The program in ./bin of that name runs; -1 is `none`, and the outer `none` an overrun of `prog_path`.
  unfoldable pub try_execute_program : CString → List Buffer → State → Option (Option ℕ × State)
  try_execute_program cmd argv k = do
    path ← str_copy (replicate 256 0) (codes "./bin/")
    path ← str_concat path cmd
    some (
        if S.is_executable (cstr path) k
        then status (S.run_child (cstr path) argv k)
        else (none, k))
    where
      status : Option (Option ℕ × State) → Option ℕ × State
      status none = (none, k)
      status (some (some code, k')) = (some code, k')
      status (some (none, k')) = (some 1, k')
