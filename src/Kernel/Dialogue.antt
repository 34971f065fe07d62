-- ===== src/Kernel/Dialogue.antt =====
-- A whole dialogue with the shell of kernel/kernel.c: command lines typed one after the other.
use pl_dos.Base.{
  ℕ, zero, suc, ◌<◌, ◌≡◌, refl, sym, ap, subst, ◌∙◌, ◌⊎◌, inl, inr, false, none, some, List, [],
  ◌∷◌, ◌++◌, length, length-append, take, All, arith, codes,
}
use pl_dos.Strings.{CString, str_trim}
use pl_dos.Users.{users_current_name}
use pl_dos.Io.{Terminal, black, light_grey, io_set_color, io_print}
use pl_dos.Io.Prefix.{SamePrefix, io_print_prefix, io_set_color_prefix}
use pl_dos.Io.Typing.{IsText, enter, enter_up, strokes, text_of}
use pl_dos.Filesystem.{Disk}
use pl_dos.Filesystem.Valid.{IsTree}
use pl_dos.Filesystem.Calls.{fs_get_current_dir}
use pl_dos.System.{System, M}
use pl_dos.Shell.{shell_parse}
use pl_dos.Programs.Typed.{Command, words, Fits, Does, Does-IsTree, Does-keys}
use pl_dos.Kernel.{
  max_args, light_green, Round, shell_prompt, read_and_run, shell_round, shell_rounds, shell_run,
}
use pl_dos.Kernel.Round.{fault, waiting, next}
use pl_dos.Kernel.Typing.{Runs, read_and_run_typed, read_and_run_released, read_and_run_waits}
use pl_dos.Kernel.Commands.{Completes, shown, line_Completes}

-- A command and the keys that a user presses for its line.
pub record Entry : Type 0 where
  pub keys : List ℕ
  pub command : Command

-- The keys are printable, and their line, cut to 255 characters and trimmed, has the words of the command.
abbrev pub IsEntry : Entry → Type 0
IsEntry e =
    All IsText e.keys
    × (shell_parse (str_trim (take 255 (text_of e.keys))) max_args ≡ some (words e.command))
    × Fits e.command

-- Each key, and Enter behind each line, is pressed and released.
abbrev pub dialogue : List Entry → List ℕ
dialogue [] = []
dialogue (e ∷ es) = strokes e.keys ++ enter ∷ enter_up ∷ dialogue es

-- What the shell comes to: each command does to the files what it means to, in the order typed, up to one
-- whose path cannot be resolved within the arrays; after the last the shell waits.
abbrev pub Answers : {Dev : Type 0} → List Entry → System Dev → Round Dev → Type 0
Answers [] s r = (s' : System _) × (r ≡ waiting s') × (s'.fs ≡ s.fs) × (s'.users ≡ s.users)
Answers (e ∷ es) s r =
    (Does e.command s none × (r ≡ fault))
    ⊎ ((status : ℕ) × (s' : System _) × Does e.command (record s { keys = s'.keys })
          (some (status, s'))
        × Answers es s' r)

length-dialogue : (es : List Entry) → length es < suc (length (dialogue es))
length-dialogue [] = omega arith
length-dialogue (e ∷ es) =
    omega
      (arith, length-append (strokes e.keys) (enter ∷ enter_up ∷ dialogue es), length-dialogue es)

-- A fault does not depend on the keys and the screen.
faulted :
    {Dev : Type 0} (c : Command) (s : System Dev) (rest : List ℕ)
    → Does c (record s { keys = rest }) none
    → Does c s none
faulted (Command.change v path args) s rest h = h
faulted (Command.write path a args) s rest h = h

-- The prompt is printed, and changes nothing but the terminal.
shell_prompt_lem :
    {Dev : Type 0} (s : System Dev)
    → (t : Terminal) × (shell_prompt s ≡ some (tt, record s { terminal = t }))
      × SamePrefix s.terminal t
unfolding shell_prompt
shell_prompt_lem s =
    let t1 = io_set_color s.terminal light_green black in
    let t2 = io_print t1 (users_current_name s.users) in
    let t3 = io_print t2 (codes "@") in
    let t4 = io_print t3 (fs_get_current_dir s.fs) in
    let t5 = io_print t4 (codes "> ") in
    (
      io_set_color t5 light_grey black,
      refl,
      io_set_color_prefix t5 light_grey black
          ∙ io_print_prefix t4 (codes "> ")
          ∙ io_print_prefix t3 (fs_get_current_dir s.fs)
          ∙ io_print_prefix t2 (codes "@")
          ∙ io_print_prefix t1 (users_current_name s.users)
          ∙ io_set_color_prefix s.terminal light_green black,
    )

-- What the keyboard delivers from the head of a round on: the lines that are left, behind the release of
-- Enter but for the first.
abbrev Ready : {Dev : Type 0} → List Entry → System Dev → Type 0
Ready es s =
    ((s.keys ≡ dialogue es) × (s.terminal.extended_scancode ≡ false))
    ⊎ (s.keys ≡ enter_up ∷ dialogue es)

prompted :
    {Dev : Type 0} (es : List Entry) (s : System Dev) (t : Terminal)
    → SamePrefix s.terminal t
    → Ready es s
    → Ready es (record s { terminal = t })
prompted es s t same (inl (keys, prefix)) = inl (keys, same ∙ prefix)
prompted es s t same (inr keys) = inr keys

module _ (d : Disk) (desktop_run : List CString → M d.Dev ℕ) where
  open d use {Dev}

  round_lem :
      (s : System Dev) (t : Terminal)
      → shell_prompt s ≡ some (tt, record s { terminal = t })
      → shell_round d desktop_run s ≡ read_and_run d desktop_run (record s { terminal = t })
  unfolding shell_round
  round_lem s t e = rw (shell_round, e) refl

  entry_read :
      (e : Entry) (es : List Entry) (s : System Dev)
      → IsEntry e
      → Ready (e ∷ es) s
      → Runs d desktop_run s e.keys (enter_up ∷ dialogue es)
  entry_read e es s h (inl (keys, prefix)) =
      read_and_run_typed d desktop_run s e.keys (enter_up ∷ dialogue es) keys h.0 prefix
  entry_read e es s h (inr keys) =
      read_and_run_released d desktop_run s e.keys (enter_up ∷ dialogue es) keys h.0

  -- A round that reads the line of a command.
  round-Completes :
      (e : Entry) (es : List Entry) (s : System Dev)
      → IsEntry e
      → Ready (e ∷ es) s
      → IsTree s.fs.nodes
      → Completes e.command
          (record s { keys = enter_up ∷ dialogue es })
          (shell_round d desktop_run s)
  round-Completes e es s h ready tree =
      let (t, p, same) = shell_prompt_lem s in
      let s1 = record s { terminal = t } in
      let rest = enter_up ∷ dialogue es in
      let (t', r) = entry_read e es s1 h (prompted (e ∷ es) s t same ready) in
      subst (Completes e.command (record s { keys = rest })) (sym (round_lem s t p)) (
        shown e.command s rest t (read_and_run d desktop_run s1) (
          line_Completes d desktop_run e.command s1 (str_trim (take 255 (text_of e.keys))) rest t' r
            h.1 h.2 tree))

  rounds-Answers :
      (es : List Entry) (rounds : ℕ) (s : System Dev)
      → length es < rounds
      → All IsEntry es
      → Ready es s
      → IsTree s.fs.nodes
      → Answers es s (shell_rounds d desktop_run rounds s)
  unfolding shell_rounds
  rounds-Answers es zero s less h ready tree = absurd (omega (arith, less))
  rounds-Answers [] (suc rounds) s less h ready tree =
      let (t, p, same) = shell_prompt_lem s in
      let s1 = record s { terminal = t } in
      let ends : shell_round d desktop_run s ≡ waiting s1 =
        round_lem s t p
        ∙ read_and_run_waits d desktop_run s1 (elim (prompted [] s t same ready) [
          | inl (keys, prefix) ↦ inl keys
          | inr keys ↦ inr keys
        ]) in
      (s1, rw (shell_rounds, ends) refl, refl, refl)
  rounds-Answers (e ∷ es) (suc rounds) s less (h, hs) ready tree =
      onward (shell_round d desktop_run s) (round-Completes e es s h ready tree)
        (λ s' keys t. rounds-Answers es rounds s' (omega (arith, less)) hs (inr keys) t)
    where
      onward :
          (r : Round Dev)
          → Completes e.command (record s { keys = enter_up ∷ dialogue es }) r
          → ((s' : System Dev)
              → s'.keys ≡ enter_up ∷ dialogue es
              → IsTree s'.fs.nodes
              → Answers es s' (shell_rounds d desktop_run rounds s'))
          → Answers (e ∷ es) s (elim r [
            | fault ↦ fault
            | waiting s' ↦ waiting s'
            | next s' ↦ shell_rounds d desktop_run rounds s'
          ])
      onward fault did goes_on = inl (faulted e.command s _ did, refl)
      onward (waiting s') did goes_on = absurd did
      onward (next s') (status, did) goes_on =
          let keys = Does-keys e.command _ status s' did in
          inr (
            status,
            s',
            subst (λ k. Does e.command (record s { keys = k }) (some (status, s'))) (sym keys) did,
            goes_on s' keys (Does-IsTree e.command _ status s' did),
          )

  -- When a user types command lines one after the other, each key and each Enter pressed and released,
  -- whose words are touch, mkdir or del with a path and perhaps more, or write with a path and words that
  -- fit its array, then on a valid node table the shell runs each in its turn and waits behind the last,
  -- with the files and the users as the last left them: each command does to the files what the abstract
  -- filesystem allows it, unless the resolution of its path overruns an array, which ends the run. No
  -- prefix of an extended key is pending at first.
  pub shell_run-Answers :
      (s : System Dev) (es : List Entry)
      → s.keys ≡ dialogue es
      → s.terminal.extended_scancode ≡ false
      → All IsEntry es
      → IsTree s.fs.nodes
      → Answers es s (shell_run d desktop_run s)
  unfolding shell_run
  shell_run-Answers s es keys prefix h tree =
      rounds-Answers es (suc (length s.keys)) s (omega (arith, ap length keys, length-dialogue es))
        h (inl (keys, prefix)) tree
