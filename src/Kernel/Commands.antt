-- ===== src/Kernel/Commands.antt =====
-- A command line of kernel/kernel.c that is typed at the prompt, down to the files.
use pl_dos.Base.{
  ℕ, ◌≡◌, refl, ap, ◌∙◌, false, Option, none, some, List, [], ◌∷◌, ◌++◌, take, All, pos, ◌==◌,
  Bool-cases, inl, inr, codes, subst, sym,
}
use pl_dos.Strings.{CString, str_compare, str_trim}
use pl_dos.Io.{Terminal, io_print, io_println}
use pl_dos.Io.Numbers.{int_chars}
use pl_dos.Io.Typing.{IsText, enter, strokes, text_of}
use pl_dos.Filesystem.{Disk}
use pl_dos.Filesystem.Valid.{IsTree}
use pl_dos.System.{System, M}
use pl_dos.Shell.{skip_gap, shell_parse, parse_args}
use pl_dos.Programs.{Program, programs_find, find_in}
use pl_dos.Programs.Dispatch.{run_main}
use pl_dos.Programs.Typed.{Command, words, main_of, Fits, Does, run_main-Does}
use pl_dos.Programs.Typed.Command.{change, write}
use pl_dos.Programs.Effects.Verb.{touch, mkdir, del}
use pl_dos.Kernel.{
  max_args, Round, ended, report_status, run_program, run_words, run_line, read_and_run,
}
use pl_dos.Kernel.Round.{fault, waiting, next}
use pl_dos.Kernel.Typing.{read_and_run_typed}

-- What the round comes to: the shell is at its next round, with what the command did, unless the
-- resolution of the path overran an array. It does not wait.
abbrev pub Completes : {Dev : Type 0} → Command → System Dev → Round Dev → Type 0
Completes c s fault = Does c s none
Completes c s (waiting s') = ⊥
Completes c s (next s') = (status : ℕ) × Does c s (some (status, s'))

pub shown :
    {Dev : Type 0} (c : Command) (s : System Dev) (rest : List ℕ) (t : Terminal) (r : Round Dev)
    → Completes c (record s { keys = rest; terminal = t }) r
    → Completes c (record s { keys = rest }) r
shown (change v path args) s rest t fault h = h
shown (change v path args) s rest t (next s') h = h
shown (write path a args) s rest t fault h = h
shown (write path a args) s rest t (next s') h = h
shown c s rest t (waiting s') h = h

module _ (d : Disk) (desktop_run : List CString → M d.Dev ℕ) where
  open d use {Dev}

  -- The status is reported on the terminal alone.
  reported :
      (status : ℕ) (s : System Dev)
      → (t : Terminal) × (report_status d desktop_run status s
          ≡ some (tt, record s { terminal = t }))
  unfolding report_status
  reported status s = elim (Bool-cases (status == 0)) [
    | inl good ↦ (s.terminal, rw good refl)
    | inr bad ↦ (
      io_println
          (io_print (io_print s.terminal (codes "Command returned ")) (int_chars (pos status))) [],
      rw bad refl,
    )
  ]

  -- The entry of the command in the table.
  found :
      (c : Command)
      → (w : CString) × (ws : List CString) × (p : Program) × (words c ≡ w ∷ ws)
        × (programs_find w ≡ some p)
        × (p.main ≡ main_of c)
  unfolding programs_find find_in str_compare
  found (change touch path args) = (_, _, _, refl, refl, refl)
  found (change mkdir path args) = (_, _, _, refl, refl, refl)
  found (change del path args) = (_, _, _, refl, refl, refl)
  found (write path a args) = (_, _, _, refl, refl, refl)

  onward :
      (c : Command) (s : System Dev) (r : Option (ℕ × System Dev))
      → Does c s r
      → Completes c s
          (ended (elim r [ none ↦ none | some (a, s') ↦ report_status d desktop_run a s' ]))
  onward c s none h = h
  onward (change v path args) s (some (status, s')) h =
      let (t, e) = reported status s' in rw e (status, h)
  onward (write path a args) s (some (status, s')) h =
      let (t, e) = reported status s' in rw e (status, h)

  words_run :
      (c : Command) (s : System Dev)
      → Fits c
      → IsTree s.fs.nodes
      → Completes c s (ended (run_words d desktop_run (some (words c)) s))
  unfolding run_words run_program
  words_run c s h t =
      let (w, ws, p, e, at, main) = found c in
      let ran : (q : Program)
          → q.main ≡ main_of c
          → Completes c s (ended (run_program d desktop_run (some q) w (words c) s)) =
        λ q same. onward c s (run_main d desktop_run q.main (words c) s) (
          subst (λ m. Does c s (run_main d desktop_run m (words c) s)) (sym same)
            (run_main-Does d desktop_run c s h t)) in
      subst (λ l. Completes c s (ended (run_words d desktop_run (some l) s))) (sym e)
        (subst (λ o. Completes c s (ended (run_program d desktop_run o w (w ∷ ws) s))) (sym at)
          (subst (λ l. Completes c s (ended (run_program d desktop_run (some p) w l s))) e
            (ran p main)))

  -- A line that has words is run as these words.
  line_words :
      (line w : CString) (ws : List CString) (s : System Dev)
      → shell_parse line max_args ≡ some (w ∷ ws)
      → run_line d desktop_run line s ≡ run_words d desktop_run (some (w ∷ ws)) s
  unfolding run_line shell_parse parse_args skip_gap
  line_words [] w ws s e = absurd (cc)
  line_words (c ∷ line) w ws s e = ap (λ o. run_words d desktop_run o s) e

  -- The round that has read the line of the command.
  pub line_Completes :
      (c : Command) (s : System Dev) (line : CString) (rest : List ℕ) (t : Terminal)
      → read_and_run d desktop_run s
        ≡ ended (run_line d desktop_run line (record s { keys = rest; terminal = t }))
      → shell_parse line max_args ≡ some (words c)
      → Fits c
      → IsTree s.fs.nodes
      → Completes c (record s { keys = rest }) (read_and_run d desktop_run s)
  line_Completes c s line rest t r parsed h tree =
      let s' = record s { keys = rest; terminal = t } in
      let (w, ws, p, e, at, main) = found c in
      subst (Completes c (record s { keys = rest }))
        (sym (r ∙ ap ended (line_words line w ws s' (parsed ∙ ap (λ l. some l) e))))
        (shown c s rest t (ended (run_words d desktop_run (some (w ∷ ws)) s')) (
          subst (λ l. Completes c s' (ended (run_words d desktop_run (some l) s'))) e
            (words_run c s' h tree)))

-- When printable keys and Enter come from the keyboard and their line, cut to 255 characters and
-- trimmed, has the words of touch, mkdir or del with a path and perhaps more, or of write with a path and
-- words that fit its array, the round of the shell does not wait: on a valid node table it faults in the
-- resolution of the path, or it comes to the next round with the files as the abstract filesystem allows
-- after that command, and with the users as before and the scancodes behind Enter. No prefix of an
-- extended key is pending.
pub typed_command-Completes :
    (d : Disk) (desktop_run : List CString → M d.Dev ℕ) (s : System d.Dev) (ks rest : List ℕ)
    (c : Command)
    → s.keys ≡ strokes ks ++ enter ∷ rest
    → All IsText ks
    → s.terminal.extended_scancode ≡ false
    → shell_parse (str_trim (take 255 (text_of ks))) max_args ≡ some (words c)
    → Fits c
    → IsTree s.fs.nodes
    → Completes c (record s { keys = rest }) (read_and_run d desktop_run s)
typed_command-Completes d desktop_run s ks rest c typed text e parsed h tree =
    let (t, r) = read_and_run_typed d desktop_run s ks rest typed text e in
    line_Completes d desktop_run c s (str_trim (take 255 (text_of ks))) rest t r parsed h tree
