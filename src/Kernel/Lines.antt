-- ===== src/Kernel/Lines.antt =====
-- What a command line of kernel/kernel.c keeps when the commands keep it.
use pl_dos.Base.{ℕ, Option, none, some, List, [], ◌∷◌, All, All-take, All-drop}
use pl_dos.Strings.{CString, NoNul, str_trim}
use pl_dos.Filesystem.{Disk}
use pl_dos.System.{System, M}
use pl_dos.System.Keeps.{Keeps, Keeps-return, Keeps-bind, Keeps-if}
use pl_dos.Programs.{Main, Program, programs_find}
use pl_dos.Programs.Dispatch.{run_main}
use pl_dos.Shell.Words.{shell_parse-Parsed}
use pl_dos.Kernel.{
  max_args, say, say_line, use_color, shell_prompt, report_status, run_program, run_words, run_line,
}

pub str_trim-NoNul : (s : CString) → NoNul s → NoNul (str_trim s)
unfolding str_trim
str_trim-NoNul s n = All-take _ _ _ (All-drop _ _ s n)

module _ (d : Disk) (desktop_run : List CString → M d.Dev ℕ) where
  open d use {Dev}

  module _ (P : System Dev → Type 0) (says : (text : CString) → Keeps P (say text)) where
    pub shell_prompt-Keeps : ((fg : ℕ) → Keeps P (use_color fg)) → Keeps P shell_prompt
    unfolding shell_prompt
    shell_prompt-Keeps colors = search (Keeps-bind, colors, says) depth 12

    module _ (says_line : (text : CString) → Keeps P (say_line text))
        (runs : (p : Main) (argv : List CString)
          → All NoNul argv
          → Keeps P (run_main d desktop_run p argv)) where
      report_status-Keeps : (rc : ℕ) → Keeps P (report_status d desktop_run rc)
      unfolding report_status
      report_status-Keeps rc = search (Keeps-if, Keeps-return, Keeps-bind, says, says_line)

      run_program-Keeps :
          (found : Option Program) (name : CString) (argv : List CString)
          → All NoNul argv
          → Keeps P (run_program d desktop_run found name argv)
      unfolding run_program
      run_program-Keeps none name argv a = search (Keeps-bind, says, says_line)
      run_program-Keeps (some p) name argv a =
          Keeps-bind P _ _ (runs p.main argv a) report_status-Keeps

      run_words-Keeps :
          (ws : List CString) → All NoNul ws → Keeps P (run_words d desktop_run (some ws))
      unfolding run_words
      run_words-Keeps [] a = Keeps-return P tt
      run_words-Keeps (name ∷ args) a = run_program-Keeps (programs_find name) name (name ∷ args) a

      pub run_line-Keeps : (line : CString) → NoNul line → Keeps P (run_line d desktop_run line)
      unfolding run_line
      run_line-Keeps [] n = Keeps-return P tt
      run_line-Keeps (c ∷ line) n =
          let (ws, e, _, a) = shell_parse-Parsed (c ∷ line) max_args n in
          rw e (run_words-Keeps ws a)
