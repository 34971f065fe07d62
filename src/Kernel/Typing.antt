-- ===== src/Kernel/Typing.antt =====
-- A round of `shell_run` of kernel/kernel.c, from the prompt on, for a user who types a line.
use pl_dos.Base.{
  ℕ, ◌≡◌, refl, ap, ◌∙◌, false, some, none, List, [], ◌⊎◌, inl, inr, ◌∷◌, ◌++◌, take, replicate,
  length-replicate, All, arith,
}
use pl_dos.Strings.{CString, Buffer, cstr, str_trim}
use pl_dos.Io.{Terminal}
use pl_dos.Io.Keyboard.{io_read_line}
use pl_dos.Io.Typing.{
  IsText, enter, enter_up, strokes, text_of, Line, io_read_line_typed, io_read_line_released,
  io_read_line_waits,
}
use pl_dos.Filesystem.{Disk}
use pl_dos.System.{System, M}
use pl_dos.Kernel.{line_size, ended, run_line, read_and_run}
use pl_dos.Kernel.Round.{waiting}

module _ (d : Disk) (desktop_run : List CString → M d.Dev ℕ) (s : System d.Dev) where
  -- A round that has its line.
  line_read :
      (line : Buffer) (keys : List ℕ) (t : Terminal)
      → io_read_line s.keys (replicate line_size 0) line_size s.terminal ≡ some (line, keys, t)
      → read_and_run d desktop_run s
        ≡ ended
            (run_line d desktop_run (str_trim (cstr line)) (record s { keys = keys; terminal = t }))
  unfolding read_and_run
  line_read line keys t e = rw (read_and_run, e) refl

  -- A round whose line `ks` was read, up to the scancodes `rest`.
  abbrev pub Runs : List ℕ → List ℕ → Type 0
  Runs ks rest =
      (t : Terminal) × (read_and_run d desktop_run s
        ≡ ended (
            run_line d desktop_run (str_trim (take 255 (text_of ks)))
              (record s { keys = rest; terminal = t })))

  pub read-Runs :
      (ks rest keys : List ℕ)
      → s.keys ≡ keys
      → Line line_size
          (text_of ks)
          rest
          (io_read_line keys (replicate line_size 0) line_size s.terminal)
      → Runs ks rest
  read-Runs ks rest keys typed (line, t, r, shown) = (
    t,
    line_read line rest t
          (ap (λ keys. io_read_line keys (replicate line_size 0) line_size s.terminal) typed ∙ r)
        ∙ ap
            (λ text.
              ended
                (run_line d desktop_run (str_trim text) (record s { keys = rest; terminal = t })))
            shown,
  )

  none_read :
      io_read_line s.keys (replicate line_size 0) line_size s.terminal ≡ none
      → read_and_run d desktop_run s ≡ waiting s
  unfolding read_and_run
  none_read e = rw (read_and_run, e) refl

  -- A round that finds no scancode, or only the release of Enter, waits.
  pub read_and_run_waits :
      (s.keys ≡ []) ⊎ (s.keys ≡ enter_up ∷ []) → read_and_run d desktop_run s ≡ waiting s
  read_and_run_waits e =
      let (silent, release) =
        io_read_line_waits (replicate line_size 0) line_size s.terminal (omega arith) in
      let read =
        λ (keys : List ℕ). io_read_line keys (replicate line_size 0) line_size s.terminal in
      elim e [
        | inl empty ↦ none_read (ap read empty ∙ silent)
        | inr last ↦ none_read (ap read last ∙ release)
      ]

-- When printable keys and Enter come from the keyboard, the round does not wait: the shell runs the
-- line of their characters, cut to 255 and trimmed, and leaves it the scancodes behind Enter. No
-- prefix of an extended key is pending.
pub read_and_run_typed :
    (d : Disk) (desktop_run : List CString → M d.Dev ℕ) (s : System d.Dev) (ks rest : List ℕ)
    → s.keys ≡ strokes ks ++ enter ∷ rest
    → All IsText ks
    → s.terminal.extended_scancode ≡ false
    → (t : Terminal) × (read_and_run d desktop_run s
        ≡ ended (
            run_line d desktop_run
              (str_trim (take 255 (text_of ks)))
              (record s { keys = rest; terminal = t })))
read_and_run_typed d desktop_run s ks rest typed text e =
    read-Runs d desktop_run s ks rest (strokes ks ++ enter ∷ rest) typed (
      io_read_line_typed ks rest (replicate line_size 0) line_size s.terminal text (omega arith)
        (omega (arith, length-replicate {A = ℕ} line_size 0)) e)

-- The same behind the release of the Enter before, whatever prefix is pending.
pub read_and_run_released :
    (d : Disk) (desktop_run : List CString → M d.Dev ℕ) (s : System d.Dev) (ks rest : List ℕ)
    → s.keys ≡ enter_up ∷ strokes ks ++ enter ∷ rest
    → All IsText ks
    → Runs d desktop_run s ks rest
read_and_run_released d desktop_run s ks rest typed text =
    read-Runs d desktop_run s ks rest (enter_up ∷ strokes ks ++ enter ∷ rest) typed (
      io_read_line_released ks rest (replicate line_size 0) line_size s.terminal text (omega arith)
        (omega (arith, length-replicate {A = ℕ} line_size 0)))
