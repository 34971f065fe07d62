-- ===== src/Hosted/Console.antt =====
-- src/io.c, and boot/bootloader.c, on the state of the files and the console. `fgets` and `system` are the C library's: the one
-- reads at most `n - 1` bytes of a line, its newline included, into the array, or gives `none` where the
-- input has ended; the other is the effect of the terminal's `clear`.
use pl_dos.Base.{ℕ, Option, none, some, List, [], ◌∷◌, ◌==◌, if◌then◌else◌, codes}
use pl_dos.Strings.{CString, Buffer}
use pl_dos.Hosted.Files.{Host, io_println}
use pl_dos.Hosted.Commands.{Session, with_host}

-- The five messages of boot/bootloader.c.
unfoldable pub bootloader_init : Host → Host
bootloader_init h =
    let h = io_println h (codes "Bootloader: Initializing system...") in
    let h = io_println h (codes "  - Initializing I/O subsystem...") in
    let h = io_println h (codes "  - Initializing memory manager...") in
    let h = io_println h (codes "  - Initializing file system...") in
    io_println h (codes "Bootloader: System ready. Handing control to kernel.")

-- The loop of `io_get_string`: the first newline of the string becomes its end.
unfoldable pub cut_newline : Buffer → Buffer
cut_newline [] = []
cut_newline (c ∷ b) = if c == 0 then c ∷ b else (if c == 10 then 0 ∷ b else c ∷ cut_newline b)

module _ {Input : Type 0} (fgets : Buffer → ℕ → Input → Option (Buffer × Input)) where
  -- The array afterwards.
  unfoldable pub io_get_string : Buffer → ℕ → Input → Buffer × Input
  io_get_string buffer max_len input = elim (fgets buffer max_len input) [
    | none ↦ (buffer, input)
    | some (b, input') ↦ (cut_newline b, input')
  ]

module _ (system : CString → Host → Host) where
  unfoldable pub io_clear_screen : Host → Host
  io_clear_screen h = system (codes "clear") h

  -- `cmd_clear` of src/commands.c.
  unfoldable pub cmd_clear : Session → List CString → Session
  cmd_clear s argv = with_host s (io_clear_screen s.host)
