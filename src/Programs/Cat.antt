-- ===== src/Programs/Cat.antt =====
-- The command cat of progs/cat.c, down to the files and the terminal.
use pl_dos.Base.{
  ℕ, suc, ◌+◌, ◌-◌, ◌<◌, ◌≡◌, refl, ap, ◌∙◌, ◌⊎◌, inl, inr, Bool, false, not, ◌||◌, Option, none,
  some, List, [], ◌∷◌, ◌++◌, length, length-drop, length-replicate, ltb, codes, arith, append-nil,
  drop, set, get_or, replicate, ◌==◌, if◌then◌else◌, Bool-cases,
}
use pl_dos.Strings.{CString, cstr}
use pl_dos.Io.{Terminal, io_print_char, io_print, io_println}
use pl_dos.Filesystem.{Disk}
use pl_dos.Filesystem.Valid.{IsTree}
use pl_dos.Filesystem.Calls.{resolve}
use pl_dos.Filesystem.Files.{fs_read_file}
use pl_dos.Filesystem.View.{view}
use pl_dos.Filesystem.View.Entry.{file}
use pl_dos.Filesystem.View.Abstract.{NoFile}
use pl_dos.Filesystem.View.Reading.{Reads, fs_read_file-Reads}
use pl_dos.System.{System, ◌>>=◌, ask_fs}
use pl_dos.Connector.{kernel_connector_request}
use pl_dos.Programs.Commands.{kc_fs_max_file_size, show_file, prog_cat}

pub io_print-append :
    (t : Terminal) (a b : CString) → io_print t (a ++ b) ≡ io_print (io_print t a) b
unfolding io_print
io_print-append t [] b = refl
io_print-append t (c ∷ a) b = io_print-append (io_print_char t c) a b

-- Whether the bytes end with a newline.
abbrev pub ends_line : List ℕ → Bool
ends_line [] = false
ends_line (c ∷ []) = c == 10
ends_line (c ∷ d ∷ bytes) = ends_line (d ∷ bytes)

-- What cat shows of a file: its bytes up to a NUL, with a newline behind them where none ends the file.
abbrev pub shown : List ℕ → CString
shown bytes = cstr (bytes ++ 0 ∷ []) ++ (if ends_line bytes then [] else 10 ∷ [])

cstr-set :
    (bytes rest : List ℕ)
    → 0 < length rest
    → cstr (set (bytes ++ rest) (length bytes) 0) ≡ cstr (bytes ++ 0 ∷ [])
cstr-set [] [] h = absurd (omega arith)
cstr-set [] (r ∷ rest) h = refl
cstr-set (c ∷ bytes) rest h = ap (λ x. if c == 0 then [] else c ∷ x) (cstr-set bytes rest h)

last_byte :
    (c : ℕ) (bytes rest : List ℕ)
    → (get_or (c ∷ bytes ++ rest) (length bytes) 0 == 10) ≡ ends_line (c ∷ bytes)
last_byte c [] rest = refl
last_byte c (d ∷ bytes) rest = last_byte d bytes rest

-- The test that `prog_cat` makes on its array.
needs_newline :
    (bytes rest : List ℕ)
    → (length bytes == 0 || not (get_or (bytes ++ rest) (length bytes - 1) 0 == 10))
      ≡ not (ends_line bytes)
needs_newline [] rest = refl
needs_newline (c ∷ bytes) rest =
    let some_there : (suc (length bytes) == 0) ≡ false = ground arith in
    let last : suc (length bytes) - 1 ≡ length bytes = omega arith in
    rw (some_there, last) (ap not (last_byte c bytes rest))

module _ (d : Disk) where
  open d use {Dev}

  -- What cat does for a path: a fault in its resolution; a message where it is no file; or the bytes of
  -- the file on the terminal. Nothing but the terminal changes.
  abbrev pub Shows : CString → System Dev → Option (ℕ × System Dev) → Type 0
  Shows path k r =
      ((resolve k.fs path ≡ none) × (r ≡ none))
      ⊎ ((s : CString) × (resolve k.fs path ≡ some s)
          × ((NoFile (view k.fs.nodes) s
                × (r
                    ≡ some (
                      1,
                      record k { terminal = io_println k.terminal (codes "File not found") },
                    )))
              ⊎ ((bytes : List ℕ) × (view k.fs.nodes s ≡ some (file bytes))
                  × (r ≡ some (0, record k { terminal = io_print k.terminal (shown bytes) })))))

  show_file_lem :
      (bytes rest : List ℕ) (k : System Dev)
      → 0 < length rest
      → show_file d (some (length bytes, bytes ++ rest)) k
        ≡ some (0, record k { terminal = io_print k.terminal (shown bytes) })
  unfolding show_file kernel_connector_request io_println io_print
  show_file_lem bytes rest k h =
      rw (needs_newline bytes rest, cstr-set bytes rest h)
        (elim (Bool-cases (ends_line bytes)) [
          | inl ends ↦ rw (ends, append-nil (cstr (bytes ++ 0 ∷ []))) refl
          | inr open_end ↦
              rw (open_end, io_print-append k.terminal (cstr (bytes ++ 0 ∷ [])) (10 ∷ [])) refl
        ])

  -- The array of `prog_cat`.
  abbrev blank : List ℕ
  blank = replicate (kc_fs_max_file_size + 1) 0

  -- `prog_cat` behind its call of `kc_fs_read`.
  abbrev answered : System Dev → Option (Option (ℕ × List ℕ)) → Option (ℕ × System Dev)
  answered k r = (ask_fs (λ fs. r) >>= show_file d) k

  answered-Shows :
      (path : CString) (k : System Dev) (r : Option (Option (ℕ × List ℕ)))
      → Reads k.fs path blank r
      → Shows path k (answered k r)
  unfolding show_file kernel_connector_request
  answered-Shows path k r (inl (fault, e)) = inl (fault, ap (answered k) e)
  answered-Shows path k r (inr (s, at, inl (none_there, e))) =
      inr (s, at, inl (none_there, ap (answered k) e))
  answered-Shows path k r (inr (s, at, inr (bytes, entry, fits, e))) = inr (
    s,
    at,
    inr (
      bytes,
      entry,
      ap (answered k) e
          ∙ show_file_lem bytes (drop (length bytes) blank) k
              (omega (arith, length-drop (length bytes) blank, length-replicate {A = ℕ} 4097 0)),
    ),
  )

  -- On a valid table, cat with a path overruns an array while it resolves the path; or the path is no
  -- file and it says so and answers 1; or it answers 0 and prints the bytes of the file up to a NUL, with a
  -- newline where the file does not end with one. Nothing but the terminal changes.
  pub prog_cat-Shows :
      (name path : CString) (args : List CString) (k : System Dev)
      → IsTree k.fs.nodes
      → Shows path k (prog_cat d (name ∷ path ∷ args) k)
  unfolding prog_cat kernel_connector_request
  prog_cat-Shows name path args k v =
      let enough : ltb (length (name ∷ path ∷ args)) 2 ≡ false = ground arith in
      rw enough (
        answered-Shows path k (fs_read_file k.fs path blank kc_fs_max_file_size) (
          fs_read_file-Reads d k.fs path blank kc_fs_max_file_size v (omega arith)
            (omega (arith, length-replicate {A = ℕ} 4097 0))))
