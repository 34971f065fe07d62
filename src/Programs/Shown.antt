-- ===== src/Programs/Shown.antt =====
-- The commands write and cat of progs/ one after the other.
use pl_dos.Base.{
  ℕ, ◌+◌, ◌<◌, ◌≡◌, refl, sym, ap, ◌∙◌, ◌⊎◌, inl, inr, true, false, Option, none, some, List, [],
  ◌∷◌, ◌++◌, length, All, All-append, arith, ◌==◌, append-nil, ◌≢◌,
}
use pl_dos.Strings.{CString, NoNul, cstr}
use pl_dos.Strings.Compare.{str_eq_refl}
use pl_dos.Io.{io_print}
use pl_dos.Filesystem.{Disk}
use pl_dos.Filesystem.Valid.{IsTree}
use pl_dos.Filesystem.Calls.{resolve}
use pl_dos.Filesystem.Files.Read.{resolve-same_dir}
use pl_dos.Filesystem.View.{view}
use pl_dos.Filesystem.View.Abstract.{NoFile, Refuses}
use pl_dos.Filesystem.View.Abstract.Op.{create_file}
use pl_dos.Filesystem.View.Copies.{resolved-NoNul}
use pl_dos.Filesystem.View.Entries.{present_absurd}
use pl_dos.Filesystem.View.Entry.{file}
use pl_dos.System.{System}
use pl_dos.Programs.Commands.{kc_fs_max_file_size, prog_write, prog_cat}
use pl_dos.Programs.Cat.{ends_line, shown, Shows, prog_cat-Shows}
use pl_dos.Programs.Line.{spaced, line_of}
use pl_dos.Programs.Written.{LineWritten}
use pl_dos.Programs.Writing.{prog_write-LineWritten}

NoNul-spaced : (args : List CString) → All NoNul args → NoNul (spaced args)
NoNul-spaced [] n = tt
NoNul-spaced (a ∷ []) n = n.0
NoNul-spaced (a ∷ b ∷ args) n =
    All-append (λ c. c ≢ 0) a (b' ' ∷ spaced (b ∷ args)) n.0
      (omega arith, NoNul-spaced (b ∷ args) n.1)

cstr-append_zero : (s : CString) → NoNul s → cstr (s ++ 0 ∷ []) ≡ s
cstr-append_zero [] n = refl
cstr-append_zero (c ∷ s) n =
    let some_byte : (c == 0) ≡ false = ground (arith, n.0) in
    rw (some_byte, cstr-append_zero s n.1) refl

ends_line-append : (s : CString) → ends_line (s ++ 10 ∷ []) ≡ true
ends_line-append [] = refl
ends_line-append (c ∷ []) = refl
ends_line-append (c ∷ d ∷ s) = ends_line-append (d ∷ s)

-- cat shows such a line as it is.
shown-line_of : (args : List CString) → All NoNul args → shown (line_of args) ≡ line_of args
shown-line_of args n =
    rw
      (
        ends_line-append (spaced args),
        cstr-append_zero (line_of args) (
            All-append (λ c. c ≢ 0) (spaced args) (10 ∷ []) (NoNul-spaced args n)
              (omega arith, tt)),
      )
      (append-nil (line_of args))

bytes_of_file : (a b : List ℕ) → some (file a) ≡ some (file b) → a ≡ b
bytes_of_file a b e = cc

module _ (d : Disk) where
  open d use {Dev}

  -- cat, in the state that a successful write to the path left.
  line_shown :
      (path s : CString) (line : List ℕ) (k : System Dev) (r : Option (ℕ × System Dev))
      → resolve k.fs path ≡ some s
      → view k.fs.nodes s ≡ some (file line)
      → shown line ≡ line
      → Shows d path k r
      → r ≡ some (0, record k { terminal = io_print k.terminal line })
  line_shown path s line k r at entry plain (inl (fault, e)) =
      absurd (present_absurd (sym at ∙ fault))
  line_shown path s line k r at entry plain (inr (s', at', inl (none_there, e))) =
      let both : some s' ≡ some s = sym at' ∙ at in
      let one : s' ≡ s = cc in absurd (none_there line (ap (view k.fs.nodes) one ∙ entry))
  line_shown path s line k r at entry plain (inr (s', at', inr (bytes, entry', e))) =
      let both : some s' ≡ some s = sym at' ∙ at in
      let one : s' ≡ s = cc in
      let same = bytes_of_file bytes line (sym entry' ∙ ap (view k.fs.nodes) one ∙ entry) in
      e ∙ ap (λ x. some (0, record k { terminal = io_print k.terminal x })) (ap shown same ∙ plain)

  -- The write of a line and a cat behind it, where the write is `w`.
  abbrev pub ShownBack :
      CString → CString → List CString → CString → System Dev → Option (ℕ × System Dev) → Type 0
  ShownBack path name rest line k w =
      ((resolve k.fs path ≡ none) × (w ≡ none))
      ⊎ ((k' : System Dev) × (w ≡ some (1, k'))
          × ((s : CString) × (resolve k.fs path ≡ some s)
              × NoFile (view k.fs.nodes) s
              × Refuses (create_file path) s k.fs.nodes))
      ⊎ ((k' : System Dev) × (w ≡ some (0, k'))
          × (prog_cat d (name ∷ path ∷ rest) k'
              ≡ some (0, record k' { terminal = io_print k'.terminal line })))

  written-ShownBack :
      (path name line : CString) (rest : List CString) (k : System Dev)
      (w : Option (ℕ × System Dev))
      → shown line ≡ line
      → LineWritten path line k w
      → ShownBack path name rest line k w
  written-ShownBack path name line rest k none plain fault = inl (fault, refl)
  written-ShownBack path name line rest k (some (status, k')) plain
        (s, at, t, cur, users, keys, inl (failed, none_there, cause, seen)) =
      inr (inl (k', rw failed refl, (s, at, none_there, cause)))
  written-ShownBack path name line rest k (some (status, k')) plain
        (s, at, t, cur, users, keys, inr (ok, no_dir, seen)) =
      let n = resolved-NoNul d k.fs path s at in
      let entry : view k'.fs.nodes s ≡ some (file line) =
        sym (seen s n) ∙ rw (str_eq_refl s) refl in
      inr (
        inr (
          k',
          rw ok refl,
          line_shown path s line k' _ (resolve-same_dir k.fs k'.fs path cur ∙ at) entry plain
              (prog_cat-Shows d name path rest k' t),
        ))

  -- On a valid table and for words without NUL whose line with blanks and newline is below 4096 bytes:
  -- write overruns an array while it resolves the path; or it answers 1, and the path is no file and
  -- cannot become one; or it answers 0, and then cat of the same path answers 0, prints exactly that line
  -- and changes nothing but the terminal.
  pub prog_cat-prog_write :
      (write path cat a : CString) (args rest : List CString) (k : System Dev)
      → IsTree k.fs.nodes
      → All NoNul (a ∷ args)
      → length (spaced (a ∷ args)) + 1 < kc_fs_max_file_size
      → ShownBack path cat rest (line_of (a ∷ args)) k (prog_write d (write ∷ path ∷ a ∷ args) k)
  prog_cat-prog_write write path cat a args rest k v n h =
      written-ShownBack path cat (line_of (a ∷ args)) rest k _ (shown-line_of (a ∷ args) n)
        (prog_write-LineWritten d write path a args k v n h)
