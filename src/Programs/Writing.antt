-- ===== src/Programs/Writing.antt =====
-- The command write of progs/write.c, down to the files.
use pl_dos.Base.{
  ℕ, ◌+◌, ◌≤◌, ◌<◌, ◌≡◌, refl, ap, ◌∙◌, sym, subst, inl, inr, false, Option, none, some, List, [],
  ◌∷◌, length, length-append, ltb, arith, All, ◌==◌, if◌then◌else◌, is_some, Bool, Option-cases,
}
use mathlib.Core.Option
use pl_dos.Strings.{CString, NoNul}
use pl_dos.Filesystem.{Fs, Disk}
use pl_dos.System.{System, M, ◌>>=◌, return, on_fs, ask_fs, printed}
use pl_dos.Connector.{kernel_connector_request}
use pl_dos.Connector.{Request}
use pl_dos.Filesystem.Valid.{IsTree}
use pl_dos.Filesystem.Files.{fs_exists}
use pl_dos.Filesystem.{fs_max_file_size, node_at, find_node}
use pl_dos.Filesystem.Calls.{resolve, fs_create_file}
use pl_dos.Filesystem.View.Refines.{do_op-Refines}
use pl_dos.Filesystem.Files.Read.{resolve-same_dir}
use pl_dos.Filesystem.View.{entry_of, view, put, SameView}
use pl_dos.Filesystem.View.Entry.{file}
use pl_dos.Filesystem.View.Entries.{present_absurd}
use pl_dos.Filesystem.View.Abstract.{Refines, Refuses}
use pl_dos.Filesystem.View.Abstract.Op.{create_file}
use pl_dos.Programs.Commands.{kc_fs_max_file_size, write_args, prog_write}
use pl_dos.Programs.Line.{spaced, line_of, write_args-Effects}
use pl_dos.Programs.Written.{LineWritten, over_old, over_new}

module _ (d : Disk) where
  open d use {Dev}

  -- `prog_write` behind the creation of the file.
  abbrev pub created : List CString → ℕ → M Dev ℕ
  created argv rc = if rc == 0 then write_args d argv else return rc

  abbrev Clean : System Dev → Fs Dev
  Clean k = record k.fs { console = [] }

  line_fits :
      (args : List CString)
      → length (spaced args) + 1 < kc_fs_max_file_size
      → length (line_of args) ≤ fs_max_file_size
  line_fits args h = omega (arith, length-append (spaced args) (10 ∷ []), h)

  after_touch :
      (name path : CString) (args : List CString) (k : System Dev) (r : Option (ℕ × Fs Dev))
      (to : CString)
      → All NoNul args
      → length (spaced args) + 1 < kc_fs_max_file_size
      → resolve k.fs path ≡ some to
      → view k.fs.nodes to ≡ none
      → Refines (create_file path) (Clean k) r
      → LineWritten path (line_of args) k ((on_fs (λ fs. r) >>= created (name ∷ path ∷ args)) k)
  after_touch name path args k none to n h e new fault =
      resolve-same_dir (Clean k) k.fs path refl ∙ fault
  after_touch name path args k (some (status, fs')) to n h e new (s, at, t, cur, step) =
      let both : some s ≡ some to = sym at ∙ resolve-same_dir k.fs (Clean k) path refl ∙ e in
      let one : s ≡ to = cc in
      elim step [
        | inl (failed, cause, seen) ↦ rw failed (
          to,
          e,
          t,
          cur,
          refl,
          refl,
          inl (
            refl,
            λ was f. present_absurd (sym f ∙ new),
            subst (λ x. Refuses (create_file path) x k.fs.nodes) one cause,
            seen,
          ),
        )
        | inr (ok, (new_entry, (old, set_to), seen)) ↦ rw ok (
            over_new d path (line_of args) to k (printed k fs') _ e cur refl refl (line_fits args h)
              new
              (subst (λ x. SameView (put (view k.fs.nodes) x (some (file []))) (view fs'.nodes)) one
                (subst (λ x. SameView (put (view k.fs.nodes) s x) (view fs'.nodes)) set_to seen))
              (write_args-Effects d name path args (printed k fs') n h t))
      ]

  exists_none : (fs : Fs Dev) (path : CString) → resolve fs path ≡ none → fs_exists fs path ≡ none
  unfolding fs_exists
  exists_none fs path e = rw e refl

  exists_some :
      (fs : Fs Dev) (path s : CString)
      → resolve fs path ≡ some s
      → fs_exists fs path ≡ some (is_some (find_node fs.nodes s))
  unfolding fs_exists
  exists_some fs path s e = rw e refl

  module _ (name path : CString) (args : List CString) (k : System Dev) (v : IsTree k.fs.nodes)
      (n : All NoNul args) (h : length (spaced args) + 1 < kc_fs_max_file_size) where
    -- `prog_write` behind its test of the file.
    abbrev tested : Bool → M Dev ℕ
    tested found =
        if found
        then write_args d (name ∷ path ∷ args)
        else (kernel_connector_request d (Request.touch path) >>= created (name ∷ path ∷ args))

    answered-LineWritten :
        (s : CString) (f : Option ℕ)
        → resolve k.fs path ≡ some s
        → find_node k.fs.nodes s ≡ f
        → LineWritten path (line_of args) k (tested (is_some f) k)
    unfolding kernel_connector_request
    answered-LineWritten s none e miss =
        after_touch name path args k (fs_create_file d (Clean k) path) s n h e
          (ap (Option.map (λ i. entry_of (node_at k.fs.nodes i))) miss)
          (do_op-Refines d (Clean k) (create_file path) v tt)
    answered-LineWritten s (some i) e hit =
        over_old path (line_of args) k _ (line_fits args h)
          (λ s' e' same.
            let both : some s' ≡ some s = sym e' ∙ e in
            let one : s' ≡ s = cc in
            present_absurd (
              sym (ap (Option.map (λ j. entry_of (node_at k.fs.nodes j))) hit)
              ∙ sym (ap (view k.fs.nodes) one)
              ∙ same))
          (write_args-Effects d name path args k n h v)

    tested-LineWritten :
        LineWritten path (line_of args) k ((ask_fs (λ fs. fs_exists fs path) >>= tested) k)
    tested-LineWritten = elim (Option-cases (resolve k.fs path)) [
      | inl fault ↦
          subst (λ r. LineWritten path (line_of args) k ((ask_fs (λ fs. r) >>= tested) k))
            (sym (exists_none k.fs path fault)) fault
      | inr (s, e) ↦
          subst (λ r. LineWritten path (line_of args) k ((ask_fs (λ fs. r) >>= tested) k))
            (sym (exists_some k.fs path s e))
            (answered-LineWritten s (find_node k.fs.nodes s) e refl)
    ]

  -- On a valid table, `prog_write`, called with a path and at least one word, where the words, without
  -- NUL, make a line with blanks and newline below 4096 bytes: it overruns an array while it resolves
  -- the path; or it answers 1, the path is no file and cannot become one, and no entry changes; or it
  -- answers 0, and then the path, which was no directory, is a file of exactly that line and every other
  -- path names what it did. The users, the current directory and the keyboard stay as they are, and the
  -- table is valid.
  pub prog_write-LineWritten :
      (name path a : CString) (args : List CString) (k : System Dev)
      → IsTree k.fs.nodes
      → All NoNul (a ∷ args)
      → length (spaced (a ∷ args)) + 1 < kc_fs_max_file_size
      → LineWritten path (line_of (a ∷ args)) k (prog_write d (name ∷ path ∷ a ∷ args) k)
  unfolding prog_write kernel_connector_request
  prog_write-LineWritten name path a args k v n h =
      let enough : ltb (length (name ∷ path ∷ a ∷ args)) 3 ≡ false = ground arith in
      rw enough (tested-LineWritten name path (a ∷ args) k v n h)
