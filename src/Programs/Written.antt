-- ===== src/Programs/Written.antt =====
-- A line written to a file, where the file is there and where it has just been made.
use pl_dos.Base.{
  ℕ, ◌≤◌, ◌≡◌, ◌≢◌, ap, ◌∙◌, sym, subst, ◌⊎◌, inl, inr, Option, none, some, List, [], length, arith,
}
use pl_dos.Strings.{CString}
use pl_dos.Filesystem.{Disk}
use pl_dos.System.{System}
use pl_dos.Filesystem.Valid.{IsTree}
use pl_dos.Filesystem.{fs_max_file_size}
use pl_dos.Filesystem.Calls.{resolve}
use pl_dos.Filesystem.Files.Read.{resolve-same_dir}
use pl_dos.Filesystem.View.{view, put, SameView}
use pl_dos.Filesystem.View.Entry.{dir, file}
use pl_dos.Filesystem.View.Entries.{present_absurd}
use pl_dos.Filesystem.View.Abstract.{Refuses, NoFile}
use pl_dos.Filesystem.View.Abstract.Op.{write_file, create_file}
use pl_dos.Filesystem.View.Copies.{rewritten, resolved-NoNul}
use pl_dos.Programs.Effects.{Effects}

file_dir : (was : List ℕ) → some (file was) ≡ some dir → ⊥
file_dir was e = cc

module _ {Dev : Type 0} where
  -- What `prog_write` does to the files and the users: a fault in the resolution of the path; a refusal
  -- for a path that is no file and cannot become one; or the path is a file of the line.
  abbrev pub LineWritten : CString → CString → System Dev → Option (ℕ × System Dev) → Type 0
  LineWritten path line k none = resolve k.fs path ≡ none
  LineWritten path line k (some (status, k')) =
      (s : CString) × (resolve k.fs path ≡ some s)
      × IsTree k'.fs.nodes
      × (k'.fs.current_dir ≡ k.fs.current_dir)
      × (k'.users ≡ k.users)
      × (k'.keys ≡ k.keys)
      × (((status ≡ 1)
            × NoFile (view k.fs.nodes) s
            × Refuses (create_file path) s k.fs.nodes
            × SameView (view k.fs.nodes) (view k'.fs.nodes))
          ⊎ ((status ≡ 0)
              × (view k.fs.nodes s ≢ some dir)
              × SameView (put (view k.fs.nodes) s (some (file line))) (view k'.fs.nodes)))

  -- The path has an entry before.
  pub over_old :
      (path line : CString) (k : System Dev) (r : Option (ℕ × System Dev))
      → length line ≤ fs_max_file_size
      → ((s : CString) → resolve k.fs path ≡ some s → view k.fs.nodes s ≢ none)
      → Effects (write_file path line) k r
      → LineWritten path line k r
  over_old path line k none fits old fault = fault
  over_old path line k (some (status, k')) fits old (s, e, t, cur, step, users, keys) = (
    s,
    e,
    t,
    cur,
    users,
    keys,
    elim step [
      | inl (failed, inl no_file, seen) ↦ inl (failed, no_file, inl (old s e), seen)
      | inl (failed, inr large, seen) ↦ absurd (omega (arith, fits, large))
      | inr (ok, (new_entry, (was, before, set_to), seen)) ↦ inr (
        ok,
        λ same. file_dir was (sym before ∙ same),
        subst (λ x. SameView (put (view k.fs.nodes) s x) (view k'.fs.nodes)) set_to seen,
      )
    ],
  )

module _ (d : Disk) where
  open d use {Dev}

  -- The state behind the creation of the file.
  pub over_new :
      (path line to : CString) (k k' : System Dev) (r : Option (ℕ × System Dev))
      → resolve k.fs path ≡ some to
      → k'.fs.current_dir ≡ k.fs.current_dir
      → k'.users ≡ k.users
      → k'.keys ≡ k.keys
      → length line ≤ fs_max_file_size
      → view k.fs.nodes to ≡ none
      → SameView (put (view k.fs.nodes) to (some (file []))) (view k'.fs.nodes)
      → Effects (write_file path line) k' r
      → LineWritten path line k r
  over_new path line to k k' none e cur users keys fits new seen fault =
      absurd (present_absurd (sym (resolve-same_dir k.fs k'.fs path cur ∙ e) ∙ fault))
  over_new path line to k k' (some (status, k'')) e cur users keys fits new seen
        (s, at, t, cur', step, users', keys') =
      let (to', e', t', dir', done) =
        rewritten d k.fs k'.fs path to line (some (status, k''.fs)) e cur
          (resolved-NoNul d k.fs path to e) fits new seen (s, at, t, cur', step) in
      (
        to',
        e',
        t',
        dir',
        users' ∙ users,
        keys' ∙ keys,
        elim done [
          | inl (failed, cause, same) ↦ inl (
            failed,
            λ was f.
                let both : some to' ≡ some to = sym e' ∙ e in
                let one : to' ≡ to = cc in present_absurd (sym f ∙ ap (view k.fs.nodes) one ∙ new),
            cause,
            same,
          )
          | inr (ok, none_before, put_line) ↦
              inr (ok, λ same. present_absurd (sym same ∙ none_before), put_line)
        ],
      )
