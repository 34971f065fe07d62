-- ===== src/Filesystem/View/Copies.antt =====
-- `fs_copy` of kernel/filesystem.c as a step of the abstract filesystem: the creation of a file and the
-- write of its content together.
use pl_dos.Base.{
  ℕ, zero, suc, ◌≤◌, ◌<◌, ◌≡◌, refl, sym, ap, subst, ◌∙◌, ◌⊎◌, inl, inr, true, Option, none, some,
  List, [], length, take, length-take, take-append, arith, codes, ◌>>=◌, ◌==◌, Bool-cases,
}
use mathlib.Core.Bool.{false≢true}
use pl_dos.Strings.{CString, NoNul}
use pl_dos.Strings.Compare.{str_eq_refl}
use pl_dos.Filesystem.{Fs, Disk, Node, node_at, is_used, fs_file, fs_max_files, fs_max_file_size}
use pl_dos.Filesystem.Valid.{IsTree, UsedAt, node_at-IsNode}
use pl_dos.Filesystem.Calls.{refuse, resolve, fs_create_file}
use pl_dos.Filesystem.Calls.Create.{CreatesAt, fs_create_file-CreatesAt}
use pl_dos.Filesystem.Calls.Lookup.{resolve_cases, canonical-NoNul, find_node-some}
use pl_dos.Filesystem.Files.{file_index, fs_write_file, copy_content, copy_from, fs_copy}
use pl_dos.Filesystem.Files.Refill.{file_index-some}
use pl_dos.Filesystem.Files.Read.{resolve-same_dir}
use pl_dos.Filesystem.Files.Write.{overwrite, fs_write_file-WritesAt}
use pl_dos.Filesystem.View.{Entry, view, put, SameView, SameView-put, put-put}
use pl_dos.Filesystem.View.Entry.{file}
use pl_dos.Filesystem.View.Abstract.{NoFile, Refuses, AbstractStep, Refines}
use pl_dos.Filesystem.View.Abstract.Op.{create_file, write_file}
use pl_dos.Filesystem.View.Entries.{present_absurd}
use pl_dos.Filesystem.View.Contents.{writes-Refines, file_entry, no_file}
use pl_dos.Filesystem.View.Refines.{do_op-Refines}

-- The bytes of the file in slot `i`.
abbrev pub bytes_at : List Node → ℕ → List ℕ
bytes_at nodes i = take (node_at nodes i).size (node_at nodes i).content

module _ (d : Disk) where
  open d use {Dev}

  -- A copy of the bytes `content` to the path `to`: it is refused for a cause that refuses a new file,
  -- and changes no entry, or `to` is a new file of these bytes.
  abbrev pub CopyStep : List ℕ → CString → List Node → ℕ → List Node → Type 0
  CopyStep content to nodes status nodes' =
      ((status ≡ 1) × Refuses (create_file to) to nodes × SameView (view nodes) (view nodes'))
      ⊎ ((status ≡ 0)
          × (view nodes to ≡ none)
          × SameView (put (view nodes) to (some (file content))) (view nodes'))

  abbrev pub Copied : Fs Dev → CString → List ℕ → Option (ℕ × Fs Dev) → Type 0
  Copied fs dest content none = resolve fs dest ≡ none
  Copied fs dest content (some (status, fs')) =
      (to : CString) × (resolve fs dest ≡ some to)
      × IsTree fs'.nodes
      × (fs'.current_dir ≡ fs.current_dir)
      × CopyStep content to fs.nodes status fs'.nodes

  -- Slot `i` is as before where the result is 0.
  abbrev SlotKept : Fs Dev → ℕ → Option (ℕ × Fs Dev) → Type 0
  SlotKept fs i none = Unit {0}
  SlotKept fs i (some (zero, fs')) = node_at fs'.nodes i ≡ node_at fs.nodes i
  SlotKept fs i (some (suc status, fs')) = Unit {0}

  created-SlotKept :
      (fs : Fs Dev) (type : ℕ) (exists path : CString) (i : ℕ) (r : Option (ℕ × Fs Dev))
      → UsedAt fs.nodes i
      → CreatesAt d fs type exists path r
      → SlotKept fs i r
  created-SlotKept fs type exists path i r u w = elim w [
    | inl (fault, eq) ↦ subst (SlotKept fs i) (sym eq) tt
    | inr (s, e, c, inl (hit, eq)) ↦ subst (SlotKept fs i) (sym eq) tt
    | inr (s, e, c, inr (inl (hit, eq))) ↦ subst (SlotKept fs i) (sym eq) tt
    | inr (s, e, c, inr (inr (inl (full, eq)))) ↦ subst (SlotKept fs i) (sym eq) tt
    | inr (s, e, c, inr (inr (inr (fs', eq, made)))) ↦
        subst (SlotKept fs i) (sym eq) (elim (Bool-cases (made.idx == i)) [
          | inr other ↦ made.others i other
          | inl same ↦
              let at : i ≡ made.idx = ground arith in
              let used : is_used (node_at fs.nodes made.idx) ≡ true =
                subst (λ k. is_used (node_at fs.nodes k) ≡ true) at u in
              absurd (false≢true (sym made.was_free ∙ used))
        ])
  ]

  -- A write of the first `size` bytes of an array.
  pub writes_front :
      (fs : Fs Dev) (dest : CString) (bytes : List ℕ) (size : ℕ)
      → IsTree fs.nodes
      → size ≤ length bytes
      → Refines (write_file dest (take size bytes)) fs (fs_write_file d fs dest bytes size)
  writes_front fs dest bytes size v fits =
      let whole : length (take size bytes) ≡ size = omega (arith, length-take size bytes) in
      writes-Refines d (write_file dest (take size bytes)) fs _ _ _ v
        (λ i h small. (
          _,
          refl,
          ap (λ x. some (file x))
              (subst
                (λ k.
                  take k (overwrite (node_at fs.nodes i).content 0 (take size bytes))
                  ≡ take size bytes)
                whole (take-append (take size bytes) _)),
        ))
        (λ s cause. elim cause [
          | inl other ↦ inl other
          | inr (i, at, h, large) ↦ inr (omega (arith, whole, large))
        ])
        (fs_write_file-WritesAt d fs dest bytes size v fits)

  pub resolved-NoNul : (fs : Fs Dev) (path s : CString) → resolve fs path ≡ some s → NoNul s
  resolved-NoNul fs path s e = elim (resolve_cases fs path) [
    | inl fault ↦ absurd (present_absurd (sym e ∙ fault))
    | inr (s', e', c) ↦
        let both : some s' ≡ some s = sym e' ∙ e in
        let same : s' ≡ s = cc in subst NoNul same (canonical-NoNul s' c)
  ]

  -- The write behind a creation, in the state that it left.
  pub rewritten :
      (fs fs' : Fs Dev) (dest to : CString) (content : List ℕ) (r : Option (ℕ × Fs Dev))
      → resolve fs dest ≡ some to
      → fs'.current_dir ≡ fs.current_dir
      → NoNul to
      → length content ≤ fs_max_file_size
      → view fs.nodes to ≡ none
      → SameView (put (view fs.nodes) to (some (file []))) (view fs'.nodes)
      → Refines (write_file dest content) fs' r
      → Copied fs dest content r
  rewritten fs fs' dest to content none e same n fits new seen fault =
      absurd (present_absurd (sym (resolve-same_dir fs fs' dest same ∙ e) ∙ fault))
  rewritten fs fs' dest to content (some (status, fs'')) e same n fits new seen
        (s, at, t, dir, step) =
      (to, e, t, dir ∙ same, done step)
    where
      known : s ≡ to
      known = let both : some s ≡ some to = sym at ∙ resolve-same_dir fs fs' dest same ∙ e in cc

      empty : view fs'.nodes to ≡ some (file [])
      empty = sym (seen to n) ∙ rw (str_eq_refl to) refl

      done :
          AbstractStep (write_file dest content) s fs'.nodes status fs''.nodes
          → CopyStep content to fs.nodes status fs''.nodes
      done (inl (failed, inl no_file, unseen)) =
          absurd (no_file [] (ap (view fs'.nodes) known ∙ empty))
      done (inl (failed, inr large, unseen)) = absurd (omega (arith, fits, large))
      done (inr (ok, (new_entry, (was, old, set_to), seen'))) = inr (
        ok,
        new,
        λ path k.
            sym (put-put (view fs.nodes) to (some (file [])) (some (file content)) path)
            ∙ SameView-put _ _ to (some (file content)) seen path k
            ∙ subst (λ x. put (view fs'.nodes) x (some (file content)) path ≡ view fs''.nodes path)
                known
                (subst (λ x. put (view fs'.nodes) s x path ≡ view fs''.nodes path) set_to
                  (seen' path k)),
      )

  -- The creation and the write, where the source is the file in slot `i`.
  copy_rest :
      (fs : Fs Dev) (dest : CString) (i : ℕ) (r : Option (ℕ × Fs Dev))
      → IsTree fs.nodes
      → i < fs_max_files
      → Refines (create_file dest) fs r
      → SlotKept fs i r
      → Copied fs dest (bytes_at fs.nodes i) (r >>= copy_content d dest i)
  unfolding copy_content
  copy_rest fs dest i none v h fault kept = fault
  copy_rest fs dest i (some (suc status, fs')) v h (to, e, t, dir, step) kept = elim step [
    | inl (failed, cause, seen) ↦ (to, e, t, dir, inl (refl, cause, seen))
    | inr (ok, changed) ↦ absurd (omega (arith, ok))
  ]
  copy_rest fs dest i (some (zero, fs')) v h (to, e, t, dir, step) kept = elim step [
    | inl (failed, cause, seen) ↦ absurd (omega (arith, failed))
    | inr (ok, (new_entry, (new, set_to), seen)) ↦
        let o = node_at-IsNode fs.nodes i v h in
        let fits : length (bytes_at fs.nodes i) ≤ fs_max_file_size = omega (
          arith,
          length-take (node_at fs.nodes i).size (node_at fs.nodes i).content,
          o.size_fits,
          o.content_size,
        ) in
        subst
          (λ (n : Node).
            Copied fs dest (bytes_at fs.nodes i) (fs_write_file d fs' dest n.content n.size))
          (sym kept)
          (rewritten fs fs' dest to (bytes_at fs.nodes i) _ e dir (resolved-NoNul fs dest to e) fits
            new (subst (λ x. SameView (put (view fs.nodes) to x) (view fs'.nodes)) set_to seen)
            (writes_front fs' dest (node_at fs.nodes i).content (node_at fs.nodes i).size t
              (omega (arith, o.size_fits, o.content_size))))
  ]

  -- What `fs_copy` answers for any two paths.
  abbrev pub CopiesTo : Fs Dev → CString → CString → Option (ℕ × Fs Dev) → Type 0
  CopiesTo fs src dest r =
      ((resolve fs src ≡ none) × (r ≡ none))
      ⊎ ((from : CString) × (resolve fs src ≡ some from)
          × ((NoFile (view fs.nodes) from × (r ≡ refuse fs (codes "Source file not found")))
              ⊎ ((content : List ℕ) × (view fs.nodes from ≡ some (file content))
                  × Copied fs dest content r)))

  copies_from :
      (fs : Fs Dev) (from dest : CString) (o : Option ℕ)
      → IsTree fs.nodes
      → NoNul from
      → file_index fs.nodes from ≡ o
      → (NoFile (view fs.nodes) from
          × (copy_from d fs dest o ≡ refuse fs (codes "Source file not found")))
        ⊎ ((content : List ℕ) × (view fs.nodes from ≡ some (file content))
            × Copied fs dest content (copy_from d fs dest o))
  unfolding copy_from
  copies_from fs from dest none v n miss = inl (no_file d fs from miss, refl)
  copies_from fs from dest (some i) v n hit =
      let (found, plain) = file_index-some fs.nodes from i hit in
      let (h, used, named) = find_node-some fs.nodes v from i n found in
      let made = fs_create_file-CreatesAt d fs dest v in
      inr (
        bytes_at fs.nodes i,
        rw found (ap (λ (x : Entry). some x) (file_entry d (node_at fs.nodes i) plain)),
        copy_rest fs dest i (fs_create_file d fs dest) v h
            (do_op-Refines d fs (create_file dest) v tt)
            (created-SlotKept fs fs_file (codes "File already exists") dest i _ used made),
      )

  -- On a valid table, `fs_copy` overruns an array while it resolves one of its paths; or the source is
  -- no file and it refuses; or it answers 1, for a cause that refuses a new file at the destination, and
  -- changes no entry; or it answers 0, and then the destination, which named nothing, is a file with
  -- the bytes of the source, every other path names what it did and the table is valid.
  pub fs_copy-CopiesTo :
      (fs : Fs Dev) (src dest : CString)
      → IsTree fs.nodes
      → CopiesTo fs src dest (fs_copy d fs src dest)
  unfolding fs_copy
  fs_copy-CopiesTo fs src dest v = elim (resolve_cases fs src) [
    | inl fault ↦ inl (fault, rw fault)
    | inr (from, e, c) ↦ inr (
      from,
      e,
      rw e (copies_from fs from dest (file_index fs.nodes from) v (canonical-NoNul from c) refl),
    )
  ]
