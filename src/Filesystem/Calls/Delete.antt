-- ===== src/Filesystem/Calls/Delete.antt =====
-- `fs_delete` of kernel/filesystem.c on every branch.
use pl_dos.Base.{
  ℕ, zero, suc, ◌<◌, ◌≡◌, refl, sym, ap, ◌∙◌, ◌≢◌, ◌⊎◌, inl, inr, true, false, ◌&&◌, Option, none,
  some, List, [], ◌∷◌, length, set, Bool-cases, Option-cases, arith, ◌==◌, codes,
}
use mathlib.Core.Bool.{false≢true}
use pl_dos.Strings.{CString, NoNul, cstr}
use pl_dos.Filesystem.{Fs, Disk, Node, node_at, is_used, is_dir, fs_max_files, find_node}
use pl_dos.Filesystem.Storage.Saving.{IsKept}
use pl_dos.Filesystem.Path.Resolved.{IsCanonical}
use pl_dos.Filesystem.Valid.{IsTree, UsedAt, node_at-IsNode}
use pl_dos.Filesystem.Valid.Put.{IsFitting, at_idx, at_other, put-IsTree}
use pl_dos.Filesystem.Calls.{refuse, put_node, resolve, has_child, delete_at, fs_delete}
use pl_dos.Filesystem.Calls.Create.{finish-IsKept}
use pl_dos.Filesystem.Calls.Lookup.{resolve_cases, canonical-NoNul, find_node-some}

-- Without a child, no used node has the parent `idx`.
has_child-none :
    (nodes : List Node) (idx j : ℕ)
    → has_child nodes idx ≡ false
    → j < length nodes
    → UsedAt nodes j
    → (node_at nodes j).parent ≢ idx
unfolding has_child
has_child-none [] idx j e h u at = omega arith
has_child-none (n ∷ nodes) idx zero e h u at = ground arith
has_child-none (n ∷ nodes) idx (suc j) e h u at =
    has_child-none nodes idx j (ground arith) (omega arith) u at

abbrev pub cleared : Node → Node
cleared n = record n { used = 0 }

module _ (nodes : List Node) (idx : ℕ) (v : IsTree nodes) (h : idx < fs_max_files) where
  -- A file, or a directory without entries, is the parent of no node.
  childless :
      (is_dir (node_at nodes idx) && has_child nodes idx) ≡ false
      → (j : ℕ) → 0 < j
      → j < fs_max_files
      → UsedAt nodes j
      → (node_at nodes j).parent ≢ idx
  childless bare j pj hj uj at = elim (Bool-cases (is_dir (node_at nodes idx))) [
    | inr file ↦
        false≢true (
          sym file ∙ sym (ap (λ k. is_dir (node_at nodes k)) at) ∙ (v.parent j pj hj uj).parent_dir)
    | inl dir ↦ has_child-none nodes idx j (ground arith) (omega (arith, v.count)) uj at
  ]

  pub cleared-IsFitting :
      0 < idx
      → (is_dir (node_at nodes idx) && has_child nodes idx) ≡ false
      → IsFitting nodes idx (cleared (node_at nodes idx)) v h
  cleared-IsFitting pos bare =
      let o = node_at-IsNode nodes idx v h in
      record {
        ok = record {
          name_size = o.name_size;
          name_ends = o.name_ends;
          path_size = o.path_size;
          path_ends = o.path_ends;
          content_size = o.content_size;
          size_fits = o.size_fits;
        };
        root = λ z. absurd (omega arith);
        fresh = λ u. absurd (false≢true u);
        plain = λ u. absurd (false≢true u);
        placed = λ u. absurd (false≢true u);
        below = λ j pj hj uj at. absurd (childless bare j pj hj uj at);
      }

-- What a deletion of `path` leaves: its slot is free, no other slot changed.
pub record IsDeleted {Dev : Type 0} (fs : Fs Dev) (path : CString) (fs' : Fs Dev) : Type 0 where
  pub idx : ℕ
  pub was_found : find_node fs.nodes path ≡ some idx
  pub gone : find_node fs'.nodes path ≡ none
  pub freed : is_used (node_at fs'.nodes idx) ≡ false
  pub others : (j : ℕ) → (idx == j) ≡ false → node_at fs'.nodes j ≡ node_at fs.nodes j
  pub tree : IsTree fs'.nodes
  pub same_dir : fs'.current_dir ≡ fs.current_dir

module _ (d : Disk) where
  open d use {Dev}

  -- The three ways a deletion ends, each with its cause.
  abbrev pub Deletion : Fs Dev → CString → Option (ℕ × Fs Dev) → Type 0
  Deletion fs path r =
      (((find_node fs.nodes path ≡ none) ⊎ (find_node fs.nodes path ≡ some 0))
        × (r ≡ refuse fs (codes "Cannot delete that path")))
      ⊎ ((i : ℕ) × (find_node fs.nodes path ≡ some i)
          × (is_dir (node_at fs.nodes i) ≡ true)
          × (has_child fs.nodes i ≡ true)
          × (r ≡ refuse fs (codes "Directory is not empty")))
      ⊎ ((fs' : Fs Dev) × (r ≡ some (0, fs')) × IsDeleted fs path fs')

  module _ (fs : Fs Dev) (v : IsTree fs.nodes) (path : CString) (n : NoNul path) where
    pub cleared_unfound :
        (idx : ℕ) (h : idx < fs_max_files)
        → 0 < idx
        → find_node fs.nodes path ≡ some idx
        → IsTree (set fs.nodes idx (cleared (node_at fs.nodes idx)))
        → find_node (set fs.nodes idx (cleared (node_at fs.nodes idx))) path ≡ none
    cleared_unfound idx h pos hit tree =
        let after = set fs.nodes idx (cleared (node_at fs.nodes idx)) in
        elim (Option-cases (find_node after path)) [
          | inl miss ↦ miss
          | inr (j, again) ↦
              let (hj, uj, at) = find_node-some after tree path j n again in
              elim (Bool-cases (idx == j)) [
                | inl same ↦ absurd (
                    false≢true (
                      ap is_used
                        (sym (at_idx fs.nodes idx (cleared (node_at fs.nodes idx)) v h j same))
                      ∙ uj))
                | inr other ↦
                    let eq = at_other fs.nodes idx (cleared (node_at fs.nodes idx)) v h j other in
                    let (_, ui, at_i) = find_node-some fs.nodes v path idx n hit in
                    let same : idx ≡ j =
                      v.unique idx j h hj ui (ap is_used (sym eq) ∙ uj)
                        (at_i ∙ sym at ∙ ap (λ x. cstr x.path) eq) in
                    absurd (ground arith)
              ]
        ]

    deleted :
        (idx : ℕ) (fs' : Fs Dev)
        → 0 < idx
        → find_node fs.nodes path ≡ some idx
        → (is_dir (node_at fs.nodes idx) && has_child fs.nodes idx) ≡ false
        → IsKept d (put_node fs idx (cleared (node_at fs.nodes idx))) fs'
        → IsDeleted fs path fs'
    deleted idx fs' pos hit bare kept =
        let h = (find_node-some fs.nodes v path idx n hit).0 in
        let m = cleared (node_at fs.nodes idx) in
        let tree = put-IsTree fs.nodes idx m v h (cleared-IsFitting fs.nodes idx v h pos bare) in
        record {
          idx = idx;
          was_found = hit;
          gone = rw kept.nodes (cleared_unfound idx h pos hit tree);
          freed = rw (kept.nodes, at_idx fs.nodes idx m v h idx (ground arith));
          others = λ j ne. rw kept.nodes (at_other fs.nodes idx m v h j ne);
          tree = rw kept.nodes tree;
          same_dir = kept.current_dir;
        }

    delete_found :
        (idx : ℕ)
        → find_node fs.nodes path ≡ some (suc idx)
        → Deletion fs path (delete_at d fs (some (suc idx)))
    unfolding delete_at
    delete_found idx hit =
        elim (Bool-cases (is_dir (node_at fs.nodes (suc idx)) && has_child fs.nodes (suc idx))) [
          | inl busy ↦ inr (inl (suc idx, hit, ground arith, ground arith, rw busy))
          | inr bare ↦
              let (fs', done, kept) =
                finish-IsKept d (put_node fs (suc idx) (cleared (node_at fs.nodes (suc idx)))) in
              inr (inr (fs', rw (bare, done), deleted (suc idx) fs' (omega arith) hit bare kept))
        ]

    delete_at-Deletion :
        (o : Option ℕ) → find_node fs.nodes path ≡ o → Deletion fs path (delete_at d fs o)
    unfolding delete_at
    delete_at-Deletion none e = inl (inl e, refl)
    delete_at-Deletion (some zero) e = inl (inr e, refl)
    delete_at-Deletion (some (suc idx)) e = delete_found idx e

  abbrev pub DeletesAt : Fs Dev → CString → Option (ℕ × Fs Dev) → Type 0
  DeletesAt fs path r =
      ((resolve fs path ≡ none) × (r ≡ none))
      ⊎ ((s : CString) × (resolve fs path ≡ some s) × IsCanonical s × Deletion fs s r)

  -- On a valid table, `fs_delete` overruns an array while it resolves the path, or it resolves the path
  -- and refuses it because no node has it, because it is the root, or because it is a directory with an
  -- entry, or it answers 0: then the search of the path finds nothing, the slot of the entry is free,
  -- every other slot is as before and the table is valid.
  pub fs_delete-DeletesAt :
      (fs : Fs Dev) (path : CString) → IsTree fs.nodes → DeletesAt fs path (fs_delete d fs path)
  unfolding fs_delete
  fs_delete-DeletesAt fs path v = elim (resolve_cases fs path) [
    | inl fault ↦ inl (fault, rw fault)
    | inr (s, e, c) ↦ inr (
      s,
      e,
      c,
      rw e (delete_at-Deletion fs v s (canonical-NoNul s c) (find_node fs.nodes s) refl),
    )
  ]
