-- ===== src/Filesystem/Tree/Moved.antt =====
-- What `fs_move` of kernel/filesystem.c writes for a source that is no directory, and why the table may
-- take it: as if the source were deleted and its slot filled again under the other path.
use pl_dos.Base.{
  ℕ, zero, suc, ◌<◌, ◌≡◌, refl, sym, ap, ◌∙◌, true, false, not, Option, none, some, List, [], ◌∷◌,
  length, set, All, arith, ◌==◌, subst, inl, inr, Bool-cases, Option-cases,
}
use mathlib.Core.Bool.{false≢true}
use pl_dos.Strings.{CString, Buffer, NoNul, cstr, str_copy_n, path_get_filename}
use pl_dos.Strings.Buffers.{Writes}
use pl_dos.Filesystem.{
  Fs, Disk, Node, node_at, is_used, is_dir, fs_max_name, fs_max_path, fs_max_files, find_node,
}
use pl_dos.Filesystem.Path.Canonical.{IsPart, IsParts, render}
use pl_dos.Filesystem.Path.Join.{NoNul-render}
use pl_dos.Filesystem.Valid.{IsNode, IsTree}
use pl_dos.Filesystem.Valid.Put.{at_idx, at_other, put-IsTree}
use pl_dos.Filesystem.Calls.Delete.{cleared, cleared-IsFitting, cleared_unfound}
use pl_dos.Filesystem.Calls.Filled.{IsPlaced, name-Writes, placed-IsFitting}
use pl_dos.Filesystem.Calls.Lookup.{copy_path, find_node-some, find_node-none, find_node_used}
use pl_dos.Filesystem.Tree.{move_node}

-- The node at its new place, with its type, size and content.
pub record IsMovedNode (old n : Node) (parent : ℕ) (p : CString) (ps : List CString) : Type 0 where
  pub placed : IsPlaced n parent p ps
  pub type_kept : n.type ≡ old.type
  pub size_kept : n.size ≡ old.size
  pub use_kept : n.used ≡ old.used
  pub content_kept : n.content ≡ old.content

pub move_node-IsMovedNode :
    (old : Node) (parent : ℕ) (p : CString) (ps : List CString)
    → IsNode old
    → All IsPart (p ∷ ps)
    → length (render (p ∷ ps)) < fs_max_path
    → (n : Node) × (move_node old parent (render (p ∷ ps)) ≡ some n) × IsMovedNode old n parent p ps
unfolding move_node
move_node-IsMovedNode old parent p ps o v h =
    with_name (str_copy_n old.name (path_get_filename (render (p ∷ ps))) fs_max_name)
      (str_copy_n old.path (render (p ∷ ps)) fs_max_path) refl refl
      (name-Writes old.name p ps o.name_size v.0)
      (copy_path old.path (render (p ∷ ps)) o.path_size (NoNul-render (p ∷ ps) v) h)
  where
    with_name :
        (r q : Option Buffer)
        → str_copy_n old.name (path_get_filename (render (p ∷ ps))) fs_max_name ≡ r
        → str_copy_n old.path (render (p ∷ ps)) fs_max_path ≡ q
        → Writes r fs_max_name p
        → Writes q fs_max_path (render (p ∷ ps))
        → (n : Node) × (move_node old parent (render (p ∷ ps)) ≡ some n)
          × IsMovedNode old n parent p ps
    with_name none q e e' w w' = absurd w
    with_name (some b) none e e' w w' = absurd w'
    with_name (some b) (some c) e e' w w' = (
      record old { parent = parent; name = b; path = c },
      rw (e, e', move_node),
      record {
        placed = record {
          ok = record {
            name_size = w.1;
            name_ends = w.2;
            path_size = w'.1;
            path_ends = w'.2;
            content_size = o.content_size;
            size_fits = o.size_fits;
          };
          name = w.0;
          path = w'.0;
          parent_set = refl;
        };
        type_kept = refl;
        size_kept = refl;
        use_kept = refl;
        content_kept = refl;
      },
    )

set-set {ℓ} : {A : Type ℓ} (xs : List A) (i : ℕ) (a b : A) → set (set xs i a) i b ≡ set xs i b
set-set [] i a b = refl
set-set (x ∷ xs) zero a b = refl
set-set (x ∷ xs) (suc i) a b = ap (◌∷◌ x) (set-set xs i a b)

module _ (d : Disk) where
  open d use {Dev}

  module _ (fs : Fs Dev) (v : IsTree fs.nodes) (from : CString) (m : NoNul from) (idx : ℕ)
      (pos : 0 < idx) (hit : find_node fs.nodes from ≡ some idx)
      (plain : is_dir (node_at fs.nodes idx) ≡ false) where
    -- The table without the source.
    abbrev pub without : List Node
    without = set fs.nodes idx (cleared (node_at fs.nodes idx))

    below : idx < fs_max_files
    below = (find_node-some fs.nodes v from idx m hit).0

    pub without-IsTree : IsTree without
    without-IsTree =
        put-IsTree fs.nodes idx (cleared (node_at fs.nodes idx)) v below
          (cleared-IsFitting fs.nodes idx v below pos (ground (arith, plain)))

    pub without_gone : find_node without from ≡ none
    without_gone = cleared_unfound d fs v from m idx below pos hit without-IsTree

    pub without_idle : is_used (node_at without idx) ≡ false
    without_idle =
        rw (at_idx fs.nodes idx (cleared (node_at fs.nodes idx)) v below idx (ground arith)) refl

    without_other : (j : ℕ) → (idx == j) ≡ false → node_at without j ≡ node_at fs.nodes j
    without_other = at_other fs.nodes idx (cleared (node_at fs.nodes idx)) v below

    -- A path of another slot is found as before, and one that was not found is not.
    without_hit :
        (path : CString) (j : ℕ)
        → NoNul path
        → find_node fs.nodes path ≡ some j
        → (idx == j) ≡ false
        → find_node without path ≡ some j
    without_hit path j n at other =
        let (h, used, same) = find_node-some fs.nodes v path j n at in
        let keep = without_other j other in
        find_node_used without without-IsTree path j n h (ap is_used keep ∙ used)
          (ap (λ x. cstr x.path) keep ∙ same)

    without_miss :
        (path : CString)
        → NoNul path
        → find_node fs.nodes path ≡ none
        → find_node without path ≡ none
    without_miss path n miss = elim (Option-cases (find_node without path)) [
      | inl none_there ↦ none_there
      | inr (j, at) ↦
          let (h, used, same) = find_node-some without without-IsTree path j n at in
          elim (Bool-cases (idx == j)) [
            | inl here ↦
                let eq = at_idx fs.nodes idx (cleared (node_at fs.nodes idx)) v below j here in
                absurd (false≢true (ap is_used (sym eq) ∙ used))
            | inr other ↦
                let keep = sym (without_other j other) in
                absurd (
                  find_node-none fs.nodes v path j miss h (ap is_used keep ∙ used)
                    (ap (λ x. cstr x.path) keep ∙ same))
          ]
    ]

    -- The source under its new path, in an existing directory.
    module _ (p : CString) (ps : List CString) (parent : ℕ) (n : Node) (parts : IsParts (p ∷ ps))
        (short : length (render (p ∷ ps)) < fs_max_path)
        (miss : find_node fs.nodes (render (p ∷ ps)) ≡ none)
        (up : find_node fs.nodes (render ps) ≡ some parent)
        (dir : is_dir (node_at fs.nodes parent) ≡ true)
        (moved : IsMovedNode (node_at fs.nodes idx) n parent p ps) where
      apart : (idx == parent) ≡ false
      apart = elim (Bool-cases (idx == parent)) [
        | inr other ↦ other
        | inl same ↦
            let e : parent ≡ idx = ground arith in
            let is : is_dir (node_at fs.nodes idx) ≡ true =
              subst (λ k. is_dir (node_at fs.nodes k) ≡ true) e dir in
            absurd (cc)
      ]

      pub moved-IsTree : IsTree (set fs.nodes idx n)
      moved-IsTree = subst IsTree (set-set fs.nodes idx (cleared (node_at fs.nodes idx)) n) (
          put-IsTree without idx n without-IsTree below (
            placed-IsFitting without idx n parent p ps without-IsTree below pos without_idle parts
              short (without_miss (render (p ∷ ps)) (NoNul-render (p ∷ ps) parts.each) miss)
              (without_hit (render ps) parent (NoNul-render ps parts.each.1) up apart)
              (ap is_dir (without_other parent apart) ∙ dir) moved.placed))

      pub moved_slot : node_at (set fs.nodes idx n) idx ≡ n
      moved_slot = at_idx fs.nodes idx n v below idx (ground arith)

      pub moved_found : find_node (set fs.nodes idx n) (render (p ∷ ps)) ≡ some idx
      moved_found =
          let (h, used, same) = find_node-some fs.nodes v from idx m hit in
          find_node_used (set fs.nodes idx n) moved-IsTree (render (p ∷ ps)) idx
            (NoNul-render (p ∷ ps) parts.each) h
            (ap is_used moved_slot ∙ ap (λ u. not (u == 0)) moved.use_kept ∙ used)
            (ap (λ x. cstr x.path) moved_slot ∙ moved.placed.path)
