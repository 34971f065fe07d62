-- ===== src/Filesystem/Tree/Plain.antt =====
-- `fs_move` of kernel/filesystem.c for a source that is no directory, on the abstract filesystem.
use pl_dos.Base.{ℕ, ◌<◌, ◌≡◌, refl, sym, ap, ◌∙◌, true, false, none, some, List, ◌∷◌, length, set}
use mathlib.Core.Bool.{false≢true}
use pl_dos.Strings.{CString, NoNul, cstr}
use pl_dos.Filesystem.{Fs, Disk, Node, node_at, is_dir, fs_max_path, fs_max_files, find_node}
use pl_dos.Filesystem.Storage.Saving.{IsKept}
use pl_dos.Filesystem.Path.Canonical.{IsParts, render}
use pl_dos.Filesystem.Path.Join.{NoNul-render}
use pl_dos.Filesystem.Valid.{IsTree, node_at-IsNode}
use pl_dos.Filesystem.Valid.Put.{at_other}
use pl_dos.Filesystem.Calls.{put_node}
use pl_dos.Filesystem.Calls.Create.{finish-IsKept}
use pl_dos.Filesystem.Calls.Delete.{cleared}
use pl_dos.Filesystem.Calls.Lookup.{find_node-some}
use pl_dos.Filesystem.Tree.{move_to}
use pl_dos.Filesystem.Tree.Moved.{
  IsMovedNode, move_node-IsMovedNode, without, without-IsTree, without_gone, without_idle,
  moved-IsTree, moved_slot, moved_found,
}
use pl_dos.Filesystem.View.{Entry, entry_of, view, put, SameView, SameView-put, view-put}

kept_entry :
    (old n : Node)
    → n.type ≡ old.type
    → n.size ≡ old.size
    → n.content ≡ old.content
    → entry_of n ≡ entry_of old
kept_entry old n t z c = rw (t, z, c) refl

module _ (d : Disk) where
  open d use {Dev}

  -- What a move of the entry at `from` to `to` leaves: the entry is at `to`, no path but these two names
  -- something else, and the table is valid.
  pub record IsMoved (fs : Fs Dev) (from to : CString) (fs' : Fs Dev) : Type 0 where
    pub there : find_node fs.nodes to ≡ none
    pub seen :
        SameView (put (put (view fs.nodes) from none) to (view fs.nodes from)) (view fs'.nodes)
    pub tree : IsTree fs'.nodes
    pub same_dir : fs'.current_dir ≡ fs.current_dir

  module _ (fs : Fs Dev) (v : IsTree fs.nodes) (from : CString) (m : NoNul from) (idx : ℕ)
      (pos : 0 < idx) (hit : find_node fs.nodes from ≡ some idx)
      (plain : is_dir (node_at fs.nodes idx) ≡ false) where
    module _ (p : CString) (ps : List CString) (parent : ℕ) (n : Node) (fs' : Fs Dev)
        (parts : IsParts (p ∷ ps)) (short : length (render (p ∷ ps)) < fs_max_path)
        (miss : find_node fs.nodes (render (p ∷ ps)) ≡ none)
        (up : find_node fs.nodes (render ps) ≡ some parent)
        (dir : is_dir (node_at fs.nodes parent) ≡ true)
        (made : IsMovedNode (node_at fs.nodes idx) n parent p ps)
        (kept : IsKept d (put_node fs idx n) fs') where
      abbrev after : List Node
      after = set fs.nodes idx n

      abbrev gone : List Node
      gone = without d fs v from m idx pos hit plain

      gone-IsTree : IsTree gone
      gone-IsTree = without-IsTree d fs v from m idx pos hit plain

      after-IsTree : IsTree after
      after-IsTree =
          moved-IsTree d fs v from m idx pos hit plain p ps parent n parts short miss up dir made

      below : idx < fs_max_files
      below = (find_node-some fs.nodes v from idx m hit).0

      without_source : SameView (put (view fs.nodes) from none) (view gone)
      without_source =
          view-put fs.nodes gone v gone-IsTree idx from
            (λ u. (find_node-some fs.nodes v from idx m hit).2)
            (λ u. absurd (false≢true (sym (without_idle d fs v from m idx pos hit plain) ∙ u)))
            (at_other fs.nodes idx (cleared (node_at fs.nodes idx)) v below) none m
            (rw (without_gone d fs v from m idx pos hit plain) refl)

      slot : node_at after idx ≡ n
      slot = moved_slot d fs v from m idx pos hit plain p ps parent n parts short miss up dir made

      with_target : SameView (put (view gone) (render (p ∷ ps)) (view fs.nodes from)) (view after)
      with_target =
          view-put gone after gone-IsTree after-IsTree idx (render (p ∷ ps))
            (λ u. absurd (false≢true (sym (without_idle d fs v from m idx pos hit plain) ∙ u)))
            (λ u. ap (λ x. cstr x.path) slot ∙ made.placed.path)
            (λ j other.
              at_other fs.nodes idx n v below j other
              ∙ sym (at_other fs.nodes idx (cleared (node_at fs.nodes idx)) v below j other))
            (view fs.nodes from) (NoNul-render (p ∷ ps) parts.each)
            (rw
              (
                moved_found d fs v from m idx pos hit plain p ps parent n parts short miss up dir
                    made,
                hit,
              )
              (ap (λ (x : Entry). some x)
                (ap entry_of slot
                  ∙ kept_entry (node_at fs.nodes idx) n made.type_kept made.size_kept
                      made.content_kept)))

      after-IsMoved : IsMoved fs from (render (p ∷ ps)) fs'
      after-IsMoved = record {
        there = miss;
        seen = rw kept.nodes (λ path n.
            SameView-put _ _ (render (p ∷ ps)) (view fs.nodes from) without_source path n
            ∙ with_target path n);
        tree = rw kept.nodes after-IsTree;
        same_dir = kept.current_dir;
      }

    -- The destination's directory exists.
    pub move_in :
        (p : CString) (ps : List CString) (parent : ℕ)
        → IsParts (p ∷ ps)
        → length (render (p ∷ ps)) < fs_max_path
        → find_node fs.nodes (render (p ∷ ps)) ≡ none
        → find_node fs.nodes (render ps) ≡ some parent
        → is_dir (node_at fs.nodes parent) ≡ true
        → (fs' : Fs Dev) × (move_to d fs idx (render (p ∷ ps)) (some parent) ≡ some (0, fs'))
          × IsMoved fs from (render (p ∷ ps)) fs'
    unfolding move_to
    move_in p ps parent parts short miss up dir =
        let (n, e, made) =
          move_node-IsMovedNode (node_at fs.nodes idx) parent p ps
            (node_at-IsNode fs.nodes idx v (find_node-some fs.nodes v from idx m hit).0) parts.each
            short in
        let stays : is_dir n ≡ false = rw made.type_kept plain in
        let (fs', done, kept) = finish-IsKept d (put_node fs idx n) in
        (
          fs',
          rw (move_to, e, stays, done) refl,
          after-IsMoved p ps parent n fs' parts short miss up dir made kept,
        )
