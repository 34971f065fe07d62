-- ===== src/Filesystem/Tree/Directory.antt =====
-- `fs_move` of kernel/filesystem.c for a directory whose new parent exists.
use pl_dos.Base.{
  ℕ, ◌≤◌, ◌<◌, ◌≡◌, refl, sym, ◌∙◌, subst, ◌⊎◌, inl, inr, true, false, Option, none, some, List, [],
  ◌∷◌, length, set, Bool-cases, arith, ◌>>=◌,
}
use native.Mathlib.Decide.{dec_lt}
use mathlib.Core.Bool.{false≢true}
use pl_dos.Strings.{CString, NoNul}
use pl_dos.Filesystem.{
  Fs, Disk, Node, node_at, is_dir, fs_max_path, fs_max_files, root_path, find_node,
}
use pl_dos.Filesystem.Path.Canonical.{IsParts, render}
use pl_dos.Filesystem.Valid.{IsTree, path_at, node_at-IsNode}
use pl_dos.Filesystem.Calls.{finish}
use pl_dos.Filesystem.Calls.Create.{finish-IsKept}
use pl_dos.Filesystem.Calls.Lookup.{find_node-some}
use pl_dos.Filesystem.Path.Join.{NoNul-render}
use pl_dos.Filesystem.Tree.{rebuild_child_paths, move_to}
use pl_dos.Filesystem.Tree.Moved.{IsMovedNode, move_node-IsMovedNode}
use pl_dos.Filesystem.Tree.Rehung.{TooDeep, IsRehung, Rehangs}
use pl_dos.Filesystem.Tree.Subtree.{rebuild_child_paths-Rehangs}
use pl_dos.Filesystem.Tree.Within.{within, within-append, short_outside, path_long, render_long}

outside_dir :
    (ps : List CString) (p from : CString)
    → 2 ≤ length from
    → within from (render (p ∷ ps)) ≡ false
    → within from (render ps) ≡ false
outside_dir [] p from deep out = short_outside from root_path deep (omega arith)
outside_dir (q ∷ ps) p from deep out = elim (Bool-cases (within from (render (q ∷ ps)))) [
  | inr there ↦ there
  | inl is ↦ absurd (false≢true (sym out ∙ within-append from (render (q ∷ ps)) p is))
]

module _ (d : Disk) where
  open d use {Dev}

  -- The directory in slot `i` has been moved from `from` to `to`, with all that is below it.
  pub record IsDirMoved (fs : Fs Dev) (to : CString) (i : ℕ) (fs' : Fs Dev) : Type 0 where
    pub name : CString
    pub above : List CString
    pub dir : ℕ
    pub top : Node
    pub there : find_node fs.nodes to ≡ none
    pub spelled : to ≡ render (name ∷ above)
    pub up : find_node fs.nodes (render above) ≡ some dir
    pub made : IsMovedNode (node_at fs.nodes i) top dir name above
    pub hung : IsRehung fs.nodes i top to fs'.nodes
    pub same_dir : fs'.current_dir ≡ fs.current_dir

  -- How the move of the directory in slot `i` to `to` ends; nothing is said of a move into itself, nor of
  -- a table whose root is linked to a slot.
  abbrev pub MovesDir : Fs Dev → CString → CString → ℕ → Option (ℕ × Fs Dev) → Type 0
  MovesDir fs from to i r =
      (within from to ≡ true)
      ⊎ ((node_at fs.nodes 0).parent < fs_max_files)
      ⊎ ((r ≡ none) × TooDeep fs.nodes i to)
      ⊎ ((fs' : Fs Dev) × (r ≡ some (0, fs')) × IsDirMoved fs to i fs')

  module _ (fs : Fs Dev) (v : IsTree fs.nodes) (from : CString) (m : NoNul from) (i : ℕ)
      (pos : 0 < i) (hit : find_node fs.nodes from ≡ some i)
      (whole : is_dir (node_at fs.nodes i) ≡ true) (p : CString) (ps : List CString) (parent : ℕ)
      (parts : IsParts (p ∷ ps)) (short : length (render (p ∷ ps)) < fs_max_path)
      (miss : find_node fs.nodes (render (p ∷ ps)) ≡ none)
      (up : find_node fs.nodes (render ps) ≡ some parent)
      (dir : is_dir (node_at fs.nodes parent) ≡ true) where
    below : i < fs_max_files
    below = (find_node-some fs.nodes v from i m hit).0

    at_from : path_at fs.nodes i ≡ from
    at_from = (find_node-some fs.nodes v from i m hit).2

    outside_parent :
        within from (render (p ∷ ps)) ≡ false
        → within (path_at fs.nodes i) (path_at fs.nodes parent) ≡ false
    outside_parent out =
        rw
          (
            at_from,
            (find_node-some fs.nodes v (render ps) parent (NoNul-render ps parts.each.1) up).2,
          )
          (outside_dir ps p from
            (subst (λ x. 2 ≤ length x) at_from
              (path_long fs.nodes v i pos below (find_node-some fs.nodes v from i m hit).1))
            out)

    rehung :
        (n : Node) (r : Option (List Node))
        → IsMovedNode (node_at fs.nodes i) n parent p ps
        → Rehangs fs.nodes i n (render (p ∷ ps)) r
        → MovesDir fs from
            (render (p ∷ ps))
            i
            (r >>= λ nodes. finish d (record fs { nodes = nodes }))
    rehung n none made long = inr (inr (inl (refl, long)))
    rehung n (some nodes) made hung =
        let (fs', done, kept) = finish-IsKept d (record fs { nodes = nodes }) in
        inr (
          inr (
            inr (
              fs',
              done,
              record {
                name = p;
                above = ps;
                dir = parent;
                top = n;
                there = miss;
                spelled = refl;
                up = up;
                made = made;
                hung = rw kept.nodes hung;
                same_dir = kept.current_dir;
              },
            )))

    pub move_to-MovesDir :
        MovesDir fs from (render (p ∷ ps)) i (move_to d fs i (render (p ∷ ps)) (some parent))
    unfolding move_to
    move_to-MovesDir =
        let (n, e, made) =
          move_node-IsMovedNode (node_at fs.nodes i) parent p ps (node_at-IsNode fs.nodes i v below)
            parts.each short in
        let is : is_dir n ≡ true = rw made.type_kept whole in
        elim (Bool-cases (within from (render (p ∷ ps)))) [
          | inl inside ↦ inl inside
          | inr out ↦ elim (dec_lt (node_at fs.nodes 0).parent fs_max_files) [
            | yes linked ↦ inr (inl linked)
            | no loose ↦
                rw (e, is)
                  (rehung n (rebuild_child_paths fs_max_path i (set fs.nodes i n)) made (
                    rebuild_child_paths-Rehangs fs.nodes v (omega (arith, loose)) i pos below
                      (find_node-some fs.nodes v from i m hit).1 p ps parent n
                      (let (b, u, s) =
                          find_node-some fs.nodes v (render ps) parent
                            (NoNul-render ps parts.each.1) up in
                        (v.canonical parent b u).short)
                      dir (outside_parent out) (render_long p ps parts) made))
          ]
        ]
