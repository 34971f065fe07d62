-- ===== src/Filesystem/Tree/Moves.antt =====
-- `fs_move` of kernel/filesystem.c on every branch.
use pl_dos.Base.{
  ℕ, zero, suc, ◌<◌, ◌≡◌, refl, sym, ◌∙◌, ◌⊎◌, inl, inr, true, Option, none, some, List, [], ◌∷◌,
  length, arith, subst, codes, is_some, Bool-cases, Option-cases,
}
use pl_dos.Strings.{CString, NoNul}
use pl_dos.Filesystem.{
  Fs, Disk, node_at, is_dir, fs_max_path, root_path, find_node, find_parent, dir_index,
}
use pl_dos.Filesystem.Path.Canonical.{IsParts, render}
use pl_dos.Filesystem.Path.Join.{NoNul-render}
use pl_dos.Filesystem.Path.Resolved.{IsCanonical}
use pl_dos.Filesystem.Valid.{IsTree}
use pl_dos.Filesystem.Calls.{refuse, resolve}
use pl_dos.Filesystem.Calls.Lookup.{
  resolve_cases, canonical-NoNul, find_node_used, dir_index-some, find_parent-render,
}
use pl_dos.Filesystem.Tree.{move_to, move_at, fs_move}
use pl_dos.Filesystem.Tree.Directory.{MovesDir, move_to-MovesDir}
use pl_dos.Filesystem.Tree.Plain.{IsMoved, move_in}

module _ (d : Disk) where
  open d use {Dev}

  -- How a move of the node `i` at `from` ends, with the cause of each end.
  abbrev pub Moving : Fs Dev → CString → CString → ℕ → Option (ℕ × Fs Dev) → Type 0
  Moving fs from to i r =
      ((is_some (find_node fs.nodes to) ≡ true)
        × (r ≡ refuse fs (codes "Destination already exists")))
      ⊎ ((find_node fs.nodes to ≡ none)
          × (find_parent fs.nodes to ≡ some none)
          × (r ≡ refuse fs (codes "Destination parent not found")))
      ⊎ ((is_dir (node_at fs.nodes i) ≡ true) × MovesDir d fs from to i r)
      ⊎ ((fs' : Fs Dev) × (r ≡ some (0, fs')) × IsMoved d fs from to fs')

  abbrev pub Move : Fs Dev → CString → CString → Option (ℕ × Fs Dev) → Type 0
  Move fs from to r =
      (((find_node fs.nodes from ≡ none) ⊎ (find_node fs.nodes from ≡ some 0))
        × (r ≡ refuse fs (codes "Source not found")))
      ⊎ ((i : ℕ) × (find_node fs.nodes from ≡ some i) × (0 < i) × Moving fs from to i r)

  module _ (fs : Fs Dev) (v : IsTree fs.nodes) (from : CString) (m : NoNul from) (i : ℕ)
      (hit : find_node fs.nodes from ≡ some (suc i)) where
    move_entry :
        (p : CString) (ps : List CString)
        → IsParts (p ∷ ps)
        → length (render (p ∷ ps)) < fs_max_path
        → Moving fs from (render (p ∷ ps)) (suc i) (move_at d fs (some (suc i)) (render (p ∷ ps)))
    unfolding move_at move_to
    move_entry p ps parts short = elim (Option-cases (find_node fs.nodes (render (p ∷ ps)))) [
      | inr (j, at) ↦ inl (rw at, rw at)
      | inl miss ↦
          let up = find_parent-render fs.nodes p ps parts.each short in
          elim (Option-cases (dir_index fs.nodes (find_node fs.nodes (render ps)))) [
            | inl orphan ↦ inr (inl (miss, up ∙ rw orphan, rw (miss, up, orphan)))
            | inr (parent, at) ↦
                let (found, dir) = dir_index-some fs.nodes v _ parent at in
                elim (Bool-cases (is_dir (node_at fs.nodes (suc i)))) [
                  | inl whole ↦ inr (
                      inr (
                        inl (
                          whole,
                          rw (miss, up, at)
                              (move_to-MovesDir d fs v from m (suc i) (omega arith) hit whole p ps
                                parent parts short miss found dir),
                        )))
                  | inr plain ↦
                      let (fs', done, moved) =
                        move_in d fs v from m (suc i) (omega arith) hit plain p ps parent parts
                          short miss found dir in
                      inr (inr (inr (fs', rw (miss, up, at) done, moved)))
                ]
          ]
    ]

    move_found :
        (to : CString) → IsCanonical to → Moving fs from to (suc i) (move_at d fs (some (suc i)) to)
    unfolding move_at
    move_found to c = by_parts c.parts c.parts_ok c.spelled c.short
      where
        by_parts :
            (parts : List CString)
            → IsParts parts
            → to ≡ render parts
            → length to < fs_max_path
            → Moving fs from to (suc i) (move_at d fs (some (suc i)) to)
        by_parts [] ok e h =
            let root : find_node fs.nodes root_path ≡ some 0 =
              find_node_used fs.nodes v root_path 0 (NoNul-render [] ok.each) (omega arith)
                v.root_used v.root_at in
            inl (rw (e, root), rw (e, root))
        by_parts (p ∷ ps) ok e h =
            subst (λ x. Moving fs from x (suc i) (move_at d fs (some (suc i)) x)) (sym e)
              (move_entry p ps ok (subst (λ x. length x < fs_max_path) e h))

  move_at-Move :
      (fs : Fs Dev) (from to : CString) (o : Option ℕ)
      → IsTree fs.nodes
      → NoNul from
      → IsCanonical to
      → find_node fs.nodes from ≡ o
      → Move fs from to (move_at d fs o to)
  unfolding move_at
  move_at-Move fs from to none v m c e = inl (inl e, refl)
  move_at-Move fs from to (some zero) v m c e = inl (inr e, refl)
  move_at-Move fs from to (some (suc i)) v m c e =
      inr (suc i, e, omega arith, move_found fs v from m i e to c)

  -- What `fs_move` answers for any two paths whose resolution fits the arrays.
  abbrev pub MovesTo : Fs Dev → CString → CString → Option (ℕ × Fs Dev) → Type 0
  MovesTo fs src dest r =
      (((resolve fs src ≡ none) ⊎ (resolve fs dest ≡ none)) × (r ≡ none))
      ⊎ ((from : CString) × (to : CString) × (resolve fs src ≡ some from)
          × (resolve fs dest ≡ some to)
          × Move fs from to r)

  -- On a valid table, `fs_move` overruns an array while it resolves one of its paths, or it refuses
  -- because the source is not found or is the root, because the destination exists, or because the
  -- destination's directory does not, or the source is a directory, or it answers 0: then the
  -- destination, which named nothing, names what the source named, the source names nothing, every
  -- other path names what it did and the table is valid. For a directory, unless the destination lies
  -- below it or the root's slot is linked to a slot, either `fs_move` overruns an array and some node of
  -- the subtree would get a path of 128 bytes or more, or it answers 0: then the directory has its new
  -- name, parent and path, each node below it has `to` in place of `from` at the front of its path and
  -- is otherwise as before, and all other slots are as before.
  pub fs_move-MovesTo :
      (fs : Fs Dev) (src dest : CString)
      → IsTree fs.nodes
      → MovesTo fs src dest (fs_move d fs src dest)
  unfolding fs_move
  fs_move-MovesTo fs src dest v = elim (resolve_cases fs src) [
    | inl fault ↦ inl (inl fault, rw fault)
    | inr (from, e, c) ↦ elim (resolve_cases fs dest) [
      | inl fault ↦ inl (inr fault, rw (e, fault))
      | inr (to, e', c') ↦ inr (
        from,
        to,
        e,
        e',
        rw (e, e')
            (move_at-Move fs from to (find_node fs.nodes from) v (canonical-NoNul from c) c' refl),
      )
    ]
  ]
