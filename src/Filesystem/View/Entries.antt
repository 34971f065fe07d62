-- ===== src/Filesystem/View/Entries.antt =====
-- Creations and deletions of kernel/filesystem.c as steps of the abstract filesystem.
use mathlib.Core.Option
use pl_dos.Base.{
  Bool-cases, Option-cases, is_some, ℕ, ◌≡◌, ◌≢◌, refl, sym, ap, subst, ◌∙◌, ◌⊎◌, inl, inr, Bool,
  true, false, Option, none, some, [], ◌==◌, arith, codes,
}
use pl_dos.Strings.{CString, NoNul, cstr}
use pl_dos.Filesystem.{
  Fs, Disk, Node, node_at, is_used, is_dir, fs_file, fs_dir, find_node, find_parent, allocate_node,
}
use pl_dos.Filesystem.Valid.{IsTree}
use pl_dos.Filesystem.Calls.Create.{IsCreated, CreatesAt}
use pl_dos.Filesystem.Calls.Delete.{IsDeleted, DeletesAt}
use pl_dos.Filesystem.Calls.Lookup.{canonical-NoNul, find_node-some, find_node_used}
use pl_dos.Filesystem.View.{Entry, entry_of, view, view-put}
use pl_dos.Filesystem.View.Entry.{dir, file}
use pl_dos.Filesystem.View.Abstract.{Op, target, Allows, Refuses, AbstractStep, Refines, refused}
use pl_dos.Filesystem.View.Abstract.Op.{delete}

unused : {b : Bool} {A : Type 0} → b ≡ false → b ≡ true → A
unused e u = absurd (cc)

found_absurd : false ≡ true → ⊥
found_absurd e = cc

pub present_absurd : {A : Type 0} {a : A} → some a ≡ none → ⊥
present_absurd e = cc

-- A number that is written to a slot keeps the entries of the others apart.
other_slot : (i j : ℕ) → (i == j) ≡ false → some j ≡ some i → ⊥
other_slot i j ne e = ground arith

module _ (d : Disk) where
  open d use {Dev}

  module _ (fs : Fs Dev) (type : ℕ) (s : CString) (fs' : Fs Dev) (v : IsTree fs.nodes) (n : NoNul s)
      (c : IsCreated d fs type s fs') where
    created_unfound : find_node fs.nodes s ≡ none
    created_unfound = elim (Option-cases (find_node fs.nodes s)) [
      | inl miss ↦ miss
      | inr (i, hit) ↦
          let (h, used, at) = find_node-some fs.nodes v s i n hit in
          elim (Bool-cases (c.idx == i)) [
            | inl same ↦
                let at_idx : i ≡ c.idx = ground arith in
                unused c.was_free (subst (λ k. is_used (node_at fs.nodes k) ≡ true) at_idx used)
            | inr other ↦
                let keep = c.others i other in
                let again =
                  find_node_used fs'.nodes c.tree s i n h (ap is_used keep ∙ used)
                    (ap (λ m. cstr m.path) keep ∙ at) in
                absurd (other_slot c.idx i other (sym again ∙ c.found))
          ]
    ]

    created-AbstractStep :
        (op : Op) (e : Entry)
        → Allows op none (some e)
        → entry_of (node_at fs'.nodes c.idx) ≡ e
        → AbstractStep op s fs.nodes 0 fs'.nodes
    created-AbstractStep op e allowed at =
        let (below, used, named) = find_node-some fs'.nodes c.tree s c.idx n c.found in
        inr (
          refl,
          (
            some e,
            subst (λ i. Allows op (Option.map (λ k. entry_of (node_at fs.nodes k)) i) (some e))
                (sym created_unfound) allowed,
            view-put fs.nodes fs'.nodes v c.tree c.idx s (unused c.was_free) (λ u. named) c.others
                (some e) n (rw c.found (ap (λ (x : Entry). some x) at)),
          ),
        )

  pub created_file : (m : Node) → m.type ≡ fs_file → m.size ≡ 0 → entry_of m ≡ file []
  created_file m t z = rw (t, z) refl

  pub created_dir : (m : Node) → m.type ≡ fs_dir → entry_of m ≡ dir
  created_dir m t = rw t refl

  pub creates-Refines :
      (op : Op) (fs : Fs Dev) (type : ℕ) (exists : CString) (e : Entry) (r : Option (ℕ × Fs Dev))
      → IsTree fs.nodes
      → Allows op none (some e)
      → ((s : CString)
          → (view fs.nodes s ≢ none)
            ⊎ (find_parent fs.nodes s ≡ some none)
            ⊎ (allocate_node fs.nodes ≡ none)
          → Refuses op s fs.nodes)
      → ((m : Node) → m.type ≡ type → m.size ≡ 0 → entry_of m ≡ e)
      → CreatesAt d fs type exists (target op) r
      → Refines op fs r
  creates-Refines op fs type exists e r v allowed refuses made w = elim w [
    | inl (fault, eq) ↦ subst (Refines op fs) (sym eq) fault
    | inr (s, at, c, inl (hit, eq)) ↦
        refused op fs s exists r v at (refuses s (inl (known s hit))) eq
    | inr (s, at, c, inr (inl (hit, eq))) ↦
        refused op fs s (codes "Parent directory not found") r v at (refuses s (inr (inl hit))) eq
    | inr (s, at, c, inr (inr (inl (hit, eq)))) ↦
        refused op fs s (codes "Filesystem full") r v at (refuses s (inr (inr hit))) eq
    | inr (s, at, c, inr (inr (inr (fs', eq, done)))) ↦ subst (Refines op fs) (sym eq) (
      s,
      at,
      done.tree,
      done.same_dir,
      created-AbstractStep fs type s fs' v (canonical-NoNul s c) done op e allowed
          (made (node_at fs'.nodes done.idx) done.type_set done.emptied),
    )
  ]
    where
      known : (s : CString) → is_some (find_node fs.nodes s) ≡ true → view fs.nodes s ≢ none
      known s h e = elim (Option-cases (find_node fs.nodes s)) [
        | inl miss ↦ absurd (found_absurd (subst (λ o. is_some o ≡ true) miss h))
        | inr (i, hit) ↦ absurd (
            present_absurd
              (subst (λ o. Option.map (λ i. entry_of (node_at fs.nodes i)) o ≡ none) hit e))
      ]

  deleted-AbstractStep :
      (fs fs' : Fs Dev) (path s : CString)
      → IsTree fs.nodes
      → NoNul s
      → IsDeleted fs s fs'
      → AbstractStep (delete path) s fs.nodes 0 fs'.nodes
  deleted-AbstractStep fs fs' path s v n c =
      let (below, used, named) = find_node-some fs.nodes v s c.idx n c.was_found in
      inr (
        refl,
        (
          none,
          (rw c.was_found cc, refl),
          view-put fs.nodes fs'.nodes v c.tree c.idx s (λ u. named) (unused c.freed) c.others none n
              (rw c.gone refl),
        ),
      )

  unfound_or_root :
      (fs : Fs Dev) (path s : CString)
      → IsTree fs.nodes
      → NoNul s
      → (find_node fs.nodes s ≡ none) ⊎ (find_node fs.nodes s ≡ some 0)
      → Refuses (delete path) s fs.nodes
  unfound_or_root fs path s v n (inl miss) = inl (rw miss refl)
  unfound_or_root fs path s v n (inr hit) =
      let (below, used, named) = find_node-some fs.nodes v s 0 n hit in
      inr (inl (sym named ∙ v.root_at))

  dir_entry : (m : Node) → is_dir m ≡ true → entry_of m ≡ dir
  dir_entry m h = let type : m.type ≡ 1 = ground arith in rw type refl

  pub deletes-Refines :
      (fs : Fs Dev) (path : CString) (r : Option (ℕ × Fs Dev))
      → IsTree fs.nodes
      → DeletesAt d fs path r
      → Refines (delete path) fs r
  deletes-Refines fs path r v w = elim w [
    | inl (fault, eq) ↦ subst (Refines (delete path) fs) (sym eq) fault
    | inr (s, at, c, inl (hit, eq)) ↦
        refused (delete path) fs s (codes "Cannot delete that path") r v at
          (unfound_or_root fs path s v (canonical-NoNul s c) hit) eq
    | inr (s, at, c, inr (inl (i, hit, is, busy, eq))) ↦
        refused (delete path) fs s (codes "Directory is not empty") r v at
          (inr (
            inr (
              i,
              hit,
              rw hit (ap (λ (x : Entry). some x) (dir_entry (node_at fs.nodes i) is)),
              busy,
            )))
          eq
    | inr (s, at, c, inr (inr (fs', eq, done))) ↦ subst (Refines (delete path) fs) (sym eq) (
      s,
      at,
      done.tree,
      done.same_dir,
      deleted-AbstractStep fs fs' path s v (canonical-NoNul s c) done,
    )
  ]
