-- ===== src/Filesystem/View.antt =====
-- The abstract view of the node table of kernel/filesystem.c: what each path names.
pub mod Abstract
pub mod Contents
pub mod Copies
pub mod Entries
pub mod Reading
pub mod Refines
mod Tests
use pl_dos.Base.{
  ℕ, ◌<◌, ◌≡◌, ◌≢◌, refl, sym, ap, ◌∙◌, inl, inr, Bool, true, false, Option, none, some, List, [],
  ◌∷◌, take, Bool-cases, Option-cases, if◌then◌else◌, ◌==◌, arith,
}
use mathlib.Core.Option
use pl_dos.Strings.{CString, NoNul, cstr, str_eq}
use pl_dos.Strings.Compare.{str_eq_refl, str_eq_iff}
use pl_dos.Filesystem.{Node, node_at, is_used, is_file, fs_max_files, find_node}
use pl_dos.Filesystem.Valid.{IsTree, UsedAt, path_at}
use pl_dos.Filesystem.Calls.Lookup.{find_node-some, find_node-none, find_node_used}

pub data Entry : Type 0 where
  dir : Entry
  file : List ℕ → Entry

abbrev pub entry_of : Node → Entry
entry_of n = if is_file n then Entry.file (take n.size n.content) else Entry.dir

abbrev pub View : Type 0
View = CString → Option Entry

abbrev pub view : List Node → View
view nodes path = Option.map (λ i. entry_of (node_at nodes i)) (find_node nodes path)

-- The view with another entry at one path.
abbrev pub put : View → CString → Option Entry → View
put v s e path = if str_eq path s then e else v path

abbrev pub SameView : View → View → Type 0
SameView v w = (path : CString) → NoNul path → v path ≡ w path

pub SameView-put :
    (v w : View) (s : CString) (e : Option Entry) → SameView v w → SameView (put v s e) (put w s e)
SameView-put v w s e same path n = ap (λ x. if str_eq path s then e else x) (same path n)

pub put-put :
    (v : View) (s : CString) (e e' : Option Entry) (path : CString)
    → put (put v s e) s e' path ≡ put v s e' path
put-put v s e e' path = elim (Bool-cases (str_eq path s)) [
  | inl same ↦ rw same refl
  | inr other ↦ rw other refl
]

-- Two tables that differ in one slot, which holds the path `s` where it is used.
module _ (before after : List Node) (v : IsTree before) (v' : IsTree after) (idx : ℕ) (s : CString)
    (here : UsedAt before idx → path_at before idx ≡ s)
    (there : UsedAt after idx → path_at after idx ≡ s)
    (others : (j : ℕ) → (idx == j) ≡ false → node_at after j ≡ node_at before j) where
  elsewhere_found :
      (path : CString) (i : ℕ)
      → NoNul path
      → path ≢ s
      → find_node before path ≡ some i
      → (find_node after path ≡ some i) × (node_at after i ≡ node_at before i)
  elsewhere_found path i n apart e =
      let (h, used, at) = find_node-some before v path i n e in
      elim (Bool-cases (idx == i)) [
        | inl same ↦
            let at_idx : i ≡ idx = ground arith in
            absurd (
              apart (
                sym at
                ∙ ap (path_at before) at_idx
                ∙ here (ap (λ k. is_used (node_at before k)) (sym at_idx) ∙ used)))
        | inr other ↦
            let keep = others i other in
            (
              find_node_used after v' path i n h (ap is_used keep ∙ used)
                  (ap (λ m. cstr m.path) keep ∙ at),
              keep,
            )
      ]

  elsewhere_unfound :
      (path : CString)
      → NoNul path
      → path ≢ s
      → find_node before path ≡ none
      → find_node after path ≡ none
  elsewhere_unfound path n apart e = elim (Option-cases (find_node after path)) [
    | inl miss ↦ miss
    | inr (i, hit) ↦
        let (h, used, at) = find_node-some after v' path i n hit in
        elim (Bool-cases (idx == i)) [
          | inl same ↦
              let at_idx : i ≡ idx = ground arith in
              absurd (
                apart (
                  sym at
                  ∙ ap (path_at after) at_idx
                  ∙ there (ap (λ k. is_used (node_at after k)) (sym at_idx) ∙ used)))
          | inr other ↦
              let keep = others i other in
              absurd (
                find_node-none before v path i e h (ap is_used (sym keep) ∙ used)
                  (ap (λ m. cstr m.path) (sym keep) ∙ at))
        ]
  ]

  elsewhere : (path : CString) → NoNul path → path ≢ s → view before path ≡ view after path
  elsewhere path n apart = elim (Option-cases (find_node before path)) [
    | inl miss ↦ rw (miss, elsewhere_unfound path n apart miss) refl
    | inr (i, hit) ↦
        let (found, keep) = elsewhere_found path i n apart hit in rw (hit, found, keep) refl
  ]

  -- The view changes at `s` alone.
  pub view-put :
      (e : Option Entry)
      → NoNul s
      → view after s ≡ e
      → SameView (put (view before) s e) (view after)
  view-put e nn new path n = elim (Bool-cases (str_eq path s)) [
    | inl same ↦ rw same (sym new ∙ ap (view after) (sym ((str_eq_iff path s n nn).0 same)))
    | inr other ↦
        rw other
          (elsewhere path n (λ same. absurd (differ other ((str_eq_iff path s n nn).1 same))))
  ]
    where
      differ : {b : Bool} → b ≡ false → b ≡ true → ⊥
      differ f t = cc
