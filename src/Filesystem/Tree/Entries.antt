-- ===== src/Filesystem/Tree/Entries.antt =====
-- One round of the loop of `rebuild_child_paths` of kernel/filesystem.c: an entry and what is below it.
use pl_dos.Base.{
  ℕ, suc, ◌-◌, ◌≤◌, ◌<◌, ◌≡◌, refl, sym, ap, ◌∙◌, subst, inl, inr, true, false, ◌&&◌, Option, none,
  some, List, [], ◌∷◌, ◌++◌, length, length-append, append_assoc, append-nil, take, take_of_le, set,
  ◌==◌, ◌>>=◌, if◌then◌else◌, Bool-cases, arith,
}
use mathlib.Core.Bool.{false≢true}
use pl_dos.Strings.{CString, Buffer, cstr, terminated, slash, str_copy_n}
use pl_dos.Strings.Buffers.{Writes, cstr-NoNul, length-cstr, str_copy_n-Writes}
use pl_dos.Filesystem.{Node, node_at, is_used, is_dir, fs_max_path, fs_max_files}
use pl_dos.Filesystem.Path.Canonical.{spell_on}
use pl_dos.Filesystem.Valid.{path_at}
use pl_dos.Filesystem.Tree.{child_path, rebuild_child}
use pl_dos.Filesystem.Tree.Below.{
  name_at, IsChild, Below, Below-child, Below-cases, Below-top, IsRank,
}
use pl_dos.Filesystem.Tree.Below.Below.{here}
use pl_dos.Filesystem.Tree.Child.{NextPath, child_path-NextPath}
use pl_dos.Filesystem.Tree.Paths.{IsRepathed, with_path, put_here, put_there, put-IsRepathed}
use pl_dos.Filesystem.Tree.Fates.{TooLong, Repathed, RebuildsEntry, Rebuilds, Entry, Descends}

module _ (start : List Node) where
  module _ (rank : ℕ → ℕ) (ranked : IsRank start rank)
      (dirs : (c j : ℕ)
        → c < fs_max_files
        → IsChild start c j
        → is_dir (node_at start c) ≡ true) where
    -- What is no directory has no entries.
    no_entries :
        (i : ℕ) (nodes : List Node)
        → IsRepathed start nodes
        → i < fs_max_files
        → is_dir (node_at nodes i) ≡ false
        → (j : ℕ) (names : List CString) → Below start i j names
        → length names ≡ 0
    no_entries i nodes k h plain j names b = elim (Below-cases start b) [
      | inl (same, e) ↦ ap length e
      | inr (c, rest, first, b', e) ↦
          let yes' = dirs i c h first in
          let same = ap is_dir (k.rest i) in absurd (false≢true (sym plain ∙ same ∙ yes'))
    ]

    module _ (descend : ℕ → List Node → Option (List Node)) (room : ℕ)
        (descends : Descends start descend room) where
      too_long :
          (p i : ℕ) (s : CString)
          → IsChild start p i
          → TooLong start i (s ++ slash ∷ name_at start i)
          → TooLong start p s
      too_long p i s child (j, names, b, h) = (
        j,
        name_at start i ∷ names,
        Below-child start child b,
        subst (λ x. fs_max_path ≤ length x)
            (append_assoc s (slash ∷ name_at start i) (spell_on names)) h,
      )

      -- What the call on the entry did, seen from its directory.
      lifted :
          (p i : ℕ) (s : CString) (nodes nodes' : List Node) (r : Option (List Node))
          → IsChild start p i
          → path_at nodes' i ≡ s ++ slash ∷ name_at start i
          → ((j : ℕ) → (i == j) ≡ false → node_at nodes' j ≡ node_at nodes j)
          → Rebuilds start i (s ++ slash ∷ name_at start i) nodes' r
          → RebuildsEntry start p s i nodes r
      lifted p i s nodes nodes' none child at others h = too_long p i s child h
      lifted p i s nodes nodes' (some nodes2) child at others (k, fate) =
          (k, λ j. from_fate j (fate j))
        where
          from_fate :
              (j : ℕ)
              → Repathed start i (s ++ slash ∷ name_at start i) nodes' nodes2 j
              → Entry start p s i nodes nodes2 j
          from_fate j (inl (names, b, pos, new)) =
              inl (names, child, b, new ∙ append_assoc s (slash ∷ name_at start i) (spell_on names))
          from_fate j (inr (same, top)) = elim (Bool-cases (i == j)) [
            | inl here_it ↦
                let e : i ≡ j = ground arith in
                inl (
                  [],
                  child,
                  subst (λ x. Below start i x []) e here,
                  ap (λ (n : Node). cstr n.path) same
                      ∙ subst (λ x. path_at nodes' x ≡ s ++ spell_on (name_at start i ∷ [])) e
                          (at ∙ ap (λ x. s ++ slash ∷ x) (sym (append-nil (name_at start i)))),
                )
            | inr other ↦ inr (
              same ∙ others j other,
              λ names c b.
                  let e : j ≡ i = Below-top start b (top names b) in ground (arith, other, e),
            )
          ]

      -- The entry whose path has just been written.
      entered :
          (p i : ℕ) (s : CString) (nodes : List Node) (path : Buffer)
          → IsRepathed start nodes
          → IsChild start p i
          → 2 ≤ length s
          → room ≤ suc (length s)
          → cstr path ≡ s ++ slash ∷ name_at start i
          → length path ≡ fs_max_path
          → terminated path ≡ true
          → RebuildsEntry start p s i nodes (
              let nodes' = set nodes i (with_path (node_at nodes i) path) in
              if is_dir (node_at nodes i) then descend i nodes' else some nodes')
      entered p i s nodes path k child long fits e l t =
          let nodes' = set nodes i (with_path (node_at nodes i) path) in
          let k' = put-IsRepathed start nodes k i path child.bound l t in
          let at : path_at nodes' i ≡ s ++ slash ∷ name_at start i =
            ap (λ (n : Node). cstr n.path) (put_here start nodes k i path child.bound) ∙ e in
          let others = put_there start nodes k i path child.bound in
          let size = ap length at ∙ length-append s (slash ∷ name_at start i) in
          elim (Bool-cases (is_dir (node_at nodes i))) [
            | inl is ↦ rw is (
                lifted p i s nodes nodes' (descend i nodes') child at others (
                  subst (λ x. Rebuilds start i x nodes' (descend i nodes')) at
                    (descends i nodes' child.bound k' (omega (arith, size, long))
                      (omega (arith, size, fits)))))
            | inr plain ↦ rw plain (
                lifted p i s nodes nodes' (some nodes') child at others
                  (k', λ j. inr (refl, no_entries i nodes k child.bound plain j)))
          ]

      -- Behind `str_concat(next, nodes[i].name)`, and behind the copy of `next`.
      path_copied :
          (p i : ℕ) (nodes : List Node) (r : Option Buffer)
          → IsRepathed start nodes
          → 2 ≤ length (path_at nodes p)
          → room ≤ suc (length (path_at nodes p))
          → IsChild start p i
          → Writes r fs_max_path (path_at nodes p ++ slash ∷ name_at start i)
          → RebuildsEntry start p (path_at nodes p) i nodes (
              r >>= λ path.
              let nodes' = set nodes i (with_path (node_at nodes i) path) in
              if is_dir (node_at nodes i) then descend i nodes' else some nodes')
      path_copied p i nodes none k long fits child w = absurd w
      path_copied p i nodes (some path) k long fits child (e, l, t) =
          entered p i (path_at nodes p) nodes path k child long fits e l t

      next_copied :
          (p i : ℕ) (nodes : List Node)
          → i < fs_max_files
          → IsRepathed start nodes
          → p < fs_max_files
          → 2 ≤ length (path_at nodes p)
          → room ≤ suc (length (path_at nodes p))
          → IsChild start p i
          → (q : Option Buffer) → NextPath (path_at nodes p) (name_at nodes i) q
          → RebuildsEntry start p (path_at nodes p) i nodes (
              q >>= λ next. str_copy_n (node_at nodes i).path (cstr next) fs_max_path >>= λ path.
              let nodes' = set nodes i (with_path (node_at nodes i) path) in
              if is_dir (node_at nodes i) then descend i nodes' else some nodes')
      next_copied p i nodes h k b long fits child none over = (
        i,
        name_at start i ∷ [],
        Below-child start child here,
        omega (
          arith,
          over,
          length-append (path_at nodes p) (spell_on (name_at start i ∷ [])),
          ap length (append-nil (name_at start i)),
          ap (λ (n : Node). length (cstr n.name)) (k.rest i),
        ),
      )
      next_copied p i nodes h k b long fits child (some next) (e, short) =
          let named = ap (λ (n : Node). cstr n.name) (k.rest i) in
          let whole = e ∙ ap (λ x. path_at nodes p ++ slash ∷ x) named in
          let size = ap length e ∙ length-append (path_at nodes p) (slash ∷ name_at nodes i) in
          path_copied p i nodes (str_copy_n (node_at nodes i).path (cstr next) fs_max_path) k long
            fits child
            (subst
              (λ x.
                Writes (str_copy_n (node_at nodes i).path (cstr next) fs_max_path) fs_max_path x)
              (take_of_le (fs_max_path - 1) (cstr next) (omega (arith, size, short)) ∙ whole)
              (subst
                (λ m.
                  Writes (str_copy_n (node_at nodes i).path (cstr next) fs_max_path) m
                    (take (fs_max_path - 1) (cstr next)))
                (k.size i h)
                (str_copy_n-Writes (node_at nodes i).path (cstr next) fs_max_path (cstr-NoNul next)
                  (omega arith) (omega (arith, k.size i h)))))

      pub child-Rebuilds :
          (p i : ℕ) (nodes : List Node)
          → i < fs_max_files
          → IsRepathed start nodes
          → p < fs_max_files
          → 2 ≤ length (path_at nodes p)
          → room ≤ suc (length (path_at nodes p))
          → RebuildsEntry start p (path_at nodes p) i nodes (rebuild_child descend p i nodes)
      unfolding rebuild_child
      child-Rebuilds p i nodes h k b long fits =
          elim (Bool-cases (is_used (node_at nodes i) && ((node_at nodes i).parent == p))) [
            | inr no_entry ↦ rw no_entry (
              k,
              λ j. inr (
                refl,
                λ names child b'.
                    let used : is_used (node_at nodes i) ≡ true =
                      ap is_used (k.rest i) ∙ child.used in
                    let link : (node_at nodes i).parent ≡ p =
                      ap (λ (n : Node). n.parent) (k.rest i) ∙ child.link in
                    ground (arith, no_entry, used, link),
              ),
            )
            | inl entry ↦ rw entry (
                next_copied p i nodes h k b long fits
                  (record {
                    bound = h;
                    used = ap is_used (sym (k.rest i)) ∙ ground (arith, entry);
                    link = ap (λ (n : Node). n.parent) (sym (k.rest i)) ∙ ground (arith, entry);
                  })
                  (child_path (path_at nodes p) (name_at nodes i))
                  (child_path-NextPath (path_at nodes p) (name_at nodes i)
                    (cstr-NoNul (node_at nodes p).path) (cstr-NoNul (node_at nodes i).name) long
                    (omega (arith, length-cstr (node_at nodes p).path (k.ends p b), k.size p b))))
          ]
