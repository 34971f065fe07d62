-- ===== src/Filesystem/Calls/Filled.antt =====
-- What `fill_node` of kernel/filesystem.c writes, and why the table may take it.
use pl_dos.Base.{
  ℕ, ◌<◌, ◌≡◌, refl, sym, ap, ◌∙◌, ◌≢◌, true, false, Option, none, some, List, [], ◌∷◌, length,
  take, take_of_le, All, arith, subst,
}
use pl_dos.Strings.{CString, Buffer, cstr, str_copy_n, path_get_filename}
use pl_dos.Strings.Buffers.{Writes, str_copy_n-Writes}
use pl_dos.Strings.Compare.{str_eq_refl}
use pl_dos.Strings.Names.{path_get_filename-append}
use pl_dos.Filesystem.{
  Node, node_at, is_used, is_dir, fs_max_name, fs_max_path, fs_max_files, find_node, root_path,
}
use pl_dos.Filesystem.Path.Canonical.{IsPart, spell, render, IsParts}
use pl_dos.Filesystem.Path.Join.{NoNul-render}
use pl_dos.Filesystem.Path.Relative.{not_root}
use pl_dos.Filesystem.Valid.{IsNode, IsTree, UsedAt, path_at, entry_path}
use pl_dos.Filesystem.Calls.{fill_node}
use mathlib.Core.Bool.{false≢true}
use pl_dos.Filesystem.Valid.Put.{IsFitting}
use pl_dos.Filesystem.Calls.Lookup.{find_node-some, find_node-none, copy_path}

-- A node of the entry `p` of a directory, the node `parent`, under a canonical path.
pub record IsPlaced (n : Node) (parent : ℕ) (p : CString) (ps : List CString) : Type 0 where
  pub ok : IsNode n
  pub name : cstr n.name ≡ p
  pub path : cstr n.path ≡ render (p ∷ ps)
  pub parent_set : n.parent ≡ parent

-- What `fill_node` writes for a canonical path.
pub record IsFilled (old n : Node) (type parent : ℕ) (p : CString) (ps : List CString)
    : Type 0 where
  pub placed : IsPlaced n parent p ps
  pub type_set : n.type ≡ type
  pub emptied : n.size ≡ 0
  pub in_use : n.used ≡ 1
  pub content : n.content ≡ old.content

-- The last component of a path is at most 31 bytes long, so that the name array holds all of it.
pub name-Writes :
    (dest : Buffer) (p : CString) (ps : List CString)
    → length dest ≡ fs_max_name
    → IsPart p
    → Writes (str_copy_n dest (path_get_filename (render (p ∷ ps))) fs_max_name) fs_max_name p
name-Writes dest p ps e v = rw (path_get_filename-append (spell ps) p v.no_slash) (
    subst (λ x. Writes (str_copy_n dest p fs_max_name) fs_max_name x)
      (take_of_le 31 p (omega (arith, v.short)))
      (subst (λ k. Writes (str_copy_n dest p fs_max_name) k (take 31 p)) e
        (str_copy_n-Writes dest p fs_max_name v.no_nul (omega arith) (omega arith))))

pub fill_node-IsFilled :
    (old : Node) (type parent : ℕ) (p : CString) (ps : List CString)
    → IsNode old
    → All IsPart (p ∷ ps)
    → length (render (p ∷ ps)) < fs_max_path
    → (n : Node) × (fill_node old type parent (render (p ∷ ps)) ≡ some n)
      × IsFilled old n type parent p ps
unfolding fill_node
fill_node-IsFilled old type parent p ps o v h =
    with_name (str_copy_n old.name (path_get_filename (render (p ∷ ps))) fs_max_name)
      (str_copy_n old.path (render (p ∷ ps)) fs_max_path) refl refl
      (name-Writes old.name p ps o.name_size v.0)
      (copy_path old.path (render (p ∷ ps)) o.path_size (NoNul-render (p ∷ ps) v) h)
  where
    with_name :
        (r q : Option Buffer)
        → str_copy_n old.name (path_get_filename (render (p ∷ ps))) fs_max_name ≡ r
        → str_copy_n old.path (render (p ∷ ps)) fs_max_path ≡ q
        → Writes r fs_max_name p
        → Writes q fs_max_path (render (p ∷ ps))
        → (n : Node) × (fill_node old type parent (render (p ∷ ps)) ≡ some n)
          × IsFilled old n type parent p ps
    with_name none q e e' w w' = absurd w
    with_name (some b) none e e' w w' = absurd w'
    with_name (some b) (some c) e e' w w' = (
      record old { name = b; path = c; type = type; parent = parent; size = 0; used = 1 },
      rw (e, e', fill_node),
      record {
        placed = record {
          ok = record {
            name_size = w.1;
            name_ends = w.2;
            path_size = w'.1;
            path_ends = w'.2;
            content_size = o.content_size;
            size_fits = omega arith;
          };
          name = w.0;
          path = w'.0;
          parent_set = refl;
        };
        type_set = refl;
        emptied = refl;
        in_use = refl;
        content = refl;
      },
    )

entry_path-render :
    (p : CString) (ps : List CString)
    → All IsPart (p ∷ ps)
    → entry_path (render ps) p ≡ render (p ∷ ps)
entry_path-render p [] v = rw (str_eq_refl root_path)
entry_path-render p (q ∷ ps) v = rw (not_root q ps v.1)

-- A free slot may take a new entry of an existing directory.
pub placed-IsFitting :
    (nodes : List Node) (idx : ℕ) (n : Node) (parent : ℕ) (p : CString) (ps : List CString)
    (v : IsTree nodes) (h : idx < fs_max_files)
    → 0 < idx
    → is_used (node_at nodes idx) ≡ false
    → IsParts (p ∷ ps)
    → length (render (p ∷ ps)) < fs_max_path
    → find_node nodes (render (p ∷ ps)) ≡ none
    → find_node nodes (render ps) ≡ some parent
    → is_dir (node_at nodes parent) ≡ true
    → IsPlaced n parent p ps
    → IsFitting nodes idx n v h
placed-IsFitting nodes idx n parent p ps v h pos idle parts short miss hit dir f =
    let (parent_below, used, at) =
      find_node-some nodes v (render ps) parent (NoNul-render ps parts.each.1) hit in
    let apart : parent ≢ idx =
      λ e. false≢true (sym idle ∙ sym (ap (λ k. is_used (node_at nodes k)) e) ∙ used) in
    record {
      ok = f.ok;
      root = λ z. absurd (omega arith);
      fresh = λ u j hj ne uj same.
          find_node-none nodes v (render (p ∷ ps)) j miss hj uj (same ∙ f.path);
      plain = λ u. record {
        parts = p ∷ ps;
        parts_ok = parts;
        spelled = f.path;
        short = rw f.path short;
      };
      placed = λ u z. (
        record {
          below = subst (λ k. k < fs_max_files) (sym f.parent_set) parent_below;
          parent_used = subst (λ k. UsedAt nodes k) (sym f.parent_set) used;
          parent_dir = subst (λ k. is_dir (node_at nodes k) ≡ true) (sym f.parent_set) dir;
          spelled =
              f.path
              ∙ sym (entry_path-render p ps parts.each)
              ∙ ap (λ x. entry_path x p) (sym at ∙ ap (path_at nodes) (sym f.parent_set))
              ∙ ap (entry_path (path_at nodes n.parent)) (sym f.name);
        },
        λ e. absurd (apart (sym f.parent_set ∙ e)),
      );
      below = λ j pj hj uj e. absurd (
          false≢true (
            sym idle
            ∙ sym (ap (λ k. is_used (node_at nodes k)) e)
            ∙ (v.parent j pj hj uj).parent_used));
    }
