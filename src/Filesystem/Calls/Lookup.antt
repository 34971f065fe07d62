-- ===== src/Filesystem/Calls/Lookup.antt =====
-- The searches of kernel/filesystem.c on a valid table, and what its arrays hold.
use pl_dos.Base.{
  ℕ, zero, suc, ◌<◌, ◌≡◌, refl, sym, ap, ◌∙◌, ◌≢◌, ◌⊎◌, inl, inr, true, false, Option, none, some,
  List, [], ◌∷◌, length, length-append, take, take_of_le, All, find_index-some, find_index-none,
  Bool-cases, Option-cases, ◌>>=◌, arith, subst, replicate,
}
use pl_dos.Strings.{CString, Buffer, NoNul, cstr, slash, str_eq, str_copy_n, path_get_dirname}
use pl_dos.Strings.Buffers.{Writes, cstr-NoNul, str_copy_n-Writes}
use pl_dos.Strings.Compare.{str_eq_refl, str_eq_iff}
use pl_dos.Strings.Names.{path_get_dirname-append, path_get_dirname_root}
use pl_dos.Filesystem.{
  Fs, Node, node_at, zero_node, is_used, is_dir, has_path, is_free, fs_max_path, fs_max_files,
  find_node, allocate_node, dir_index, find_parent,
}
use pl_dos.Filesystem.Path.{fs_resolve_path}
use pl_dos.Filesystem.Path.Canonical.{IsPart, spell, render}
use pl_dos.Filesystem.Path.Join.{NoNul-render}
use pl_dos.Filesystem.Path.Resolved.{IsCanonical, Resolves, fs_resolve_path-Resolves}
use pl_dos.Filesystem.Path.Known.{spell-cons}
use pl_dos.Filesystem.Path.Relative.{render-le-under}
use pl_dos.Filesystem.Valid.{IsTree, UsedAt, path_at}
use pl_dos.Filesystem.Calls.{resolve}

-- A path resolves to a canonical one, unless an array is overrun.
pub resolve_cases :
    {Dev : Type 0} (fs : Fs Dev) (path : CString)
    → (resolve fs path ≡ none) ⊎ ((s : CString) × (resolve fs path ≡ some s) × IsCanonical s)
unfolding resolve
resolve_cases fs path =
    split (fs_resolve_path (cstr fs.current_dir) (some path) (replicate fs_max_path 0) fs_max_path)
      refl
      (fs_resolve_path-Resolves (cstr fs.current_dir) (some path) (replicate fs_max_path 0) refl)
  where
    split :
        (r : Option Buffer)
        → fs_resolve_path (cstr fs.current_dir) (some path) (replicate fs_max_path 0) fs_max_path
          ≡ r
        → Resolves r
        → (resolve fs path ≡ none) ⊎ ((s : CString) × (resolve fs path ≡ some s) × IsCanonical s)
    split none e w = inl (rw (e, resolve))
    split (some out) e w = inr (cstr out, rw (e, resolve), w.2)

pub canonical-NoNul : (s : CString) → IsCanonical s → NoNul s
canonical-NoNul s c = rw c.spelled (NoNul-render c.parts c.parts_ok.each)

module _ (nodes : List Node) (v : IsTree nodes) where
  pub find_node-some :
      (path : CString) (i : ℕ)
      → NoNul path
      → find_node nodes path ≡ some i
      → (i < fs_max_files) × UsedAt nodes i × (path_at nodes i ≡ path)
  unfolding find_node
  find_node-some path i n e =
      let found = find_index-some (has_path path) nodes zero_node i e in
      (
        omega (arith, v.count, found.0),
        ground (arith, found.1),
        (str_eq_iff _ path (cstr-NoNul (node_at nodes i).path) n).0 (ground (arith, found.1)),
      )

  pub find_node-none :
      (path : CString) (i : ℕ)
      → find_node nodes path ≡ none
      → i < fs_max_files
      → UsedAt nodes i
      → path_at nodes i ≢ path
  unfolding find_node
  find_node-none path i e h u same =
      let miss = find_index-none (has_path path) nodes zero_node e i (omega (arith, v.count)) in
      let hit : str_eq (path_at nodes i) path ≡ true = rw same (str_eq_refl path) in
      ground (arith, miss, hit, u)

  -- The search of a path that a node has finds that node.
  pub find_node_used :
      (path : CString) (i : ℕ)
      → NoNul path
      → i < fs_max_files
      → UsedAt nodes i
      → path_at nodes i ≡ path
      → find_node nodes path ≡ some i
  find_node_used path i n h u e = elim (Option-cases (find_node nodes path)) [
    | inl miss ↦ absurd (find_node-none path i miss h u e)
    | inr (j, hit) ↦
        let (hj, uj, ej) = find_node-some path j n hit in
        hit ∙ ap (λ (k : ℕ). some k) (v.unique j i hj h uj u (ej ∙ sym e))
  ]

  pub dir_index-some :
      (o : Option ℕ) (i : ℕ)
      → dir_index nodes o ≡ some i
      → (o ≡ some i) × (is_dir (node_at nodes i) ≡ true)
  unfolding dir_index
  dir_index-some none i e = cc
  dir_index-some (some j) i e = elim (Bool-cases (is_dir (node_at nodes j))) [
    | inl d ↦
        let same : j ≡ i = ground arith in
        (ap (λ (k : ℕ). some k) same, subst (λ k. is_dir (node_at nodes k) ≡ true) same d)
    | inr nd ↦ absurd (ground arith)
  ]

pub allocate_node-some :
    (nodes : List Node) (idx : ℕ)
    → IsTree nodes
    → allocate_node nodes ≡ some idx
    → (0 < idx) × (idx < fs_max_files) × (is_used (node_at nodes idx) ≡ false)
unfolding allocate_node
allocate_node-some [] idx v e = cc
allocate_node-some (r ∷ nodes) zero v e = absurd (ground arith)
allocate_node-some (r ∷ nodes) (suc i) v e =
    let found = find_index-some is_free nodes zero_node i (ground arith) in
    (omega arith, omega (arith, v.count, found.0), ground (arith, found.1))

dirname-Writes :
    (p : CString) (ps : List CString)
    → All IsPart (p ∷ ps)
    → length (render (p ∷ ps)) < fs_max_path
    → Writes (path_get_dirname (replicate fs_max_path 0) (render (p ∷ ps))) fs_max_path (render ps)
dirname-Writes p [] v h = path_get_dirname_root (replicate fs_max_path 0) p refl v.0.no_slash
dirname-Writes p (q ∷ ps) v h =
    let (t, e) = spell-cons q ps in
    let le : length (spell (q ∷ ps)) ≡ suc (length t) = ap length e in
    rw e (
      path_get_dirname-append (replicate fs_max_path 0) slash t p refl
        (rw e at (NoNul-render (p ∷ q ∷ ps) v)) v.0.no_slash
        (omega (arith, length-append (spell (q ∷ ps)) (slash ∷ p))))

-- `str_copy_n` over a whole array of 128 bytes keeps a string that fits.
pub copy_path :
    (dest : Buffer) (s : CString)
    → length dest ≡ fs_max_path
    → NoNul s
    → length s < fs_max_path
    → Writes (str_copy_n dest s fs_max_path) fs_max_path s
copy_path dest s e n h =
    subst (λ x. Writes (str_copy_n dest s fs_max_path) fs_max_path x)
      (take_of_le 127 s (omega arith))
      (subst (λ k. Writes (str_copy_n dest s fs_max_path) k (take 127 s)) e
        (str_copy_n-Writes dest s fs_max_path n (omega arith) (omega arith)))

-- The directory of a path is looked up under the path of the components before the last.
pub find_parent-render :
    (nodes : List Node) (p : CString) (ps : List CString)
    → All IsPart (p ∷ ps)
    → length (render (p ∷ ps)) < fs_max_path
    → find_parent nodes (render (p ∷ ps)) ≡ some (dir_index nodes (find_node nodes (render ps)))
unfolding find_parent
find_parent-render nodes p ps v h =
    from_static (path_get_dirname (replicate fs_max_path 0) (render (p ∷ ps)))
      (dirname-Writes p ps v h)
  where
    answer : Option (Option ℕ)
    answer = some (dir_index nodes (find_node nodes (render ps)))

    from_copy :
        (r : Option Buffer)
        → Writes r fs_max_path (render ps)
        → (r >>= λ dirname. some (dir_index nodes (find_node nodes (cstr dirname)))) ≡ answer
    from_copy none w = absurd w
    from_copy (some b) w = rw w.0

    from_static :
        (r : Option Buffer)
        → Writes r fs_max_path (render ps)
        → (r >>= λ static_dirname.
            str_copy_n (replicate fs_max_path 0) (cstr static_dirname) fs_max_path >>= λ dirname.
            some (dir_index nodes (find_node nodes (cstr dirname))))
          ≡ answer
    from_static none w = absurd w
    from_static (some b) w = rw w.0 (
        from_copy _ (
          copy_path (replicate fs_max_path 0) (render ps) refl (NoNul-render ps v.1)
            (omega (arith, render-le-under ps p))))
