-- ===== src/Filesystem/Tree/Child.antt =====
-- The path that `rebuild_child_paths` of kernel/filesystem.c gives an entry of a directory.
use pl_dos.Base.{
  ℕ, suc, ◌+◌, ◌≤◌, ◌<◌, ◌≡◌, refl, sym, ap, ◌∙◌, subst, inl, inr, false, Option, none, some, [],
  ◌∷◌, ◌++◌, length, length-append, length-replicate, append_assoc, replicate, arith, Bool-cases,
  ◌>>=◌,
}
use native.Mathlib.Decide.{dec_lt}
use pl_dos.Strings.{CString, Buffer, NoNul, cstr, slash, str_eq, str_copy, str_concat}
use pl_dos.Strings.Buffers.{Writes, str_copy-Writes, str_concat-Writes, str_concat_overrun}
use pl_dos.Strings.Compare.{str_eq_iff}
use pl_dos.Filesystem.{fs_max_path, root_path}
use pl_dos.Filesystem.Path.{add_slash}
use pl_dos.Filesystem.Tree.{child_path}

-- The array `next` for an entry `name` below the path `s`, which is not the root's: it holds the path of
-- the entry, or the path is too long and the array is overrun.
abbrev pub NextPath : CString → CString → Option Buffer → Type 0
NextPath s name none = fs_max_path ≤ length s + suc (length name)
NextPath s name (some next) =
    (cstr next ≡ s ++ slash ∷ name) × (length s + suc (length name) < fs_max_path)

written :
    (s name text : CString) (r : Option Buffer)
    → Writes r fs_max_path text
    → text ≡ s ++ slash ∷ name
    → length s + suc (length name) < fs_max_path
    → NextPath s name r
written s name text none w e h = absurd w
written s name text (some next) w e h = (w.0 ∙ e, h)

-- The name behind the slash.
named :
    (s name : CString) (r : Option Buffer)
    → NoNul name
    → Writes r fs_max_path (s ++ slash ∷ [])
    → NextPath s name (r >>= λ raw. str_concat raw name)
named s name none n w = absurd w
named s name (some raw) n (e, l, t) =
    let front = ap length e ∙ length-append s (slash ∷ []) in
    elim (dec_lt (length s + suc (length name)) fs_max_path) [
      | yes h ↦
          written s name (cstr raw ++ name) (str_concat raw name)
            (subst (λ k. Writes (str_concat raw name) k (cstr raw ++ name)) l
              (str_concat-Writes raw name n t (omega (arith, front, l, h))))
            (ap (λ x. x ++ name) e ∙ append_assoc s (slash ∷ []) name) h
      | no h ↦
          subst (NextPath s name) (sym (str_concat_overrun raw name (omega (arith, front, l, h))))
            (omega (arith, h))
    ]

not_root : (s : CString) → NoNul s → 2 ≤ length s → str_eq s root_path ≡ false
not_root s m long = elim (Bool-cases (str_eq s root_path)) [
  | inr other ↦ other
  | inl same ↦
      let e = (str_eq_iff s root_path m (omega arith, tt)).0 same in
      absurd (omega (arith, ap length e, long))
]

slashed :
    (s name : CString) (r : Option Buffer)
    → NoNul s
    → NoNul name
    → 2 ≤ length s
    → Writes r fs_max_path s
    → NextPath s name (r >>= λ raw. add_slash raw >>= λ raw. str_concat raw name)
unfolding add_slash
slashed s name none m n long w = absurd w
slashed s name (some raw) m n long (e, l, t) =
    let join = λ (q : Option Buffer). q >>= λ raw. str_concat raw name in
    let open_end : add_slash raw ≡ str_concat raw root_path = rw (e, not_root s m long) refl in
    subst (λ q. NextPath s name (join q)) (sym open_end)
      (elim (dec_lt (length s + 1) fs_max_path) [
        | yes h ↦ named s name (str_concat raw root_path) n (
            subst (λ k. Writes (str_concat raw root_path) k (s ++ slash ∷ [])) l
              (subst (λ x. Writes (str_concat raw root_path) (length raw) (x ++ slash ∷ [])) e
                (str_concat-Writes raw root_path (omega arith, tt) t
                  (omega (arith, ap length e, l, h)))))
        | no h ↦
            subst (λ q. NextPath s name (join q))
              (sym (str_concat_overrun raw root_path (omega (arith, ap length e, l, h))))
              (omega (arith, h))
      ])

pub child_path-NextPath :
    (s name : CString)
    → NoNul s
    → NoNul name
    → 2 ≤ length s
    → length s < fs_max_path
    → NextPath s name (child_path s name)
unfolding child_path
child_path-NextPath s name m n long short =
    let size : length {A = ℕ} (replicate fs_max_path 0) ≡ fs_max_path =
      length-replicate {A = ℕ} fs_max_path 0 in
    slashed s name (str_copy (replicate fs_max_path 0) s) m n long (
      subst (λ k. Writes (str_copy (replicate fs_max_path 0) s) k s) size
        (str_copy-Writes (replicate fs_max_path 0) s m (omega (arith, size, short))))
