-- ===== src/Filesystem/Path/Split.antt =====
-- The loop of `fs_resolve_path` over the raw path, and the components it collects.
use pl_dos.Base.{
  ℕ, zero, suc, ◌+◌, ◌≤◌, ◌<◌, ◌≡◌, refl, ap, ◌≢◌, ◌⊎◌, inl, inr, false, Option, none, some, List,
  [], ◌∷◌, ◌++◌, arith, length, length-append, All, drop, ltb, ◌==◌, Bool-cases, lt→ltb,
}
use pl_dos.Strings.{CString, NoNul, slash, str_eq}
use pl_dos.Strings.Compare.{str_eq_refl, eq_of_str_eq}
use pl_dos.Strings.Names.{NoSlash}
use pl_dos.Filesystem.{fs_max_name}
use pl_dos.Filesystem.Path.{skip_slashes, take_part, dot, dot_dot, max_depth, push_part, split_raw}
use pl_dos.Filesystem.Path.Canonical.{
  IsPart, IsParts, spell_on, onto, take_part-NoSlash, take_part-NoNul, length-take_part,
  take_part_non_empty, take_part-append,
}

-- The loop has ended with components.
abbrev pub Collects : Option (List CString) → Type 0
Collects none = ⊥
Collects (some ps) = IsParts ps

-- A stretch of bytes that holds no slash, whether or not it is a dot.
record IsStretch (p : CString) : Type 0 where
  no_nul : NoNul p
  no_slash : NoSlash p
  non_empty : p ≢ []
  short : length p < fs_max_name

not_str_eq : (a b : CString) → str_eq a b ≡ false → a ≢ b
not_str_eq a b h e = ground (arith, str_eq_refl b, ap (λ x. str_eq x b) e)

push_part-IsParts :
    (ps : List CString) (p : CString) → IsParts ps → IsStretch p → IsParts (push_part ps p)
unfolding push_part
push_part-IsParts ps p v s = elim (Bool-cases (str_eq p dot)) [
  | inl d ↦ rw d v
  | inr nd ↦ elim (Bool-cases (str_eq p dot_dot)) [
    | inl dd ↦ rw (nd, dd) (pop ps v)
    | inr ndd ↦ elim (Bool-cases (ltb (length ps) max_depth)) [
      | inr full ↦ rw (nd, ndd, full) v
      | inl room ↦
          rw (nd, ndd, room)
            (record {
              each = (
                record {
                  no_nul = s.no_nul;
                  no_slash = s.no_slash;
                  non_empty = s.non_empty;
                  short = s.short;
                  ne_dot = not_str_eq p dot nd;
                  ne_dot_dot = not_str_eq p dot_dot ndd;
                },
                v.each,
              );
              depth = ground arith;
            })
    ]
  ]
]
  where
    pop : (ps : List CString) → IsParts ps → IsParts (drop 1 ps)
    pop [] v = v
    pop (q ∷ ps) v = record { each = v.each.1; depth = omega (arith, v.depth) }

skip_slashes_lem :
    (s : CString)
    → NoNul s
    → (skip_slashes s ≡ [])
      ⊎ ((c : ℕ) × (t : CString) × (skip_slashes s ≡ c ∷ t)
          × (c ≢ slash)
          × NoNul (c ∷ t)
          × (length (c ∷ t) ≤ length s))
unfolding skip_slashes
skip_slashes_lem [] n = inl refl
skip_slashes_lem (c ∷ s) n = elim (Bool-cases (c == slash)) [
  | inr e ↦ inr (c, s, rw e, ground arith, n, omega arith)
  | inl e ↦ rw e (elim (skip_slashes_lem s n.1) [
    | inl r ↦ inl r
    | inr (d, t, q, ne, nn, le) ↦ inr (d, t, q, ne, nn, omega arith)
  ])
]

length_pos : (s : CString) → s ≢ [] → 0 < length s
length_pos [] ne = absurd (ne refl)
length_pos (c ∷ s) ne = omega arith

-- With more fuel than bytes the loop ends, and what it collects are 16 components at most.
pub split_raw-Collects :
    (fuel : ℕ) (raw : CString) (ps : List CString)
    → NoNul raw
    → IsParts ps
    → length raw < fuel
    → Collects (split_raw fuel raw ps)
unfolding split_raw
split_raw-Collects zero raw ps n v h = absurd (omega arith)
split_raw-Collects (suc fuel) raw ps n v h = elim (skip_slashes_lem raw n) [
  | inl e ↦ rw (e, split_raw) v
  | inr (c, s, e, ne, nn, le) ↦
      rw (e, split_raw)
        (let len = length-take_part 31 (c ∷ s) in
          let ne' = take_part_non_empty 30 c s ne in
          split_raw-Collects fuel (take_part 31 (c ∷ s)).1 (push_part ps (take_part 31 (c ∷ s)).0)
            (take_part-NoNul 31 (c ∷ s) nn).1
            (push_part-IsParts ps (take_part 31 (c ∷ s)).0 v (record {
              no_nul = (take_part-NoNul 31 (c ∷ s) nn).0;
              no_slash = take_part-NoSlash 31 (c ∷ s);
              non_empty = ne';
              short = omega arith;
            }))
            (omega (arith, length_pos _ ne')))
]

push_part-IsPart :
    (ps : List CString) (p : CString) → IsPart p → length ps < max_depth → push_part ps p ≡ p ∷ ps
unfolding push_part
push_part-IsPart ps p v h =
    let nd : str_eq p dot ≡ false = differs p dot v.no_nul (omega arith) v.ne_dot in
    let ndd : str_eq p dot_dot ≡ false = differs p dot_dot v.no_nul (omega arith) v.ne_dot_dot in
    rw (nd, ndd, lt→ltb _ _ h)
  where
    differs : (a b : CString) → NoNul a → NoNul b → a ≢ b → str_eq a b ≡ false
    differs a b na nb ne = elim (Bool-cases (str_eq a b)) [
      | inl e ↦ absurd (ne (eq_of_str_eq a b na nb e))
      | inr e ↦ e
    ]

skip_slashes-append : (p s : CString) → NoSlash p → p ≢ [] → skip_slashes (slash ∷ p ++ s) ≡ p ++ s
unfolding skip_slashes
skip_slashes-append [] s n ne = absurd (ne refl)
skip_slashes-append (c ∷ p) s n ne = let e : (c == slash) ≡ false = ground (arith, n.0) in rw e

-- On a canonical path the loop collects its components.
pub split_raw-spell_on :
    (l ps : List CString) (fuel : ℕ)
    → All IsPart l
    → length l + length ps ≤ max_depth
    → length (spell_on l) < fuel
    → split_raw fuel (spell_on l) ps ≡ some (onto l ps)
unfolding split_raw
split_raw-spell_on l ps zero v d h = absurd (omega arith)
split_raw-spell_on [] ps (suc fuel) v d h = unfold skip_slashes in refl
split_raw-spell_on ([] ∷ l) ps (suc fuel) v d h = absurd (v.0.non_empty refl)
split_raw-spell_on ((c ∷ p) ∷ l) ps (suc fuel) v d h =
    rw
      (
        skip_slashes-append (c ∷ p) (spell_on l) v.0.no_slash v.0.non_empty,
        split_raw,
        take_part-append 31 (c ∷ p) l v.0.no_slash (omega (arith, v.0.short)),
        push_part-IsPart ps (c ∷ p) v.0 (omega arith),
      )
      (split_raw-spell_on l ((c ∷ p) ∷ ps) fuel v.1 (omega arith)
        (omega (arith, length-append p (spell_on l))))
