-- ===== src/Filesystem/Path/Canonical.antt =====
-- Canonical paths: what a list of at most 16 plain components, the last one first, is spelled as.
use pl_dos.Base.{
  ℕ, zero, suc, ◌+◌, ◌≤◌, ◌<◌, ◌≡◌, refl, ◌∙◌, ◌≢◌, inl, inr, false, List, [], ◌∷◌, ◌++◌,
  append_assoc, arith, length, All, ◌==◌, Bool-cases,
}
use pl_dos.Strings.{CString, NoNul, slash}
use pl_dos.Strings.Names.{NoSlash}
use pl_dos.Filesystem.{fs_max_name, root_path}
use pl_dos.Filesystem.Path.{take_part, dot, dot_dot, max_depth}

-- A component of a path: 1 to 31 bytes, no slash, and neither "." nor "..".
pub record IsPart (p : CString) : Type 0 where
  pub no_nul : NoNul p
  pub no_slash : NoSlash p
  pub non_empty : p ≢ []
  pub short : length p < fs_max_name
  pub ne_dot : p ≢ dot
  pub ne_dot_dot : p ≢ dot_dot

pub record IsParts (ps : List CString) : Type 0 where
  pub each : All IsPart ps
  pub depth : length ps ≤ max_depth

abbrev pub spell : List CString → CString
spell [] = []
spell (p ∷ ps) = spell ps ++ slash ∷ p

abbrev pub render : List CString → CString
render [] = root_path
render (p ∷ ps) = spell (p ∷ ps)

-- The same, for components in the order of the path.
abbrev pub spell_on : List CString → CString
spell_on [] = []
spell_on (p ∷ ps) = slash ∷ p ++ spell_on ps

abbrev pub onto : List CString → List CString → List CString
onto [] acc = acc
onto (p ∷ ps) acc = onto ps (p ∷ acc)

pub spell-spell_on : (ps l : List CString) → spell ps ++ spell_on l ≡ spell_on (onto ps l)
spell-spell_on [] l = refl
spell-spell_on (p ∷ ps) l =
    append_assoc (spell ps) (slash ∷ p) (spell_on l) ∙ spell-spell_on ps (p ∷ l)

pub onto-onto : (ps l c : List CString) → onto (onto ps l) c ≡ onto l (ps ++ c)
onto-onto [] l c = refl
onto-onto (p ∷ ps) l c = onto-onto ps (p ∷ l) c

pub All-onto : (ps l : List CString) → All IsPart ps → All IsPart l → All IsPart (onto ps l)
All-onto [] l h k = k
All-onto (p ∷ ps) l h k = All-onto ps (p ∷ l) h.1 (h.0, k)

pub length-onto : (ps l : List CString) → length (onto ps l) ≡ length ps + length l
length-onto [] l = omega arith
length-onto (p ∷ ps) l = omega (arith, length-onto ps (p ∷ l))

pub take_part-NoSlash : (room : ℕ) (s : CString) → NoSlash (take_part room s).0
unfolding take_part
take_part-NoSlash zero s = tt
take_part-NoSlash (suc room) [] = tt
take_part-NoSlash (suc room) (c ∷ s) = elim (Bool-cases (c == slash)) [
  | inl e ↦ rw e tt
  | inr e ↦ rw e (ground arith, take_part-NoSlash room s)
]

pub take_part-NoNul :
    (room : ℕ) (s : CString) → NoNul s → NoNul (take_part room s).0 × NoNul (take_part room s).1
unfolding take_part
take_part-NoNul zero s n = (tt, n)
take_part-NoNul (suc room) [] n = (tt, tt)
take_part-NoNul (suc room) (c ∷ s) n = elim (Bool-cases (c == slash)) [
  | inl e ↦ rw e (tt, n)
  | inr e ↦ let later = take_part-NoNul room s n.1 in rw e ((n.0, later.0), later.1)
]

pub length-take_part :
    (room : ℕ) (s : CString)
    → (length (take_part room s).0 ≤ room)
      × (length (take_part room s).0 + length (take_part room s).1 ≡ length s)
unfolding take_part
length-take_part zero s = (omega arith, omega arith)
length-take_part (suc room) [] = (omega arith, omega arith)
length-take_part (suc room) (c ∷ s) = ground (arith, length-take_part room s)

pub take_part_non_empty :
    (room c : ℕ) (s : CString) → c ≢ slash → (take_part (suc room) (c ∷ s)).0 ≢ []
unfolding take_part
take_part_non_empty room c s n = ground arith

-- A component that a slash or the end follows is taken whole.
pub take_part-append :
    (room : ℕ) (p : CString) (l : List CString)
    → NoSlash p
    → length p ≤ room
    → take_part room (p ++ spell_on l) ≡ (p, spell_on l)
unfolding take_part
take_part-append zero [] l n h = refl
take_part-append zero (c ∷ p) l n h = absurd (omega arith)
take_part-append (suc room) [] [] n h = refl
take_part-append (suc room) [] (q ∷ l) n h = refl
take_part-append (suc room) (c ∷ p) l n h =
    let e = take_part-append room p l n.1 (omega arith) in
    let ne : (c == slash) ≡ false = ground (arith, n.0) in rw (e, ne)
