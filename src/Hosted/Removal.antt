-- ===== src/Hosted/Removal.antt =====
-- `fs_delete_file` of src/filesystem.c takes one entry out of the list of files.
use pl_dos.Base.{
  ℕ, zero, suc, ◌+◌, ◌-◌, ◌≤◌, ◌<◌, ◌≡◌, refl, ap, subst, ◌∙◌, true, some, List, [], ◌∷◌, take,
  length, get_or, arith, length-take, find_index-some,
}
use pl_dos.Strings.{CString}
use pl_dos.Hosted.Files.{
  File, Table, Host, used_files, no_file, is_named, file_named, shift_files, remove_entry,
  delete_found, fs_delete_file,
}

-- The list without the entry `i`.
abbrev pub without : ℕ → List File → List File
without i [] = []
without zero (f ∷ fs) = fs
without (suc i) (f ∷ fs) = f ∷ without i fs

shift_suc :
    (r j : ℕ) (f : File) (fs : List File) → shift_files (f ∷ fs) (suc j) r ≡ f ∷ shift_files fs j r
unfolding shift_files
shift_suc zero j f fs = refl
shift_suc (suc r) j f fs =
    let next : suc j + 1 ≡ suc (j + 1) = omega arith in rw next (shift_suc r (j + 1) f _)

shift_zero :
    (r : ℕ) (f : File) (fs : List File)
    → r ≤ length fs
    → take r (shift_files (f ∷ fs) 0 r) ≡ take r fs
unfolding shift_files
shift_zero zero f fs h = refl
shift_zero (suc r) f [] h = absurd (omega (arith, h))
shift_zero (suc r) f (g ∷ fs) h =
    ap (take (suc r)) (shift_suc r 0 g (g ∷ fs)) ∙ ap (◌∷◌ g) (shift_zero r g fs (omega (arith, h)))

shifted :
    (files : List File) (i r n : ℕ)
    → n ≡ i + r
    → n < length files
    → take n (shift_files files i r) ≡ without i (take (suc n) files)
shifted [] i r n e lt = absurd (omega (arith, lt))
shifted (f ∷ fs) zero r n e lt =
    subst (λ k. take k (shift_files (f ∷ fs) 0 r) ≡ take k fs) (omega (arith, e))
      (shift_zero r f fs (omega (arith, e, lt)))
shifted (f ∷ fs) (suc j) r zero e lt = absurd (omega (arith, e))
shifted (f ∷ fs) (suc j) r (suc m) e lt =
    ap (take (suc m)) (shift_suc r j f fs)
    ∙ ap (◌∷◌ f) (shifted fs j r m (omega (arith, e)) (omega (arith, lt)))

remove_entry_lem :
    (t : Table) (i : ℕ)
    → i < t.file_count
    → t.file_count ≤ length t.files
    → used_files (remove_entry t i) ≡ without i (used_files t)
unfolding remove_entry
remove_entry_lem t i lt fits =
    let last = t.file_count - 1 in
    let all : suc last ≡ t.file_count = omega (arith, lt) in
    subst (λ k. take last (shift_files t.files i (last - i)) ≡ without i (take k t.files)) all
      (shifted t.files i (last - i) last (omega (arith, lt)) (omega (arith, lt, fits)))

-- Where a file of the name is there, `fs_delete_file` takes the first one out of the list of files and
-- keeps the others, in their order.
pub fs_delete_file_lem :
    (h : Host) (t : Table) (name : CString) (i : ℕ)
    → h.fs ≡ some t
    → t.file_count ≤ length t.files
    → file_named t name ≡ some i
    → (t' : Table) × ((fs_delete_file h name).fs ≡ some t')
      × (is_named name (get_or (used_files t) i no_file) ≡ true)
      × (used_files t' ≡ without i (used_files t))
unfolding fs_delete_file delete_found file_named
fs_delete_file_lem h t name i present fits hit =
    let found = find_index-some (is_named name) (used_files t) no_file i hit in
    (
      remove_entry t i,
      rw (present, hit) refl,
      found.1,
      remove_entry_lem t i (omega (arith, found.0, length-take t.file_count t.files)) fits,
    )
