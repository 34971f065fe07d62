-- ===== src/Users/Add.antt =====
-- `users_add` of kernel/users.c on every branch: what it answers and the table it leaves.
use pl_dos.Base.{
  ℕ, suc, ◌<◌, ◌≡◌, refl, sym, ap, ◌∙◌, ◌≢◌, ◌⊎◌, inl, inr, true, false, not, Option, none, some,
  [], ◌∷◌, arith, length, find_index-some, ◌==◌, Option-cases, if◌then◌else◌,
}
use mathlib.Core.Bool.{true≢false}
use pl_dos.Strings.{CString, Buffer, cstr, NoNul, str_len, str_copy}
use pl_dos.Strings.Buffers.{Writes, str_copy-Writes}
use pl_dos.Users.{
  User, Users, user_max_name, user_max_count, no_user, slot, is_active, find_user, fill_user,
  free_slot, put_user, add_user, bad_name, users_add,
}
use pl_dos.Users.Table.{IsValid, IsTable, IsSlot, slot-IsSlot, find_user-none, put-IsValid}

str_len-length : (s : CString) → str_len s ≡ length s
unfolding str_len
str_len-length [] = refl
str_len-length (c ∷ s) = ap suc (str_len-length s)

-- The slot that `fill_user` writes: a name buffer that holds `name`, and the flags.
abbrev pub Filled : CString → ℕ → User → Type 0
Filled name admin u = (cstr u.name ≡ name) × IsSlot u × (u.active ≡ 1) × (u.admin ≡ admin)

pub fill_user_lem :
    (t : Users) (i : ℕ) (name : CString) (admin : ℕ)
    → IsTable t
    → i < user_max_count
    → NoNul name
    → length name < user_max_name
    → (u : User) × Filled name admin u × (fill_user t i name admin ≡ some (put_user t i u))
unfolding fill_user
fill_user_lem t i name admin v h n short =
    written (str_copy (slot t i).name name) refl
      (str_copy-Writes (slot t i).name name n (omega (arith, (slot-IsSlot t i v h).size)))
  where
    written :
        (r : Option Buffer)
        → str_copy (slot t i).name name ≡ r
        → Writes r (length (slot t i).name) name
        → (u : User) × Filled name admin u × (fill_user t i name admin ≡ some (put_user t i u))
    written none e w = absurd w
    written (some b) e w = (
      record { name = b; active = 1; admin = admin },
      (w.0, record { size = w.1 ∙ (slot-IsSlot t i v h).size; ends = w.2 }, refl, refl),
      rw (e, fill_user),
    )

free_slot-some :
    (t : Users) (i : ℕ)
    → IsValid t
    → free_slot t ≡ some i
    → (i < user_max_count) × (is_active (slot t i) ≡ false) × (i ≢ 0)
unfolding free_slot
free_slot-some t i v e =
    let found = find_index-some (λ u. not (is_active u)) t.users no_user i e in
    (omega (arith, found.0, v.count), ground (arith, found.1), not_root found.1)
  where
    not_root : not (is_active (slot t i)) ≡ true → i ≢ 0
    not_root idle z =
        true≢false (sym v.root_active ∙ ap (λ k. is_active (slot t k)) (sym z) ∙ ground arith)

-- What a call of `users_add` for a usable name answers, and the table it leaves.
abbrev pub Added : Users → CString → ℕ → Option (ℕ × Users) → Type 0
Added t name admin r =
    ((i : ℕ) × (find_user t name ≡ some i) × (r ≡ some (2, t)))
    ⊎ ((find_user t name ≡ none) × (free_slot t ≡ none) × (r ≡ some (3, t)))
    ⊎ ((i : ℕ) × (u : User) × (find_user t name ≡ none)
        × (free_slot t ≡ some i)
        × Filled name (if admin == 0 then 0 else 1) u
        × (r ≡ some (0, put_user t i u))
        × IsValid (put_user t i u))

module _ (t : Users) (name : CString) (admin : ℕ) (good : bad_name name ≡ false) where
  add_taken : (i : ℕ) → find_user t name ≡ some i → users_add t (some name) admin ≡ some (2, t)
  unfolding users_add
  add_taken i e = ground arith

  add_full :
      find_user t name ≡ none → free_slot t ≡ none → users_add t (some name) admin ≡ some (3, t)
  unfolding users_add add_user
  add_full e f = ground arith

  add_free :
      (i : ℕ) (t' : Users)
      → find_user t name ≡ none
      → free_slot t ≡ some i
      → fill_user t i name (if admin == 0 then 0 else 1) ≡ some t'
      → users_add t (some name) admin ≡ some (0, t')
  unfolding users_add add_user
  add_free i t' e f w = ground arith

-- An empty name, or one that does not fit with its terminator, is refused with status 1.
pub add_bad :
    (t : Users) (name : CString) (admin : ℕ)
    → bad_name name ≡ true
    → users_add t (some name) admin ≡ some (1, t)
unfolding users_add
add_bad t name admin b = rw b

good_name_short : (name : CString) → bad_name name ≡ false → length name < user_max_name
good_name_short [] b = cc
good_name_short (c ∷ s) b = ground (arith, str_len-length (c ∷ s))

-- For a name that is neither empty nor too long: status 2 and no change if it is taken, 3 and no
-- change if the table is full, and otherwise 0 with the user in the first free slot, the table valid.
pub users_add-Added :
    (t : Users) (name : CString) (admin : ℕ)
    → IsValid t
    → NoNul name
    → bad_name name ≡ false
    → Added t name admin (users_add t (some name) admin)
users_add-Added t name admin v n good = elim (Option-cases (find_user t name)) [
  | inr (i, e) ↦ inl (i, e, add_taken t name admin good i e)
  | inl e ↦ elim (Option-cases (free_slot t)) [
    | inl f ↦ inr (inl (e, f, add_full t name admin good e f))
    | inr (i, f) ↦ inr (inr (put i e f (free_slot-some t i v f)))
  ]
]
  where
    flag : ℕ
    flag = if admin == 0 then 0 else 1

    put :
        (i : ℕ)
        → find_user t name ≡ none
        → free_slot t ≡ some i
        → (i < user_max_count) × (is_active (slot t i) ≡ false) × (i ≢ 0)
        → (i : ℕ) × (u : User) × (find_user t name ≡ none)
          × (free_slot t ≡ some i)
          × Filled name flag u
          × (users_add t (some name) admin ≡ some (0, put_user t i u))
          × IsValid (put_user t i u)
    put i e f (lt, idle, ne) =
        let (u, filled, written) =
          fill_user_lem t i name flag v.table lt n (good_name_short name good) in
        (
          i,
          u,
          e,
          f,
          filled,
          add_free t name admin good i _ e f written,
          put-IsValid t i u v lt ne filled.1
              (λ a j hj aj same. find_user-none t name j v.table e hj aj (same ∙ filled.0)),
        )
