-- ===== src/Users/Remove.antt =====
-- `users_remove` of kernel/users.c on every branch: what it answers and the table it leaves.
use pl_dos.Base.{
  ℕ, zero, suc, ◌<◌, ◌≡◌, refl, sym, ap, ◌∙◌, ◌≢◌, ◌⊎◌, inl, inr, true, false, Option, none, some,
  [], ◌∷◌, arith, set, length, length-set, ◌==◌, Bool-cases, Option-cases,
}
use mathlib.Core.Bool.{true≢false}
use pl_dos.Strings.{CString, Buffer, cstr, terminated, NoNul}
use pl_dos.Users.{
  User, Users, user_max_name, user_max_count, slot, is_active, find_user, clear_user, put_user,
  users_remove,
}
use pl_dos.Users.Table.{IsValid, at_slot, IsSlot, slot-IsSlot, find_user-some, put-IsValid}

-- `name[0] = 0` terminates the buffer.
pub cleared_ends : (b : Buffer) → length b ≡ user_max_name → terminated (set b 0 0) ≡ true
cleared_ends [] e = absurd (omega arith)
cleared_ends (c ∷ b) e = refl

cleared-IsSlot : (u : User) → IsSlot u → IsSlot (clear_user u)
cleared-IsSlot u ok = record {
  size = length-set u.name 0 0 ∙ ok.size;
  ends = cleared_ends u.name ok.size;
}

-- What `users_remove` answers, and the table it leaves.
abbrev pub Removed : Users → CString → ℕ × Users → Type 0
Removed t name r =
    ((find_user t name ≡ none) × (r ≡ (1, t)))
    ⊎ ((find_user t name ≡ some 0) × (r ≡ (1, t)))
    ⊎ ((find_user t name ≡ some t.current_user) × (r ≡ (2, t)))
    ⊎ ((i : ℕ) × (find_user t name ≡ some i)
        × (i ≢ 0)
        × (i ≢ t.current_user)
        × (r ≡ (0, put_user t i (clear_user (slot t i))))
        × IsValid r.1
        × (find_user r.1 name ≡ none))

module _ (t : Users) (name : CString) where
  remove_missing : find_user t name ≡ none → users_remove t name ≡ (1, t)
  unfolding users_remove
  remove_missing e = rw (e, users_remove)

  remove_root : find_user t name ≡ some 0 → users_remove t name ≡ (1, t)
  unfolding users_remove
  remove_root e = rw (e, users_remove)

  remove_current :
      (i : ℕ)
      → find_user t name ≡ some i
      → i ≢ 0
      → (i == t.current_user) ≡ true
      → users_remove t name ≡ (2, t)
  unfolding users_remove
  remove_current i e ne c = ground arith

  remove_other :
      (i : ℕ)
      → find_user t name ≡ some i
      → i ≢ 0
      → (i == t.current_user) ≡ false
      → users_remove t name ≡ (0, put_user t i (clear_user (slot t i)))
  unfolding users_remove
  remove_other i e ne c = ground arith

  remove_forgets :
      (i : ℕ)
      → IsValid t
      → NoNul name
      → find_user t name ≡ some i
      → IsValid (put_user t i (clear_user (slot t i)))
      → find_user (put_user t i (clear_user (slot t i))) name ≡ none
  remove_forgets i v n e v' = elim (Option-cases (find_user t' name)) [
    | inl none' ↦ none'
    | inr (j, e') ↦
        let (lt, act, named) = find_user-some t name i v.table n e in
        let (lt', act', named') = find_user-some t' name j v'.table n e' in
        absurd (clash j lt act named lt' act' named' (Bool-cases (i == j)))
  ]
    where
      t' : Users
      t' = put_user t i (clear_user (slot t i))

      clash :
          (j : ℕ)
          → i < user_max_count
          → is_active (slot t i) ≡ true
          → cstr (slot t i).name ≡ name
          → j < user_max_count
          → is_active (slot t' j) ≡ true
          → cstr (slot t' j).name ≡ name
          → ((i == j) ≡ true) ⊎ ((i == j) ≡ false)
          → ⊥
      clash j lt act named lt' act' named' (inl same) =
          true≢false (sym (rw (at_slot t i (clear_user (slot t i)) v.table lt j, same) at act'))
      clash j lt act named lt' act' named' (inr other) =
          let at = at_slot t i (clear_user (slot t i)) v.table lt j in
          let other_active = rw (at, other) at act' in
          let other_named = rw (at, other) at named' in
          let e : i ≡ j = v.unique i j lt lt' act other_active (named ∙ sym other_named) in
          ground arith

-- `users_remove` answers 1 and changes nothing for an unknown name and for slot 0, answers 2 and
-- changes nothing for the logged-in user, and otherwise frees the slot: the table stays valid and
-- the name is unknown from then on.
pub users_remove-Removed :
    (t : Users) (name : CString) → IsValid t → NoNul name → Removed t name (users_remove t name)
users_remove-Removed t name v n = split (find_user t name) refl
  where
    remove_at :
        (i : ℕ)
        → find_user t name ≡ some i
        → i ≢ 0
        → ((i == t.current_user) ≡ true) ⊎ ((i == t.current_user) ≡ false)
        → Removed t name (users_remove t name)
    remove_at i e ne (inl c) =
        inr (inr (inl (e ∙ ap (λ (k : ℕ). some k) (ground arith), remove_current t name i e ne c)))
    remove_at i e ne (inr c) =
        let lt = (find_user-some t name i v.table n e).0 in
        let ok = cleared-IsSlot (slot t i) (slot-IsSlot t i v.table lt) in
        let v' = put-IsValid t i (clear_user (slot t i)) v lt ne ok (λ a. cc) in
        rw (remove_other t name i e ne c)
          (inr (inr (inr (i, e, ne, ground arith, refl, v', remove_forgets t name i v n e v'))))

    split : (r : Option ℕ) → find_user t name ≡ r → Removed t name (users_remove t name)
    split none e = inl (e, remove_missing t name e)
    split (some zero) e = inr (inl (e, remove_root t name e))
    split (some (suc i)) e =
        remove_at (suc i) e (omega arith) (Bool-cases (suc i == t.current_user))
