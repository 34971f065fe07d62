-- ===== src/Users/Table.antt =====
-- The invariant of the user table, and the calls of kernel/users.c that keep it.
use pl_dos.Base.{
  ℕ, ◌<◌, ◌≡◌, sym, ◌∙◌, ◌≢◌, ◌⊎◌, inl, inr, Bool, true, false, ◌&&◌, none, some, arith, length,
  length-set, get_or-set, All, All-set, All-get_or, find_index-some, find_index-none, ◌==◌,
  Bool-cases, if◌then◌else◌,
}
use pl_dos.Strings.{CString, cstr, terminated, NoNul, str_eq}
use pl_dos.Strings.Buffers.{cstr-NoNul}
use pl_dos.Strings.Compare.{str_eq_refl, str_eq_iff}
use pl_dos.Users.{
  User, Users, user_max_name, user_max_count, no_user, slot, is_active, has_name, find_user,
  put_user,
}

-- A slot as the C array holds it.
pub record IsSlot (u : User) : Type 0 where
  pub size : length u.name ≡ user_max_name
  pub ends : terminated u.name ≡ true

-- No two active users share a name.
pub record IsTable (t : Users) : Type 0 where
  pub count : length t.users ≡ user_max_count
  pub slots : All IsSlot t.users
  pub unique :
      (i j : ℕ)
      → i < user_max_count
      → j < user_max_count
      → is_active (slot t i) ≡ true
      → is_active (slot t j) ≡ true
      → cstr (slot t i).name ≡ cstr (slot t j).name
      → i ≡ j

-- Slot 0 holds the administrator that is never removed, and `current_user` is a slot.
pub record IsValid (t : Users) : Type 0 where
  pub table : IsTable t
  pub open table use *
  pub root_active : is_active (slot t 0) ≡ true
  pub root_admin : (slot t 0).admin ≢ 0
  pub current : t.current_user < user_max_count

pub slot-put :
    (t : Users) (i j : ℕ) (u : User)
    → i < length t.users
    → slot (put_user t i u) j ≡ (if i == j then u else slot t j)
slot-put t i j u h = get_or-set t.users i j u no_user h

pub slot-IsSlot : (t : Users) (i : ℕ) → IsTable t → i < user_max_count → IsSlot (slot t i)
slot-IsSlot t i v h = All-get_or IsSlot t.users i no_user v.slots (omega (arith, v.count))

and_absurd : (a b : Bool) → (a && b) ≡ false → a ≡ true → b ≡ true → ⊥
and_absurd a b h p q = ground arith

-- What `find_user` answers: the only active slot of that name, or that there is none.
pub find_user-some :
    (t : Users) (name : CString) (i : ℕ)
    → IsTable t
    → NoNul name
    → find_user t name ≡ some i
    → (i < user_max_count) × (is_active (slot t i) ≡ true) × (cstr (slot t i).name ≡ name)
unfolding find_user
find_user-some t name i v n e =
    let found = find_index-some (has_name name) t.users no_user i e in
    (
      omega (arith, v.count, found.0),
      ground (arith, found.1),
      (str_eq_iff _ name (cstr-NoNul (slot t i).name) n).0 (ground (arith, found.1)),
    )

pub find_user-none :
    (t : Users) (name : CString) (i : ℕ)
    → IsTable t
    → find_user t name ≡ none
    → i < user_max_count
    → is_active (slot t i) ≡ true
    → cstr (slot t i).name ≢ name
unfolding find_user
find_user-none t name i v e h a same =
    let miss = find_index-none (has_name name) t.users no_user e i (omega (arith, v.count)) in
    let hit : str_eq (cstr (slot t i).name) name ≡ true = rw same (str_eq_refl name) in
    and_absurd _ _ miss a hit

-- The name of `u` is free, should `u` be active.
abbrev pub IsFresh : Users → User → Type 0
IsFresh t u =
    is_active u ≡ true
    → (j : ℕ) → j < user_max_count
    → is_active (slot t j) ≡ true
    → cstr (slot t j).name ≢ cstr u.name

module _ (t : Users) (i : ℕ) (u : User) (v : IsTable t) (h : i < user_max_count) where
  pub at_slot : (j : ℕ) → slot (put_user t i u) j ≡ (if i == j then u else slot t j)
  at_slot j = slot-put t i j u (omega (arith, v.count))

  put_unique :
      IsFresh t u
      → (j k : ℕ) → j < user_max_count
      → k < user_max_count
      → is_active (slot (put_user t i u) j) ≡ true
      → is_active (slot (put_user t i u) k) ≡ true
      → cstr (slot (put_user t i u) j).name ≡ cstr (slot (put_user t i u) k).name
      → j ≡ k
  put_unique fresh j k hj hk =
      rw (at_slot j, at_slot k) (split (Bool-cases (i == j)) (Bool-cases (i == k)))
    where
      split :
          ((i == j) ≡ true) ⊎ ((i == j) ≡ false)
          → ((i == k) ≡ true) ⊎ ((i == k) ≡ false)
          → is_active (if i == j then u else slot t j) ≡ true
          → is_active (if i == k then u else slot t k) ≡ true
          → cstr (if i == j then u else slot t j).name ≡ cstr (if i == k then u else slot t k).name
          → j ≡ k
      split (inl a) (inl b) = λ p q e. ground arith
      split (inl a) (inr b) = rw (a, b) (λ p q e. absurd (fresh p k hk q (sym e)))
      split (inr a) (inl b) = rw (a, b) (λ p q e. absurd (fresh q j hj p e))
      split (inr a) (inr b) = rw (a, b) (v.unique j k hj hk)

  at_root : i ≢ 0 → slot (put_user t i u) 0 ≡ slot t 0
  at_root ne = at_slot 0 ∙ ground arith

  pub put-IsTable : IsSlot u → IsFresh t u → IsTable (put_user t i u)
  put-IsTable ok fresh = record {
    count = length-set t.users i u ∙ v.count;
    slots = All-set IsSlot t.users i u v.slots ok;
    unique = put_unique fresh;
  }

-- A slot other than slot 0 may take any well-formed user with a free name.
pub put-IsValid :
    (t : Users) (i : ℕ) (u : User)
    → IsValid t
    → i < user_max_count
    → i ≢ 0
    → IsSlot u
    → IsFresh t u
    → IsValid (put_user t i u)
put-IsValid t i u v h ne ok fresh = record {
  table = put-IsTable t i u v.table h ok fresh;
  root_active = rw (at_root t i u v.table h ne) v.root_active;
  root_admin = rw (at_root t i u v.table h ne) v.root_admin;
  current = v.current;
}
