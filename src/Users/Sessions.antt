-- ===== src/Users/Sessions.antt =====
-- Logging in and out, and any history of calls of kernel/users.c.
use pl_dos.Base.{
  ℕ, ◌≡◌, refl, ap, ◌∙◌, ◌⊎◌, inl, inr, true, false, Option, none, some, List, [], ◌∷◌, arith, ◌==◌,
  Bool-cases, if◌then◌else◌, ◌>>=◌,
}
use pl_dos.Strings.{CString, cstr, NoNul}
use pl_dos.Users.{
  Users, slot, is_active, find_user, free_slot, put_user, bad_name, users_add, users_remove,
  users_login, users_logout, users_current_is_admin, users_current_name, users_exists,
}
use pl_dos.Users.Table.{IsValid, at_slot, find_user-some}
use pl_dos.Users.Add.{add_bad, users_add-Added}
use pl_dos.Users.Remove.{users_remove-Removed}

-- The logged-in user is an active one.
abbrev pub IsLoggedIn : Users → Type 0
IsLoggedIn t = is_active (slot t t.current_user) ≡ true

-- A login succeeds exactly for a known name; it then makes that user current, and otherwise changes
-- nothing.
pub users_login_lem :
    (t : Users) (name : CString)
    → IsValid t
    → NoNul name
    → ((users_exists t name ≡ false) × (users_login t name ≡ (1, t)))
      ⊎ ((users_exists t name ≡ true)
          × ((users_login t name).0 ≡ 0)
          × ((users_login t name).1.users ≡ t.users)
          × IsValid (users_login t name).1
          × IsLoggedIn (users_login t name).1
          × (users_current_name (users_login t name).1 ≡ name))
unfolding users_login users_exists users_current_name
users_login_lem t name v n = split (find_user t name) refl
  where
    split :
        (r : Option ℕ)
        → find_user t name ≡ r
        → ((users_exists t name ≡ false) × (users_login t name ≡ (1, t)))
          ⊎ ((users_exists t name ≡ true)
              × ((users_login t name).0 ≡ 0)
              × ((users_login t name).1.users ≡ t.users)
              × IsValid (users_login t name).1
              × IsLoggedIn (users_login t name).1
              × (users_current_name (users_login t name).1 ≡ name))
    split none e = inl (rw (e, users_exists), rw (e, users_login))
    split (some i) e =
        let (lt, act, named) = find_user-some t name i v.table n e in
        let here : Users = record t { current_user = i } in
        let v' : IsValid here = record {
          table = record { count = v.count; slots = v.slots; unique = v.unique };
          root_active = v.root_active;
          root_admin = v.root_admin;
          current = lt;
        } in
        rw (e, users_exists, users_login) (inr (refl, refl, refl, v', act, named))

-- The calls that programs make, in the order in which they make them.
pub data Call : Type 0 where
  add : (name : CString) → NoNul name → ℕ → Call
  remove : (name : CString) → NoNul name → Call
  login : (name : CString) → NoNul name → Call
  logout : Call

abbrev pub keep_table : Option (ℕ × Users) → Option Users
keep_table none = none
keep_table (some (rc, t)) = some t

unfoldable pub step : Users → Call → Option Users
step t (add name n admin) = keep_table (users_add t (some name) admin)
step t (remove name n) = some (users_remove t name).1
step t (login name n) = some (users_login t name).1
step t logout = some (users_logout t).1

unfoldable pub run : Users → List Call → Option Users
run t [] = some t
run t (c ∷ cs) = step t c >>= λ t'. run t' cs

-- The call did not fault, and the table is valid.
abbrev pub Keeps : Option Users → Type 0
Keeps none = ⊥
Keeps (some t) = IsValid t

pub logout-IsValid : (t : Users) → IsValid t → IsValid (users_logout t).1
unfolding users_logout
logout-IsValid t v = record {
  table = record { count = v.count; slots = v.slots; unique = v.unique };
  root_active = v.root_active;
  root_admin = v.root_admin;
  current = omega arith;
}

pub login-IsValid :
    (t : Users) (name : CString) → IsValid t → NoNul name → IsValid (users_login t name).1
login-IsValid t name v n = elim (users_login_lem t name v n) [
  | inl (_, e) ↦ rw e v
  | inr (_, _, _, v', _, _) ↦ v'
]

pub remove-IsValid :
    (t : Users) (name : CString) → IsValid t → NoNul name → IsValid (users_remove t name).1
remove-IsValid t name v n = elim (users_remove-Removed t name v n) [
  | inl (_, e) ↦ rw e v
  | inr (inl (_, e)) ↦ rw e v
  | inr (inr (inl (_, e))) ↦ rw e v
  | inr (inr (inr (_, _, _, _, _, v', _))) ↦ v'
]

pub add-Keeps :
    (t : Users) (name : CString) (admin : ℕ)
    → IsValid t
    → NoNul name
    → Keeps (keep_table (users_add t (some name) admin))
add-Keeps t name admin v n = elim (Bool-cases (bad_name name)) [
  | inl bad ↦ rw (add_bad t name admin bad) v
  | inr good ↦ elim (users_add-Added t name admin v n good) [
    | inl (_, _, e) ↦ rw e v
    | inr (inl (_, _, e)) ↦ rw e v
    | inr (inr (_, _, _, _, _, e, v')) ↦ rw e v'
  ]
]

step-Keeps : (t : Users) (c : Call) → IsValid t → Keeps (step t c)
unfolding step
step-Keeps t (add name n admin) v = add-Keeps t name admin v n
step-Keeps t (remove name n) v = remove-IsValid t name v n
step-Keeps t (login name n) v = login-IsValid t name v n
step-Keeps t logout v = logout-IsValid t v

-- No history of calls faults or breaks the table.
pub run-Keeps : (t : Users) (cs : List Call) → IsValid t → Keeps (run t cs)
unfolding run
run-Keeps t [] v = v
run-Keeps t (c ∷ cs) v = go (step t c) (step-Keeps t c v) (λ t' v'. run-Keeps t' cs v')
  where
    go :
        (r : Option Users)
        → Keeps r
        → ((t' : Users) → IsValid t' → Keeps (run t' cs))
        → Keeps (r >>= λ t'. run t' cs)
    go none k rest = k
    go (some t') k rest = rest t' k

-- `users_logout` selects slot 1, whoever holds it: once the guest's slot was freed and a new user
-- put there, logging out makes that user current, with its administrator flag.
pub logout-new_user :
    (t t' : Users) (name : CString) (admin : ℕ)
    → IsValid t
    → NoNul name
    → bad_name name ≡ false
    → free_slot t ≡ some 1
    → users_add t (some name) admin ≡ some (0, t')
    → (users_current_name (users_logout t').1 ≡ name)
      × (users_current_is_admin (users_logout t').1 ≡ (if admin == 0 then 0 else 1))
unfolding users_logout users_current_name users_current_is_admin
logout-new_user t t' name admin v n good f e = elim (users_add-Added t name admin v n good) [
  | inl (i, _, e') ↦ absurd (ground arith)
  | inr (inl (_, full, e')) ↦ absurd (ground arith)
  | inr (inr (i, u, _, free, filled, e', v')) ↦
      let at : i ≡ 1 = ground arith in
      let same : t' ≡ put_user t i u = ground arith in
      let here : slot t' 1 ≡ u = rw same (at_slot t i u v.table (omega arith) 1 ∙ rw at) in
      (ap (λ x. cstr x.name) here ∙ filled.0, ap (λ x. x.admin) here ∙ filled.3)
]
