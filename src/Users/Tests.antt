-- ===== src/Users/Tests.antt =====
-- The user table with the administrator alone, and the theorems on it.
use pl_dos.Base.{
  ℕ, zero, suc, ◌<◌, ◌≡◌, refl, sym, ◌∙◌, ◌⊎◌, true, false, some, [], ◌∷◌, replicate, length, ◌>>=◌,
  All-replicate, All-get_or, length-replicate, arith,
}
use mathlib.Core.Bool.{false≢true}
use pl_dos.Strings.{CString, str_len, str_copy, str_compare}
use pl_dos.Users.{
  Users, User, slot, is_active, no_user, root_name, find_user, users_init, users_add, users_remove,
  users_login, users_exists, users_logout, users_current_name, users_current_is_admin, bad_name,
  free_slot, fill_user, add_user,
}
use pl_dos.Users.Table.{IsSlot, IsValid}
use pl_dos.Users.Add.{Added, users_add-Added}
use pl_dos.Users.Remove.{Removed, users_remove-Removed}
use pl_dos.Users.Init.{IsStorage, run-users_init}
use pl_dos.Users.Sessions.{run, Keeps, IsLoggedIn, users_login_lem, logout-new_user}
use pl_dos.Users.Sessions.Call.{add, login, logout}

abbrev blank : User
blank = record { name = replicate 24 0; active = 0; admin = 0 }

abbrev storage : Users
storage = record { users = replicate 16 blank; current_user = 7 }

storage-IsStorage : IsStorage storage
storage-IsStorage = record {
  count = refl;
  sizes = All-replicate (λ u. length u.name ≡ 24) 16 blank refl;
}

abbrev root : User
root = record { name = 114 ∷ 111 ∷ 111 ∷ 116 ∷ replicate 20 0; active = 1; admin = 1 }

abbrev root_only : Users
root_only = record { users = root ∷ replicate 15 blank; current_user = 0 }

active_root : (i : ℕ) → i < 16 → is_active (slot root_only i) ≡ true → i ≡ 0
active_root zero h u = refl
active_root (suc i) h u = absurd (
    false≢true (
      sym (
        All-get_or (λ n. is_active n ≡ false) (replicate 15 blank) i no_user
          (All-replicate (λ n. is_active n ≡ false) 15 blank refl)
          (omega (arith, length-replicate 15 blank)))
      ∙ u))

root_only-IsValid : IsValid root_only
root_only-IsValid = record {
  table = record {
    count = refl;
    slots = (
      record { size = refl; ends = refl },
      All-replicate IsSlot 15 blank (record { size = refl; ends = refl }),
    );
    unique = λ i j hi hj ui uj e. active_root i hi ui ∙ sym (active_root j hj uj);
  };
  root_active = refl;
  root_admin = omega arith;
  current = omega arith;
}

abbrev eve : CString
eve = 101 ∷ 118 ∷ 101 ∷ []

abbrev with_eve : Users
with_eve = record root_only {
  users =
      root
      ∷ record { name = 101 ∷ 118 ∷ 101 ∷ replicate 21 0; active = 1; admin = 1 }
      ∷ replicate 14 blank;
}

eve_added : users_add root_only (some eve) 1 ≡ some (0, with_eve)
unfolding users_add fill_user str_copy find_user str_len str_compare add_user free_slot
eve_added = refl

eve_good : bad_name eve ≡ false
unfolding str_len
eve_good = refl

slot_1_free : free_slot root_only ≡ some 1
unfolding free_slot
slot_1_free = refl

calls_example : Keeps (
    users_init storage >>= λ t'.
    run t' (add eve (omega arith) 1 ∷ login eve (omega arith) ∷ logout ∷ []))
calls_example =
    run-users_init storage (add eve (omega arith) 1 ∷ login eve (omega arith) ∷ logout ∷ [])
      storage-IsStorage

add_example : Added root_only eve 1 (users_add root_only (some eve) 1)
add_example = users_add-Added root_only eve 1 root_only-IsValid (omega arith) eve_good

remove_example : Removed root_only eve (users_remove root_only eve)
remove_example = users_remove-Removed root_only eve root_only-IsValid (omega arith)

login_example :
    ((users_exists root_only root_name ≡ false)
      × (users_login root_only root_name ≡ (1, root_only)))
    ⊎ ((users_exists root_only root_name ≡ true)
        × ((users_login root_only root_name).0 ≡ 0)
        × ((users_login root_only root_name).1.users ≡ root_only.users)
        × IsValid (users_login root_only root_name).1
        × IsLoggedIn (users_login root_only root_name).1
        × (users_current_name (users_login root_only root_name).1 ≡ root_name))
login_example = users_login_lem root_only root_name root_only-IsValid (omega arith)

logout_example :
    (users_current_name (users_logout with_eve).1 ≡ eve)
    × (users_current_is_admin (users_logout with_eve).1 ≡ 1)
logout_example =
    logout-new_user root_only with_eve eve 1 root_only-IsValid (omega arith) eve_good slot_1_free
      eve_added
