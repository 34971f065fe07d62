-- ===== src/Users.antt =====
-- kernel/users.c: the user table and the logged-in user. An `int` used as a flag is any number, and
-- true if it is not 0. A function that fails returns its status and leaves the table as it was.
pub mod Add
pub mod Init
pub mod Remove
pub mod Sessions
pub mod Table
mod Tests
use pl_dos.Base.{
  ℕ, zero, suc, ◌+◌, Bool, true, false, not, ◌&&◌, Option, none, some, List, [], ◌∷◌, map, get_or,
  set, replicate, length, find_index, ltb, leb, ◌==◌, if◌then◌else◌, ◌>>=◌,
}
use pl_dos.Strings.{CString, Buffer, cstr, str_len, str_copy, str_eq}

abbrev pub user_max_name : ℕ
user_max_name = 24

abbrev pub user_max_count : ℕ
user_max_count = 16

pub record User : Type 0 where
  pub name : Buffer
  pub active : ℕ
  pub admin : ℕ

-- `users` and `current_user`.
pub record Users : Type 0 where
  pub users : List User
  pub current_user : ℕ

-- What the model reads outside the table; no valid state does.
abbrev pub no_user : User
no_user = record { name = []; active = 0; admin = 0 }

abbrev pub slot : Users → ℕ → User
slot t i = get_or t.users i no_user

abbrev pub is_active : User → Bool
is_active u = not (u.active == 0)

-- The bytes of "root" and "guest".
abbrev pub root_name : CString
root_name = b'r' ∷ b'o' ∷ b'o' ∷ b't' ∷ []

abbrev pub guest_name : CString
guest_name = b'g' ∷ b'u' ∷ b'e' ∷ b's' ∷ b't' ∷ []

abbrev pub has_name : CString → User → Bool
has_name name u = is_active u && str_eq (cstr u.name) name

unfoldable pub find_user : Users → CString → Option ℕ
find_user t name = find_index (has_name name) t.users

abbrev clear_user : User → User
clear_user u = record { name = set u.name 0 0; active = 0; admin = 0 }

abbrev put_user : Users → ℕ → User → Users
put_user t i u = record t { users = set t.users i u }

-- Fill a slot: `active = 1; admin = ...; str_copy(name, ...)`.
unfoldable pub fill_user : Users → ℕ → CString → ℕ → Option Users
fill_user t i name admin = do
  written ← str_copy (slot t i).name name
  some (put_user t i (record { name = written; active = 1; admin = admin }))

-- The argument is the static storage that the call finds.
unfoldable pub users_init : Users → Option Users
users_init t = do
  t ← fill_user (record t { users = map clear_user t.users }) 0 root_name 1
  t ← fill_user t 1 guest_name 0
  some (record t { current_user = 0 })

unfoldable pub free_slot : Users → Option ℕ
free_slot t = find_index (λ u. not (is_active u)) t.users

-- The insertion loop of `users_add`, once the name has passed its tests.
unfoldable pub add_user : Users → CString → ℕ → Option (ℕ × Users)
add_user t name admin = elim (free_slot t) [
  | none ↦ some (3, t)
  | some i ↦ fill_user t i name (if admin == 0 then 0 else 1) >>= λ t'. some (0, t')
]

abbrev pub bad_name : CString → Bool
bad_name [] = true
bad_name (c ∷ s) = leb user_max_name (str_len (c ∷ s))

-- `none` for the name is the null pointer.
unfoldable pub users_add : Users → Option CString → ℕ → Option (ℕ × Users)
users_add t none admin = some (1, t)
users_add t (some name) admin =
    if bad_name name
    then some (1, t)
    else elim (find_user t name) [ some i ↦ some (2, t) | none ↦ add_user t name admin ]

unfoldable pub users_remove : Users → CString → ℕ × Users
users_remove t name = elim (find_user t name) [
  | none ↦ (1, t)
  | some idx ↦
      if idx == 0
      then (1, t)
      else if idx == t.current_user
      then (2, t)
      else (0, put_user t idx (clear_user (slot t idx)))
]

unfoldable pub users_login : Users → CString → ℕ × Users
users_login t name = elim (find_user t name) [
  | none ↦ (1, t)
  | some idx ↦ (0, record t { current_user = idx })
]

unfoldable pub users_logout : Users → ℕ × Users
users_logout t = (0, record t { current_user = 1 })

unfoldable pub users_current_name : Users → CString
users_current_name t = cstr (slot t t.current_user).name

unfoldable pub users_current_is_admin : Users → ℕ
users_current_is_admin t = (slot t t.current_user).admin

unfoldable pub count_active : List User → ℕ
count_active [] = 0
count_active (u ∷ us) = (if is_active u then 1 else 0) + count_active us

unfoldable pub users_count : Users → ℕ
users_count t = count_active t.users

-- The loop of `users_get`, with `seen` active users behind it; `none` is the result 0.
unfoldable pub get_active : List User → ℕ → ℕ → Option User
get_active [] seen index = none
get_active (u ∷ us) seen index =
    let later = get_active us (if is_active u then seen + 1 else seen) index in
    if is_active u && (seen == index) then some u else later

unfoldable pub users_get : Users → ℕ → Option User
users_get t index = get_active t.users 0 index

unfoldable pub users_exists : Users → CString → Bool
users_exists t name = elim (find_user t name) [ none ↦ false | some i ↦ true ]
