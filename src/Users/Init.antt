-- ===== src/Users/Init.antt =====
-- `users_init` of kernel/users.c, whatever the static storage held.
use pl_dos.Base.{
  ℕ, zero, suc, ◌<◌, ◌≡◌, refl, sym, ap, ◌∙◌, ◌≢◌, true, false, some, List, [], ◌∷◌, map, arith,
  length, length-set, length-map, All, All-get_or, ◌==◌, if◌then◌else◌, ◌>>=◌,
}
use mathlib.Core.Bool.{false≢true}
use pl_dos.Strings.{CString, cstr}
use pl_dos.Users.{
  User, Users, user_max_name, user_max_count, no_user, slot, is_active, root_name, guest_name,
  clear_user, put_user, users_init,
}
use pl_dos.Users.Table.{IsValid, IsTable, IsSlot, IsFresh, at_slot, put-IsTable}
use pl_dos.Users.Add.{Filled, fill_user_lem}
use pl_dos.Users.Remove.{cleared_ends}
use pl_dos.Users.Sessions.{Keeps, Call, run, run-Keeps, IsLoggedIn}

-- The array as it lies in memory: 16 slots with 24 bytes for the name of each.
pub record IsStorage (t : Users) : Type 0 where
  pub count : length t.users ≡ user_max_count
  pub sizes : All (λ u. length u.name ≡ user_max_name) t.users

cleared : Users → Users
cleared t = record t { users = map clear_user t.users }

map-clear_idle : (us : List User) → All (λ u. is_active u ≡ false) (map clear_user us)
map-clear_idle [] = tt
map-clear_idle (u ∷ us) = (refl, map-clear_idle us)

map-clear-IsSlot :
    (us : List User) → All (λ u. length u.name ≡ user_max_name) us → All IsSlot (map clear_user us)
map-clear-IsSlot [] h = tt
map-clear-IsSlot (u ∷ us) h = (
  record { size = length-set u.name 0 0 ∙ h.0; ends = cleared_ends u.name h.0 },
  map-clear-IsSlot us h.1,
)

cleared_idle :
    (t : Users) (j : ℕ) → IsStorage t → j < user_max_count → is_active (slot (cleared t) j) ≡ false
unfolding cleared
cleared_idle t j s h =
    All-get_or (λ u. is_active u ≡ false) (map clear_user t.users) j no_user
      (map-clear_idle t.users) (omega (arith, length-map t.users clear_user, s.count))

cleared-IsTable : (t : Users) → IsStorage t → IsTable (cleared t)
unfolding cleared
cleared-IsTable t s = record {
  count = length-map t.users clear_user ∙ s.count;
  slots = map-clear-IsSlot t.users s.sizes;
  unique = λ i j hi hj a b e. absurd (false≢true (sym (cleared_idle t i s hi) ∙ a));
}

module _ (t : Users) (s : IsStorage t) (u : User) (root : Filled root_name 1 u) where
  with_root : Users
  with_root = put_user (cleared t) 0 u

  with_root-IsTable : IsTable with_root
  unfolding with_root
  with_root-IsTable =
      put-IsTable (cleared t) 0 u (cleared-IsTable t s) (omega arith) root.1
        (λ a j hj idle. absurd (false≢true (sym (cleared_idle t j s hj) ∙ idle)))

  at_root : (j : ℕ) → slot with_root j ≡ (if 0 == j then u else slot (cleared t) j)
  unfolding with_root
  at_root = at_slot (cleared t) 0 u (cleared-IsTable t s) (omega arith)

  at_zero : slot with_root 0 ≡ u
  at_zero = at_root 0

  at_other : (j : ℕ) → slot with_root (suc j) ≡ slot (cleared t) (suc j)
  at_other j = at_root (suc j) ∙ ground arith

  names_differ : ◌≢◌ {A = CString} root_name guest_name
  names_differ e = ground arith

  module _ (g : User) (guest : Filled guest_name 0 g) where
    with_guest : Users
    unfolding with_root
    with_guest = put_user with_root 1 g

    guest-IsFresh : IsFresh with_root g
    guest-IsFresh a zero hj act same =
        names_differ (sym root.0 ∙ ap (λ x. cstr x.name) (sym at_zero) ∙ same ∙ guest.0)
    guest-IsFresh a (suc j) hj act same =
        absurd
          (false≢true (sym (cleared_idle t (suc j) s hj) ∙ ap is_active (sym (at_other j)) ∙ act))

    with_guest-IsTable : IsTable with_guest
    unfolding with_guest
    with_guest-IsTable =
        put-IsTable with_root 1 g with_root-IsTable (omega arith) guest.1 guest-IsFresh

    -- The table that `users_init` leaves.
    started : Users
    unfolding with_guest
    started = record with_guest { current_user = 0 }

    root_slot : slot started 0 ≡ u
    unfolding started
    root_slot = at_slot with_root 1 g with_root-IsTable (omega arith) 0 ∙ at_zero

    started-IsValid : IsValid started × (is_active (slot started started.current_user) ≡ true)
    unfolding started
    started-IsValid =
        let active : is_active (slot started 0) ≡ true = rw root_slot (ground (arith, root.2)) in
        (
          record {
            table = record {
              count = with_guest-IsTable.count;
              slots = with_guest-IsTable.slots;
              unique = with_guest-IsTable.unique;
            };
            root_active = active;
            root_admin = rw root_slot (ground (arith, root.3));
            current = omega arith;
          },
          active,
        )

-- Whatever the storage held, `users_init` does not fault, and leaves a valid table with "root" logged
-- in.
pub users_init_lem :
    (t : Users) → IsStorage t → (t' : Users) × (users_init t ≡ some t') × IsValid t' × IsLoggedIn t'
unfolding users_init cleared with_root with_guest started
users_init_lem t s =
    let (u, root, e) =
      fill_user_lem (cleared t) 0 root_name 1 (cleared-IsTable t s) (omega arith) (omega arith)
        (omega arith) in
    let (g, guest, e') =
      fill_user_lem (with_root t s u root) 1 guest_name 0 (with_root-IsTable t s u root)
        (omega arith) (omega arith) (omega arith) in
    (
      started t s u root g guest,
      rw (e, users_init, e'),
      (started-IsValid t s u root g guest).0,
      (started-IsValid t s u root g guest).1,
    )

-- From the boot state every history of user calls runs without a fault and keeps the table valid.
pub run-users_init :
    (t : Users) (cs : List Call) → IsStorage t → Keeps (users_init t >>= λ t'. run t' cs)
run-users_init t cs s = let (t', e, v, _) = users_init_lem t s in rw e (run-Keeps t' cs v)
