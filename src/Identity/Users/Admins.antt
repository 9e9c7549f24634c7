-- ===== src/Identity/Users/Admins.antt =====
-- Who stays an admin: one call at a time, and two that overlap.
use treadstone.Prelude.{
  ℕ, ◌+◌, ◌≤◌, ◌≡◌, ◌≢◌, refl, Bool, true, false, some, List, [], ◌∷◌, ◌&&◌, ◌||◌, not, ◌==◌, count,
  find_first, select, arith, inl, inr, Bool-cases, sym,
}
use treadstone.Identity.Model.{User, Accounts, ok, Result-cases}
use treadstone.Platform.Limits.{PlatformLimitsSnapshot, check_user_registration_allowed}
use treadstone.Identity.Users.{
  is_active_admin, is_no_user, is_nobody, register, status_read, status_write, update_user_status,
  delete_read, delete_user,
}

-- A user's row says that the user is an admin and active.
abbrev pub rules : ℕ → List User → Bool
rules id [] = false
rules id (u ∷ us) = (u.id == id && is_active_admin u) || rules id us

rules-status_write :
    (id other : ℕ) (is_active : Bool) (us : List User)
    → other ≢ id
    → rules id (status_write other is_active us) ≡ rules id us
unfolding status_write
rules-status_write id other is_active [] n = refl
rules-status_write id other is_active (u ∷ us) n =
    ground (arith, n, rules-status_write id other is_active us n)

rules-select :
    (id other : ℕ) (us : List User)
    → other ≢ id
    → rules id (select (λ u. not (u.id == other)) us) ≡ rules id us
rules-select id other [] n = refl
rules-select id other (u ∷ us) n = ground (arith, n, rules-select id other us n)

status_read-other :
    (current other : ℕ) (is_active : Bool) (us : List User) {target : User}
    → status_read current other is_active us ≡ ok target
    → other ≢ current
unfolding status_read
status_read-other current other is_active us h = elim (Bool-cases (other == current)) [
  | inl same ↦ absurd (ground (arith, rw same at h))
  | inr differs ↦ ground (arith, differs)
]

delete_read-other :
    (current other : ℕ) (us : List User) {target : User}
    → delete_read current other us ≡ ok target
    → other ≢ current
unfolding delete_read
delete_read-other current other us h = elim (Bool-cases (other == current)) [
  | inl same ↦ absurd (ground (arith, rw same at h))
  | inr differs ↦ ground (arith, differs)
]

update-rules :
    (current other : ℕ) (is_active : Bool) (db : Accounts)
    → rules current (update_user_status current other is_active db).1.users ≡ rules current db.users
unfolding update_user_status
update-rules current other is_active db =
    elim (Result-cases (status_read current other is_active db.users)) [
      | inl (e, refused) ↦ rw refused refl
      | inr (target, found) ↦ rw found (
          rules-status_write current other is_active db.users
            (status_read-other current other is_active db.users found))
    ]

delete-rules :
    (current other : ℕ) (db : Accounts)
    → rules current (delete_user current other db).1.users ≡ rules current db.users
unfolding delete_user
delete-rules current other db = elim (Result-cases (delete_read current other db.users)) [
  | inl (e, refused) ↦ rw refused refl
  | inr (target, found) ↦
      rw found
        (rules-select current other db.users (delete_read-other current other db.users found))
]

-- An admin who disables, enables or deletes users, one request after the other, stays an active
-- admin: so there is always one.
pub admin-stays :
    (current other : ℕ) (is_active : Bool) (db : Accounts)
    → rules current db.users ≡ true
    → (rules current (update_user_status current other is_active db).1.users ≡ true)
      × (rules current (delete_user current other db).1.users ≡ true)
admin-stays current other is_active db h =
    (rw (update-rules current other is_active db) h, rw (delete-rules current other db) h)

abbrev active_admins : List User → ℕ
active_admins = count is_active_admin

abbrev ruling : ℕ → List User → ℕ
ruling id = count (λ u. u.id == id && is_active_admin u)

active_admins-disable :
    (id : ℕ) (us : List User)
    → active_admins (status_write id false us) + ruling id us ≡ active_admins us
unfolding status_write
active_admins-disable id [] = omega arith
active_admins-disable id (u ∷ us) = ground (arith, active_admins-disable id us)

ruling-disable :
    (id other : ℕ) (us : List User)
    → other ≢ id
    → ruling id (status_write other false us) ≡ ruling id us
unfolding status_write
ruling-disable id other [] n = refl
ruling-disable id other (u ∷ us) n = ground (arith, n, ruling-disable id other us n)

find_first-there :
    (id : ℕ) (us : List User)
    → 1 ≤ ruling id us
    → (u : User) × (find_first (λ u. u.id == id) us ≡ some u)
find_first-there id [] h = absurd (omega arith)
find_first-there id (u ∷ us) h = elim (Bool-cases (u.id == id)) [
  | inl here ↦ rw here (u, refl)
  | inr later ↦ rw later (find_first-there id us (ground (arith, later, h)))
]

status_read-accepts :
    (current other : ℕ) (us : List User)
    → other ≢ current
    → active_admins us ≡ 2
    → 1 ≤ ruling other us
    → (target : User) × (status_read current other false us ≡ ok target)
unfolding status_read
status_read-accepts current other us n two there =
    let (u, found) = find_first-there other us there in (u, ground (arith, n, two, found))

-- Two admins who are the only active ones, and disable each other by requests that overlap: both
-- requests read that there are two and go on to write, and afterwards there is no active admin.
pub status_write-race :
    (a b : ℕ) (us : List User)
    → a ≢ b
    → active_admins us ≡ 2
    → ruling a us ≡ 1
    → ruling b us ≡ 1
    → ((target : User) × (status_read a b false us ≡ ok target))
      × ((target : User) × (status_read b a false us ≡ ok target))
      × (active_admins (status_write a false (status_write b false us)) ≡ 0)
status_write-race a b us n two one_a one_b = (
  status_read-accepts a b us (λ e. n (sym e)) two (omega arith),
  status_read-accepts b a us n two (omega arith),
  omega (
    arith,
    active_admins-disable b us,
    active_admins-disable a (status_write b false us),
    ruling-disable a b us (λ e. n (sym e)),
  ),
)

-- A registration that succeeds adds one user: an active admin if there was no user at all, and
-- otherwise no admin.
register-admins :
    (hash : ℕ → ℕ) (id email password : ℕ) (snapshot : PlatformLimitsSnapshot) (db : Accounts)
    {user : User}
    → (register hash id email password snapshot db).0 ≡ ok user
    → ((register hash id email password snapshot db).1.users ≡ user ∷ db.users)
      × (is_active_admin user ≡ is_nobody db.users)
unfolding register
register-admins hash id email password snapshot db {user} h =
    elim (Bool-cases (not (is_no_user (find_first (λ u. u.email == email) db.users)))) [
      | inl taken ↦ absurd (ground (arith, rw taken at h))
      | inr free ↦ elim (Result-cases (check_user_registration_allowed snapshot)) [
        | inl (e, refused) ↦ absurd (ground (arith, rw refused at (rw free at h)))
        | inr (u, allowed) ↦
            let h' = rw allowed at (rw free at h) in
            (ground (arith, free, allowed, h'), ground (arith, h'))
      ]
    ]
