-- ===== src/Identity/Users.antt =====
-- The endpoints of treadstone/identity/api/auth.py on accounts: registration, passwords, and what an
-- admin may do to other users. The hash and the check of passwords are arguments, as is the id of a
-- new user. Deleting a user deletes the rows that refer to it with `ondelete="cascade"`.
pub mod Admins
use treadstone.Prelude.{
  ℕ, ◌-◌, Bool, true, false, Option, none, some, List, [], ◌∷◌, ◌&&◌, ◌||◌, not, ◌==◌, leb,
  find_first, select, count, if◌then◌else◌,
}
use treadstone.Sandbox.{Sandbox}
use treadstone.Identity.Model.{
  Role, admin, rw, is_admin, User, ApiKey, Accounts, not_found, bad_request, conflict,
  auth_register, auth_register_failed, user_status_change, user_delete, Result, ok, err, ◌>>=◌,
  ◌>>◌, raise_if, or_raise, update_where,
}
use treadstone.Platform.Limits.{PlatformLimitsSnapshot, check_user_registration_allowed}

abbrev pub is_no_user : Option User → Bool
is_no_user none = true
is_no_user (some user) = false

abbrev pub is_nobody : List User → Bool
is_nobody [] = true
is_nobody (u ∷ us) = false

-- The first user is an admin, and verified.
unfoldable new_user : ℕ → ℕ → ℕ → Bool → User
new_user id email hashed is_first = record {
  id = id;
  email = email;
  hashed_password = hashed;
  has_local_password = true;
  is_active = true;
  is_verified = is_first;
  role = if is_first then admin else Role.rw;
}

abbrev register_allowed : ℕ → ℕ → ℕ → Accounts → Result (Unit {0}) → Result User × Accounts
register_allowed id email hashed db (err e) =
    (err e, record db { audit = auth_register_failed email ∷ db.audit })
register_allowed id email hashed db (ok _) =
    let user = new_user id email hashed (is_nobody db.users) in
    (ok user, record db { users = user ∷ db.users; audit = auth_register id ∷ db.audit })

-- Sending the verification mail changes no user.
unfoldable pub register :
    (ℕ → ℕ) → ℕ → ℕ → ℕ → PlatformLimitsSnapshot → Accounts → Result User × Accounts
unfolding new_user
register hash id email password snapshot db =
    if not (is_no_user (find_first (λ u. u.email == email) db.users))
    then (err conflict, db)
    else register_allowed id email (hash password) db (check_user_registration_allowed snapshot)

abbrev with_password : ℕ → User → User
with_password hashed u = record u { hashed_password = hashed; has_local_password = true }

abbrev with_new_hash : ℕ → User → User
with_new_hash hashed u = record u { hashed_password = hashed }

abbrev save_password :
    (User → User) → ℕ → Accounts → Result (Unit {0}) → Result (Unit {0}) × Accounts
save_password f id db (err e) = (err e, db)
save_password f id db (ok _) =
    (ok tt, record db { users = update_where (λ u. u.id == id) f db.users })

abbrev user_there : ℕ → Accounts → Result User
user_there id db = or_raise (find_first (λ u. u.id == id) db.users) not_found

unfoldable change_password :
    (ℕ → ℕ) → (ℕ → ℕ → Bool) → ℕ → ℕ → User → Accounts → Result (Unit {0}) × Accounts
change_password hash verify old_password new_password current db =
    save_password (with_new_hash (hash new_password)) current.id db (do
      raise_if (not current.has_local_password) bad_request
      raise_if (not (verify old_password current.hashed_password)) bad_request
      user ← user_there current.id db
      ok tt)

unfoldable set_password : (ℕ → ℕ) → ℕ → User → Accounts → Result (Unit {0}) × Accounts
set_password hash new_password current db =
    save_password (with_password (hash new_password)) current.id db
      (do raise_if current.has_local_password bad_request; user ← user_there current.id db; ok tt)

abbrev pub is_active_admin : User → Bool
is_active_admin u = is_admin u.role && u.is_active

-- `update_user_status` up to its write.
unfoldable pub status_read : ℕ → ℕ → Bool → List User → Result User
status_read current_id user_id is_active users = do
  raise_if (user_id == current_id) bad_request
  target ← or_raise (find_first (λ u. u.id == user_id) users) not_found
  raise_if (not is_active && is_admin target.role && leb (count is_active_admin users) 1)
      bad_request
  ok target

abbrev with_status : Bool → User → User
with_status is_active u = record u { is_active = is_active }

unfoldable pub status_write : ℕ → Bool → List User → List User
status_write user_id is_active = update_where (λ u. u.id == user_id) (with_status is_active)

abbrev status_after : ℕ → Bool → Accounts → Result User → Result (Unit {0}) × Accounts
status_after user_id is_active db (err e) = (err e, db)
status_after user_id is_active db (ok target) = (
  ok tt,
  record db {
    users = status_write user_id is_active db.users;
    audit = user_status_change user_id is_active ∷ db.audit;
  },
)

unfoldable pub update_user_status : ℕ → ℕ → Bool → Accounts → Result (Unit {0}) × Accounts
unfolding status_read status_write
update_user_status current_id user_id is_active db =
    status_after user_id is_active db (status_read current_id user_id is_active db.users)

unfoldable pub delete_read : ℕ → ℕ → List User → Result User
delete_read current_id user_id users = do
  raise_if (user_id == current_id) bad_request
  target ← or_raise (find_first (λ u. u.id == user_id) users) not_found
  raise_if (is_admin target.role && leb (count (λ u. is_admin u.role) users) 1) bad_request
  ok target

abbrev refers_to : ℕ → Option ℕ → Bool
refers_to user none = false
refers_to user (some id) = id == user

-- The keys and the sandboxes that a grant may refer to.
abbrev has_key : ℕ → List ApiKey → Bool
has_key id [] = false
has_key id (k ∷ ks) = k.id == id || has_key id ks

abbrev has_sandbox : ℕ → List Sandbox → Bool
has_sandbox id [] = false
has_sandbox id (s ∷ ss) = s.id == id || has_sandbox id ss

unfoldable delete_user_rows : ℕ → Accounts → Accounts
delete_user_rows user_id db =
    let keys = select (λ k. not (k.user_id == user_id)) db.api_keys in
    let sandboxes = select (λ s. not (s.owner_id == user_id)) db.sandboxes in
    record db {
      users = select (λ u. not (u.id == user_id)) db.users;
      api_keys = keys;
      grants =
          select (λ g. has_key g.api_key_id keys && has_sandbox g.sandbox_id sandboxes) db.grants;
      flows = select (λ f. not (refers_to user_id f.user_id)) db.flows;
      sandboxes = sandboxes;
      audit = user_delete user_id ∷ db.audit;
    }

abbrev delete_after : ℕ → Accounts → Result User → Result (Unit {0}) × Accounts
delete_after user_id db (err e) = (err e, db)
delete_after user_id db (ok target) = (ok tt, delete_user_rows user_id db)

unfoldable pub delete_user : ℕ → ℕ → Accounts → Result (Unit {0}) × Accounts
unfolding delete_read delete_user_rows
delete_user current_id user_id db =
    delete_after user_id db (delete_read current_id user_id db.users)
