-- ===== src/Identity/Cli.antt =====
-- treadstone/identity/api/cli_auth.py with services/cli_login_flow.py, and the two helpers of
-- api/auth.py on flows: the sign-in of the command line through a browser. The hash of secrets and
-- the check of passwords are arguments; a session token is the user that it names.
pub mod Exchange
pub mod Race
pub mod Rows
pub mod Safety
use treadstone.Prelude.{
  ℕ, ◌+◌, ◌*◌, Bool, true, false, Option, none, some, List, [], ◌∷◌, ◌&&◌, not, ◌==◌, ltb,
  find_first, count, if◌then◌else◌,
}
use treadstone.Identity.Model.{
  User, CliLoginFlow, FlowStatus, pending, approved, used, failed, expired, Accounts, not_found,
  auth_required, forbidden, bad_request, flow_expired, flow_used, flow_not_approved, auth_login,
  auth_login_failed, Result, ok, err, ◌>>=◌, ◌>>◌, raise_if, or_raise, update_where,
}

abbrev pub is_pending : FlowStatus → Bool
is_pending pending = true
is_pending _ = false

abbrev pub is_approved : FlowStatus → Bool
is_approved approved = true
is_approved _ = false

abbrev with_approval : ℕ → ℕ → ℕ → CliLoginFlow → CliLoginFlow
with_approval now user provider flow = record flow {
  status = approved;
  user_id = some user;
  provider = some provider;
  gmt_completed = some now;
}

abbrev pub with_use : CliLoginFlow → CliLoginFlow
with_use flow = record flow { status = used }

-- `approve_cli_flow` of the service: the flow, if it is pending. True if that was one row.
unfoldable pub approve_cli_flow : ℕ → ℕ → ℕ → ℕ → List CliLoginFlow → Bool × List CliLoginFlow
approve_cli_flow now flow_id user provider flows = (
  count (λ f. f.id == flow_id && is_pending f.status) flows == 1,
  update_where (λ f. f.id == flow_id && is_pending f.status) (with_approval now user provider)
      flows,
)

unfoldable pub consume_cli_flow : ℕ → List CliLoginFlow → Bool × List CliLoginFlow
consume_cli_flow flow_id flows = (
  count (λ f. f.id == flow_id && is_approved f.status) flows == 1,
  update_where (λ f. f.id == flow_id && is_approved f.status) with_use flows,
)

abbrev pub flow_of : ℕ → List CliLoginFlow → Option CliLoginFlow
flow_of flow_id = find_first (λ f. f.id == flow_id)

abbrev pub user_of : Option ℕ → List User → Option User
user_of none users = none
user_of (some id) users = find_first (λ u. u.id == id) users

abbrev get_flow_or_404 : ℕ → List CliLoginFlow → Result CliLoginFlow
get_flow_or_404 flow_id flows = or_raise (flow_of flow_id flows) not_found

-- A missing secret and an empty one are the same.
abbrev pub verify_flow_secret : (ℕ → ℕ) → CliLoginFlow → Option ℕ → Result (Unit {0})
verify_flow_secret hash_flow_secret flow none = err auth_required
verify_flow_secret hash_flow_secret flow (some raw_secret) = do
  raise_if (raw_secret == 0) auth_required
  raise_if (not (hash_flow_secret raw_secret == flow.flow_secret_hash)) auth_required

unfoldable effective_status : ℕ → CliLoginFlow → FlowStatus
effective_status now flow =
    if is_pending flow.status && ltb flow.gmt_expires now then expired else flow.status

unfoldable validate_cli_flow_secret :
    (ℕ → ℕ) → ℕ → Option ℕ → List CliLoginFlow → Result CliLoginFlow
validate_cli_flow_secret hash_flow_secret flow_id raw_secret flows = do
  flow ← get_flow_or_404 flow_id flows
  verify_flow_secret hash_flow_secret flow raw_secret
  ok flow

abbrev cli_flow_ttl : ℕ
cli_flow_ttl = 600 * 1000000

unfoldable pub new_flow : (ℕ → ℕ) → ℕ → ℕ → ℕ → CliLoginFlow
new_flow hash_flow_secret now flow_id raw_secret = record {
  id = flow_id;
  flow_secret_hash = hash_flow_secret raw_secret;
  status = pending;
  user_id = none;
  provider = none;
  gmt_created = now;
  gmt_expires = now + cli_flow_ttl;
  gmt_completed = none;
}

-- The answer is the id and the secret. Both are random, so they are arguments.
unfoldable pub create_cli_flow : (ℕ → ℕ) → ℕ → ℕ → ℕ → Accounts → (ℕ × ℕ) × Accounts
unfolding new_flow
create_cli_flow hash_flow_secret now flow_id raw_secret db = (
  (flow_id, raw_secret),
  record db { flows = new_flow hash_flow_secret now flow_id raw_secret ∷ db.flows },
)

unfoldable pub poll_cli_flow : (ℕ → ℕ) → ℕ → ℕ → Option ℕ → Accounts → Result FlowStatus
unfolding validate_cli_flow_secret effective_status
poll_cli_flow hash_flow_secret now flow_id raw_secret db = do
  flow ← validate_cli_flow_secret hash_flow_secret flow_id raw_secret db.flows
  ok (effective_status now flow)

abbrev exchangeable : FlowStatus → Result (Unit {0})
exchangeable expired = err flow_expired
exchangeable used = err flow_used
exchangeable approved = ok tt
exchangeable status = err (flow_not_approved status)

-- `exchange_cli_flow` up to the update: what it reads, and the user that the token is for.
unfoldable pub exchange_read :
    (ℕ → ℕ) → ℕ → ℕ → Option ℕ → List User → List CliLoginFlow → Result User
unfolding validate_cli_flow_secret effective_status
exchange_read hash_flow_secret now flow_id raw_secret users flows = do
  flow ← validate_cli_flow_secret hash_flow_secret flow_id raw_secret flows
  exchangeable (effective_status now flow)
  or_raise (user_of flow.user_id users) bad_request

-- The rest of it: a token only for the one whose update found the flow approved.
unfoldable exchange_write : ℕ → List CliLoginFlow → Result User → Result ℕ × List CliLoginFlow
unfolding consume_cli_flow
exchange_write flow_id flows (err e) = (err e, flows)
exchange_write flow_id flows (ok user) =
    if (consume_cli_flow flow_id flows).0
    then (ok user.id, (consume_cli_flow flow_id flows).1)
    else (err flow_used, flows)

unfoldable pub exchange_cli_flow : (ℕ → ℕ) → ℕ → ℕ → Option ℕ → Accounts → Result ℕ × Accounts
unfolding exchange_read exchange_write
exchange_cli_flow hash_flow_secret now flow_id raw_secret db =
    let read = exchange_read hash_flow_secret now flow_id raw_secret db.users db.flows in
    let done = exchange_write flow_id db.flows read in (done.0, record db { flows = done.1 })

abbrev email_password : ℕ → (ℕ → ℕ → Bool) → ℕ → User → Result User
email_password email verify password user = do
  raise_if (not user.is_active) forbidden
  raise_if (not user.has_local_password) bad_request
  raise_if (not (verify password user.hashed_password)) bad_request
  ok user

unfoldable authenticate_email_password : (ℕ → ℕ → Bool) → ℕ → ℕ → List User → Result User
authenticate_email_password verify email password users = do
  user ← or_raise (find_first (λ u. u.email == email) users) bad_request
  email_password email verify password user

-- What both ways to approve a flow read of it: it is there, the secret is right, it is pending.
unfoldable pub approve_read : (ℕ → ℕ) → ℕ → ℕ → Option ℕ → List CliLoginFlow → Result (Unit {0})
unfolding validate_cli_flow_secret effective_status
approve_read hash_flow_secret now flow_id raw_secret flows = do
  flow ← validate_cli_flow_secret hash_flow_secret flow_id raw_secret flows
  raise_if (not (is_pending (effective_status now flow))) bad_request

-- The rest of both, with the audit event of the login.
unfoldable approve_write : ℕ → ℕ → ℕ → ℕ → Accounts → Result (Unit {0}) × Accounts
unfolding approve_cli_flow
approve_write now flow_id user provider db =
    if (approve_cli_flow now flow_id user provider db.flows).0
    then (
      ok tt,
      record db {
        flows = (approve_cli_flow now flow_id user provider db.flows).1;
        audit = auth_login user ∷ db.audit;
      },
    )
    else (err bad_request, db)

abbrev provider_email : ℕ
provider_email = 1

abbrev pub provider_session : ℕ
provider_session = 2

-- A wrong password leaves an audit event; a disabled account does not, since only
-- `BadRequestError` is caught here.
abbrev after_password : ℕ → ℕ → ℕ → Accounts → Result User → Result (Unit {0}) × Accounts
after_password now flow_id email db (ok user) = approve_write now flow_id user.id provider_email db
after_password now flow_id email db (err bad_request) =
    (err bad_request, record db { audit = auth_login_failed email ∷ db.audit })
after_password now flow_id email db (err e) = (err e, db)

abbrev submit :
    (ℕ → ℕ → Bool) → ℕ → ℕ → ℕ → ℕ → Accounts → Result (Unit {0}) → Result (Unit {0}) × Accounts
submit verify now email password flow_id db (err e) = (err e, db)
submit verify now email password flow_id db (ok _) =
    after_password now flow_id email db (authenticate_email_password verify email password db.users)

unfoldable pub cli_login_submit :
    (ℕ → ℕ) → (ℕ → ℕ → Bool) → ℕ → ℕ → ℕ → ℕ → ℕ → Accounts → Result (Unit {0}) × Accounts
unfolding approve_read approve_write authenticate_email_password
cli_login_submit hash_flow_secret verify now email password flow_id flow_secret db =
    submit verify now email password flow_id db
      (approve_read hash_flow_secret now flow_id (some flow_secret) db.flows)

abbrev approve_as : ℕ → ℕ → User → Accounts → Result (Unit {0}) → Result (Unit {0}) × Accounts
approve_as now flow_id user db (err e) = (err e, db)
approve_as now flow_id user db (ok _) = approve_write now flow_id user.id provider_session db

-- The endpoint `/approve`: by the user who is signed in, if any.
unfoldable pub approve_by_session :
    (ℕ → ℕ) → ℕ → Option User → ℕ → Option ℕ → Accounts → Result (Unit {0}) × Accounts
unfolding approve_read approve_write
approve_by_session hash_flow_secret now none flow_id raw_secret db = (err auth_required, db)
approve_by_session hash_flow_secret now (some user) flow_id raw_secret db =
    approve_as now flow_id user db (approve_read hash_flow_secret now flow_id raw_secret db.flows)

abbrev wrong_secret : (ℕ → ℕ) → CliLoginFlow → Option ℕ → Bool
wrong_secret hash_flow_secret flow none = false
wrong_secret hash_flow_secret flow (some raw_secret) =
    not (hash_flow_secret raw_secret == flow.flow_secret_hash)

-- The check of the OAuth login, without a secret where it returns from the provider.
unfoldable pub validate_cli_flow_pending :
    (ℕ → ℕ) → ℕ → ℕ → Option ℕ → List CliLoginFlow → Result (Unit {0})
validate_cli_flow_pending hash_flow_secret now flow_id raw_secret flows = do
  flow ← or_raise (flow_of flow_id flows) bad_request
  raise_if (wrong_secret hash_flow_secret flow raw_secret) auth_required
  raise_if (not (is_pending flow.status)) bad_request
  raise_if (ltb flow.gmt_expires now) flow_expired

-- `_fail_cli_flow` reads, and then writes the row whatever it has become.
abbrev pub can_fail : Option CliLoginFlow → Bool
can_fail none = false
can_fail (some flow) = is_pending flow.status

abbrev with_failure : ℕ → CliLoginFlow → CliLoginFlow
with_failure now flow = record flow { status = failed; gmt_completed = some now }

unfoldable pub fail_write : ℕ → ℕ → List CliLoginFlow → List CliLoginFlow
fail_write now flow_id = update_where (λ f. f.id == flow_id) (with_failure now)

unfoldable pub fail_cli_flow : ℕ → ℕ → List CliLoginFlow → List CliLoginFlow
unfolding fail_write
fail_cli_flow now flow_id flows =
    if can_fail (flow_of flow_id flows) then fail_write now flow_id flows else flows
