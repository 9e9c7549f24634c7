-- ===== src/Identity/Oauth.antt =====
-- The sign-in through an OAuth provider in treadstone/identity/api/auth.py: `_oauth_callback`, and the
-- start of it. What third parties do is an argument: the decoding of the signed state, the answer of
-- the provider, and fastapi-users, which finds, links or creates the user of an account and commits.
-- Which URLs `validate_browser_return_to` admits is an argument as well; 0 is the empty text.
pub mod Safety
use treadstone.Prelude.{
  ℕ, Bool, true, false, Option, none, some, List, [], ◌∷◌, ◌&&◌, ◌||◌, not, ◌==◌, find_first,
  if◌then◌else◌,
}
use treadstone.Identity.Model.{
  User, Accounts, auth_login, auth_register, auth_register_failed, Error, bad_request,
  auth_required, conflict, validation, Result, ok, err, ◌>>=◌, ◌>>◌, raise_if, update_where,
}
use treadstone.Identity.Cli.{validate_cli_flow_pending, fail_cli_flow, approve_cli_flow}
use treadstone.Platform.Limits.{PlatformLimitsSnapshot, check_user_registration_allowed}

pub record OauthState : Type 0 where
  pub provider : ℕ
  pub csrf : Option ℕ
  pub return_to : Option ℕ
  pub cli_flow_id : Option ℕ

-- The request that comes back from the provider.
pub record Callback : Type 0 where
  pub provider : ℕ
  pub code : Option ℕ
  pub state : Option ℕ
  pub error : Option ℕ
  pub csrf_cookie : Option ℕ
  pub return_to_cookie : Option ℕ

-- One of the addresses that GitHub lists, 0 if it is missing or empty.
pub record GithubEmail : Type 0 where
  pub email : ℕ
  pub primary : Bool
  pub verified : Bool

-- The exchange of the code and the calls of the provider's API that follow may raise, which is
-- `none`: `github_profile` is the account and its addresses, `id_email` the account and its email of
-- any other provider.
pub record OauthWorld : Type 0 where
  pub now : ℕ
  pub decode : ℕ → Option OauthState
  pub is_valid_return : ℕ → Bool
  pub github : ℕ
  pub github_profile : Option (ℕ × List GithubEmail)
  pub id_email : Option (ℕ × Option ℕ)
  pub has_account : Bool
  pub sign_in : Accounts → Option (User × Accounts)
  pub snapshot : PlatformLimitsSnapshot

pub data Response : Type 0 where
  to_cli : ℕ → Bool → Response
  to_sign_in : ℕ → Response
  to_bootstrap : ℕ → ℕ → Response
  to_app : ℕ → Response
  raised : Error → Response

-- The user whom the response lets in is signed in, or has approved a flow of the command line.
abbrev pub lets_in : Response → Bool
lets_in (to_cli flow_id done) = done
lets_in (to_sign_in return_to) = false
lets_in (to_bootstrap return_to user) = true
lets_in (to_app user) = true
lets_in (raised e) = false

-- `if value`
abbrev pub filled : Option ℕ → Option ℕ
filled none = none
filled (some n) = if n == 0 then none else some n

abbrev return_of : Option OauthState → Option ℕ
return_of none = none
return_of (some payload) = filled payload.return_to

abbrev pub flow_id_of : Option OauthState → Option ℕ
flow_id_of none = none
flow_id_of (some payload) = filled payload.cli_flow_id

abbrev pub admitted : (ℕ → Bool) → Option ℕ → Result (Option ℕ)
admitted is_valid_return none = ok none
admitted is_valid_return (some url) = if is_valid_return url then ok (some url) else err validation

abbrev or_cookie : (ℕ → Bool) → Option ℕ → Option ℕ → Result (Option ℕ)
or_cookie is_valid_return none cookie = admitted is_valid_return cookie
or_cookie is_valid_return (some url) cookie = admitted is_valid_return (some url)

unfoldable pub resolve_browser_return_to :
    OauthWorld → Callback → Option OauthState → Result (Option ℕ)
resolve_browser_return_to w c payload =
    or_cookie w.is_valid_return (return_of payload) (filled c.return_to_cookie)

-- What every failure does: fail the flow, or go back to the sign-in page, or raise.
unfoldable pub fail_login :
    OauthWorld → Option ℕ → Option ℕ → Error → Accounts → Response × Accounts
unfolding fail_cli_flow
fail_login w (some flow_id) return_to e db =
    (to_cli flow_id false, record db { flows = fail_cli_flow w.now flow_id db.flows })
fail_login w none (some return_to) e db = (to_sign_in return_to, db)
fail_login w none none e db = (raised e, db)

abbrev pub same_text : Option ℕ → Option ℕ → Bool
same_text (some a) (some b) = a == b
same_text _ _ = false

abbrev pub csrf_matches : Callback → OauthState → Bool
csrf_matches c payload = same_text (filled c.csrf_cookie) (filled payload.csrf)

abbrev verified : User → User
verified u = record u { is_verified = true }

-- An account that is linked by its email to a user makes that user verified.
abbrev pub link : Bool → User → Accounts → Accounts
link linked user db =
    if linked && not user.is_verified
    then record db { users = update_where (λ u. u.id == user.id) verified db.users }
    else db

abbrev record_success : Bool → User → Accounts → Accounts
record_success registered user db =
    let events = if registered then auth_register user.id ∷ db.audit else db.audit in
    record db { audit = auth_login user.id ∷ events }

-- The end, with the flow or without. The rollback leaves what fastapi-users has committed.
unfoldable pub finish :
    OauthWorld → ℕ → Option ℕ → Option ℕ → User → Accounts → Accounts → Response × Accounts
unfolding approve_cli_flow
finish w provider (some flow_id) return_to user committed db =
    if (approve_cli_flow w.now flow_id user.id provider db.flows).0
    then (
      to_cli flow_id true,
      record db { flows = (approve_cli_flow w.now flow_id user.id provider db.flows).1 },
    )
    else (to_cli flow_id false, committed)
finish w provider none (some return_to) user committed db = (to_bootstrap return_to user.id, db)
finish w provider none none user committed db = (to_app user.id, db)

abbrev pub is_unset : {A : Type 0} → Option A → Bool
is_unset none = true
is_unset (some a) = false

unfoldable pub signed_in :
    OauthWorld
    → ℕ
    → Option ℕ
    → Option ℕ
    → Bool
    → Bool
    → Option (User × Accounts)
    → Accounts
    → Response × Accounts
unfolding finish
signed_in w provider flow_id return_to registered linked none db = (raised conflict, db)
signed_in w provider flow_id return_to registered linked (some (user, committed)) db =
    finish w provider flow_id return_to user committed
      (record_success registered user (link linked user committed))

abbrev pub allowed :
    OauthWorld
    → ℕ
    → ℕ
    → Option ℕ
    → Option ℕ
    → Bool
    → Bool
    → Accounts
    → Result (Unit {0})
    → Response × Accounts
allowed w provider email flow_id return_to registered linked db (err e) =
    (raised e, record db { audit = auth_register_failed email ∷ db.audit })
allowed w provider email flow_id return_to registered linked db (ok _) =
    signed_in w provider flow_id return_to registered linked (w.sign_in db) db

-- `outcome`: a login by the account, a link to the user of the email, or a registration.
unfoldable pub with_identity :
    OauthWorld → ℕ → ℕ → Option ℕ → Option ℕ → Accounts → Response × Accounts
unfolding signed_in
with_identity w provider email flow_id return_to db =
    let known = not (is_unset (find_first (λ u. u.email == email) db.users)) in
    let registered = not w.has_account && not known in
    let linked = not w.has_account && known in
    allowed w provider email flow_id return_to registered linked db
      (if registered then check_user_registration_allowed w.snapshot else ok tt)

abbrev pub pending_flow : OauthWorld → Option ℕ → Accounts → Result (Unit {0})
pending_flow w none db = ok tt
pending_flow w (some flow_id) db = validate_cli_flow_pending (λ n. n) w.now flow_id none db.flows

abbrev or_zero : Option ℕ → ℕ
or_zero none = 0
or_zero (some n) = n

abbrev pub with_flow :
    OauthWorld → ℕ → ℕ → Option ℕ → Option ℕ → Accounts → Result (Unit {0}) → Response × Accounts
with_flow w provider email flow_id return_to db (err e) = (to_cli (or_zero flow_id) false, db)
with_flow w provider email flow_id return_to db (ok _) =
    with_identity w provider email flow_id return_to db

unfoldable pub identified :
    OauthWorld → ℕ → Option ℕ → Option ℕ → Option (ℕ × Option ℕ) → Accounts → Response × Accounts
unfolding fail_login with_identity
identified w provider flow_id return_to none db = fail_login w flow_id return_to bad_request db
identified w provider flow_id return_to (some (account, none)) db =
    fail_login w flow_id return_to bad_request db
identified w provider flow_id return_to (some (account, some email)) db =
    with_flow w provider email flow_id return_to db (pending_flow w flow_id db)

abbrev pub is_verified_email : GithubEmail → Bool
is_verified_email e = e.verified && not (e.email == 0)

abbrev pub email_or : Option GithubEmail → Option GithubEmail → Option ℕ
email_or (some e) o = some e.email
email_or none (some e) = some e.email
email_or none none = none

-- The primary address if it is verified, or else the first that is.
unfoldable pub verified_email : List GithubEmail → Option ℕ
verified_email emails =
    email_or (find_first (λ e. e.primary && is_verified_email e) emails)
      (find_first is_verified_email emails)

-- `_get_github_verified_identity`
abbrev pub get_github_verified_identity : Option (ℕ × List GithubEmail) → Option (ℕ × Option ℕ)
get_github_verified_identity none = none
get_github_verified_identity (some (account, emails)) = some (account, verified_email emails)

unfoldable pub get_oauth_identity : OauthWorld → ℕ → Option (ℕ × Option ℕ)
get_oauth_identity w provider =
    if provider == w.github then get_github_verified_identity w.github_profile else w.id_email

-- With a code and a state.
unfoldable pub with_state :
    OauthWorld → Callback → OauthState → Option ℕ → Accounts → Response × Accounts
unfolding fail_login identified
with_state w c payload return_to db =
    if not (csrf_matches c payload)
    then fail_login w (flow_id_of (some payload)) return_to bad_request db
    else identified w c.provider (flow_id_of (some payload)) return_to
        (get_oauth_identity w c.provider) db

abbrev with_code :
    OauthWorld → Callback → Option ℕ → Option OauthState → Option ℕ → Accounts → Response × Accounts
with_code w c (some code) (some payload) return_to db = with_state w c payload return_to db
with_code w c _ _ return_to db = (raised bad_request, db)

abbrev pub with_error :
    OauthWorld → Callback → Option OauthState → Option ℕ → Option ℕ → Accounts → Response × Accounts
with_error w c payload return_to (some error) db =
    fail_login w (flow_id_of payload) return_to bad_request db
with_error w c payload return_to none db = with_code w c c.code payload return_to db

abbrev with_return :
    OauthWorld → Callback → Option OauthState → Accounts → Result (Option ℕ) → Response × Accounts
with_return w c payload db (err e) = (raised e, db)
with_return w c payload db (ok return_to) = with_error w c payload return_to c.error db

abbrev expired_state : Accounts → Result (Option ℕ) → Response × Accounts
expired_state db (err e) = (raised e, db)
expired_state db (ok none) = (raised bad_request, db)
expired_state db (ok (some return_to)) = (to_sign_in return_to, db)

-- The state, decoded, and meant for this provider.
unfoldable pub decoded : OauthWorld → Callback → Option OauthState → Accounts → Response × Accounts
unfolding resolve_browser_return_to with_state fail_login
decoded w c none db = expired_state db (resolve_browser_return_to w c none)
decoded w c (some payload) db =
    if not (payload.provider == c.provider)
    then (raised bad_request, db)
    else with_return w c (some payload) db (resolve_browser_return_to w c (some payload))

abbrev pub by_state : OauthWorld → Callback → Option ℕ → Accounts → Response × Accounts
by_state w c none db = with_return w c none db (resolve_browser_return_to w c none)
by_state w c (some state) db = decoded w c (w.decode state) db

unfoldable pub oauth_callback : OauthWorld → Callback → Accounts → Response × Accounts
unfolding decoded with_state
oauth_callback w c db = by_state w c c.state db

abbrev both_set : Option ℕ → Option ℕ → Bool
both_set a b = not (is_unset a) && not (is_unset b)

abbrev authorize_cli : (ℕ → ℕ) → ℕ → Option ℕ → Option ℕ → Accounts → Result (Unit {0})
authorize_cli hash now none secret db = ok tt
authorize_cli hash now (some flow_id) secret db = do
  raise_if (is_unset (filled secret)) auth_required
  validate_cli_flow_pending hash now flow_id secret db.flows

-- `_oauth_authorize`: the state that it signs, with a new random `csrf`, which is also the cookie.
unfoldable oauth_authorize :
    (ℕ → ℕ) → (ℕ → Bool) → ℕ → ℕ → ℕ → Option ℕ → Option ℕ → Option ℕ → Accounts → Result OauthState
oauth_authorize hash is_valid_return now csrf provider return_to cli_flow_id cli_flow_secret db = do
  raise_if (both_set return_to cli_flow_id) bad_request
  raise_if (both_set return_to cli_flow_secret) bad_request
  valid ← admitted is_valid_return return_to
  authorize_cli hash now cli_flow_id cli_flow_secret db
  ok (record {
    provider = provider;
    csrf = some csrf;
    return_to = return_to;
    cli_flow_id = cli_flow_id;
  })
