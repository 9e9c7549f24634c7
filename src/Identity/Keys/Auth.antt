-- ===== src/Identity/Keys/Auth.antt =====
-- treadstone/identity/api/deps.py: which user a request acts for, and what its credential allows.
-- The user of the session cookie, if it has one, is an argument: fastapi-users finds it.
pub mod Revoked
use treadstone.Prelude.{
  ℕ, Bool, true, false, Option, none, some, List, [], ◌∷◌, ◌&&◌, ◌||◌, not, ◌==◌, find_first,
  if◌then◌else◌,
}
use treadstone.Prelude.Text.{Text, starts_with}
use treadstone.Identity.Model.{
  User, ApiKey, ApiKeyDataPlaneMode, ApiKeySandboxGrant, Accounts, Error, auth_required,
  auth_invalid, forbidden, is_admin, expired_at, Result, ok, err, ◌>>=◌, ◌>>◌, raise_if, or_raise,
}
use treadstone.Identity.Keys.{is_selected}

abbrev is_unset : {A : Type 0} → Option A → Bool
is_unset none = true
is_unset (some a) = false

-- The query for a secret: its hash, and not deleted.
abbrev pub has_hash : ℕ → ApiKey → Bool
has_hash key_hash k = k.key_hash == key_hash && is_unset k.gmt_deleted

abbrev usable_by : ℕ → ApiKey → Option User → Option (ApiKey × User)
usable_by now key none = none
usable_by now key (some user) =
    if not user.is_active || not (user.id == key.user_id) then none else some (key, user)

abbrev usable : ℕ → List User → Option ApiKey → Option (ApiKey × User)
usable now users none = none
usable now users (some key) =
    if expired_at now key.gmt_expires || not key.is_enabled
    then none
    else usable_by now key (find_first (λ u. u.id == key.user_id) users)

-- `_authenticate_api_key_value`
unfoldable pub authenticate_api_key_value :
    (Text → ℕ) → ℕ → Text → Accounts → Option (ApiKey × User)
authenticate_api_key_value hash_api_key_secret now secret db =
    usable now db.users (find_first (has_hash (hash_api_key_secret secret)) db.api_keys)

-- "sk-"
abbrev pub key_prefix : Text
key_prefix = b's' ∷ b'k' ∷ b'-' ∷ []

pub data CredentialType : Type 0 where
  cookie api_key : CredentialType

abbrev cookie_auth : Option User → Result (User × CredentialType)
cookie_auth none = err auth_required
cookie_auth (some user) = ok (user, cookie)

unfoldable get_current_control_plane_user :
    (Text → ℕ) → ℕ → Option Text → Option User → Accounts → Result (User × CredentialType)
unfolding authenticate_api_key_value
get_current_control_plane_user hash_api_key_secret now none cookie_user db = cookie_auth cookie_user
get_current_control_plane_user hash_api_key_secret now (some secret) cookie_user db = do
  raise_if (not (starts_with key_prefix secret)) auth_invalid
  found ← or_raise (authenticate_api_key_value hash_api_key_secret now secret db) auth_invalid
  raise_if (not found.0.control_plane_enabled) forbidden
  ok (found.1, api_key)

abbrev pub is_closed : ApiKeyDataPlaneMode → Bool
is_closed ApiKeyDataPlaneMode.none = true
is_closed _ = false

unfoldable pub has_grant : ℕ → ℕ → List ApiKeySandboxGrant → Bool
has_grant key sandbox [] = false
has_grant key sandbox (g ∷ gs) =
    (g.api_key_id == key && g.sandbox_id == sandbox) || has_grant key sandbox gs

abbrev no_credentials : Option User → Error
no_credentials none = auth_required
no_credentials (some user) = auth_invalid

-- With the sandbox of the path; 0 is the empty text.
unfoldable pub get_current_data_plane_user :
    (Text → ℕ) → ℕ → Option Text → Option User → ℕ → Accounts → Result User
get_current_data_plane_user hash_api_key_secret now none cookie_user sandbox db =
    err (no_credentials cookie_user)
get_current_data_plane_user hash_api_key_secret now (some secret) cookie_user sandbox db = do
  raise_if (not (starts_with key_prefix secret)) auth_invalid
  found ← or_raise (authenticate_api_key_value hash_api_key_secret now secret db) auth_invalid
  raise_if (is_closed found.0.data_plane_mode) forbidden
  raise_if
      (not (sandbox == 0)
        && is_selected found.0.data_plane_mode
        && not (has_grant found.0.id sandbox db.grants))
      forbidden
  ok found.1

unfoldable get_current_admin :
    (Text → ℕ) → ℕ → Option Text → Option User → Accounts → Result (User × CredentialType)
unfolding get_current_control_plane_user
get_current_admin hash_api_key_secret now credentials cookie_user db = do
  found ← get_current_control_plane_user hash_api_key_secret now credentials cookie_user db
  raise_if (not (is_admin found.0.role)) forbidden
  ok found

abbrev is_cookie : CredentialType → Bool
is_cookie cookie = true
is_cookie api_key = false

unfoldable get_current_admin_session :
    (Text → ℕ) → ℕ → Option Text → Option User → Accounts → Result User
unfolding get_current_admin
get_current_admin_session hash_api_key_secret now credentials cookie_user db = do
  found ← get_current_admin hash_api_key_secret now credentials cookie_user db
  raise_if (not (is_cookie found.1)) auth_invalid
  ok found.0
