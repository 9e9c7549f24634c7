-- ===== src/Identity/Tests/Access.antt =====
-- API keys, admins and OAuth at concrete inputs.
use treadstone.Prelude.{
  ◌≡◌, ◌≢◌, refl, true, false, none, some, [], ◌∷◌, ◌==◌, count, arith, if◌then◌else◌,
}
use treadstone.Prelude.Text.{Text, codes, strip_prefix}
use treadstone.Identity.Model.{
  User, ApiKey, ApiKeyDataPlaneMode, selected, Accounts, ok, err, validation, bad_request,
}
use treadstone.Identity.Keys.{
  ApiKeyScope, CreateApiKeyRequest, UpdateApiKeyRequest, create_api_key, update_api_key,
  delete_api_key, checked_scope, resolve_api_key_scope, validate_mode_and_sandbox_ids,
}
use treadstone.Identity.Keys.Grants.{IsScoped}
use treadstone.Identity.Keys.Invariant.{keys-IsScoped}
use treadstone.Identity.Keys.Auth.{authenticate_api_key_value, get_current_data_plane_user, cookie}
use treadstone.Identity.Keys.Auth.Revoked.{authenticate-delete}
use treadstone.Identity.Users.{
  is_active_admin, status_read, status_write, update_user_status, delete_user,
}
use treadstone.Identity.Users.Admins.{rules, admin-stays, status_write-race}
use treadstone.Identity.Oauth.{Callback, OauthWorld, lets_in, oauth_callback}
use treadstone.Identity.Oauth.Safety.{IsProven, oauth_callback-IsProven}
use treadstone.Identity.Tests.{hash_text, ada, db}
use treadstone.Platform.Limits.{PlatformLimitsSnapshot, build_snapshot}

abbrev secret : Text
secret = codes "sk-1"

abbrev one_sandbox : ApiKeyScope
one_sandbox = record { control_plane = false; mode = selected; sandbox_ids = 5 ∷ 5 ∷ [] }

abbrev body : CreateApiKeyRequest
body = record { name = 1; expires_in = none; scope = some one_sandbox }

abbrev keyed : Accounts
keyed = (create_api_key hash_text 100 7 secret 1 body db).1

abbrev rename : UpdateApiKeyRequest
rename = record {
  name = some 2;
  is_enabled = none;
  expires_in = none;
  clear_expiration = false;
  scope = none;
}

key_created : (create_api_key hash_text 100 7 secret 1 body db).0 ≢ err validation
unfolding create_api_key checked_scope validate_mode_and_sandbox_ids resolve_api_key_scope
key_created = λ h. cc

key_of_bob : (create_api_key hash_text 100 7 secret 2 body db).0 ≡ err validation
unfolding create_api_key checked_scope validate_mode_and_sandbox_ids resolve_api_key_scope
key_of_bob = refl

key_opens : get_current_data_plane_user hash_text 200 (some secret) none 5 keyed ≡ ok ada
unfolding create_api_key checked_scope validate_mode_and_sandbox_ids resolve_api_key_scope
    get_current_data_plane_user authenticate_api_key_value treadstone.Identity.Keys.Auth.has_grant
    strip_prefix
key_opens = refl

key_opens_no_other :
    get_current_data_plane_user hash_text 200 (some secret) none 6 keyed
    ≡ err treadstone.Identity.Model.forbidden
unfolding create_api_key checked_scope validate_mode_and_sandbox_ids resolve_api_key_scope
    get_current_data_plane_user authenticate_api_key_value treadstone.Identity.Keys.Auth.has_grant
    strip_prefix
key_opens_no_other = refl

no_keys : IsScoped db
no_keys = record { owned = tt; moded = tt }

keys-IsScoped_example :
    IsScoped keyed
    × IsScoped (update_api_key 100 7 rename 1 db).1
    × IsScoped (delete_api_key 100 7 1 db).1
keys-IsScoped_example = keys-IsScoped hash_text 100 7 secret 1 body rename db no_keys refl 7

-- Of two keys of Ada the first is deleted; the other is still found by its secret.
abbrev other_key : ApiKey
other_key = record {
  id = 8;
  key_hash = hash_text (codes "sk-2");
  name = 1;
  user_id = 1;
  is_enabled = true;
  control_plane_enabled = true;
  data_plane_mode = ApiKeyDataPlaneMode.all;
  gmt_created = 1;
  gmt_updated = 1;
  gmt_expires = none;
  gmt_deleted = none;
}

abbrev first_key : ApiKey
first_key = record other_key { id = 7; key_hash = hash_text secret }

abbrev two_keys : Accounts
two_keys = record db { api_keys = first_key ∷ other_key ∷ [] }

authenticate-delete_example : other_key.id ≢ 7
unfolding delete_api_key authenticate_api_key_value
authenticate-delete_example =
    authenticate-delete hash_text 100 200 7 1 (codes "sk-2") two_keys {key = other_key}
      {owner = ada} refl refl

deleted_key :
    authenticate_api_key_value hash_text 200 secret (delete_api_key 100 7 1 two_keys).1 ≡ none
unfolding delete_api_key authenticate_api_key_value
deleted_key = refl

admin-stays_example :
    (rules 1 (update_user_status 1 2 false db).1.users ≡ true)
    × (rules 1 (delete_user 1 2 db).1.users ≡ true)
admin-stays_example = admin-stays 1 2 false db refl

disables_bob : (update_user_status 1 2 false db).0 ≡ ok tt
unfolding update_user_status
disables_bob = refl

not_oneself : (update_user_status 1 1 false db).0 ≡ err bad_request
unfolding update_user_status
not_oneself = refl

status_write-race_example :
    ((target : User) × (status_read 1 2 false db.users ≡ ok target))
    × ((target : User) × (status_read 2 1 false db.users ≡ ok target))
    × (count is_active_admin (status_write 1 false (status_write 2 false db.users)) ≡ 0)
status_write-race_example =
    status_write-race 1 2 db.users (λ e. absurd (omega (arith, e))) refl refl refl

abbrev no_caps : PlatformLimitsSnapshot
no_caps = build_snapshot 0 (record { limits = none; users = []; sandboxes = []; waitlist = 0 })

abbrev world : OauthWorld
world = record {
  now = 100;
  decode = λ t.
      if t == 4
      then some (record { provider = 3; csrf = some 6; return_to = none; cli_flow_id = none })
      else none;
  is_valid_return = λ url. true;
  github = 3;
  github_profile = some (20, record { email = 11; primary = true; verified = true } ∷ []);
  id_email = none;
  has_account = true;
  sign_in = λ t. some (ada, t);
  snapshot = no_caps;
}

abbrev back : Callback
back = record {
  provider = 3;
  code = some 5;
  state = some 4;
  error = none;
  csrf_cookie = some 6;
  return_to_cookie = none;
}

oauth_callback-IsProven_example : IsProven world back db
unfolding oauth_callback treadstone.Identity.Oauth.resolve_browser_return_to
    treadstone.Identity.Oauth.identified treadstone.Identity.Oauth.with_identity
    treadstone.Identity.Oauth.signed_in treadstone.Identity.Oauth.finish
    treadstone.Identity.Oauth.get_oauth_identity treadstone.Identity.Oauth.verified_email
oauth_callback-IsProven_example = oauth_callback-IsProven world back db refl

other_browser : lets_in (oauth_callback world (record back { csrf_cookie = some 7 }) db).0 ≡ false
unfolding oauth_callback treadstone.Identity.Oauth.resolve_browser_return_to
    treadstone.Identity.Oauth.fail_login
other_browser = refl
