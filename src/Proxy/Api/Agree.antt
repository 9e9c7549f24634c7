-- ===== src/Proxy/Api/Agree.antt =====
-- A key lets its user reach the same sandboxes by HTTP and by WebSocket.
use treadstone.Prelude.{ℕ, ◌≡◌, ◌≢◌, refl, true, Option, some, arith, inl, inr, Option-cases}
use treadstone.Prelude.Text.{Text, starts_with}
use treadstone.Identity.Model.{User, Accounts}
use treadstone.Identity.Keys.Auth.{
  authenticate_api_key_value, get_current_data_plane_user, key_prefix,
}
use treadstone.Proxy.Api.{http_gate, ws_secret, ws_gate, ws_proxy}

-- A request with an API key as its bearer token is answered alike by both ways, errors included,
-- for a sandbox whose id is not empty, whatever parameter and whatever cookie come with it: it
-- reaches the same sandbox, or is refused for the same reason.
pub ws_proxy-http_gate :
    (hash : Text → ℕ) (now : ℕ) (secret token_param : Text) (cookie_user : Option User)
    (sandbox_id : ℕ) (db : Accounts)
    → starts_with key_prefix secret ≡ true
    → sandbox_id ≢ 0
    → ws_proxy hash now (some secret) token_param sandbox_id db
      ≡ http_gate hash now (some secret) cookie_user sandbox_id db
unfolding ws_proxy http_gate ws_gate ws_secret get_current_data_plane_user
ws_proxy-http_gate hash now secret token_param cookie_user sandbox_id db is_key filled =
    elim (Option-cases (authenticate_api_key_value hash now secret db)) [
      | inl unknown ↦ rw (is_key, unknown) refl
      | inr ((key, user), known) ↦ rw (is_key, known) (ground (arith, filled))
    ]
