-- ===== src/Proxy/Api.antt =====
-- treadstone/proxy/api/sandbox_proxy.py: the way to the workload of a sandbox by the API, with an API
-- key. The header of a WebSocket is given with what follows `bearer ` in it, if it starts so.
pub mod Agree
use treadstone.Prelude.{
  ℕ, Bool, true, false, Option, none, some, [], ◌∷◌, ◌&&◌, ◌||◌, not, ◌==◌, find_first,
  if◌then◌else◌,
}
use treadstone.Prelude.Text.{Text, starts_with}
use treadstone.Sandbox.{Sandbox, ready, same_status}
use treadstone.Identity.Model.{
  User, Accounts, auth_required, auth_invalid, forbidden, sandbox_not_found, sandbox_not_ready,
  sandbox_unreachable, Result, ok, err, ◌>>=◌, ◌>>◌, raise_if, or_raise, update_where,
}
use treadstone.Identity.Keys.{is_selected}
use treadstone.Identity.Keys.Auth.{
  authenticate_api_key_value, get_current_data_plane_user, key_prefix, is_closed, has_grant,
}

abbrev is_kept : Option ℕ → Bool
is_kept none = true
is_kept (some at) = false

-- The query by both endpoints: the user's own sandbox, and not deleted.
abbrev is_own : ℕ → ℕ → Sandbox → Bool
is_own sandbox_id user s = s.id == sandbox_id && s.owner_id == user && is_kept s.gmt_deleted

unfoldable pub own_ready_sandbox : ℕ → ℕ → Accounts → Result Sandbox
own_ready_sandbox sandbox_id user db = do
  s ← or_raise (find_first (is_own sandbox_id user) db.sandboxes) sandbox_not_found
  raise_if (not (same_status s.status ready)) sandbox_not_ready
  ok s

abbrev active_at : ℕ → Sandbox → Sandbox
active_at now s = record s { gmt_last_active = some now }

abbrev after_proxy : ℕ → Bool → Accounts → Result Sandbox → Result ℕ × Accounts
after_proxy now answers db (err e) = (err e, db)
after_proxy now false db (ok s) = (err sandbox_unreachable, db)
after_proxy now true db (ok s) = (
  ok s.id,
  record db { sandboxes = update_where (λ r. r.id == s.id) (active_at now) db.sandboxes },
)

unfoldable pub http_gate :
    (Text → ℕ) → ℕ → Option Text → Option User → ℕ → Accounts → Result Sandbox
http_gate hash now credentials cookie_user sandbox_id db = do
  user ← get_current_data_plane_user hash now credentials cookie_user sandbox_id db
  own_ready_sandbox sandbox_id user.id db

-- `_http_proxy_impl`, with whether the workload answers.
unfoldable http_proxy :
    (Text → ℕ) → ℕ → Option Text → Option User → ℕ → Bool → Accounts → Result ℕ × Accounts
unfolding http_gate
http_proxy hash now credentials cookie_user sandbox_id answers db =
    after_proxy now answers db (http_gate hash now credentials cookie_user sandbox_id db)

abbrev key_of : Option Text → Option Text
key_of none = none
key_of (some t) = if starts_with key_prefix t then some t else none

abbrev or_param : Option Text → Text → Option Text
or_param none token_param = key_of (some token_param)
or_param (some t) token_param = some t

-- The key of the header, or else of the parameter `token`.
unfoldable pub ws_secret : Option Text → Text → Option Text
ws_secret bearer token_param = or_param (key_of bearer) token_param

unfoldable pub ws_gate : (Text → ℕ) → ℕ → Option Text → ℕ → Accounts → Result Sandbox
ws_gate hash now none sandbox_id db = err auth_required
ws_gate hash now (some secret) sandbox_id db = do
  found ← or_raise (authenticate_api_key_value hash now secret db) auth_invalid
  raise_if (is_closed found.0.data_plane_mode) forbidden
  raise_if (is_selected found.0.data_plane_mode && not (has_grant found.0.id sandbox_id db.grants))
      forbidden
  own_ready_sandbox sandbox_id found.1.id db

-- `ws_proxy` up to the relay.
unfoldable pub ws_proxy : (Text → ℕ) → ℕ → Option Text → Text → ℕ → Accounts → Result Sandbox
unfolding ws_secret ws_gate
ws_proxy hash now bearer token_param sandbox_id db =
    ws_gate hash now (ws_secret bearer token_param) sandbox_id db
