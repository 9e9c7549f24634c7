-- ===== src/Proxy/Links.antt =====
-- The web links of sandboxes (treadstone/sandbox/api/sandboxes.py), and the tickets and cookies that
-- open a sandbox in a browser (treadstone/identity/services/browser_auth.py). The signing of tokens
-- (jwt) is an argument: what is signed, and what is read of a token, at a time. Ids are numbers.
use treadstone.Prelude.{
  ℕ, ◌+◌, ◌*◌, Bool, true, false, Option, none, some, List, ◌∷◌, ◌&&◌, not, ◌==◌, find_first,
  if◌then◌else◌,
}
use treadstone.Identity.Model.{expired_at, update_where}

pub record SandboxWebLink : Type 0 where
  pub id : ℕ
  pub sandbox_id : ℕ
  pub created_by_user_id : ℕ
  pub gmt_updated : ℕ
  pub gmt_expires : Option ℕ
  pub gmt_last_used : Option ℕ
  pub gmt_deleted : Option ℕ

pub data Kind : Type 0 where
  bootstrap sandbox_web : Kind

pub data IssuedVia : Type 0 where
  via_bootstrap open_link : IssuedVia

-- The payload of a token; a token without a kind that is known is none.
pub record Payload : Type 0 where
  pub kind : Kind
  pub sandbox_id : ℕ
  pub issued_via : IssuedVia
  pub link_id : Option ℕ
  pub next_path : ℕ
  pub exp : ℕ

pub record Jwt : Type 0 where
  pub encode : Payload → ℕ
  pub decode : ℕ → ℕ → Option Payload

abbrev pub is_sandbox_web : Kind → Bool
is_sandbox_web sandbox_web = true
is_sandbox_web bootstrap = false

abbrev keep_if : (Payload → Bool) → Option Payload → Option Payload
keep_if p none = none
keep_if p (some payload) = if p payload then some payload else none

abbrev cookie_ttl : ℕ
cookie_ttl = 30 * 24 * 60 * 60 * 1000000

abbrev ticket_ttl : ℕ
ticket_ttl = 300 * 1000000

abbrev pub cookie_payload : ℕ → ℕ → IssuedVia → Option ℕ → Payload
cookie_payload now sandbox_id issued_via link_id = record {
  kind = sandbox_web;
  sandbox_id = sandbox_id;
  issued_via = issued_via;
  link_id = link_id;
  next_path = 0;
  exp = now + cookie_ttl;
}

unfoldable pub issue_sandbox_web_cookie : Jwt → ℕ → ℕ → IssuedVia → Option ℕ → ℕ
issue_sandbox_web_cookie jwt now sandbox_id issued_via link_id =
    jwt.encode (cookie_payload now sandbox_id issued_via link_id)

unfoldable pub verify_sandbox_web_cookie : Jwt → ℕ → ℕ → Option Payload
verify_sandbox_web_cookie jwt now token =
    keep_if (λ p. is_sandbox_web p.kind) (jwt.decode now token)

abbrev ticket_payload : ℕ → ℕ → ℕ → Payload
ticket_payload now sandbox_id next_path = record {
  kind = bootstrap;
  sandbox_id = sandbox_id;
  issued_via = via_bootstrap;
  link_id = none;
  next_path = next_path;
  exp = now + ticket_ttl;
}

unfoldable issue_bootstrap_ticket : Jwt → ℕ → ℕ → ℕ → ℕ
issue_bootstrap_ticket jwt now sandbox_id next_path =
    jwt.encode (ticket_payload now sandbox_id next_path)

unfoldable pub verify_bootstrap_ticket : Jwt → ℕ → ℕ → Option Payload
verify_bootstrap_ticket jwt now token =
    keep_if (λ p. not (is_sandbox_web p.kind)) (jwt.decode now token)

abbrev is_unset : Option ℕ → Bool
is_unset none = true
is_unset (some n) = false

abbrev pub keep_active : ℕ → Option SandboxWebLink → Option SandboxWebLink
keep_active now none = none
keep_active now (some link) = if expired_at now link.gmt_expires then none else some link

abbrev pub is_link_of : ℕ → SandboxWebLink → Bool
is_link_of sandbox_id l = l.sandbox_id == sandbox_id && is_unset l.gmt_deleted

-- Both the API and the middleware have it.
unfoldable pub load_active_web_link : ℕ → ℕ → List SandboxWebLink → Option SandboxWebLink
load_active_web_link now sandbox_id links =
    keep_active now (find_first (is_link_of sandbox_id) links)

abbrev pub renewed : ℕ → ℕ → ℕ → SandboxWebLink → SandboxWebLink
renewed now link_id user link = record link {
  id = link_id;
  created_by_user_id = user;
  gmt_expires = none;
  gmt_last_used = none;
  gmt_updated = now;
  gmt_deleted = none;
}

abbrev upsert : ℕ → ℕ → ℕ → ℕ → List SandboxWebLink → Option SandboxWebLink → List SandboxWebLink
upsert now link_id sandbox_id user links none =
    record {
      id = link_id;
      sandbox_id = sandbox_id;
      created_by_user_id = user;
      gmt_updated = now;
      gmt_expires = none;
      gmt_last_used = none;
      gmt_deleted = none;
    }
    ∷ links
upsert now link_id sandbox_id user links (some link) =
    update_where (λ l. l.sandbox_id == sandbox_id) (renewed now link_id user) links

-- A sandbox has one row at most, which is used again, also after its deletion. The id is random.
unfoldable pub upsert_web_link : ℕ → ℕ → ℕ → ℕ → List SandboxWebLink → List SandboxWebLink
upsert_web_link now link_id sandbox_id user links =
    upsert now link_id sandbox_id user links (find_first (λ l. l.sandbox_id == sandbox_id) links)

-- `create_sandbox_web_link`: a link that is active stays.
abbrev or_upsert : ℕ → ℕ → ℕ → ℕ → List SandboxWebLink → Option SandboxWebLink → List SandboxWebLink
or_upsert now link_id sandbox_id user links (some link) = links
or_upsert now link_id sandbox_id user links none = upsert_web_link now link_id sandbox_id user links

unfoldable create_sandbox_web_link : ℕ → ℕ → ℕ → ℕ → List SandboxWebLink → List SandboxWebLink
unfolding load_active_web_link upsert_web_link
create_sandbox_web_link now link_id sandbox_id user links =
    or_upsert now link_id sandbox_id user links (load_active_web_link now sandbox_id links)

abbrev pub with_deletion : ℕ → SandboxWebLink → SandboxWebLink
with_deletion now link = record link { gmt_deleted = some now; gmt_updated = now }

abbrev delete_if : ℕ → ℕ → List SandboxWebLink → Option SandboxWebLink → List SandboxWebLink
delete_if now sandbox_id links none = links
delete_if now sandbox_id links (some link) =
    update_where (is_link_of sandbox_id) (with_deletion now) links

unfoldable pub delete_sandbox_web_link : ℕ → ℕ → List SandboxWebLink → List SandboxWebLink
unfolding load_active_web_link
delete_sandbox_web_link now sandbox_id links =
    delete_if now sandbox_id links (load_active_web_link now sandbox_id links)
