-- ===== src/Proxy/Edge.antt =====
-- `SandboxSubdomainMiddleware` of treadstone/proxy/middleware/sandbox_subdomain.py: what becomes of a
-- request to the host of a sandbox. A step reads the tables as they are then. Whether the workload
-- answers is an argument. A row that was not found at all raises nowhere.
pub mod Guarded
pub mod Links
use treadstone.Prelude.{
  ℕ, Bool, true, false, Option, none, some, List, [], ◌∷◌, ◌&&◌, ◌||◌, not, ◌==◌, find_first,
  if◌then◌else◌,
}
use treadstone.Sandbox.{Sandbox, ready, same_status}
use treadstone.Identity.Model.{AuditEvent, web_link_open, web_link_open_failed, update_where}
use treadstone.Proxy.Links.{
  SandboxWebLink, IssuedVia, via_bootstrap, open_link, Payload, Jwt, keep_active, is_link_of,
  load_active_web_link, verify_sandbox_web_cookie, verify_bootstrap_ticket,
  issue_sandbox_web_cookie,
}

pub record EdgeTables : Type 0 where
  pub sandboxes : List Sandbox
  pub links : List SandboxWebLink
  pub audit : List AuditEvent

-- Of a request to `/_treadstone/open` its credentials. Empty ones are none. A path is `is_local` if
-- it starts with one slash.
pub record Opening : Type 0 where
  pub ticket : Option ℕ
  pub token : Option ℕ

pub data Reply : Type 0 where
  page_not_found page_starting invalid missing to_bootstrap closed : Reply
  to_next : ℕ → Reply
  proxied : ℕ → Reply

abbrev is_kept : Option ℕ → Bool
is_kept none = true
is_kept (some at) = false

abbrev pub is_there : ℕ → Sandbox → Bool
is_there sandbox_id s = s.id == sandbox_id && is_kept s.gmt_deleted

unfoldable pub load_sandbox : ℕ → List Sandbox → Option Sandbox
load_sandbox sandbox_id = find_first (is_there sandbox_id)

abbrev active_at : ℕ → Sandbox → Sandbox
active_at now s = record s { gmt_last_active = some now }

unfoldable pub touch_last_active : ℕ → ℕ → EdgeTables → EdgeTables
touch_last_active now sandbox_id t = record t {
  sandboxes = update_where (is_there sandbox_id) (active_at now) t.sandboxes;
}

abbrev has_id : ℕ → Option SandboxWebLink → Bool
has_id link_id none = false
has_id link_id (some link) = link.id == link_id

-- A cookie from a link holds only while that link is the active one.
abbrev pub link_holds : ℕ → ℕ → Option ℕ → List SandboxWebLink → Bool
link_holds now sandbox_id none links = false
link_holds now sandbox_id (some link_id) links =
    not (link_id == 0) && has_id link_id (load_active_web_link now sandbox_id links)

abbrev pub via_holds : ℕ → ℕ → IssuedVia → Option ℕ → List SandboxWebLink → Bool
via_holds now sandbox_id via_bootstrap link_id links = true
via_holds now sandbox_id open_link link_id links = link_holds now sandbox_id link_id links

abbrev payload_holds : ℕ → ℕ → List SandboxWebLink → Option Payload → Bool
payload_holds now sandbox_id links none = false
payload_holds now sandbox_id links (some p) =
    p.sandbox_id == sandbox_id && via_holds now sandbox_id p.issued_via p.link_id links

unfoldable pub validate_sandbox_cookie : Jwt → ℕ → ℕ → Option ℕ → List SandboxWebLink → Bool
unfolding load_active_web_link verify_sandbox_web_cookie
validate_sandbox_cookie jwt now sandbox_id none links = false
validate_sandbox_cookie jwt now sandbox_id (some token) links =
    not (token == 0) && payload_holds now sandbox_id links (verify_sandbox_web_cookie jwt now token)

-- A reply, and the cookie that it sets.
abbrev Answer : Type 0
Answer = Reply × Option ℕ × EdgeTables

-- `_sanitize_next_path`, by what tells local paths; 1 stands for "/".
unfoldable pub sanitize_next_path : (ℕ → Bool) → ℕ → ℕ
sanitize_next_path is_local path = if is_local path then path else 1

abbrev pub by_ticket : Jwt → (ℕ → Bool) → ℕ → ℕ → EdgeTables → Option Payload → Answer
by_ticket jwt is_local now sandbox_id t none = (invalid, none, t)
by_ticket jwt is_local now sandbox_id t (some p) =
    if p.sandbox_id == sandbox_id
    then (
      to_next (sanitize_next_path is_local p.next_path),
      some (issue_sandbox_web_cookie jwt now sandbox_id via_bootstrap none),
      touch_last_active now sandbox_id t,
    )
    else (invalid, none, t)

abbrev pub used_at : ℕ → SandboxWebLink → SandboxWebLink
used_at now l = record l { gmt_last_used = some now; gmt_updated = now }

abbrev pub by_link : Jwt → ℕ → ℕ → ℕ → EdgeTables → Option SandboxWebLink → Answer
by_link jwt now sandbox_id next_path t none =
    (invalid, none, record t { audit = web_link_open_failed sandbox_id ∷ t.audit })
by_link jwt now sandbox_id next_path t (some link) = (
  to_next next_path,
  some (issue_sandbox_web_cookie jwt now sandbox_id open_link (some link.id)),
  record t {
    sandboxes = update_where (is_there sandbox_id) (active_at now) t.sandboxes;
    links = update_where (λ l. l.id == link.id) (used_at now) t.links;
    audit = web_link_open sandbox_id ∷ t.audit;
  },
)

abbrev pub is_link : ℕ → ℕ → SandboxWebLink → Bool
is_link sandbox_id token l = is_link_of sandbox_id l && l.id == token

abbrev pub by_credentials : Jwt → (ℕ → Bool) → ℕ → ℕ → ℕ → Option ℕ → Option ℕ → EdgeTables → Answer
by_credentials jwt is_local now sandbox_id next_path (some ticket) token t =
    by_ticket jwt is_local now sandbox_id t (verify_bootstrap_ticket jwt now ticket)
by_credentials jwt is_local now sandbox_id next_path none (some token) t =
    by_link jwt now sandbox_id (sanitize_next_path is_local next_path) t
      (keep_active now (find_first (is_link sandbox_id token) t.links))
by_credentials jwt is_local now sandbox_id next_path none none t = (missing, none, t)

unfoldable pub exchange_open_credentials :
    Jwt → (ℕ → Bool) → ℕ → ℕ → ℕ → Opening → EdgeTables → Answer
unfolding sanitize_next_path touch_last_active issue_sandbox_web_cookie verify_bootstrap_ticket
exchange_open_credentials jwt is_local now sandbox_id next_path o t =
    by_credentials jwt is_local now sandbox_id next_path o.ticket o.token t

-- With a cookie that holds.
abbrev through : ℕ → Sandbox → Bool → EdgeTables → Answer
through now s answers t =
    if not (same_status s.status ready)
    then (page_starting, none, t)
    else if answers
    then (proxied s.id, none, touch_last_active now s.id t)
    else (page_starting, none, t)

abbrev with_cookie : Jwt → ℕ → Sandbox → Option ℕ → Bool → EdgeTables → Answer
with_cookie jwt now s cookie answers t =
    if validate_sandbox_cookie jwt now s.id cookie t.links
    then through now s answers t
    else (to_bootstrap, none, t)

abbrev for_path :
    Jwt
    → (ℕ → Bool)
    → ℕ
    → ℕ
    → Option Opening
    → Option ℕ
    → Bool
    → EdgeTables
    → Option Sandbox
    → Answer
for_path jwt is_local now next_path opening cookie answers t none = (page_not_found, none, t)
for_path jwt is_local now next_path (some o) cookie answers t (some s) =
    exchange_open_credentials jwt is_local now s.id next_path o t
for_path jwt is_local now next_path none cookie answers t (some s) =
    with_cookie jwt now s cookie answers t

-- The path `/_treadstone/open` comes with an opening.
unfoldable pub handle_http :
    Jwt → (ℕ → Bool) → ℕ → ℕ → ℕ → Option Opening → Option ℕ → Bool → EdgeTables → Answer
unfolding exchange_open_credentials validate_sandbox_cookie touch_last_active load_sandbox
handle_http jwt is_local now sandbox_id next_path opening cookie answers t =
    for_path jwt is_local now next_path opening cookie answers t
      (load_sandbox sandbox_id t.sandboxes)

abbrev ws_for : Jwt → ℕ → Option ℕ → EdgeTables → Option Sandbox → Reply
ws_for jwt now cookie t none = closed
ws_for jwt now cookie t (some s) =
    if not (same_status s.status ready)
    then closed
    else if validate_sandbox_cookie jwt now s.id cookie t.links
    then proxied s.id
    else closed

-- Up to the relay, which touches the row at its start and every 30 seconds.
unfoldable pub handle_websocket : Jwt → ℕ → ℕ → Option ℕ → EdgeTables → Reply
unfolding validate_sandbox_cookie load_sandbox
handle_websocket jwt now sandbox_id cookie t =
    ws_for jwt now cookie t (load_sandbox sandbox_id t.sandboxes)
