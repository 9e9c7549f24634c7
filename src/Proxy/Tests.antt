-- ===== src/Proxy/Tests.antt =====
-- Hosts, headers, cookies and keys at concrete inputs.
use treadstone.Prelude.{
  ℕ, ◌≡◌, refl, Bool, true, false, none, some, [], ◌∷◌, ◌==◌, arith, if◌then◌else◌,
}
use treadstone.Prelude.Text.{Text, codes, same_text, lower, before, strip_prefix, strip_suffix}
use treadstone.Sandbox.{Sandbox, ready}
use treadstone.Sync.Tests.{row}
use treadstone.Proxy.Host.{extract_sandbox_id, web_host}
use treadstone.Proxy.Host.RoundTrip.{IsLabel, extract_sandbox_id-web_host}
use treadstone.Proxy.Headers.{Headers, Jar, is_hop, is_x_sandbox_vendor_header, strip_internal_auth}
use treadstone.Proxy.Links.{
  SandboxWebLink, open_link, Jwt, cookie_payload, upsert_web_link, delete_sandbox_web_link,
}
use treadstone.Proxy.Edge.{EdgeTables, to_bootstrap, handle_http, validate_sandbox_cookie}
use treadstone.Proxy.Edge.Guarded.{IsAdmitted, handle_http-IsAdmitted}
use treadstone.Proxy.Edge.Links.{validate-revoked}
use treadstone.Identity.Tests.{hash_text, db}
use treadstone.Proxy.Api.{ws_proxy, http_gate}
use treadstone.Proxy.Api.Agree.{ws_proxy-http_gate}

abbrev prefix : Text
prefix = codes "sandbox-"

abbrev domain : Text
domain = codes "Example.dev"

named : extract_sandbox_id (codes "Sandbox-AB1.example.dev:8000") domain prefix ≡ some (codes "ab1")
unfolding extract_sandbox_id lower same_text before strip_prefix strip_suffix
named = refl

two_labels : extract_sandbox_id (codes "x.sandbox-ab1.example.dev") domain prefix ≡ none
unfolding extract_sandbox_id lower same_text before strip_prefix strip_suffix
two_labels = refl

label : IsLabel (codes "ab1")
unfolding lower
label = record { is_lower = refl; no_point = refl; no_colon = refl }

prefix-IsLabel : IsLabel prefix
unfolding lower
prefix-IsLabel = record { is_lower = refl; no_point = refl; no_colon = refl }

extract_sandbox_id-web_host_example :
    extract_sandbox_id (web_host prefix domain (codes "ab1") (some (codes "8000"))) domain prefix
    ≡ some (codes "ab1")
extract_sandbox_id-web_host_example =
    extract_sandbox_id-web_host prefix domain (codes "ab1") (some (codes "8000")) prefix-IsLabel
      label (λ e. cc) refl

-- A header of cookies is the name of one, here.
abbrev load : Text → Jar
load [] = []
load (c ∷ t) = (c ∷ t, codes "1") ∷ []

abbrev join : Jar → Text
join [] = []
join ((k, v) ∷ jar) = k

abbrev headers : Headers
headers =
    (codes "Host", codes "a")
    ∷ (codes "x-sandbox-port", codes "1")
    ∷ (codes "cookie", codes "ts_bui")
    ∷ (codes "accept", codes "x")
    ∷ []

headers_sent :
    strip_internal_auth load join headers
    ≡ (codes "accept", codes "x") ∷ (codes "accept-encoding", codes "identity") ∷ []
unfolding strip_internal_auth is_hop is_x_sandbox_vendor_header same_text lower strip_prefix
headers_sent = refl

abbrev link : SandboxWebLink
link = record {
  id = 4;
  sandbox_id = 5;
  created_by_user_id = 1;
  gmt_updated = 0;
  gmt_expires = none;
  gmt_last_used = none;
  gmt_deleted = none;
}

-- The token 8 is a cookie from the link.
abbrev jwt : Jwt
jwt = record {
  encode = λ p. 8;
  decode = λ now t. if t == 8 then some (cookie_payload 0 5 open_link (some 4)) else none;
}

abbrev tables : EdgeTables
tables = record {
  sandboxes = record (row ready 1) { id = 5; gmt_deleted = none } ∷ [];
  links = link ∷ [];
  audit = [];
}

abbrev slashed : ℕ → Bool
slashed n = true

handle_http-IsAdmitted_example : (s : Sandbox) × (s.id ≡ 5) × IsAdmitted jwt 10 5 (some 8) tables s
unfolding handle_http
handle_http-IsAdmitted_example =
    handle_http-IsAdmitted jwt slashed 10 5 1 tables none (some 8) true {n = 5} refl

no_cookie : (handle_http jwt slashed 10 5 1 none (some 7) true tables).0 ≡ to_bootstrap
unfolding handle_http
no_cookie = refl

validate-revoked_example :
    (validate_sandbox_cookie jwt 11 5 (some 8) (upsert_web_link 10 6 5 1 (link ∷ [])) ≡ false)
    × (validate_sandbox_cookie jwt 11 5 (some 8) (delete_sandbox_web_link 10 5 (link ∷ [])) ≡ false)
validate-revoked_example =
    validate-revoked jwt 10 11 5 8 4 6 1 (link ∷ []) {p = cookie_payload 0 5 open_link (some 4)}
      refl refl refl (λ e. absurd (omega (arith, e))) (omega arith)

ws_proxy-http_gate_example :
    ws_proxy hash_text 10 (some (codes "sk-1")) (codes "sk-2") 5 db
    ≡ http_gate hash_text 10 (some (codes "sk-1")) none 5 db
unfolding strip_prefix
ws_proxy-http_gate_example =
    ws_proxy-http_gate hash_text 10 (codes "sk-1") (codes "sk-2") none 5 db refl
      (λ e. absurd (omega (arith, e)))
