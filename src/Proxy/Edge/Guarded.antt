-- ===== src/Proxy/Edge/Guarded.antt =====
-- Who gets through to the workload of a sandbox by its host.
use treadstone.Prelude.{
  ℕ, ◌≡◌, ◌↔◌, refl, Bool, true, false, Option, none, some, List, find_first, arith, ap, inl, inr,
  Option-cases,
}
use treadstone.Sandbox.{Sandbox, ready, same_status}
use treadstone.Proxy.Links.{
  SandboxWebLink, IssuedVia, open_link, via_bootstrap, Payload, Jwt, is_sandbox_web,
  load_active_web_link, verify_bootstrap_ticket, keep_active,
}
use treadstone.Proxy.Edge.{
  EdgeTables, Opening, Reply, proxied, load_sandbox, link_holds, via_holds, validate_sandbox_cookie,
  by_ticket, by_link, by_credentials, is_link, sanitize_next_path, handle_http, handle_websocket,
}

-- A cookie from a link names the link that is active.
abbrev HasLink : ℕ → ℕ → List SandboxWebLink → Payload → Type 0
HasLink now sandbox_id links p =
    (l : SandboxWebLink) × (load_active_web_link now sandbox_id links ≡ some l)
    × (p.link_id ≡ some l.id)

abbrev ByVia : ℕ → ℕ → List SandboxWebLink → Payload → IssuedVia → Type 0
ByVia now sandbox_id links p via_bootstrap = Unit
ByVia now sandbox_id links p open_link = HasLink now sandbox_id links p

-- The sandbox is there and runs, and the cookie is signed, for a session with this sandbox.
pub record IsAdmitted (jwt : Jwt) (now sandbox_id : ℕ) (cookie : Option ℕ) (t : EdgeTables)
    (s : Sandbox) : Type 0 where
  pub token : ℕ
  pub payload : Payload
  pub found : load_sandbox sandbox_id t.sandboxes ≡ some s
  pub runs : same_status s.status ready ≡ true
  carried : cookie ≡ some token
  pub is_signed : jwt.decode now token ≡ some payload
  is_session : is_sandbox_web payload.kind ≡ true
  same_sandbox : payload.sandbox_id ≡ s.id
  pub by_link : ByVia now s.id t.links payload payload.issued_via

link_holds-some :
    (now sandbox_id : ℕ) (link_id : Option ℕ) (links : List SandboxWebLink)
    → link_holds now sandbox_id link_id links ≡ true
    → (l : SandboxWebLink) × (load_active_web_link now sandbox_id links ≡ some l)
      × (link_id ≡ some l.id)
link_holds-some now sandbox_id none links h = cc
link_holds-some now sandbox_id (some n) links h =
    elim (Option-cases (load_active_web_link now sandbox_id links)) [
      | inl gone ↦ absurd (ground (arith, rw gone at h))
      | inr (l, active) ↦ (l, active, ground (arith, rw active at h))
    ]

via_holds-ByVia :
    (now sandbox_id : ℕ) (links : List SandboxWebLink) (p : Payload) (via : IssuedVia)
    → via_holds now sandbox_id via p.link_id links ≡ true
    → ByVia now sandbox_id links p via
via_holds-ByVia now sandbox_id links p via_bootstrap h = tt
via_holds-ByVia now sandbox_id links p open_link h =
    link_holds-some now sandbox_id p.link_id links h

abbrev Verified : Jwt → ℕ → ℕ → Option ℕ → List SandboxWebLink → Type 0
Verified jwt now sandbox_id cookie links =
    (token : ℕ) × (p : Payload) × (cookie ≡ some token)
    × (jwt.decode now token ≡ some p)
    × (is_sandbox_web p.kind ≡ true)
    × (p.sandbox_id ≡ sandbox_id)
    × ByVia now sandbox_id links p p.issued_via

validate-Verified :
    (jwt : Jwt) (now sandbox_id : ℕ) (cookie : Option ℕ) (links : List SandboxWebLink)
    → validate_sandbox_cookie jwt now sandbox_id cookie links ≡ true
    → Verified jwt now sandbox_id cookie links
unfolding validate_sandbox_cookie
validate-Verified jwt now sandbox_id none links h = cc
validate-Verified jwt now sandbox_id (some token) links h =
    elim (Option-cases (jwt.decode now token)) [
      | inl forged ↦ absurd (ground (arith, rw forged at h))
      | inr (p, is_signed) ↦
          let h' = rw is_signed at h in
          (
            token,
            p,
            refl,
            is_signed,
            ground (arith, h'),
            ground (arith, h'),
            via_holds-ByVia now sandbox_id links p p.issued_via (ground (arith, h')),
          )
    ]

module _ (jwt : Jwt) (now sandbox_id : ℕ) (cookie : Option ℕ) (t : EdgeTables) where
  handle_websocket-found :
      {n : ℕ}
      → handle_websocket jwt now sandbox_id cookie t ≡ proxied n
      → (s : Sandbox) × (s.id ≡ n) × IsAdmitted jwt now sandbox_id cookie t s
  unfolding handle_websocket
  handle_websocket-found h = elim (Option-cases (load_sandbox sandbox_id t.sandboxes)) [
    | inl gone ↦ absurd (ground (arith, rw gone at h))
    | inr (s, found) ↦
        let h' = rw found at h in
        let (token, p, carried, is_signed, is_session, same, by_link) =
          validate-Verified jwt now s.id cookie t.links (ground (arith, h')) in
        (
          s,
          ground (arith, h'),
          record {
            token = token;
            payload = p;
            found = found;
            runs = ground (arith, h');
            carried = carried;
            is_signed = is_signed;
            is_session = is_session;
            same_sandbox = same;
            by_link = by_link;
          },
        )
  ]

  -- A request that is not an opening gets through by HTTP, where the workload answers, exactly when
  -- it gets through as a WebSocket.
  handle_http-handle_websocket :
      (is_local : ℕ → Bool) (next_path n : ℕ)
      → ((handle_http jwt is_local now sandbox_id next_path none cookie true t).0 ≡ proxied n)
        ↔ (handle_websocket jwt now sandbox_id cookie t ≡ proxied n)
  unfolding handle_websocket handle_http
  handle_http-handle_websocket is_local next_path n =
      elim (Option-cases (load_sandbox sandbox_id t.sandboxes)) [
        | inl gone ↦ (λ h. ground (arith, rw gone at h), λ h. ground (arith, rw gone at h))
        | inr (s, found) ↦ (
          λ h. rw found (ground (arith, rw found at h)),
          λ h. rw found (ground (arith, rw found at h)),
        )
      ]

abbrev is_proxied : Reply → Bool
is_proxied (proxied n) = true
is_proxied _ = false

-- Opening a sandbox proxies nothing.
ticket-opens :
    (jwt : Jwt) (is_local : ℕ → Bool) (now sandbox_id : ℕ) (t : EdgeTables) (p : Option Payload)
    → is_proxied (by_ticket jwt is_local now sandbox_id t p).0 ≡ false
ticket-opens jwt is_local now sandbox_id t none = refl
ticket-opens jwt is_local now sandbox_id t (some p) = ground arith

link-opens :
    (jwt : Jwt) (now sandbox_id next_path : ℕ) (t : EdgeTables) (l : Option SandboxWebLink)
    → is_proxied (by_link jwt now sandbox_id next_path t l).0 ≡ false
link-opens jwt now sandbox_id next_path t none = refl
link-opens jwt now sandbox_id next_path t (some l) = refl

credentials-open :
    (jwt : Jwt) (is_local : ℕ → Bool) (now sandbox_id next_path : ℕ) (ticket token : Option ℕ)
    (t : EdgeTables)
    → is_proxied (by_credentials jwt is_local now sandbox_id next_path ticket token t).0 ≡ false
credentials-open jwt is_local now sandbox_id next_path (some ticket) token t =
    ticket-opens jwt is_local now sandbox_id t (verify_bootstrap_ticket jwt now ticket)
credentials-open jwt is_local now sandbox_id next_path none (some token) t =
    link-opens jwt now sandbox_id (sanitize_next_path is_local next_path) t
      (keep_active now (find_first (is_link sandbox_id token) t.links))
credentials-open jwt is_local now sandbox_id next_path none none t = refl

module _ (jwt : Jwt) (is_local : ℕ → Bool) (now sandbox_id next_path : ℕ) (t : EdgeTables) where
  opening-opens :
      (o : Opening) (cookie : Option ℕ) (answers : Bool)
      → is_proxied (handle_http jwt is_local now sandbox_id next_path (some o) cookie answers t).0
        ≡ false
  unfolding handle_http
  opening-opens o cookie answers = elim (Option-cases (load_sandbox sandbox_id t.sandboxes)) [
    | inl gone ↦ rw gone refl
    | inr (s, found) ↦
        rw found (credentials-open jwt is_local now s.id next_path o.ticket o.token t)
  ]

  answered :
      (cookie : Option ℕ) (answers : Bool) {n : ℕ}
      → (handle_http jwt is_local now sandbox_id next_path none cookie answers t).0 ≡ proxied n
      → (handle_http jwt is_local now sandbox_id next_path none cookie true t).0 ≡ proxied n
  unfolding handle_http
  answered cookie true h = h
  answered cookie false h = elim (Option-cases (load_sandbox sandbox_id t.sandboxes)) [
    | inl gone ↦ absurd (ground (arith, rw gone at h))
    | inr (s, found) ↦ absurd (ground (arith, rw found at h))
  ]

  -- What gets through to a workload by its host is for a sandbox that is there and runs, and has a
  -- cookie that is signed, for a session with that sandbox; if the cookie came from a web link, it
  -- names the link of the sandbox that is active at the time.
  pub handle_http-IsAdmitted :
      (opening : Option Opening) (cookie : Option ℕ) (answers : Bool) {n : ℕ}
      → (handle_http jwt is_local now sandbox_id next_path opening cookie answers t).0 ≡ proxied n
      → (s : Sandbox) × (s.id ≡ n) × IsAdmitted jwt now sandbox_id cookie t s
  handle_http-IsAdmitted (some o) cookie answers h =
      absurd (ground (arith, ap is_proxied h, opening-opens o cookie answers))
  handle_http-IsAdmitted none cookie answers {n} h =
      handle_websocket-found jwt now sandbox_id cookie t (
        (handle_http-handle_websocket jwt now sandbox_id cookie t is_local next_path n).0
          (answered cookie answers h))
