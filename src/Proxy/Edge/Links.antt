-- ===== src/Proxy/Edge/Links.antt =====
-- A web link lets a browser in until it is taken back.
use treadstone.Prelude.{
  ℕ, ◌≤◌, ◌≡◌, ◌≢◌, refl, Bool, true, false, none, some, List, [], ◌∷◌, ◌==◌, find_first, arith,
  inl, inr, Bool-cases, Option-cases,
}
use treadstone.Identity.Model.{expired_at, update_where}
use treadstone.Proxy.Links.{
  SandboxWebLink, open_link, Payload, Jwt, is_link_of, cookie_payload, load_active_web_link,
  renewed, upsert_web_link, with_deletion, delete_sandbox_web_link,
}
use treadstone.Proxy.Edge.{
  EdgeTables, is_link, used_at, validate_sandbox_cookie, exchange_open_credentials,
}

first-renewed :
    (now link_id user sandbox_id : ℕ) (ls : List SandboxWebLink) {l : SandboxWebLink}
    → find_first (λ l. l.sandbox_id == sandbox_id) ls ≡ some l
    → find_first
        (is_link_of sandbox_id)
        (update_where (λ l. l.sandbox_id == sandbox_id) (renewed now link_id user) ls)
      ≡ some (renewed now link_id user l)
first-renewed now link_id user sandbox_id [] h = cc
first-renewed now link_id user sandbox_id (x ∷ xs) {l} h =
    ground (arith, h, first-renewed now link_id user sandbox_id xs {l = l})

first-deleted :
    (now sandbox_id : ℕ) (ls : List SandboxWebLink)
    → find_first
        (is_link_of sandbox_id)
        (update_where (is_link_of sandbox_id) (with_deletion now) ls)
      ≡ none
first-deleted now sandbox_id [] = refl
first-deleted now sandbox_id (x ∷ xs) = ground (arith, first-deleted now sandbox_id xs)

-- The link that is active after a renewal is the new one.
load-upsert :
    (now now' link_id sandbox_id user : ℕ) (ls : List SandboxWebLink)
    → (l : SandboxWebLink) × (load_active_web_link now' sandbox_id
          (upsert_web_link now link_id sandbox_id user ls)
        ≡ some l)
      × (l.id ≡ link_id)
unfolding load_active_web_link upsert_web_link
load-upsert now now' link_id sandbox_id user ls =
    elim (Option-cases (find_first (λ l. l.sandbox_id == sandbox_id) ls)) [
      | inl fresh ↦
          let same : (sandbox_id == sandbox_id) ≡ true = ground arith in
          rw (fresh, same) (_, refl, refl)
      | inr (l, found) ↦
          rw (found, first-renewed now link_id user sandbox_id ls found)
            (renewed now link_id user l, refl, refl)
    ]

load-delete :
    (now now' sandbox_id : ℕ) (ls : List SandboxWebLink)
    → now ≤ now'
    → load_active_web_link now' sandbox_id (delete_sandbox_web_link now sandbox_id ls) ≡ none
unfolding load_active_web_link delete_sandbox_web_link
load-delete now now' sandbox_id ls later =
    elim (Option-cases (find_first (is_link_of sandbox_id) ls)) [
      | inl gone ↦ rw (gone, gone) refl
      | inr (l, found) ↦ elim (Bool-cases (expired_at now l.gmt_expires)) [
        | inl over ↦ rw (found, over, found) (ground (arith, over, later))
        | inr active ↦ rw (found, active, first-deleted now sandbox_id ls) refl
      ]
    ]

-- A cookie from a web link does not hold any more once the link was replaced by one with another
-- id, or was deleted, however long the cookie itself is valid.
pub validate-revoked :
    (jwt : Jwt) (now now' sandbox_id token link_id link_id' user : ℕ) (ls : List SandboxWebLink)
    {p : Payload}
    → jwt.decode now' token ≡ some p
    → p.issued_via ≡ open_link
    → p.link_id ≡ some link_id
    → link_id ≢ link_id'
    → now ≤ now'
    → (validate_sandbox_cookie jwt now' sandbox_id
          (some token)
          (upsert_web_link now link_id' sandbox_id user ls)
        ≡ false)
      × (validate_sandbox_cookie jwt now' sandbox_id
            (some token)
            (delete_sandbox_web_link now sandbox_id ls)
          ≡ false)
unfolding validate_sandbox_cookie
validate-revoked jwt now now' sandbox_id token link_id link_id' user ls is_signed via named other
      later =
    let (l, active, new_id) = load-upsert now now' link_id' sandbox_id user ls in
    (
      rw is_signed (ground (arith, via, named, active, new_id, other)),
      rw is_signed (ground (arith, via, named, load-delete now now' sandbox_id ls later)),
    )

first-used :
    (now token sandbox_id : ℕ) (ls : List SandboxWebLink) {l : SandboxWebLink}
    → find_first (is_link_of sandbox_id) ls ≡ some l
    → l.id ≡ token
    → (find_first (is_link sandbox_id token) ls ≡ some l)
      × (find_first (is_link_of sandbox_id) (update_where (λ l. l.id == token) (used_at now) ls)
          ≡ some (used_at now l))
first-used now token sandbox_id [] h e = cc
first-used now token sandbox_id (x ∷ xs) {l} h e =
    let rest = first-used now token sandbox_id xs {l = l} in
    (ground (arith, h, e, rest), ground (arith, h, e, rest))

load-found :
    (now sandbox_id : ℕ) (ls : List SandboxWebLink) {l : SandboxWebLink}
    → load_active_web_link now sandbox_id ls ≡ some l
    → (find_first (is_link_of sandbox_id) ls ≡ some l) × (expired_at now l.gmt_expires ≡ false)
unfolding load_active_web_link
load-found now sandbox_id ls {l} h = elim (Option-cases (find_first (is_link_of sandbox_id) ls)) [
  | inl gone ↦ absurd (ground (arith, rw gone at h))
  | inr (l', found) ↦ (ground (arith, found, rw found at h), ground (arith, rw found at h))
]

-- Opening the active web link of a sandbox sets a cookie that holds for that sandbox, as long as the
-- token is read back as it was signed, and the link has not expired.
pub validate-exchange :
    (jwt : Jwt) (is_local : ℕ → Bool) (now now' sandbox_id next_path : ℕ) (t : EdgeTables)
    (l : SandboxWebLink) (token : ℕ)
    → load_active_web_link now sandbox_id t.links ≡ some l
    → l.id ≢ 0
    → token ≢ 0
    → jwt.encode (cookie_payload now sandbox_id open_link (some l.id)) ≡ token
    → jwt.decode now' token ≡ some (cookie_payload now sandbox_id open_link (some l.id))
    → expired_at now' l.gmt_expires ≡ false
    → let opened =
        exchange_open_credentials jwt is_local now sandbox_id next_path
          (record { ticket = none; token = some l.id })
          t in
      (opened.1 ≡ some token)
      × (validate_sandbox_cookie jwt now' sandbox_id opened.1 opened.2.links ≡ true)
unfolding exchange_open_credentials validate_sandbox_cookie load_active_web_link
validate-exchange jwt is_local now now' sandbox_id next_path t l token active filled signed_filled
      signed read fresh =
    let (found, usable) = load-found now sandbox_id t.links active in
    let (by_id, after) = first-used now l.id sandbox_id t.links found refl in
    (
      rw (by_id, usable, signed) refl,
      rw (by_id, usable, signed, read, after, fresh) (ground (arith, filled, signed_filled)),
    )
