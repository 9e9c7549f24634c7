-- ===== src/Proxy/Headers.antt =====
-- The headers of a proxied request: `_filter_request_headers` and `_filter_response_headers` of
-- treadstone/proxy/services/sandbox_proxy.py, and `_strip_internal_auth` of the middleware. Headers
-- are a dict with its order. How `SimpleCookie` reads a header and writes its cookies is an argument.
pub mod Stripped
use treadstone.Prelude.{
  ℕ, ◌≡◌, Bool, true, false, Option, none, some, List, [], ◌∷◌, ◌++◌, ◌&&◌, ◌||◌, not, ◌==◌, select,
  if◌then◌else◌,
}
use treadstone.Prelude.Text.{Text, codes, same_text, lower, starts_with}

abbrev pub Headers : Type 0
Headers = List (Text × Text)

unfoldable proxy_hop_headers : List Text
proxy_hop_headers =
    codes "host"
    ∷ codes "transfer-encoding"
    ∷ codes "connection"
    ∷ codes "keep-alive"
    ∷ codes "upgrade"
    ∷ codes "proxy-authenticate"
    ∷ codes "proxy-authorization"
    ∷ codes "te"
    ∷ codes "trailers"
    ∷ []

abbrev pub text_in : Text → List Text → Bool
text_in t [] = false
text_in t (u ∷ us) = same_text t u || text_in t us

unfoldable pub is_hop : Text → Bool
unfolding proxy_hop_headers
is_hop name = text_in (lower name) proxy_hop_headers

unfoldable pub is_x_sandbox_vendor_header : Text → Bool
is_x_sandbox_vendor_header name = starts_with (codes "x-sandbox") (lower name)

abbrev pub passes : Text × Text → Bool
passes (name, value) = not (is_hop name) && not (is_x_sandbox_vendor_header name)

-- `d[k] = v`
unfoldable pub put : Text → Text → Headers → Headers
put k v [] = (k, v) ∷ []
put k v ((j, w) ∷ hs) = if same_text j k then (j, v) ∷ hs else (j, w) ∷ put k v hs

unfoldable pub filter_request_headers : Headers → Headers
unfolding put is_hop is_x_sandbox_vendor_header
filter_request_headers headers =
    put (codes "accept-encoding") (codes "identity") (select passes headers)

unfoldable filter_response_headers : Headers → Headers
unfolding is_hop
filter_response_headers headers = select (λ h. not (is_hop h.0)) headers

unfoldable pub get : Text → Headers → Option Text
get k [] = none
get k ((j, v) ∷ hs) = if same_text j k then some v else get k hs

unfoldable pub pop : Text → Headers → Headers
pop k hs = select (λ h. not (same_text h.0 k)) hs

abbrev pub is_blank : Text → Bool
is_blank [] = true
is_blank (c ∷ s) = false

-- `a or b`, and no header if that is empty.
abbrev pub or_text : Option Text → Option Text → Option Text
or_text none b = b
or_text (some t) b = if is_blank t then b else some t

abbrev cookie_name : Text
cookie_name = codes "ts_bui"

-- The cookies of a header, by their names.
abbrev pub Jar : Type 0
Jar = List (Text × Text)

abbrev pub without_session : Jar → Jar
without_session jar = select (λ m. not (same_text m.0 cookie_name)) jar

abbrev pub put_remaining : Text → Headers → Headers
put_remaining t hs = if is_blank t then hs else put (codes "cookie") t hs

abbrev pub strip_cookie : (Text → Jar) → (Jar → Text) → Headers → Option Text → Headers
strip_cookie load join hs none = hs
strip_cookie load join hs (some t) =
    if is_blank t
    then hs
    else put_remaining (join (without_session (load t)))
        (pop (codes "Cookie") (pop (codes "cookie") hs))

unfoldable pub strip_internal_auth : (Text → Jar) → (Jar → Text) → Headers → Headers
unfolding filter_request_headers get pop put
strip_internal_auth load join headers =
    let hs = filter_request_headers headers in
    strip_cookie load join hs (or_text (get (codes "cookie") hs) (get (codes "Cookie") hs))
