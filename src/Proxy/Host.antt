-- ===== src/Proxy/Host.antt =====
-- The sandbox that a host names: `extract_sandbox_id` of
-- treadstone/proxy/middleware/sandbox_subdomain.py, its twin in identity/services/browser_login.py,
-- and the host that `_build_canonical_web_url` of sandbox/api/sandboxes.py writes. Hosts are ASCII.
pub mod RoundTrip
use treadstone.Prelude.{
  ℕ, Bool, true, false, Option, none, some, [], ◌∷◌, ◌++◌, ◌||◌, ◌==◌, if◌then◌else◌,
}
use treadstone.Prelude.Text.{Text, lower, before, has_code, strip_prefix, strip_suffix}

abbrev pub is_blank : Text → Bool
is_blank [] = true
is_blank (c ∷ s) = false

abbrev pub filled : Option Text → Option Text
filled none = none
filled (some t) = if is_blank t then none else some t

abbrev id_of : Text → Option Text → Option Text
id_of prefix none = none
id_of prefix (some subdomain) =
    if is_blank subdomain || has_code b'.' subdomain
    then none
    else filled (strip_prefix prefix subdomain)

unfoldable pub extract_sandbox_id : Text → Text → Text → Option Text
extract_sandbox_id host sandbox_domain prefix =
    id_of prefix (strip_suffix (b'.' ∷ lower sandbox_domain) (lower (before b':' host)))

-- The settings `sandbox_domain` and `sandbox_subdomain_prefix`; no domain turns routing off.
unfoldable extract_sandbox_id_from_return_host : Text → Text → Text → Option Text
unfolding extract_sandbox_id
extract_sandbox_id_from_return_host sandbox_domain prefix host =
    if is_blank sandbox_domain then none else extract_sandbox_id host sandbox_domain prefix

-- `parsed.port`, as digits, unless it is the scheme's own.
abbrev pub port_suffix : Option Text → Text
port_suffix none = []
port_suffix (some digits) = b':' ∷ digits

unfoldable pub web_host : Text → Text → Text → Option Text → Text
web_host prefix sandbox_domain id port = prefix ++ id ++ (b'.' ∷ sandbox_domain) ++ port_suffix port
