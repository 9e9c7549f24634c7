-- ===== src/Proxy/Headers/Stripped.antt =====
-- What does not get through to the workload of a sandbox.
use treadstone.Prelude.{◌≡◌, Bool, true, false, Option, none, some, [], ◌∷◌, ◌||◌, select, All}
use treadstone.Prelude.Text.{Text, codes, same_text, lower, starts_with}
use treadstone.Proxy.Headers.{Headers, Jar, passes, get, text_in}

abbrev Passes : Text × Text → Type 0
Passes h = passes h ≡ true

-- The hop-by-hop headers by their names, and every header that starts with `X-Sandbox`.
abbrev pub is_refused : Text → Bool
is_refused name =
    text_in (lower name) (
      codes "connection"
      ∷ codes "host"
      ∷ codes "keep-alive"
      ∷ codes "proxy-authenticate"
      ∷ codes "proxy-authorization"
      ∷ codes "te"
      ∷ codes "trailers"
      ∷ codes "transfer-encoding"
      ∷ codes "upgrade"
      ∷ [])
    || starts_with (codes "x-sandbox") (lower name)

-- A header is absent, or none of the cookies that it is read as has the name of the session's.
abbrev pub IsStripped : (Text → Jar) → Option Text → Type 0
IsStripped load none = Unit
IsStripped load (some v) = All (λ m. same_text m.0 (codes "ts_bui") ≡ false) (load v)

-- `SimpleCookie`: an empty header has no cookies, and of some cookies that were read of a header it
-- writes one that is read as these again.
module _ (load : Text → Jar) (join : Jar → Text) (empty : load [] ≡ [])
    (reads_back : (t : Text) (keep : Text × Text → Bool)
      → load (join (select keep (load t))) ≡ select keep (load t)) where
  abbrev BothStripped : Headers → Type 0
  BothStripped hs =
      IsStripped load (get (codes "cookie") hs) × IsStripped load (get (codes "Cookie") hs)
