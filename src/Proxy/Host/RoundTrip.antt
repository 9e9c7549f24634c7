-- ===== src/Proxy/Host/RoundTrip.antt =====
-- The host that is written for a sandbox is read as that sandbox, and no other host is.
use mathlib.Core.List.{append-nil}
use treadstone.Prelude.{
  ℕ, ◌+◌, ◌≡◌, ◌≢◌, refl, sym, ap, ◌∙◌, false, Option, none, some, [], ◌∷◌, ◌++◌, ◌||◌, length,
  arith, Bool-cases, Option-cases, some_inj, inl, inr,
}
use treadstone.Prelude.Text.{
  Text, same_text, same_text-eq, same_text_refl, lower, before, has_code, strip_prefix,
  strip_prefix-append, strip_prefix-some, strip_suffix,
}
use treadstone.Proxy.Host.{is_blank, filled, extract_sandbox_id, port_suffix, web_host}

length-append : (s t : Text) → length (s ++ t) ≡ length s + length t
length-append [] t = omega arith
length-append (c ∷ s) t = omega (arith, length-append s t)

-- A text is not its own proper end.
same_text-longer : (c : ℕ) (s t : Text) → same_text t (c ∷ (s ++ t)) ≡ false
same_text-longer c s t = elim (Bool-cases (same_text t (c ∷ (s ++ t)))) [
  | inl h ↦
      let e = ap (λ (u : Text). length u) (same_text-eq t (c ∷ (s ++ t)) h) in
      absurd (omega (arith, e, length-append s t))
  | inr h ↦ h
]

strip_suffix-append : (s t : Text) → strip_suffix t (s ++ t) ≡ some s
unfolding strip_suffix
strip_suffix-append [] [] = rw (same_text_refl []) refl
strip_suffix-append [] (c ∷ t) = rw (same_text_refl (c ∷ t)) refl
strip_suffix-append (c ∷ s) t = rw (same_text-longer c s t, strip_suffix-append s t) refl

strip_suffix-some : (s t : Text) {u : Text} → strip_suffix t s ≡ some u → s ≡ u ++ t
unfolding strip_suffix
strip_suffix-some [] t {u} h = elim (Bool-cases (same_text t [])) [
  | inl e ↦
      let none_left : [] ≡ u = some_inj (rw e at h) in rw (← none_left) (sym (same_text-eq t [] e))
  | inr e ↦ absurd (ground (arith, rw e at h))
]
strip_suffix-some (c ∷ s) t {u} h = elim (Bool-cases (same_text t (c ∷ s))) [
  | inl e ↦
      let none_left : [] ≡ u = some_inj (rw e at h) in
      rw (← none_left) (sym (same_text-eq t (c ∷ s) e))
  | inr e ↦ elim (Option-cases (strip_suffix t s)) [
    | inl no_end ↦ absurd (ground (arith, rw no_end at (rw e at h)))
    | inr (u', found) ↦
        let longer : c ∷ u' ≡ u = some_inj (rw found at (rw e at h)) in
        rw (← longer) (ap (◌∷◌ c) (strip_suffix-some s t found))
  ]
]

lower-append : (s t : Text) → lower (s ++ t) ≡ lower s ++ lower t
unfolding lower
lower-append [] t = refl
lower-append (c ∷ s) t = rw (lower-append s t) refl

before-append : (c : ℕ) (s t : Text) → has_code c s ≡ false → before c (s ++ t) ≡ s ++ before c t
unfolding before
before-append c [] t h = refl
before-append c (d ∷ s) t h = ground (arith, h, before-append c s t)

has_code-append : (c : ℕ) (s t : Text) → has_code c (s ++ t) ≡ (has_code c s || has_code c t)
has_code-append c [] t = refl
has_code-append c (d ∷ s) t = ground (arith, has_code-append c s t)

before_port : (port : Option Text) → before b':' (port_suffix port) ≡ []
unfolding before
before_port none = refl
before_port (some digits) = refl

is_blank-append : (s t : Text) → t ≢ [] → is_blank (s ++ t) ≡ false
is_blank-append [] [] h = absurd (h refl)
is_blank-append [] (c ∷ t) h = refl
is_blank-append (c ∷ s) t h = refl

-- Small letters, with neither a point nor a colon.
pub record IsLabel (s : Text) : Type 0 where
  pub is_lower : lower s ≡ s
  pub no_point : has_code b'.' s ≡ false
  pub no_colon : has_code b':' s ≡ false

-- The host that is written for a sandbox, with a port or without, names that sandbox: where the
-- prefix of the settings and the id have small letters, neither points nor colons, the id is not
-- empty, and the domain has no colon.
pub extract_sandbox_id-web_host :
    (prefix domain id : Text) (port : Option Text)
    → IsLabel prefix
    → IsLabel id
    → id ≢ []
    → has_code b':' domain ≡ false
    → extract_sandbox_id (web_host prefix domain id port) domain prefix ≡ some id
unfolding extract_sandbox_id web_host lower
extract_sandbox_id-web_host prefix domain id port p i filled_id no_colon =
    let tail : Text = b'.' ∷ domain in
    let base : Text = (prefix ++ id) ++ tail in
    let colons = has_code-append b':' (prefix ++ id) tail in
    let no_colons : has_code b':' base ≡ false =
      ground (arith, colons, has_code-append b':' prefix id, p.no_colon, i.no_colon, no_colon) in
    let cut : before b':' (base ++ port_suffix port) ≡ base =
      before-append b':' base (port_suffix port) no_colons
      ∙ ap (λ (t : Text). base ++ t) (before_port port)
      ∙ append-nil base in
    let lowered : lower base ≡ (prefix ++ id) ++ (b'.' ∷ lower domain) =
      lower-append (prefix ++ id) tail
      ∙ ap (λ (t : Text). t ++ lower tail)
          (lower-append prefix id
            ∙ ap (λ (t : Text). t ++ lower id) p.is_lower
            ∙ ap (λ (t : Text). prefix ++ t) i.is_lower) in
    let points : has_code b'.' (prefix ++ id) ≡ false =
      has_code-append b'.' prefix id ∙ ground (arith, p.no_point, i.no_point) in
    rw
      (
        cut,
        lowered,
        strip_suffix-append (prefix ++ id) (b'.' ∷ lower domain),
        is_blank-append prefix id filled_id,
        points,
        strip_prefix-append prefix id,
        is_blank-append [] id filled_id,
      )
      refl

filled-some : (o : Option Text) {t : Text} → filled o ≡ some t → (o ≡ some t) × (is_blank t ≡ false)
filled-some none h = cc
filled-some (some u) h = (ground (arith, h), ground (arith, h))

-- Whatever host names a sandbox is, without its port and in small letters, the prefix, an id that
-- is not empty, a point, and the domain; and the id has no point, so that it is one label.
extract_sandbox_id-some :
    (host domain prefix : Text) {id : Text}
    → extract_sandbox_id host domain prefix ≡ some id
    → (lower (before b':' host) ≡ (prefix ++ id) ++ (b'.' ∷ lower domain))
      × (is_blank id ≡ false)
      × (has_code b'.' id ≡ false)
unfolding extract_sandbox_id
extract_sandbox_id-some host domain prefix {id} h =
    let cut = lower (before b':' host) in
    elim (Option-cases (strip_suffix (b'.' ∷ lower domain) cut)) [
      | inl elsewhere ↦ absurd (ground (arith, rw elsewhere at h))
      | inr (subdomain, found) ↦
          let whole = strip_suffix-some cut (b'.' ∷ lower domain) found in
          elim (Bool-cases (is_blank subdomain || has_code b'.' subdomain)) [
            | inl bad ↦ absurd (ground (arith, rw bad at (rw found at h)))
            | inr good ↦
                let (stripped, some_id) =
                  filled-some (strip_prefix prefix subdomain) (rw good at (rw found at h)) in
                let label = strip_prefix-some prefix subdomain stripped in
                let points = rw label at good in
                (
                  whole ∙ ap (λ (t : Text). t ++ (b'.' ∷ lower domain)) label,
                  some_id,
                  ground (arith, points, has_code-append b'.' prefix id),
                )
          ]
    ]
