-- ===== src/Identity/Keys/Scopes.antt =====
-- What the checks of a requested scope establish.
use treadstone.Prelude.{
  ℕ, ◌≡◌, refl, Bool, true, false, Option, none, some, List, [], ◌∷◌, ◌&&◌, ◌||◌, not, ◌==◌, All,
  arith, inl, inr, Bool-cases,
}
use treadstone.Sandbox.{Sandbox}
use treadstone.Identity.Model.{ok, Result-cases, ok_inj}
use treadstone.Identity.Keys.{
  ApiKeyScope, is_selected, is_empty, mem, subset, dedup, owned_ids, validate_mode_and_sandbox_ids,
  validate_owned_sandbox_ids, resolve_api_key_scope, checked_scope,
}

abbrev pub owned_by : ℕ → ℕ → List Sandbox → Bool
owned_by owner sandbox [] = false
owned_by owner sandbox (s ∷ ss) =
    (s.owner_id == owner && s.id == sandbox) || owned_by owner sandbox ss

mem-owned_ids :
    (owner n : ℕ) (ids : List ℕ) (ss : List Sandbox)
    → mem n (owned_ids owner ids ss) ≡ true
    → owned_by owner n ss ≡ true
mem-owned_ids owner n ids [] h = cc
mem-owned_ids owner n ids (s ∷ ss) h = ground (arith, h, mem-owned_ids owner n ids ss)

subset-owned :
    (owner : ℕ) (ms ids : List ℕ) (ss : List Sandbox)
    → subset ms (owned_ids owner ids ss) ≡ true
    → All (λ n. owned_by owner n ss ≡ true) ms
subset-owned owner [] ids ss h = tt
subset-owned owner (m ∷ ms) ids ss h = (
  mem-owned_ids owner m ids ss (ground (arith, h)),
  subset-owned owner ms ids ss (ground (arith, h)),
)

is_empty-dedup : (ns : List ℕ) → is_empty (dedup ns) ≡ is_empty ns
unfolding dedup
is_empty-dedup [] = refl
is_empty-dedup (n ∷ ns) = refl

-- The sandboxes of the scope are the user's, and there are some exactly if the mode is `selected`.
abbrev pub IsResolved : ℕ → List Sandbox → ApiKeyScope → Type 0
IsResolved owner ss scope =
    All (λ n. owned_by owner n ss ≡ true) scope.sandbox_ids
    × (not (is_empty scope.sandbox_ids) ≡ is_selected scope.mode)

validate_owned-owned :
    (owner : ℕ) (ids : List ℕ) (ss : List Sandbox) {ids' : List ℕ}
    → validate_owned_sandbox_ids owner ids ss ≡ ok ids'
    → All (λ n. owned_by owner n ss ≡ true) ids' × (is_empty ids' ≡ is_empty ids)
unfolding validate_owned_sandbox_ids
validate_owned-owned owner [] ss h = rw (← ok_inj h) (tt, refl)
validate_owned-owned owner (m ∷ ms) ss {ids'} h =
    let ids : List ℕ = m ∷ ms in
    let owned = owned_ids owner (dedup ids) ss in
    elim (Bool-cases (subset owned (dedup ids) && subset (dedup ids) owned)) [
      | inl all_owned ↦ rw (← ok_inj (rw all_owned at h)) (
        subset-owned owner (dedup ids) (dedup ids) ss (ground (arith, all_owned)),
        is_empty-dedup ids,
      )
      | inr no_more ↦ absurd (ground (arith, rw no_more at h))
    ]

resolve-IsResolved :
    (owner : ℕ) (scope : ApiKeyScope) (ss : List Sandbox) {scope' : ApiKeyScope}
    → not (is_empty scope.sandbox_ids) ≡ is_selected scope.mode
    → resolve_api_key_scope owner (some scope) ss ≡ ok scope'
    → IsResolved owner ss scope'
unfolding resolve_api_key_scope
resolve-IsResolved owner scope ss v h =
    elim (Result-cases (validate_owned_sandbox_ids owner scope.sandbox_ids ss)) [
      | inl (e, refused) ↦ absurd (ground (arith, rw refused at h))
      | inr (ids, accepted) ↦
          let (owned, same) = validate_owned-owned owner scope.sandbox_ids ss accepted in
          rw (← ok_inj (rw accepted at h)) (owned, rw same v)
    ]

validate_mode-kept :
    (scope : ApiKeyScope) {valid : ApiKeyScope}
    → validate_mode_and_sandbox_ids scope ≡ ok valid
    → not (is_empty valid.sandbox_ids) ≡ is_selected valid.mode
unfolding validate_mode_and_sandbox_ids
validate_mode-kept scope h = ground (arith, h)

pub validated-IsResolved :
    (owner : ℕ) (scope : ApiKeyScope) (ss : List Sandbox) {valid scope' : ApiKeyScope}
    → validate_mode_and_sandbox_ids scope ≡ ok valid
    → resolve_api_key_scope owner (some valid) ss ≡ ok scope'
    → IsResolved owner ss scope'
validated-IsResolved owner scope ss {valid} v h =
    resolve-IsResolved owner valid ss (validate_mode-kept scope {valid = valid} v) h

default-IsResolved :
    (owner : ℕ) (ss : List Sandbox) {scope' : ApiKeyScope}
    → resolve_api_key_scope owner none ss ≡ ok scope'
    → IsResolved owner ss scope'
unfolding resolve_api_key_scope validate_owned_sandbox_ids
default-IsResolved owner ss h = rw (← ok_inj h) (tt, refl)

-- A scope that a creation accepts.
pub checked_scope-IsResolved :
    (owner : ℕ) (scope : Option ApiKeyScope) (ss : List Sandbox) {scope' : ApiKeyScope}
    → checked_scope owner scope ss ≡ ok scope'
    → IsResolved owner ss scope'
unfolding checked_scope
checked_scope-IsResolved owner none ss h = default-IsResolved owner ss h
checked_scope-IsResolved owner (some scope) ss h =
    elim (Result-cases (validate_mode_and_sandbox_ids scope)) [
      | inl (e, refused) ↦ absurd (ground (arith, rw refused at h))
      | inr (valid, accepted) ↦
          validated-IsResolved owner scope ss {valid = valid} accepted (rw accepted at h)
    ]
