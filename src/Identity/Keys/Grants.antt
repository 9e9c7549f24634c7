-- ===== src/Identity/Keys/Grants.antt =====
-- The grants of the keys go with the keys' modes and with the sandboxes' owners.
use treadstone.Prelude.{
  ℕ, ◌≡◌, refl, Bool, true, false, List, [], ◌∷◌, ◌++◌, ◌&&◌, ◌||◌, not, ◌==◌, select, All, arith,
  inl, inr, Bool-cases, if◌then◌else◌,
}
use treadstone.Sandbox.{Sandbox}
use treadstone.Identity.Model.{ApiKey, ApiKeySandboxGrant, Accounts}
use treadstone.Identity.Keys.{is_selected, is_empty, grants_for, replace_api_key_sandbox_grants}
use treadstone.Identity.Keys.Scopes.{owned_by}

-- The grant's key is there, and belongs to the owner of the grant's sandbox.
abbrev pub grant_owned : List Sandbox → ApiKeySandboxGrant → List ApiKey → Bool
grant_owned ss g [] = false
grant_owned ss g (k ∷ ks) =
    (k.id == g.api_key_id && owned_by k.user_id g.sandbox_id ss) || grant_owned ss g ks

abbrev pub has_any : ℕ → List ApiKeySandboxGrant → Bool
has_any key [] = false
has_any key (g ∷ gs) = g.api_key_id == key || has_any key gs

-- Every grant is for a sandbox of the key's user, and a key has grants exactly if its mode is
-- `selected`.
pub record IsScoped (db : Accounts) : Type 0 where
  pub owned : All (λ g. grant_owned db.sandboxes g db.api_keys ≡ true) db.grants
  pub moded : All (λ k. has_any k.id db.grants ≡ is_selected k.data_plane_mode) db.api_keys

has_any-append :
    (key : ℕ) (gs hs : List ApiKeySandboxGrant)
    → has_any key (gs ++ hs) ≡ (has_any key gs || has_any key hs)
has_any-append key [] hs = refl
has_any-append key (g ∷ gs) hs = ground (arith, has_any-append key gs hs)

has_any-grants_for :
    (other key : ℕ) (ids : List ℕ)
    → has_any other (grants_for key ids) ≡ (key == other && not (is_empty ids))
has_any-grants_for other key [] = ground arith
has_any-grants_for other key (id ∷ ids) = ground (arith, has_any-grants_for other key ids)

has_any-others :
    (other key : ℕ) (gs : List ApiKeySandboxGrant)
    → has_any other (select (λ g. not (g.api_key_id == key)) gs)
      ≡ (not (key == other) && has_any other gs)
has_any-others other key [] = ground arith
has_any-others other key (g ∷ gs) = ground (arith, has_any-others other key gs)

pub has_any-replace :
    (other key : ℕ) (ids : List ℕ) (gs : List ApiKeySandboxGrant)
    → has_any other (replace_api_key_sandbox_grants key ids gs)
      ≡ (if key == other then not (is_empty ids) else has_any other gs)
unfolding replace_api_key_sandbox_grants
has_any-replace other key ids gs =
    let others = select (λ g. not (g.api_key_id == key)) gs in
    ground (
      arith,
      has_any-append other (grants_for key ids) others,
      has_any-grants_for other key ids,
      has_any-others other key gs,
    )

All-select {ℓ κ} :
    {A : Type ℓ} (P : A → Type κ) (p : A → Bool) (xs : List A) → All P xs → All P (select p xs)
All-select P p [] h = tt
All-select P p (x ∷ xs) (h, hs) = elim (Bool-cases (p x)) [
  | inl t ↦ rw t (h, All-select P p xs hs)
  | inr f ↦ rw f (All-select P p xs hs)
]

-- The grants of a list of keys in which the key in question has the owner of all the new ones.
pub owned-replace :
    (ss : List Sandbox) (ks : List ApiKey) (key owner : ℕ) (ids : List ℕ)
    (gs : List ApiKeySandboxGrant)
    → ((n : ℕ)
        → owned_by owner n ss ≡ true
        → grant_owned ss (record { api_key_id = key; sandbox_id = n }) ks ≡ true)
    → All (λ n. owned_by owner n ss ≡ true) ids
    → All (λ g. grant_owned ss g ks ≡ true) gs
    → All (λ g. grant_owned ss g ks ≡ true) (replace_api_key_sandbox_grants key ids gs)
unfolding replace_api_key_sandbox_grants
owned-replace ss ks key owner [] gs here p q =
    All-select (λ g. grant_owned ss g ks ≡ true) (λ g. not (g.api_key_id == key)) gs q
owned-replace ss ks key owner (id ∷ ids) gs here (p, ps) q =
    (here id p, owned-replace ss ks key owner ids gs here ps q)
