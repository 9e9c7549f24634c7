-- ===== src/Identity/Keys/Auth/Revoked.antt =====
-- A key that its owner deletes or disables admits no request any more.
use treadstone.Prelude.{
  ℕ, ◌≡◌, ◌≢◌, true, false, Option, none, some, List, [], ◌∷◌, ◌==◌, find_first, arith,
  Option-cases, inl, inr,
}
use treadstone.Prelude.Text.{Text}
use treadstone.Identity.Model.{User, ApiKey, Accounts, ok, update_where, Result-cases}
use treadstone.Identity.Keys.{
  UpdateApiKeyRequest, ApiKeyScope, with_deletion, patched, delete_api_key, update_api_key,
  checked_patch, is_own_key,
}
use treadstone.Identity.Keys.Auth.{has_hash, authenticate_api_key_value}

find_first-deleted :
    (now key_id key_hash : ℕ) (ks : List ApiKey) {k : ApiKey}
    → find_first (has_hash key_hash) (update_where (λ k. k.id == key_id) (with_deletion now) ks)
      ≡ some k
    → k.id ≢ key_id
find_first-deleted now key_id key_hash [] h = cc
find_first-deleted now key_id key_hash (x ∷ xs) {k} h =
    ground (arith, h, find_first-deleted now key_id key_hash xs {k = k})

find_first-disabled :
    (now key_id key_hash : ℕ) (body : UpdateApiKeyRequest) (scope : Option ApiKeyScope)
    (ks : List ApiKey) {k : ApiKey}
    → body.is_enabled ≡ some false
    → find_first
        (has_hash key_hash)
        (update_where (λ k. k.id == key_id) (patched now body scope) ks)
      ≡ some k
    → k.id ≡ key_id
    → k.is_enabled ≡ false
unfolding patched
find_first-disabled now key_id key_hash body scope [] off h = cc
find_first-disabled now key_id key_hash body none (x ∷ xs) {k} off h =
    ground (arith, off, h, find_first-disabled now key_id key_hash body none xs {k = k})
find_first-disabled now key_id key_hash body (some s) (x ∷ xs) {k} off h =
    ground (arith, off, h, find_first-disabled now key_id key_hash body (some s) xs {k = k})

-- What authentication has found.
authenticate-found :
    (hash : Text → ℕ) (now : ℕ) (secret : Text) (db : Accounts) {key : ApiKey} {user : User}
    → authenticate_api_key_value hash now secret db ≡ some (key, user)
    → (find_first (has_hash (hash secret)) db.api_keys ≡ some key) × (key.is_enabled ≡ true)
unfolding authenticate_api_key_value
authenticate-found hash now secret db {key} {user} h =
    elim (Option-cases (find_first (has_hash (hash secret)) db.api_keys)) [
      | inl missing ↦ absurd (ground (arith, rw missing at h))
      | inr (k, found) ↦ (ground (arith, found, rw found at h), ground (arith, rw found at h))
    ]

-- Once a user has deleted a key of theirs, no secret authenticates by it any more, whatever the time.
pub authenticate-delete :
    (hash : Text → ℕ) (now now' key_id user : ℕ) (secret : Text) (db : Accounts) {key : ApiKey}
    {owner : User}
    → (delete_api_key now key_id user db).0 ≡ ok tt
    → authenticate_api_key_value hash now' secret (delete_api_key now key_id user db).1
      ≡ some (key, owner)
    → key.id ≢ key_id
unfolding delete_api_key
authenticate-delete hash now now' key_id user secret db {key} {owner} done h =
    elim (Option-cases (find_first (is_own_key user key_id) db.api_keys)) [
      | inl missing ↦ absurd (ground (arith, rw missing at done))
      | inr (k, found) ↦
          let db' = (delete_api_key now key_id user db).1 in
          find_first-deleted now key_id (hash secret) db.api_keys {k = key}
            (rw found at ((authenticate-found hash now' secret db' {key = key} {user = owner} h).0))
    ]

-- The same holds once the user has disabled it.
authenticate-update :
    (hash : Text → ℕ) (now now' key_id user : ℕ) (body : UpdateApiKeyRequest) (secret : Text)
    (db : Accounts) {key : ApiKey} {owner : User}
    → body.is_enabled ≡ some false
    → (update_api_key now key_id body user db).0 ≡ ok tt
    → authenticate_api_key_value hash now' secret (update_api_key now key_id body user db).1
      ≡ some (key, owner)
    → key.id ≢ key_id
unfolding update_api_key
authenticate-update hash now now' key_id user body secret db {key} {owner} off done h same =
    elim (Result-cases (checked_patch body user key_id db)) [
      | inl (e, refused) ↦ absurd (ground (arith, rw refused at done))
      | inr (scope, accepted) ↦
          let db' = (update_api_key now key_id body user db).1 in
          let (found, on) = authenticate-found hash now' secret db' {key = key} {user = owner} h in
          let disabled =
            find_first-disabled now key_id (hash secret) body scope db.api_keys {k = key} off
              (rw accepted at found) same in
          ground (arith, on, disabled)
    ]
