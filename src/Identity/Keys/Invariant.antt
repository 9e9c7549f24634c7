-- ===== src/Identity/Keys/Invariant.antt =====
-- Creating, changing and deleting a key keeps the grants in order.
use treadstone.Prelude.{
  ℕ, ◌≡◌, refl, Bool, true, Option, none, some, List, [], ◌∷◌, not, ◌==◌, count, find_first, All,
  arith, inl, inr, Bool-cases, Option-cases, ◌∙◌,
}
use treadstone.Prelude.Text.{Text}
use treadstone.Sandbox.{Sandbox}
use treadstone.Identity.Model.{
  ApiKey, ApiKeySandboxGrant, Accounts, ok, Result-cases, update_where, ◌>>=◌, or_raise, not_found,
  >>=-eq-ok, or_raise-eq-ok, ok_inj,
}
use treadstone.Identity.Keys.{
  ApiKeyScope, CreateApiKeyRequest, UpdateApiKeyRequest, is_selected, is_empty,
  replace_api_key_sandbox_grants, new_key, insert_key, create_api_key, is_own_key, patched,
  save_patch, checked_patch, update_api_key, validate_scope, validate_patch_request, resolve_option,
  validate_mode_and_sandbox_ids, resolve_api_key_scope, with_deletion, delete_api_key,
  checked_scope,
}
use treadstone.Identity.Keys.Scopes.{
  owned_by, IsResolved, checked_scope-IsResolved, validated-IsResolved,
}
use treadstone.Identity.Keys.Grants.{IsScoped, grant_owned, has_any, has_any-replace, owned-replace}

abbrev Resolved : ℕ → List Sandbox → Option ApiKeyScope → Type 0
Resolved user ss none = Unit
Resolved user ss (some scope) = IsResolved user ss scope

abbrev Found : ℕ → ℕ → Accounts → Type 0
Found user key_id db = (k : ApiKey) × (find_first (is_own_key user key_id) db.api_keys ≡ some k)

-- One more key leaves the owned grants owned.
owned-cons :
    (ss : List Sandbox) (k : ApiKey) (ks : List ApiKey) (gs : List ApiKeySandboxGrant)
    → All (λ g. grant_owned ss g ks ≡ true) gs
    → All (λ g. grant_owned ss g (k ∷ ks) ≡ true) gs
owned-cons ss k ks [] h = tt
owned-cons ss k ks (g ∷ gs) (h, hs) = (ground (arith, h), owned-cons ss k ks gs hs)

-- The modes of keys of other ids.
moded-others :
    (key : ℕ) (ids : List ℕ) (ks : List ApiKey) (gs : List ApiKeySandboxGrant)
    → count (λ k. k.id == key) ks ≡ 0
    → All (λ k. has_any k.id gs ≡ is_selected k.data_plane_mode) ks
    → All
        (λ k.
          has_any k.id (replace_api_key_sandbox_grants key ids gs) ≡ is_selected k.data_plane_mode)
        ks
moded-others key ids [] gs n h = tt
moded-others key ids (k ∷ ks) gs n (h, hs) = (
  ground (arith, n, h, has_any-replace k.id key ids gs),
  moded-others key ids ks gs (ground (arith, n)) hs,
)

insert_key-IsScoped :
    (key : ApiKey) (scope : ApiKeyScope) (db : Accounts)
    → key.data_plane_mode ≡ scope.mode
    → count (λ k. k.id == key.id) db.api_keys ≡ 0
    → IsResolved key.user_id db.sandboxes scope
    → IsScoped db
    → IsScoped (insert_key key scope.sandbox_ids db)
unfolding insert_key
insert_key-IsScoped key scope db mode fresh (own, filled) v = record {
  owned =
      owned-replace db.sandboxes (key ∷ db.api_keys) key.id key.user_id scope.sandbox_ids db.grants
        (λ n h. ground (arith, h)) own (owned-cons db.sandboxes key db.api_keys db.grants v.owned);
  moded = (
    ground (arith, mode, filled, has_any-replace key.id key.id scope.sandbox_ids db.grants),
    moded-others key.id scope.sandbox_ids db.api_keys db.grants fresh v.moded,
  );
}

-- Creating a key under a new id keeps every grant within the sandboxes of its key's user, and keys
-- with grants those of mode `selected`.
create_api_key-IsScoped :
    (hash : Text → ℕ) (now key_id : ℕ) (key_value : Text) (user : ℕ) (body : CreateApiKeyRequest)
    (db : Accounts)
    → count (λ k. k.id == key_id) db.api_keys ≡ 0
    → IsScoped db
    → IsScoped (create_api_key hash now key_id key_value user body db).1
unfolding create_api_key new_key
create_api_key-IsScoped hash now key_id key_value user body db fresh v =
    elim (Result-cases (checked_scope user body.scope db.sandboxes)) [
      | inl (e, refused) ↦ rw refused v
      | inr (scope, accepted) ↦
          let key = new_key now key_id (hash key_value) user body scope in
          rw accepted (
            insert_key-IsScoped key scope db refl fresh
              (checked_scope-IsResolved user body.scope db.sandboxes accepted) v)
    ]

-- A change of the rows of one id that keeps who owns a key.
module _ (key : ℕ) (f : ApiKey → ApiKey) (keeps_id : (k : ApiKey) → (f k).id ≡ k.id)
    (keeps_user : (k : ApiKey) → (f k).user_id ≡ k.user_id) where
  grant_owned-update :
      (ss : List Sandbox) (g : ApiKeySandboxGrant) (ks : List ApiKey)
      → grant_owned ss g (update_where (λ k. k.id == key) f ks) ≡ grant_owned ss g ks
  grant_owned-update ss g [] = refl
  grant_owned-update ss g (k ∷ ks) = elim (Bool-cases (k.id == key)) [
    | inl h ↦ rw (h, keeps_id k, keeps_user k, grant_owned-update ss g ks) refl
    | inr h ↦ rw (h, grant_owned-update ss g ks) refl
  ]

  owned-update :
      (ss : List Sandbox) (ks : List ApiKey) (gs : List ApiKeySandboxGrant)
      → All (λ g. grant_owned ss g ks ≡ true) gs
      → All (λ g. grant_owned ss g (update_where (λ k. k.id == key) f ks) ≡ true) gs
  owned-update ss ks [] h = tt
  owned-update ss ks (g ∷ gs) (h, hs) = (grant_owned-update ss g ks ∙ h, owned-update ss ks gs hs)

  moded-kept :
      (ks : List ApiKey) (gs : List ApiKeySandboxGrant)
      → ((k : ApiKey) → (f k).data_plane_mode ≡ k.data_plane_mode)
      → All (λ k. has_any k.id gs ≡ is_selected k.data_plane_mode) ks
      → All
          (λ k. has_any k.id gs ≡ is_selected k.data_plane_mode)
          (update_where (λ k. k.id == key) f ks)
  moded-kept [] gs m h = tt
  moded-kept (k ∷ ks) gs m (h, hs) = (
    elim (Bool-cases (k.id == key)) [ inl e ↦ rw (e, keeps_id k, m k) h | inr e ↦ rw e h ],
    moded-kept ks gs m hs,
  )

  moded-replaced :
      (ids : List ℕ) (mode : Bool) (ks : List ApiKey) (gs : List ApiKeySandboxGrant)
      → ((k : ApiKey) → is_selected (f k).data_plane_mode ≡ mode)
      → not (is_empty ids) ≡ mode
      → All (λ k. has_any k.id gs ≡ is_selected k.data_plane_mode) ks
      → All
          (λ k.
            has_any k.id (replace_api_key_sandbox_grants key ids gs)
            ≡ is_selected k.data_plane_mode)
          (update_where (λ k. k.id == key) f ks)
  moded-replaced ids mode [] gs m e h = tt
  moded-replaced ids mode (k ∷ ks) gs m e (h, hs) = (
    elim (Bool-cases (k.id == key)) [
      | inl same ↦
          rw (same, m k, has_any-replace (f k).id key ids gs) (ground (arith, e, same, keeps_id k))
      | inr other ↦ rw other (ground (arith, other, h, has_any-replace k.id key ids gs))
    ],
    moded-replaced ids mode ks gs m e hs,
  )

-- The key that was found is there, and the user's.
grant_owned-found :
    (user key_id n : ℕ) (ss : List Sandbox) (ks : List ApiKey) {k : ApiKey}
    → find_first (is_own_key user key_id) ks ≡ some k
    → owned_by user n ss ≡ true
    → grant_owned ss (record { api_key_id = key_id; sandbox_id = n }) ks ≡ true
grant_owned-found user key_id n ss [] h o = cc
grant_owned-found user key_id n ss (x ∷ xs) {k} h o = elim (Bool-cases (is_own_key user key_id x)) [
  | inl e ↦
      let same : x.user_id ≡ user = ground (arith, e) in
      let o' = rw (← same) at o in ground (arith, e, o')
  | inr e ↦ ground (arith, grant_owned-found user key_id n ss xs {k = k} (rw e at h) o)
]

save_patch-IsScoped :
    (now key_id user : ℕ) (body : UpdateApiKeyRequest) (scope : Option ApiKeyScope) (db : Accounts)
    {k : ApiKey}
    → find_first (is_own_key user key_id) db.api_keys ≡ some k
    → Resolved user db.sandboxes scope
    → IsScoped db
    → IsScoped (save_patch now key_id body scope db)
unfolding save_patch patched
save_patch-IsScoped now key_id user body none db found _ v = record {
  owned =
      owned-update key_id (patched now body none) (λ k. refl) (λ k. refl) db.sandboxes db.api_keys
        db.grants v.owned;
  moded =
      moded-kept key_id (patched now body none) (λ k. refl) (λ k. refl) db.api_keys db.grants
        (λ k. refl) v.moded;
}
save_patch-IsScoped now key_id user body (some scope) db found (own, filled) v = record {
  owned =
      owned-update key_id (patched now body (some scope)) (λ k. refl) (λ k. refl) db.sandboxes
        db.api_keys (replace_api_key_sandbox_grants key_id scope.sandbox_ids db.grants)
        (owned-replace db.sandboxes db.api_keys key_id user scope.sandbox_ids db.grants
          (λ n o. grant_owned-found user key_id n db.sandboxes db.api_keys found o) own v.owned);
  moded =
      moded-replaced key_id (patched now body (some scope)) (λ k. refl) (λ k. refl)
        scope.sandbox_ids (is_selected scope.mode) db.api_keys db.grants (λ k. refl) filled v.moded;
}

resolve_option-Resolved :
    (user : ℕ) (asked : Option ApiKeyScope) (ss : List Sandbox) {valid scope : Option ApiKeyScope}
    → validate_scope asked ≡ ok valid
    → resolve_option user valid ss ≡ ok scope
    → Resolved user ss scope
resolve_option-Resolved user none ss h r = rw (← ok_inj (rw (← ok_inj h) at r)) tt
resolve_option-Resolved user (some asked) ss h r =
    let (v, valid, e) = >>=-eq-ok (validate_mode_and_sandbox_ids asked) (λ v. ok (some v)) h in
    let r' = rw (← ok_inj e) at r in
    let (s, resolved, e') =
      >>=-eq-ok (resolve_api_key_scope user (some v) ss) (λ s. ok (some s)) r' in
    rw (← ok_inj e') (validated-IsResolved user asked ss {valid = v} valid resolved)

checked_patch-Found :
    (body : UpdateApiKeyRequest) (user key_id : ℕ) (db : Accounts) {scope : Option ApiKeyScope}
    → checked_patch body user key_id db ≡ ok scope
    → Found user key_id db × Resolved user db.sandboxes scope
unfolding checked_patch
checked_patch-Found body user key_id db {scope} h =
    let found = find_first (is_own_key user key_id) db.api_keys in
    let (u, p, h1) =
      >>=-eq-ok (validate_patch_request body)
        (λ _. validate_scope body.scope >>= λ valid.
          or_raise found not_found >>= λ key. resolve_option user valid db.sandboxes)
        h in
    let (valid, q, h2) =
      >>=-eq-ok (validate_scope body.scope)
        (λ valid. or_raise found not_found >>= λ key. resolve_option user valid db.sandboxes) h1 in
    let (key, r, h3) =
      >>=-eq-ok (or_raise found not_found) (λ key. resolve_option user valid db.sandboxes) h2 in
    (
      (key, or_raise-eq-ok found not_found r),
      resolve_option-Resolved user body.scope db.sandboxes q h3,
    )

-- So does a change of a key.
update_api_key-IsScoped :
    (now key_id : ℕ) (body : UpdateApiKeyRequest) (user : ℕ) (db : Accounts)
    → IsScoped db
    → IsScoped (update_api_key now key_id body user db).1
unfolding update_api_key
update_api_key-IsScoped now key_id body user db v =
    elim (Result-cases (checked_patch body user key_id db)) [
      | inl (e, refused) ↦ rw refused v
      | inr (scope, accepted) ↦
          let ((k, found), own) = checked_patch-Found body user key_id db accepted in
          rw accepted (save_patch-IsScoped now key_id user body scope db found own v)
    ]

-- And so does the deletion of one, which leaves its grants.
delete_api_key-IsScoped :
    (now key_id user : ℕ) (db : Accounts)
    → IsScoped db
    → IsScoped (delete_api_key now key_id user db).1
unfolding delete_api_key
delete_api_key-IsScoped now key_id user db v =
    elim (Option-cases (find_first (is_own_key user key_id) db.api_keys)) [
      | inl missing ↦ rw missing v
      | inr (k, found) ↦ rw found (record {
        owned =
            owned-update key_id (with_deletion now) (λ k. refl) (λ k. refl) db.sandboxes db.api_keys
              db.grants v.owned;
        moded =
            moded-kept key_id (with_deletion now) (λ k. refl) (λ k. refl) db.api_keys db.grants
              (λ k. refl) v.moded;
      })
    ]

-- Whoever creates a key, under a new id, or changes or deletes one: every grant stays for a sandbox
-- of its key's user, and a key has grants exactly if its mode is `selected`.
pub keys-IsScoped :
    (hash : Text → ℕ) (now key_id : ℕ) (key_value : Text) (user : ℕ) (body : CreateApiKeyRequest)
    (patch : UpdateApiKeyRequest) (db : Accounts)
    → IsScoped db
    → count (λ k. k.id == key_id) db.api_keys ≡ 0
    → (other : ℕ)
    → IsScoped (create_api_key hash now key_id key_value user body db).1
      × IsScoped (update_api_key now other patch user db).1
      × IsScoped (delete_api_key now other user db).1
keys-IsScoped hash now key_id key_value user body patch db v fresh other = (
  create_api_key-IsScoped hash now key_id key_value user body db fresh v,
  update_api_key-IsScoped now other patch user db v,
  delete_api_key-IsScoped now other user db v,
)
