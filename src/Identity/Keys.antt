-- ===== src/Identity/Keys.antt =====
-- The API keys: the endpoints of treadstone/identity/api/auth.py on them, with the validators of
-- their requests in treadstone/api/schemas.py. The hash of secrets is an argument. The id and the
-- secret of a new key are random, so they are arguments too.
pub mod Scopes
pub mod Grants
pub mod Invariant
pub mod Auth
use treadstone.Prelude.{
  ℕ, ◌+◌, ◌*◌, Bool, true, false, Option, none, some, List, [], ◌∷◌, ◌++◌, ◌&&◌, ◌||◌, not, ◌==◌,
  find_first, select, if◌then◌else◌,
}
use treadstone.Prelude.Text.{Text}
use treadstone.Sandbox.{Sandbox}
use treadstone.Identity.Model.{
  ApiKey, ApiKeyDataPlaneMode, all, selected, ApiKeySandboxGrant, Accounts, not_found, validation,
  api_key_create, api_key_update, api_key_delete, Result, ok, err, ◌>>=◌, ◌>>◌, raise_if, or_raise,
  update_where,
}

pub record ApiKeyScope : Type 0 where
  pub control_plane : Bool
  pub mode : ApiKeyDataPlaneMode
  pub sandbox_ids : List ℕ

pub record CreateApiKeyRequest : Type 0 where
  pub name : ℕ
  pub expires_in : Option ℕ
  pub scope : Option ApiKeyScope

pub record UpdateApiKeyRequest : Type 0 where
  pub name : Option ℕ
  pub is_enabled : Option Bool
  pub expires_in : Option ℕ
  pub clear_expiration : Bool
  pub scope : Option ApiKeyScope

abbrev pub is_selected : ApiKeyDataPlaneMode → Bool
is_selected selected = true
is_selected _ = false

abbrev pub mem : ℕ → List ℕ → Bool
mem n [] = false
mem n (m ∷ ms) = m == n || mem n ms

abbrev is_unset : {A : Type 0} → Option A → Bool
is_unset none = true
is_unset (some a) = false

abbrev pub is_empty : {A : Type 0} → List A → Bool
is_empty [] = true
is_empty (x ∷ xs) = false

-- `list(dict.fromkeys(…))`: the first of each, in order.
abbrev dedup_after : List ℕ → List ℕ → List ℕ
dedup_after seen [] = []
dedup_after seen (n ∷ ns) =
    let first = n ∷ dedup_after (n ∷ seen) ns in
    let again = dedup_after seen ns in if mem n seen then again else first

unfoldable pub dedup : List ℕ → List ℕ
dedup = dedup_after []

unfoldable pub validate_mode_and_sandbox_ids : ApiKeyScope → Result ApiKeyScope
unfolding dedup
validate_mode_and_sandbox_ids scope = do
  raise_if (is_selected scope.mode && is_empty (dedup scope.sandbox_ids)) validation
  raise_if (not (is_selected scope.mode) && not (is_empty (dedup scope.sandbox_ids))) validation
  ok (record scope { sandbox_ids = dedup scope.sandbox_ids })

abbrev pub validate_scope : Option ApiKeyScope → Result (Option ApiKeyScope)
validate_scope none = ok none
validate_scope (some scope) = do valid ← validate_mode_and_sandbox_ids scope; ok (some valid)

unfoldable pub validate_patch_request : UpdateApiKeyRequest → Result (Unit {0})
validate_patch_request body = do
  raise_if (not (is_unset body.expires_in) && body.clear_expiration) validation
  raise_if
      (is_unset body.name
        && is_unset body.is_enabled
        && is_unset body.expires_in
        && not body.clear_expiration
        && is_unset body.scope)
      validation

abbrev ids_of : List Sandbox → List ℕ
ids_of [] = []
ids_of (s ∷ ss) = s.id ∷ ids_of ss

abbrev pub subset : List ℕ → List ℕ → Bool
subset [] ns = true
subset (m ∷ ms) ns = mem m ns && subset ms ns

-- The query `owner_id == … AND id IN (…)`
abbrev pub owned_ids : ℕ → List ℕ → List Sandbox → List ℕ
owned_ids owner ids sandboxes = ids_of (select (λ s. s.owner_id == owner && mem s.id ids) sandboxes)

unfoldable pub validate_owned_sandbox_ids : ℕ → List ℕ → List Sandbox → Result (List ℕ)
unfolding dedup
validate_owned_sandbox_ids owner sandbox_ids sandboxes = if is_empty sandbox_ids then ok [] else (do
  let deduped = dedup sandbox_ids
  let owned = owned_ids owner deduped sandboxes
  raise_if (not (subset owned deduped && subset deduped owned)) validation
  ok deduped)

abbrev default_api_key_scope : ApiKeyScope
default_api_key_scope = record { control_plane = true; mode = all; sandbox_ids = [] }

abbrev or_default : Option ApiKeyScope → ApiKeyScope
or_default none = default_api_key_scope
or_default (some scope) = scope

-- The scope, with the ids of the sandboxes for which grants are to be written.
unfoldable pub resolve_api_key_scope : ℕ → Option ApiKeyScope → List Sandbox → Result ApiKeyScope
unfolding validate_owned_sandbox_ids
resolve_api_key_scope owner scope sandboxes = do
  ids ← validate_owned_sandbox_ids owner (or_default scope).sandbox_ids sandboxes
  ok (record (or_default scope) { sandbox_ids = ids })

abbrev pub grants_for : ℕ → List ℕ → List ApiKeySandboxGrant
grants_for key [] = []
grants_for key (id ∷ ids) = record { api_key_id = key; sandbox_id = id } ∷ grants_for key ids

unfoldable pub replace_api_key_sandbox_grants :
    ℕ → List ℕ → List ApiKeySandboxGrant → List ApiKeySandboxGrant
replace_api_key_sandbox_grants key ids grants =
    grants_for key ids ++ select (λ g. not (g.api_key_id == key)) grants

abbrev expiry : ℕ → Option ℕ → Option ℕ
expiry now none = none
expiry now (some seconds) = some (now + seconds * 1000000)

unfoldable pub new_key : ℕ → ℕ → ℕ → ℕ → CreateApiKeyRequest → ApiKeyScope → ApiKey
new_key now key_id key_hash user body scope = record {
  id = key_id;
  key_hash = key_hash;
  name = body.name;
  user_id = user;
  is_enabled = true;
  control_plane_enabled = scope.control_plane;
  data_plane_mode = scope.mode;
  gmt_created = now;
  gmt_updated = now;
  gmt_expires = expiry now body.expires_in;
  gmt_deleted = none;
}

unfoldable pub insert_key : ApiKey → List ℕ → Accounts → Accounts
unfolding replace_api_key_sandbox_grants
insert_key key sandbox_ids db = record db {
  api_keys = key ∷ db.api_keys;
  grants = replace_api_key_sandbox_grants key.id sandbox_ids db.grants;
  audit = api_key_create key.id ∷ db.audit;
}

abbrev create_with :
    (Text → ℕ)
    → ℕ
    → ℕ
    → Text
    → ℕ
    → CreateApiKeyRequest
    → Accounts
    → Result ApiKeyScope
    → Result (ApiKey × Text) × Accounts
create_with hash now key_id key_value user body db (err e) = (err e, db)
create_with hash now key_id key_value user body db (ok scope) =
    let key = new_key now key_id (hash key_value) user body scope in
    (ok (key, key_value), insert_key key scope.sandbox_ids db)

unfoldable pub checked_scope : ℕ → Option ApiKeyScope → List Sandbox → Result ApiKeyScope
checked_scope user scope sandboxes = do
  valid ← validate_scope scope
  resolve_api_key_scope user valid sandboxes

unfoldable pub create_api_key :
    (Text → ℕ)
    → ℕ
    → ℕ
    → Text
    → ℕ
    → CreateApiKeyRequest
    → Accounts
    → Result (ApiKey × Text) × Accounts
unfolding new_key insert_key
create_api_key hash now key_id key_value user body db =
    create_with hash now key_id key_value user body db (checked_scope user body.scope db.sandboxes)

-- The query of the endpoints that change a key: the user's, and not deleted.
abbrev pub is_own_key : ℕ → ℕ → ApiKey → Bool
is_own_key user key_id k = k.id == key_id && k.user_id == user && is_unset k.gmt_deleted

abbrev or_kept : {A : Type 0} → Option A → A → A
or_kept none a = a
or_kept (some b) a = b

abbrev new_expiry : ℕ → UpdateApiKeyRequest → Option ℕ → Option ℕ
new_expiry now body old =
    if is_unset body.expires_in
    then (if body.clear_expiration then none else old)
    else expiry now body.expires_in

abbrev with_scope : Option ApiKeyScope → ApiKey → ApiKey
with_scope none k = k
with_scope (some scope) k = record k {
  control_plane_enabled = scope.control_plane;
  data_plane_mode = scope.mode;
}

unfoldable pub patched : ℕ → UpdateApiKeyRequest → Option ApiKeyScope → ApiKey → ApiKey
patched now body scope k = with_scope scope (record k {
  name = or_kept body.name k.name;
  is_enabled = or_kept body.is_enabled k.is_enabled;
  gmt_expires = new_expiry now body k.gmt_expires;
  gmt_updated = now;
})

abbrev replace_for : ℕ → Option ApiKeyScope → List ApiKeySandboxGrant → List ApiKeySandboxGrant
replace_for key_id none grants = grants
replace_for key_id (some scope) grants =
    replace_api_key_sandbox_grants key_id scope.sandbox_ids grants

unfoldable pub save_patch : ℕ → ℕ → UpdateApiKeyRequest → Option ApiKeyScope → Accounts → Accounts
unfolding patched replace_api_key_sandbox_grants
save_patch now key_id body scope db = record db {
  api_keys = update_where (λ k. k.id == key_id) (patched now body scope) db.api_keys;
  grants = replace_for key_id scope db.grants;
  audit = api_key_update key_id ∷ db.audit;
}

abbrev pub resolve_option : ℕ → Option ApiKeyScope → List Sandbox → Result (Option ApiKeyScope)
resolve_option owner none sandboxes = ok none
resolve_option owner (some scope) sandboxes = do
  resolved ← resolve_api_key_scope owner (some scope) sandboxes
  ok (some resolved)

abbrev patch_with :
    ℕ
    → ℕ
    → UpdateApiKeyRequest
    → Accounts
    → Result (Option ApiKeyScope)
    → Result (Unit {0}) × Accounts
patch_with now key_id body db (err e) = (err e, db)
patch_with now key_id body db (ok scope) = (ok tt, save_patch now key_id body scope db)

-- What is read and checked. What is raised after the row has changed is raised before the commit,
-- and leaves the tables.
unfoldable pub checked_patch : UpdateApiKeyRequest → ℕ → ℕ → Accounts → Result (Option ApiKeyScope)
checked_patch body user key_id db = do
  validate_patch_request body
  scope ← validate_scope body.scope
  key ← or_raise (find_first (is_own_key user key_id) db.api_keys) not_found
  resolve_option user scope db.sandboxes

unfoldable pub update_api_key :
    ℕ → ℕ → UpdateApiKeyRequest → ℕ → Accounts → Result (Unit {0}) × Accounts
unfolding save_patch
update_api_key now key_id body user db =
    patch_with now key_id body db (checked_patch body user key_id db)

abbrev pub with_deletion : ℕ → ApiKey → ApiKey
with_deletion now k = record k { gmt_deleted = some now; gmt_updated = now }

abbrev delete_found : ℕ → ℕ → Accounts → Option ApiKey → Result (Unit {0}) × Accounts
delete_found now key_id db none = (err not_found, db)
delete_found now key_id db (some key) = (
  ok tt,
  record db {
    api_keys = update_where (λ k. k.id == key_id) (with_deletion now) db.api_keys;
    audit = api_key_delete key_id ∷ db.audit;
  },
)

unfoldable pub delete_api_key : ℕ → ℕ → ℕ → Accounts → Result (Unit {0}) × Accounts
delete_api_key now key_id user db =
    delete_found now key_id db (find_first (is_own_key user key_id) db.api_keys)
