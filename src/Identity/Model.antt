-- ===== src/Identity/Model.antt =====
-- treadstone/identity/models: the rows of users, API keys and CLI login flows, with the errors that
-- the handlers raise. Texts that are only compared are numbers, and 0 is the empty text; times are
-- microseconds. A handler is a function on the tables: what it answers, and what it has committed.
use treadstone.Prelude.{
  ℕ, ◌≡◌, refl, ◌⊎◌, inl, inr, Bool, true, false, Option, some, List, [], ◌∷◌, leb, if◌then◌else◌,
}
use treadstone.Sandbox.{Sandbox}

pub data Role : Type 0 where
  admin rw ro : Role

abbrev pub is_admin : Role → Bool
is_admin Role.admin = true
is_admin _ = false

pub record User : Type 0 where
  pub id : ℕ
  pub email : ℕ
  pub hashed_password : ℕ
  pub has_local_password : Bool
  pub is_active : Bool
  pub is_verified : Bool
  pub role : Role

pub data ApiKeyDataPlaneMode : Type 0 where
  none all selected : ApiKeyDataPlaneMode

pub record ApiKey : Type 0 where
  pub id : ℕ
  pub key_hash : ℕ
  pub name : ℕ
  pub user_id : ℕ
  pub is_enabled : Bool
  pub control_plane_enabled : Bool
  pub data_plane_mode : ApiKeyDataPlaneMode
  pub gmt_created : ℕ
  pub gmt_updated : ℕ
  pub gmt_expires : Option ℕ
  pub gmt_deleted : Option ℕ

pub record ApiKeySandboxGrant : Type 0 where
  pub api_key_id : ℕ
  pub sandbox_id : ℕ

-- `is_expired` of the models with a `gmt_expires`
abbrev pub expired_at : ℕ → Option ℕ → Bool
expired_at now Option.none = false
expired_at now (some expires) = leb expires now

-- The column `status`, and `expired`, which is only shown.
pub data FlowStatus : Type 0 where
  pending approved used failed expired : FlowStatus

pub record CliLoginFlow : Type 0 where
  pub id : ℕ
  pub flow_secret_hash : ℕ
  pub status : FlowStatus
  pub user_id : Option ℕ
  pub provider : Option ℕ
  pub gmt_created : ℕ
  pub gmt_expires : ℕ
  pub gmt_completed : Option ℕ

-- What `record_audit_event` is called with: the action, whom it is about, and whether it failed.
pub data AuditEvent : Type 0 where
  auth_login : ℕ → AuditEvent
  auth_login_failed : ℕ → AuditEvent
  auth_register : ℕ → AuditEvent
  auth_register_failed : ℕ → AuditEvent
  user_status_change : ℕ → Bool → AuditEvent
  user_delete : ℕ → AuditEvent
  api_key_create : ℕ → AuditEvent
  api_key_update : ℕ → AuditEvent
  api_key_delete : ℕ → AuditEvent
  web_link_open : ℕ → AuditEvent
  web_link_open_failed : ℕ → AuditEvent

pub record Accounts : Type 0 where
  pub users : List User
  pub api_keys : List ApiKey
  pub grants : List ApiKeySandboxGrant
  pub flows : List CliLoginFlow
  pub sandboxes : List Sandbox
  pub audit : List AuditEvent

pub data Error : Type 0 where
  not_found : Error
  auth_required : Error
  auth_invalid : Error
  forbidden : Error
  bad_request : Error
  flow_expired : Error
  flow_used : Error
  flow_not_approved : FlowStatus → Error
  conflict : Error
  sandbox_not_found : Error
  sandbox_not_ready : Error
  sandbox_unreachable : Error
  validation : Error
  registration_cap : ℕ → ℕ → Error
  sandbox_cap : ℕ → ℕ → Error
  storage_cap : ℕ → ℕ → ℕ → Error
  waitlist_cap : ℕ → ℕ → Error

pub data Result {ℓ} (A : Type ℓ) : Type ℓ where
  err : Error → Result A
  ok : A → Result A

pub Result-cases {ℓ} :
    {A : Type ℓ} (r : Result A) → ((e : Error) × (r ≡ err e)) ⊎ ((a : A) × (r ≡ ok a))
Result-cases (ok a) = inr (a, refl)
Result-cases (err e) = inl (e, refl)

-- An exception ends the handler: nothing after it runs.
infixl 5 ◌>>=◌ ◌>>◌
abbrev pub ◌>>=◌ {ℓ κ} :
    {Found : Type ℓ} {A : Type κ} → Result Found → (Found → Result A) → Result A
err e >>= rest = err e
ok found >>= rest = rest found

abbrev pub ◌>>◌ {ℓ} : {A : Type ℓ} → Result (Unit {0}) → Result A → Result A
check >> rest = check >>= λ _. rest

abbrev pub raise_if : Bool → Error → Result (Unit {0})
raise_if true e = err e
raise_if false e = ok tt

abbrev pub or_raise {ℓ} : {A : Type ℓ} → Option A → Error → Result A
or_raise Option.none e = err e
or_raise (some a) e = ok a

-- `UPDATE … SET … WHERE …`
abbrev pub update_where {ℓ} : {A : Type ℓ} → (A → Bool) → (A → A) → List A → List A
update_where p f [] = []
update_where p f (x ∷ xs) = (if p x then f x else x) ∷ update_where p f xs

-- A handler that succeeds has passed its first step, and then the rest.
pub >>=-eq-ok {ℓ κ} :
    {Found : Type ℓ} {A : Type κ} (first : Result Found) (rest : Found → Result A) {answer : A}
    → (first >>= rest) ≡ ok answer
    → (found : Found) × (first ≡ ok found) × (rest found ≡ ok answer)
>>=-eq-ok (err e) rest h = cc
>>=-eq-ok (ok found) rest h = (found, refl, h)

pub or_raise-eq-ok {ℓ} :
    {A : Type ℓ} (o : Option A) (e : Error) {a : A} → or_raise o e ≡ ok a → o ≡ some a
or_raise-eq-ok Option.none e h = cc
or_raise-eq-ok (some a) e h = cc

pub ok_inj : {A : Type 0} {a b : A} → ok a ≡ ok b → a ≡ b
ok_inj h = cc
