-- ===== src/Metering/Model.antt =====
-- The rows of treadstone/metering/models/metering.py and what a method of `MeteringService` reads
-- and writes. Times are microseconds since the epoch. Compute credits are exact multiples of one
-- quantum, 1 / (125 * 2^33 * 3600 * 10^6) of a CU (Helpers has why), and may be negative: they are
-- the amounts that a method computes. That Postgres keeps four decimals of them, and `Decimal` 28
-- digits of a quotient, is not modelled. Ids are only compared, so they are numbers. Descriptive
-- columns that no method reads are left out.
use Prim.Native.String.{String}
use treadstone.Prelude.{ℕ, ◌≡◌, refl, ap, Bool, Option, none, some, List, if◌then◌else◌}
use treadstone.Prelude.Int.{ℤ}
use treadstone.Sandbox.{StorageBackendMode}

pub data StorageState : Type 0 where
  active archived deleted : StorageState

pub record TierTemplate : Type 0 where
  pub tier_name : String
  pub compute_units_monthly : ℤ
  pub storage_capacity_gib : ℕ
  pub max_concurrent_running : ℕ
  pub max_sandbox_duration_seconds : ℕ
  pub allowed_templates : List String
  pub grace_period_seconds : ℕ
  pub is_active : Bool

pub record UserPlan : Type 0 where
  pub user_id : ℕ
  pub tier : String
  pub compute_units_monthly_limit : ℤ
  pub storage_capacity_limit_gib : ℕ
  pub max_concurrent_running : ℕ
  pub max_sandbox_duration_seconds : ℕ
  pub allowed_templates : List String
  pub grace_period_seconds : ℕ
  pub period_start : ℕ
  pub period_end : ℕ
  pub compute_units_monthly_used : ℤ
  pub compute_units_overage : ℤ
  pub grace_period_started_at : Option ℕ
  pub warning_80_notified_at : Option ℕ
  pub warning_100_notified_at : Option ℕ
  pub gmt_updated : ℕ

pub record ComputeGrant : Type 0 where
  pub user_id : ℕ
  pub original_amount : ℤ
  pub remaining_amount : ℤ
  pub granted_at : ℕ
  pub expires_at : Option ℕ
  pub gmt_updated : ℕ

pub record StorageQuotaGrant : Type 0 where
  pub user_id : ℕ
  pub size_gib : ℕ
  pub granted_at : ℕ
  pub expires_at : Option ℕ

-- The raw hours are counted in request units times microseconds, so they stay exact.
pub record ComputeSession : Type 0 where
  pub sandbox_id : ℕ
  pub user_id : ℕ
  pub template : String
  pub vcpu_request : ℕ
  pub memory_request : ℕ
  pub started_at : ℕ
  pub ended_at : Option ℕ
  pub last_metered_at : ℕ
  pub vcpu_hours : ℕ
  pub memory_hours : ℕ
  pub gmt_updated : ℕ

-- `gib_hours_consumed` is in units of 0.0001 GiB-hours, the column's scale.
pub record StorageLedger : Type 0 where
  pub user_id : ℕ
  pub sandbox_id : ℕ
  pub size_gib : ℕ
  pub storage_state : StorageState
  pub backend_mode : StorageBackendMode
  pub allocated_at : ℕ
  pub released_at : Option ℕ
  pub gib_hours_consumed : ℕ
  pub last_metered_at : ℕ
  pub gmt_updated : ℕ

-- A database table is a bag of rows: the order of these lists has no meaning.
pub record Tables : Type 0 where
  pub tiers : List TierTemplate
  pub plans : List UserPlan
  pub grants : List ComputeGrant
  pub storage_grants : List StorageQuotaGrant
  pub sessions : List ComputeSession
  pub ledger : List StorageLedger

-- `resource_spec` of a template: thousandths of a vCPU, and bytes.
pub record Spec : Type 0 where
  pub vcpu : ℕ
  pub memory : ℕ

-- What a call reads from outside its session: one reading of the clock, the billing period that
-- `compute_period_bounds` gives for it, and the runtime cache of template specs.
pub record Env : Type 0 where
  pub now : ℕ
  pub period_start : ℕ
  pub period_end : ℕ
  pub spec_cache : List (String × Spec)

-- core/errors.py and the errors of the domains, those that these methods raise.
pub data Error : Type 0 where
  not_found bad_request template_not_allowed compute_quota_exceeded : Error
  concurrent_limit storage_quota_exceeded sandbox_duration_exceeded : Error

pub data Result {ℓ} (A : Type ℓ) : Type ℓ where
  ok : A → Result A
  err : Error → Result A

-- A method on the session: what was written before a raise stays in the session.
abbrev pub Action : Type 0 → Type 0
Action A = Tables → Result A × Tables

abbrev pub pure : {A : Type 0} → A → Action A
pure a t = (ok a, t)

abbrev raise : {A : Type 0} → Error → Action A
raise e t = (err e, t)

abbrev pub gets : {A : Type 0} → (Tables → A) → Action A
gets f t = (ok (f t), t)

abbrev pub modify : (Tables → Tables) → Action (Unit {0})
modify f t = (ok tt, f t)

abbrev pub or_raise : {A : Type 0} → Option A → Error → Action A
or_raise none e = raise e
or_raise (some a) e = pure a

abbrev pub raise_if : Bool → Error → Action (Unit {0})
raise_if c e t = (if c then err e else ok tt, t)

infixl 5 ◌>>=◌ ◌>>◌
abbrev pub ◌>>=◌ : {A B : Type 0} → Action A → (A → Action B) → Action B
◌>>=◌ m f t = let (r, t') = m t in elim r [ ok a ↦ f a t' | err e ↦ (err e, t') ]

abbrev pub ◌>>◌ : {A B : Type 0} → Action A → Action B → Action B
m >> k = m >>= λ _. k

-- To prove something of a chain: of each way in which its first step may end.
pub bind_rule {κ} :
    {A B : Type 0} (m : Action A) (f : A → Action B) (t : Tables) (P : Result B × Tables → Type κ)
    → ((a : A) → (m t).0 ≡ ok a → P (f a (m t).1))
    → ((e : Error) → (m t).0 ≡ err e → P (err e, (m t).1))
    → P ((m >>= f) t)
bind_rule {A} {B} m f t P returns raises = go (m t).0 refl
  where
    go :
        (r : Result A)
        → (m t).0 ≡ r
        → P (elim r as (λ _. Result B × Tables) [ ok a ↦ f a (m t).1 | err e ↦ (err e, (m t).1) ])
    go (ok a) h = returns a h
    go (err e) h = raises e h

pub bind_ok :
    {A B : Type 0} (m : Action A) (f : A → Action B) (t t' : Tables) {a : A}
    → m t ≡ (ok a, t')
    → (m >>= f) t ≡ f a t'
bind_ok {A} {B} m f t t' h =
    ap
      (λ (r : Result A × Tables). elim r.0 as (λ _. Result B × Tables) [
        | ok a ↦ f a r.1
        | err e ↦ (err e, r.1)
      ])
      h
