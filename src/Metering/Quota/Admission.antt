-- ===== src/Metering/Quota/Admission.antt =====
-- What it means that the checks let a creation through.
use Prim.Native.String.{String}
use treadstone.Prelude.{
  ℕ, suc, ◌+◌, ◌*◌, ◌≤◌, ◌≡◌, refl, Bool, true, false, Option, none, some, List, ◌∷◌, ◌⊎◌, arith,
  inl, inr, ap, sym, All, [], ◌∙◌,
}
use treadstone.Prelude.Int.{pos, ◌-ℤ◌, ◌<ℤ◌}
use treadstone.Sandbox.{Sandbox}
use treadstone.Metering.Model.{UserPlan, Tables, Env, Error, ok}
use treadstone.Sandbox.{StorageBackendMode}
use treadstone.Metering.Plans.{plan_of}
use treadstone.Metering.Pools.{get_extra_compute_remaining, remaining_of}
use treadstone.Metering.Storage.{
  active_ledger, record_storage_allocation, get_current_storage_used, get_extra_storage_quota,
}
use treadstone.Metering.Quota.{text_in, count_running_sandboxes, enforce_create}
use treadstone.Metering.Quota.Checks.{
  first_failure, storage_short, create_tests, enforce_create_lem,
}

abbrev size_or_zero : Option ℕ → ℕ
size_or_zero none = 0
size_or_zero (some n) = n

-- What the plan asks of a creation, as of the tables and the sandboxes.
pub record Admits (env : Env) (sandboxes : List Sandbox) (user : ℕ) (template : String)
    (size_gib : Option ℕ) (auto_stop_interval : ℕ) (t : Tables) (plan : UserPlan) : Type 0 where
  pub template_allowed : text_in template plan.allowed_templates ≡ true
  pub credits : pos 0 <ℤ remaining_of plan (get_extra_compute_remaining env user t)
  pub running : suc (count_running_sandboxes user sandboxes) ≤ plan.max_concurrent_running
  pub storage :
      (size_gib ≡ none)
      ⊎ (get_current_storage_used user t + size_or_zero size_gib
          ≤ plan.storage_capacity_limit_gib + get_extra_storage_quota env user t)
  pub duration :
      (plan.max_sandbox_duration_seconds ≡ 0)
      ⊎ ((1 ≤ auto_stop_interval) × (auto_stop_interval * 60 ≤ plan.max_sandbox_duration_seconds))

abbrev Passes : Bool × Error → Type 0
Passes test = test.0 ≡ false

first_failure-All :
    (tests : List (Bool × Error)) (n : ℕ) {m : ℕ} → first_failure tests n ≡ ok m → All Passes tests
first_failure-All [] n h = tt
first_failure-All ((fails, e) ∷ rest) n {m} h = ground (arith, h, first_failure-All rest n {m = m})

All-first_failure :
    (tests : List (Bool × Error)) (n : ℕ) → All Passes tests → first_failure tests n ≡ ok n
All-first_failure [] n h = refl
All-first_failure ((fails, e) ∷ rest) n h = rw h.0 (All-first_failure rest n h.1)

module _ (env : Env) (sandboxes : List Sandbox) (user : ℕ) (template : String) (t : Tables)
    (plan : UserPlan) where
  storage_fits :
      (size_gib : Option ℕ)
      → storage_short env sandboxes user template t plan size_gib ≡ false
      → (size_gib ≡ none)
        ⊎ (get_current_storage_used user t + size_or_zero size_gib
            ≤ plan.storage_capacity_limit_gib + get_extra_storage_quota env user t)
  unfolding ◌-ℤ◌
  storage_fits none h = inl refl
  storage_fits (some size) h = inr (fits size h)
    where
      fits :
          (size : ℕ)
          → storage_short env sandboxes user template t plan (some size) ≡ false
          → get_current_storage_used user t + size
            ≤ plan.storage_capacity_limit_gib + get_extra_storage_quota env user t
      fits size h = ground (arith, h)

  -- A creation that the checks let through, for a user who has a plan, is one that the plan admits:
  -- the template is allowed, credits remain, one more running sandbox is within the limit, the
  -- storage fits into the quota and the interval is within the ceiling.
  pub enforce_create-Admits :
      (size_gib : Option ℕ) (auto_stop_interval : ℕ) {d : ℕ}
      → plan_of user t.plans ≡ some plan
      → (enforce_create env sandboxes user template size_gib auto_stop_interval t).0 ≡ ok d
      → Admits env sandboxes user template size_gib auto_stop_interval t plan
  enforce_create-Admits size_gib auto_stop_interval found h =
      let run =
        enforce_create_lem env sandboxes user template t plan found size_gib auto_stop_interval in
      let passed =
        first_failure-All
          (create_tests env sandboxes user template t plan size_gib auto_stop_interval)
          plan.max_sandbox_duration_seconds (sym (ap (λ r. r.0) run) ∙ h) in
      let (a, (b, (c, (d, (e, _))))) = passed in
      record {
        template_allowed = ground (arith, a);
        credits = ground (arith, b);
        running = ground (arith, c);
        storage = storage_fits size_gib d;
        duration = ground (arith, e);
      }

  storage_fits_not_short :
      (size_gib : Option ℕ)
      → (size_gib ≡ none)
        ⊎ (get_current_storage_used user t + size_or_zero size_gib
            ≤ plan.storage_capacity_limit_gib + get_extra_storage_quota env user t)
      → storage_short env sandboxes user template t plan size_gib ≡ false
  unfolding ◌-ℤ◌
  storage_fits_not_short none h = refl
  storage_fits_not_short (some size) h = ground (arith, h)

  -- A creation that the plan of its user admits is let through: the checks change nothing, and
  -- answer the plan's ceiling on a sandbox's run.
  Admits-enforce_create :
      (size_gib : Option ℕ) (auto_stop_interval : ℕ)
      → plan_of user t.plans ≡ some plan
      → Admits env sandboxes user template size_gib auto_stop_interval t plan
      → enforce_create env sandboxes user template size_gib auto_stop_interval t
        ≡ (ok plan.max_sandbox_duration_seconds, t)
  Admits-enforce_create size_gib auto_stop_interval found a =
      enforce_create_lem env sandboxes user template t plan found size_gib auto_stop_interval
      ∙ ap (λ r. (r, t))
          (All-first_failure
            (create_tests env sandboxes user template t plan size_gib auto_stop_interval)
            plan.max_sandbox_duration_seconds
            (
              ground (arith, a.template_allowed),
              (
                ground (arith, a.credits),
                (
                  ground (arith, a.running),
                  (storage_fits_not_short size_gib a.storage, (ground (arith, a.duration), tt)),
                ),
              ),
            ))

-- What a user holds after an allocation, where it has no active row.
pub allocated-sum :
    (env : Env) (user sandbox size : ℕ) (mode : StorageBackendMode) (t : Tables)
    → active_ledger sandbox t.ledger ≡ none
    → get_current_storage_used user (record_storage_allocation env user sandbox size mode t).1
      ≡ get_current_storage_used user t + size
unfolding record_storage_allocation get_current_storage_used
allocated-sum env user sandbox size mode t missing = rw missing (ground arith)
