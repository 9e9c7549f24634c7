-- ===== src/Metering/Quota.antt =====
-- The quota checks of `MeteringService`, and the part of `SandboxService._validate_create` that
-- runs them before a sandbox is created. The rows of the sandboxes are an argument: these checks
-- only count them. The storage size is the number that `parse_storage_size_gib` reads.
pub mod Checks
pub mod Admission
use Prim.Native.String.{String}
use text.Mathlib.Text.{◌==◌ as str_eq}
use treadstone.Prelude.{
  ℕ, ◌+◌, ◌*◌, Bool, false, Option, none, some, List, [], ◌∷◌, ◌&&◌, ◌||◌, not, count, ltb, leb,
  ◌==◌, if◌then◌else◌,
}
use treadstone.Prelude.Int.{ℤ, pos, ◌-ℤ◌, ◌+ℤ◌, leb_ℤ, ltb_ℤ}
use treadstone.Sandbox.{Sandbox, creating, ready, status_in}
use treadstone.Metering.Model.{
  Env, template_not_allowed, compute_quota_exceeded, concurrent_limit, storage_quota_exceeded,
  sandbox_duration_exceeded, Action, pure, gets, raise_if, ◌>>=◌, ◌>>◌,
}
use treadstone.Metering.Plans.{get_user_plan, get_user_plan_for_update}
use treadstone.Metering.Pools.{get_extra_compute_remaining, remaining_of}
use treadstone.Metering.Storage.{get_current_storage_used, get_extra_storage_quota}

-- `template in allowed_templates`
abbrev pub text_in : String → List String → Bool
text_in s [] = false
text_in s (x ∷ xs) = str_eq s x || text_in s xs

unfoldable pub check_template_allowed : Env → ℕ → String → Action (Unit {0})
check_template_allowed env user template = do
  plan ← get_user_plan env user
  raise_if (not (text_in template plan.allowed_templates)) template_not_allowed

unfoldable pub check_compute_quota : Env → ℕ → Action (Unit {0})
check_compute_quota env user = do
  plan ← get_user_plan env user
  extra ← gets (get_extra_compute_remaining env user)
  raise_if (leb_ℤ (remaining_of plan extra) (pos 0)) compute_quota_exceeded

-- `_count_running_sandboxes`
abbrev pub is_running_of : ℕ → Sandbox → Bool
is_running_of user s = s.owner_id == user && status_in s.status (creating ∷ ready ∷ [])

abbrev pub count_running_sandboxes : ℕ → List Sandbox → ℕ
count_running_sandboxes user = count (is_running_of user)

unfoldable pub check_concurrent_limit : Env → List Sandbox → ℕ → Action (Unit {0})
check_concurrent_limit env sandboxes user = do
  plan ← get_user_plan_for_update env user
  raise_if (leb plan.max_concurrent_running (count_running_sandboxes user sandboxes))
      concurrent_limit

unfoldable get_total_storage_quota : Env → ℕ → Action ℕ
get_total_storage_quota env user = do
  plan ← get_user_plan env user
  extra ← gets (get_extra_storage_quota env user)
  pure (plan.storage_capacity_limit_gib + extra)

-- What is available is negative where more is held than the quota.
unfoldable pub check_storage_quota : Env → ℕ → ℕ → Action (Unit {0})
check_storage_quota env user requested_gib = do
  plan ← get_user_plan env user
  extra ← gets (get_extra_storage_quota env user)
  used ← gets (get_current_storage_used user)
  raise_if (ltb_ℤ (pos (plan.storage_capacity_limit_gib + extra) -ℤ pos used) (pos requested_gib))
      storage_quota_exceeded

unfoldable pub check_sandbox_duration : Env → ℕ → Action ℕ
check_sandbox_duration env user = do
  plan ← get_user_plan env user
  pure plan.max_sandbox_duration_seconds

-- `_validate_auto_stop_interval_for_tier`, where enforcement is on: the interval is in minutes, 0
-- is "never", and a ceiling of 0 allows everything.
unfoldable pub validate_auto_stop_interval_for_tier : Env → ℕ → ℕ → Action ℕ
validate_auto_stop_interval_for_tier env user auto_stop_interval = do
  max_duration ← check_sandbox_duration env user
  if leb max_duration 0
      then pure max_duration
      else raise_if (auto_stop_interval == 0 || ltb max_duration (auto_stop_interval * 60))
          sandbox_duration_exceeded
        >> pure max_duration

abbrev check_storage_option : Env → ℕ → Option ℕ → Action (Unit {0})
check_storage_option env user none = pure tt
check_storage_option env user (some size_gib) = check_storage_quota env user size_gib

-- The enforcement checks of `_validate_create`; a size is given where the sandbox is persistent.
unfoldable pub enforce_create : Env → List Sandbox → ℕ → String → Option ℕ → ℕ → Action ℕ
enforce_create env sandboxes user template size_gib auto_stop_interval = do
  check_template_allowed env user template
  check_compute_quota env user
  check_concurrent_limit env sandboxes user
  check_storage_option env user size_gib
  validate_auto_stop_interval_for_tier env user auto_stop_interval
