-- ===== src/Metering/Plans.antt =====
-- Plans of `MeteringService`: lookup by user, creation from a tier's template.
use text.Mathlib.Text.{◌==◌ as str_eq}
use Prim.Native.String.{String}
use treadstone.Prelude.{ℕ, Option, none, some, List, [], ◌∷◌, ◌&&◌, find_first, ◌==◌, if◌then◌else◌}
use treadstone.Prelude.Int.{pos}
use treadstone.Metering.Model.{
  TierTemplate, UserPlan, Env, not_found, Action, pure, gets, or_raise, modify, ◌>>=◌, ◌>>◌,
}

abbrev pub plan_of : ℕ → List UserPlan → Option UserPlan
plan_of user = find_first (λ p. p.user_id == user)

-- The session writes a changed plan back to its row; `user_id` is unique.
abbrev pub put_plan : UserPlan → List UserPlan → List UserPlan
put_plan p [] = []
put_plan p (q ∷ qs) =
    let rest = put_plan p qs in if q.user_id == p.user_id then p ∷ qs else q ∷ rest

abbrev pub save_plan : UserPlan → Action (Unit {0})
save_plan p = modify (λ t. record t { plans = put_plan p t.plans })

unfoldable pub get_tier_template : String → Action TierTemplate
get_tier_template tier_name =
    gets (λ t. find_first (λ r. str_eq r.tier_name tier_name && r.is_active) t.tiers) >>= λ found.
    or_raise found not_found

-- The defaults that a tier's template gives to a new plan.
abbrev new_plan : Env → ℕ → TierTemplate → UserPlan
new_plan env user template = record {
  user_id = user;
  tier = template.tier_name;
  compute_units_monthly_limit = template.compute_units_monthly;
  storage_capacity_limit_gib = template.storage_capacity_gib;
  max_concurrent_running = template.max_concurrent_running;
  max_sandbox_duration_seconds = template.max_sandbox_duration_seconds;
  allowed_templates = template.allowed_templates;
  grace_period_seconds = template.grace_period_seconds;
  period_start = env.period_start;
  period_end = env.period_end;
  compute_units_monthly_used = pos 0;
  compute_units_overage = pos 0;
  grace_period_started_at = none;
  warning_80_notified_at = none;
  warning_100_notified_at = none;
  gmt_updated = env.now;
}

-- `WELCOME_BONUS_AMOUNT` is 0, so the branch that grants a bonus is never taken.
unfoldable pub create_plan : Env → ℕ → String → Action UserPlan
create_plan env user tier = do
  template ← get_tier_template tier
  modify (λ t. record t { plans = new_plan env user template ∷ t.plans })
  pure (new_plan env user template)

abbrev or_create : Option UserPlan → Action UserPlan → Action UserPlan
or_create none create = create
or_create (some p) create = pure p

unfoldable pub ensure_user_plan : Env → ℕ → String → Action UserPlan
ensure_user_plan env user tier = do
  existing ← gets (λ t. plan_of user t.plans)
  or_create existing (create_plan env user tier)

unfoldable pub get_user_plan : Env → ℕ → Action UserPlan
get_user_plan env user = ensure_user_plan env user "free"

-- After a first miss the plan is created and fetched again.
unfoldable pub get_user_plan_for_update : Env → ℕ → Action UserPlan
get_user_plan_for_update env user = do
  found ← gets (λ t. plan_of user t.plans)
  or_create found do
    ensure_user_plan env user "free"
    again ← gets (λ t. plan_of user t.plans)
    or_raise again not_found
