-- ===== src/Metering/Quota/Checks.antt =====
-- What each check answers for a user who has a plan: no check changes a table.
use Prim.Native.String.{String}
use treadstone.Prelude.{
  ℕ, ◌+◌, ◌*◌, ◌≡◌, refl, Bool, List, [], ◌∷◌, true, false, ◌&&◌, none, some, Option, ◌∙◌, not, ltb,
  leb, ◌==◌, ◌||◌, if◌then◌else◌, arith,
}
use treadstone.Prelude.Int.{pos, leb_ℤ, ltb_ℤ, ◌-ℤ◌}
use treadstone.Sandbox.{Sandbox}
use treadstone.Metering.Model.{
  UserPlan, Tables, Env, Error, Result, ok, err, template_not_allowed, compute_quota_exceeded,
  concurrent_limit, storage_quota_exceeded, sandbox_duration_exceeded, Action, ◌>>◌, bind_ok, pure,
  raise_if,
}
use treadstone.Metering.Plans.{plan_of}
use treadstone.Metering.Pools.{get_extra_compute_remaining, remaining_of}
use treadstone.Metering.Pools.Totals.{get_user_plan_lem, get_user_plan_for_update_lem}
use treadstone.Metering.Storage.{get_current_storage_used, get_extra_storage_quota}
use treadstone.Metering.Quota.{
  text_in, check_template_allowed, check_compute_quota, count_running_sandboxes,
  check_concurrent_limit, check_storage_quota, check_sandbox_duration,
  validate_auto_stop_interval_for_tier, check_storage_option, enforce_create,
}

abbrev verdict : Bool → Error → Result (Unit {0})
verdict fails e = if fails then err e else ok tt

module _ (env : Env) (user : ℕ) (t : Tables) (plan : UserPlan)
    (found : plan_of user t.plans ≡ some plan) where
  check_template_allowed_lem :
      (template : String)
      → check_template_allowed env user template t
        ≡ (verdict (not (text_in template plan.allowed_templates)) template_not_allowed, t)
  unfolding check_template_allowed
  check_template_allowed_lem template = ground (arith, get_user_plan_lem env user t plan found)

  check_compute_quota_lem : check_compute_quota env user t ≡ (
    verdict
        (leb_ℤ (remaining_of plan (get_extra_compute_remaining env user t)) (pos 0))
        compute_quota_exceeded,
    t,
  )
  unfolding check_compute_quota
  check_compute_quota_lem = ground (arith, get_user_plan_lem env user t plan found)

  check_concurrent_limit_lem :
      (sandboxes : List Sandbox)
      → check_concurrent_limit env sandboxes user t ≡ (
        verdict
            (leb plan.max_concurrent_running (count_running_sandboxes user sandboxes))
            concurrent_limit,
        t,
      )
  unfolding check_concurrent_limit
  check_concurrent_limit_lem sandboxes =
      ground (arith, get_user_plan_for_update_lem env user t plan found)

  check_storage_quota_lem :
      (size : ℕ)
      → check_storage_quota env user size t ≡ (
        verdict
            (ltb_ℤ
              (pos (plan.storage_capacity_limit_gib + get_extra_storage_quota env user t)
                -ℤ pos (get_current_storage_used user t))
              (pos size))
            storage_quota_exceeded,
        t,
      )
  unfolding check_storage_quota
  check_storage_quota_lem size = ground (arith, get_user_plan_lem env user t plan found)

  check_sandbox_duration_lem :
      check_sandbox_duration env user t ≡ (ok plan.max_sandbox_duration_seconds, t)
  unfolding check_sandbox_duration
  check_sandbox_duration_lem = ground (arith, get_user_plan_lem env user t plan found)

-- The error of the first test that fails.
abbrev pub first_failure : List (Bool × Error) → ℕ → Result ℕ
first_failure [] n = ok n
first_failure ((fails, e) ∷ rest) n = if fails then err e else first_failure rest n

-- A check that changes nothing, before what follows it.
check_then :
    (m : Action (Unit {0})) (k : Action ℕ) (t : Tables) (fails : Bool) (e : Error)
    (rest : List (Bool × Error)) (n : ℕ)
    → m t ≡ (verdict fails e, t)
    → k t ≡ (first_failure rest n, t)
    → (m >> k) t ≡ (first_failure ((fails, e) ∷ rest) n, t)
check_then m k t true e rest n h g = ground (arith, h)
check_then m k t false e rest n h g = ground (arith, h, g)

duration_rule :
    (max_duration interval : ℕ) (t : Tables)
    → (if leb max_duration 0
          then pure max_duration
          else raise_if
              (interval == 0 || ltb max_duration (interval * 60))
              sandbox_duration_exceeded
            >> pure max_duration)
        t
      ≡ (
        first_failure
            ((
              not (leb max_duration 0) && (interval == 0 || ltb max_duration (interval * 60)),
              sandbox_duration_exceeded,
            )
              ∷ [])
            max_duration,
        t,
      )
duration_rule max_duration interval t = ground arith

module _ (env : Env) (sandboxes : List Sandbox) (user : ℕ) (template : String) (t : Tables)
    (plan : UserPlan) where
  abbrev pub storage_short : Option ℕ → Bool
  storage_short none = false
  storage_short (some size) =
      ltb_ℤ
        (pos (plan.storage_capacity_limit_gib + get_extra_storage_quota env user t)
          -ℤ pos (get_current_storage_used user t))
        (pos size)

  abbrev too_long : ℕ → Bool
  too_long auto_stop_interval =
      not (leb plan.max_sandbox_duration_seconds 0)
      && (auto_stop_interval == 0
          || ltb plan.max_sandbox_duration_seconds (auto_stop_interval * 60))

  -- The tests of a creation, in the order in which they are made.
  abbrev pub create_tests : Option ℕ → ℕ → List (Bool × Error)
  create_tests size_gib auto_stop_interval =
      (not (text_in template plan.allowed_templates), template_not_allowed)
      ∷ (
        leb_ℤ (remaining_of plan (get_extra_compute_remaining env user t)) (pos 0),
        compute_quota_exceeded,
      )
      ∷ (leb plan.max_concurrent_running (count_running_sandboxes user sandboxes), concurrent_limit)
      ∷ (storage_short size_gib, storage_quota_exceeded)
      ∷ (too_long auto_stop_interval, sandbox_duration_exceeded)
      ∷ []

  module _ (found : plan_of user t.plans ≡ some plan) where
    check_storage_option_lem :
        (size_gib : Option ℕ)
        → check_storage_option env user size_gib t
          ≡ (verdict (storage_short size_gib) storage_quota_exceeded, t)
    check_storage_option_lem none = refl
    check_storage_option_lem (some size) = check_storage_quota_lem env user t plan found size

    validate_duration_lem :
        (auto_stop_interval : ℕ)
        → validate_auto_stop_interval_for_tier env user auto_stop_interval t ≡ (
          first_failure
              ((too_long auto_stop_interval, sandbox_duration_exceeded) ∷ [])
              plan.max_sandbox_duration_seconds,
          t,
        )
    unfolding validate_auto_stop_interval_for_tier
    validate_duration_lem auto_stop_interval =
        bind_ok (check_sandbox_duration env user)
          (λ max_duration.
            if leb max_duration 0
            then pure max_duration
            else raise_if (auto_stop_interval == 0 || ltb max_duration (auto_stop_interval * 60))
                sandbox_duration_exceeded
              >> pure max_duration)
          t t (check_sandbox_duration_lem env user t plan found)
        ∙ duration_rule plan.max_sandbox_duration_seconds auto_stop_interval t

    -- For a user who has a plan the checks of a creation change no table, and what they answer is
    -- the error of the first of them that fails, in the order template, credits, concurrency,
    -- storage, duration; or else the plan's ceiling on a sandbox's run.
    pub enforce_create_lem :
        (size_gib : Option ℕ) (auto_stop_interval : ℕ)
        → enforce_create env sandboxes user template size_gib auto_stop_interval t ≡ (
          first_failure
              (create_tests size_gib auto_stop_interval)
              plan.max_sandbox_duration_seconds,
          t,
        )
    unfolding enforce_create
    enforce_create_lem size_gib auto_stop_interval =
        let cap = plan.max_sandbox_duration_seconds in
        let k4 = validate_auto_stop_interval_for_tier env user auto_stop_interval in
        let k3 = check_storage_option env user size_gib >> k4 in
        let k2 = check_concurrent_limit env sandboxes user >> k3 in
        let k1 = check_compute_quota env user >> k2 in
        let l4 : List (Bool × Error) =
          (too_long auto_stop_interval, sandbox_duration_exceeded) ∷ [] in
        let l3 : List (Bool × Error) = (storage_short size_gib, storage_quota_exceeded) ∷ l4 in
        let busy = leb plan.max_concurrent_running (count_running_sandboxes user sandboxes) in
        let l2 : List (Bool × Error) = (busy, concurrent_limit) ∷ l3 in
        let broke = leb_ℤ (remaining_of plan (get_extra_compute_remaining env user t)) (pos 0) in
        let l1 : List (Bool × Error) = (broke, compute_quota_exceeded) ∷ l2 in
        check_then (check_template_allowed env user template) k1 t
          (not (text_in template plan.allowed_templates)) template_not_allowed l1 cap
          (check_template_allowed_lem env user t plan found template)
          (check_then (check_compute_quota env user) k2 t broke compute_quota_exceeded l2 cap
            (check_compute_quota_lem env user t plan found)
            (check_then (check_concurrent_limit env sandboxes user) k3 t busy concurrent_limit l3
              cap (check_concurrent_limit_lem env user t plan found sandboxes)
              (check_then (check_storage_option env user size_gib) k4 t (storage_short size_gib)
                storage_quota_exceeded l4 cap (check_storage_option_lem size_gib)
                (validate_duration_lem auto_stop_interval))))
