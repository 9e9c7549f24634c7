-- ===== src/Metering/Tasks/Grace.antt =====
-- `check_grace_periods`, for one user. The callback that stops a sandbox is an argument; `none`
-- stands for an exception of it. It changes the row alone: the fallback `_db_only_stop`, which closes
-- the session too, is left out, and so is a callback that has changed the row when it raises. That an audit event cannot be written is logged by the code and
-- left out here.
pub mod Enforced
pub mod Kept
use treadstone.Prelude.{
  ℕ, ◌+◌, ◌*◌, ◌-◌, Bool, Option, none, some, List, [], ◌∷◌, ◌||◌, ltb, ◌==◌, if◌then◌else◌,
}
use treadstone.Prelude.Int.{ℤ, pos, ◌*ℤ◌, leb_ℤ, ltb_ℤ, pos_part, neg_part}
use treadstone.Sandbox.{stopped, Sandbox}
use treadstone.Metering.Model.{UserPlan, Tables, Env}
use treadstone.Metering.Plans.{plan_of, put_plan}
use treadstone.Metering.Sessions.{close_compute_session}
use treadstone.Metering.Quota.{is_running_of, count_running_sandboxes}

pub data GraceEvent : Type 0 where
  grace_period_started grace_period_cleared : GraceEvent
  auto_stop : ℕ → GraceEvent

-- The rows that a check changes, and the events that it records, the latest first.
pub record Graced : Type 0 where
  pub tables : Tables
  pub sandboxes : List Sandbox
  pub audit : List GraceEvent

-- `plan.grace_period_started_at = …` on the row of the user's plan.
abbrev set_start : Env → Option ℕ → Option UserPlan → Tables → Tables
set_start env start none t = t
set_start env start (some plan) t = record t {
  plans = put_plan (record plan { grace_period_started_at = start; gmt_updated = env.now }) t.plans;
}

abbrev pub set_grace : Env → ℕ → Option ℕ → Tables → Tables
set_grace env user start t = set_start env start (plan_of user t.plans) t

-- What is kept of a sandbox and of the loop over the rest.
abbrev stopped_row : Env → Sandbox → Option Sandbox → Graced → Graced
stopped_row env s none g = record g { sandboxes = s ∷ g.sandboxes }
stopped_row env s (some s') g = record g {
  sandboxes = s' ∷ g.sandboxes;
  audit = auto_stop s.id ∷ g.audit;
}

abbrev closed_session : Env → Sandbox → Option Sandbox → Tables → Tables
closed_session env s none t = t
closed_session env s (some s') t = (close_compute_session env s.id t).1

-- The loop of `_enforce_stop` over the sandboxes of the user that run.
unfoldable pub stop_all : Env → (Sandbox → Option Sandbox) → ℕ → List Sandbox → Tables → Graced
stop_all env stop user [] t = record { tables = t; sandboxes = []; audit = [] }
stop_all env stop user (s ∷ ss) t =
    if is_running_of user s
    then stopped_row env s (stop s) (stop_all env stop user ss (closed_session env s (stop s) t))
    else (let g = stop_all env stop user ss t in record g { sandboxes = s ∷ g.sandboxes })

-- `_enforce_stop`
unfoldable pub enforce_stop : Env → (Sandbox → Option Sandbox) → ℕ → List Sandbox → Tables → Graced
unfolding stop_all
enforce_stop env stop user sandboxes t =
    let g = stop_all env stop user sandboxes t in
    if count_running_sandboxes user g.sandboxes == 0
    then record g { tables = set_grace env user none g.tables }
    else g

-- `overage > monthly_limit * 0.20`
abbrev pub exceeds_cap : ℤ → UserPlan → Bool
exceeds_cap total plan =
    ltb_ℤ plan.compute_units_monthly_limit (pos (5 * (pos_part total + neg_part total)))

abbrev pub is_expired : Env → ℕ → UserPlan → Bool
is_expired env started plan = ltb (plan.grace_period_seconds * 1000000) (env.now - started)

abbrev left_alone : List Sandbox → Tables → Graced
left_alone sandboxes t = record { tables = t; sandboxes = sandboxes; audit = [] }

-- `_handle_exhausted`
unfoldable pub handle_exhausted :
    Env → (Sandbox → Option Sandbox) → ℕ → ℤ → UserPlan → List Sandbox → Tables → Graced
unfolding enforce_stop
handle_exhausted env stop user total plan sandboxes t = elim plan.grace_period_started_at [
  | none ↦ record {
    tables = set_grace env user (some env.now) t;
    sandboxes = sandboxes;
    audit = grace_period_started ∷ [];
  }
  | some started ↦
      if is_expired env started plan || exceeds_cap total plan
      then enforce_stop env stop user sandboxes t
      else left_alone sandboxes t
]

-- `_handle_credits_restored`
unfoldable pub handle_credits_restored : Env → ℕ → UserPlan → List Sandbox → Tables → Graced
handle_credits_restored env user plan sandboxes t = elim plan.grace_period_started_at [
  | none ↦ left_alone sandboxes t
  | some _ ↦ record {
    tables = set_grace env user none t;
    sandboxes = sandboxes;
    audit = grace_period_cleared ∷ [];
  }
]

-- One step of the loop of `check_grace_periods`.
unfoldable pub check_grace_period :
    Env → (Sandbox → Option Sandbox) → ℕ → ℤ → UserPlan → List Sandbox → Tables → Graced
unfolding handle_exhausted handle_credits_restored
check_grace_period env stop user total plan sandboxes t =
    if leb_ℤ total (pos 0)
    then handle_exhausted env stop user total plan sandboxes t
    else handle_credits_restored env user plan sandboxes t
