-- ===== src/Metering/Tests.antt =====
-- The methods of `MeteringService` at concrete inputs.
pub mod Storage
pub mod Quota
use treadstone.Prelude.{
  ℕ, ◌^◌, ◌+◌, ◌*◌, ◌-◌, ◌≤◌, ◌≡◌, refl, Option, none, some, List, [], ◌∷◌, ◌++◌, not, select,
  arith,
}
use treadstone.Prelude.Int.{ℤ, pos, ◌-ℤ◌, ◌+ℤ◌, ◌<ℤ◌, min_ℤ, max_ℤ}
use treadstone.Metering.Model.{UserPlan, ComputeGrant, ComputeSession, Tables, Env, ok}
use treadstone.Metering.Helpers.{calculate_cu_rate}
use treadstone.Metering.Plans.{get_user_plan, get_user_plan_for_update}
use treadstone.Metering.Pools.{
  is_usable, by_expiry, consume_from, consume_compute_credits, drain_table,
  get_total_compute_remaining, get_extra_compute_remaining, remaining_of,
}
use treadstone.Metering.Sessions.{
  open_compute_session, close_compute_session, close_delta, max_close_delta, accrue, ended,
}
use treadstone.Metering.Pools.Conservation.{Accounts, consume_from-Accounts}
use treadstone.Metering.Pools.Fifo.{SpentInOrder, IsByExpiry, drain_table-in_order}
use treadstone.Metering.Sessions.Counts.{OpenOnce, compute_session-OpenOnce}

abbrev pub env : Env
env = record { now = 1000; period_start = 0; period_end = 5000; spec_cache = [] }

-- 100 credits a month of which 90 are used, 20 GiB, two running sandboxes.
abbrev pub plan : UserPlan
plan = record {
  user_id = 1;
  tier = "free";
  compute_units_monthly_limit = pos 100;
  storage_capacity_limit_gib = 20;
  max_concurrent_running = 2;
  max_sandbox_duration_seconds = 1800;
  allowed_templates = "aio-sandbox-tiny" ∷ [];
  grace_period_seconds = 600;
  period_start = 0;
  period_end = 5000;
  compute_units_monthly_used = pos 90;
  compute_units_overage = pos 0;
  grace_period_started_at = none;
  warning_80_notified_at = none;
  warning_100_notified_at = none;
  gmt_updated = 0;
}

abbrev grant : Option ℕ → ℤ → ComputeGrant
grant expires_at amount = record {
  user_id = 1;
  original_amount = amount;
  remaining_amount = amount;
  granted_at = 0;
  expires_at = expires_at;
  gmt_updated = 0;
}

-- One without an end, one that has expired, and one that ends first.
abbrev pub grants : List ComputeGrant
grants = grant none (pos 7) ∷ grant (some 900) (pos 50) ∷ grant (some 2000) (pos 5) ∷ []

abbrev pub session : ComputeSession
session = record {
  sandbox_id = 3;
  user_id = 1;
  template = "aio-sandbox-tiny";
  vcpu_request = 250;
  memory_request = 1024;
  started_at = 0;
  ended_at = none;
  last_metered_at = 400;
  vcpu_hours = 0;
  memory_hours = 0;
  gmt_updated = 0;
}

abbrev pub tables : Tables
tables = record {
  tiers = [];
  plans = plan ∷ [];
  grants = grants;
  storage_grants = [];
  sessions = session ∷ [];
  ledger = [];
}

-- 30 credits: 10 of the month, 5 and 7 of the grants in the order of their ends, 8 of overage.
consume_30 :
    (consume_compute_credits env 1 (pos 30) tables).0
    ≡ ok (record { monthly = pos 10; extra = pos 12; shortfall = pos 8 })
unfolding consume_compute_credits get_user_plan_for_update consume_from ◌-ℤ◌ max_ℤ drain_table min_ℤ
    ◌+ℤ◌
consume_30 = refl

thirty-Positive : pos 0 <ℤ pos 30
thirty-Positive = omega arith

pub tables-OpenOnce : OpenOnce tables
tables-OpenOnce sandbox = ground arith

abbrev tiny_rate : ℕ
tiny_rate = 2 ^ 29 * 250 + 125 * 2 ^ 30

tiny_rate_known : calculate_cu_rate env "aio-sandbox-tiny" ≡ ok tiny_rate
unfolding calculate_cu_rate
tiny_rate_known = refl

consume_from-Accounts_example :
    Accounts env plan grants (pos 30) (consume_from env plan grants (pos 30))
consume_from-Accounts_example = consume_from-Accounts env plan grants (pos 30) thirty-Positive

drain_table-in_order_example :
    (sorted rows : List ComputeGrant) × (sorted ≡ by_expiry (select (is_usable 1 1000) grants))
    × IsByExpiry sorted
    × SpentInOrder sorted rows
    × ((drain_table 1 1000 grants (pos 8)).rows
        ≡ rows ++ select (λ g. not (is_usable 1 1000 g)) grants)
drain_table-in_order_example = drain_table-in_order 1 1000 grants (pos 8)

compute_session-OpenOnce_example :
    OpenOnce (open_compute_session env 4 1 "aio-sandbox-tiny" tables).1
    × OpenOnce (close_compute_session env 4 tables).1
compute_session-OpenOnce_example =
    compute_session-OpenOnce env 4 1 "aio-sandbox-tiny" tables tables-OpenOnce
