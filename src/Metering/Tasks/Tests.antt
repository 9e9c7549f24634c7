-- ===== src/Metering/Tasks/Tests.antt =====
-- The metering tasks at concrete inputs: a month is 5000 microseconds.
use treadstone.Prelude.{
  ℕ, ◌+◌, ◌*◌, ◌^◌, ◌≤◌, ◌<◌, ◌≡◌, refl, Bool, true, false, Option, none, some, List, [], ◌∷◌,
  arith, ◌⊎◌, count, if◌then◌else◌,
}
use treadstone.Prelude.Int.{pos, ◌*ℤ◌}
use treadstone.Metering.Helpers.{calculate_cu_rate}
use treadstone.Sandbox.{Sandbox, ready, stopped, live_disk}
use treadstone.Metering.Model.{UserPlan, ComputeSession, Tables, ok}
use treadstone.Metering.Sessions.{open_count}
use treadstone.Metering.Tests.{env, plan, session, tables, tables-OpenOnce}
use treadstone.Cold.Tests.{row}
use treadstone.Lifecycle.{k8s_stop_sandbox}
use treadstone.Metering.Tasks.Tick.{Metered, metered_at, tick_rows}
use treadstone.Metering.Tasks.Tick.Charges.{amount_of, owed, amount_of-tick_rows}
use treadstone.Metering.Tasks.Warnings.{
  Reading, check_warning_threshold, check_all, is_80, is_100, check_all-once,
}
use treadstone.Metering.Tasks.Grace.{check_grace_period}
use treadstone.Metering.Tasks.Grace.Enforced.{
  IsDue, AllPairs, IsStopped, check_grace_period-spares, check_grace_period-stuck, auto_stops,
}
use treadstone.Metering.Tasks.Grace.Kept.{Starts}
use treadstone.Metering.Tasks.Rollover.Counts.{open_count-reset_monthly_credits}
use treadstone.Metering.Tasks.Rollover.{
  reset_monthly_credits, Split, closed_at, opened_at, advance, is_ready, sandbox_of, reset_plan,
  handle_period_rollover,
}
use treadstone.Metering.Tasks.Rollover.Finish.{IsReset, reset_plan-finishes}
use treadstone.Metering.Reconcile.{reconcile_metering}
use treadstone.Metering.Reconcile.Repaired.{mem, reconcile_metering-repairs}

abbrev next_month : ℕ → ℕ
next_month t = t + 5000

later : (b : ℕ) → b < next_month b
later b = omega arith

abbrev running : Sandbox
running = row ready none live_disk

abbrev sandboxes : List Sandbox
sandboxes = running ∷ []

-- Two months are missed.
reset_plan-finishes_example :
    let p = reset_plan next_month 11000 sandboxes 7000 plan (session ∷ []) [] in
    (reset_plan next_month 11000 sandboxes 9000 plan (session ∷ []) [] ≡ p)
    × ((11000 < p.plan.period_end) × IsReset 1 p.plan)
reset_plan-finishes_example =
    reset_plan-finishes next_month 11000 sandboxes later 7000 9000 plan (session ∷ []) []
      (omega arith) (omega arith) (omega arith)

-- Metered up to 5600, then split at 5000, then metered up to 5700.
abbrev late_session : ComputeSession
late_session = record session { last_metered_at = 5600; vcpu_hours = 250 * 5600 }

abbrev late_split : Split
late_split = record {
  plan = advance next_month 5600 plan;
  closed = closed_at 5000 5600 late_session;
  opened = some (opened_at 5000 5600 late_session);
}

splits : handle_period_rollover next_month 5600 late_session plan (some running) ≡ some late_split
unfolding handle_period_rollover
splits = refl

abbrev other_session : ComputeSession
other_session = record session { sandbox_id = 4 }

abbrev none_lost : ComputeSession → Bool
none_lost cs = false

abbrev ticked : Metered
ticked = record {
  rows = metered_at 1000 session ∷ [];
  deltas = (1, (2 ^ 29 * 250 + 125 * (1 * 2 ^ 30)) * 600) ∷ [];
  metered = 1;
}

ticks : tick_rows env none_lost [] (session ∷ []) ≡ ok ticked
unfolding tick_rows calculate_cu_rate
ticks = refl

amount_of-tick_rows_example : amount_of 1 ticked.deltas ≡ owed env none_lost 1 (session ∷ [])
amount_of-tick_rows_example = amount_of-tick_rows env none_lost 1 (session ∷ []) ticked ticks

abbrev readings : List Reading
readings =
    record { now = 1; used = pos 85; total_remaining = pos 15 }
    ∷ record { now = 2; used = pos 100; total_remaining = pos 0 }
    ∷ record { now = 3; used = pos 100; total_remaining = pos 0 }
    ∷ []

two_warnings : count is_80 (check_all readings plan) + count is_100 (check_all readings plan) ≡ 2
unfolding check_all check_warning_threshold ◌*ℤ◌
two_warnings = refl

check_all-once_example :
    (count is_80 (check_all readings plan) ≤ 1) × (count is_100 (check_all readings plan) ≤ 1)
check_all-once_example = check_all-once readings plan

abbrev stopping : Sandbox → Option Sandbox
stopping s = some (record s { status = stopped })

abbrev spent : UserPlan
spent = record plan { grace_period_started_at = some 0; grace_period_seconds = 0 }

abbrev spent_tables : Tables
spent_tables = record tables { plans = spent ∷ [] }

spent-IsDue : IsDue env (pos 0) spent
spent-IsDue = (refl, (0, (refl, refl)))

check_grace_period-spares_example :
    let g = check_grace_period env stopping 1 (pos 0) spent sandboxes tables in
    (g.sandboxes ≡ sandboxes)
    ⊎ (IsDue env (pos 0) spent × AllPairs (IsStopped stopping 1) sandboxes g.sandboxes)
check_grace_period-spares_example =
    check_grace_period-spares env stopping 1 (pos 0) spent sandboxes tables

logs_nothing : mem 3 (reconcile_metering env sandboxes tables).0 ≡ false
unfolding reconcile_metering
logs_nothing = refl

reconcile_metering-repairs_example :
    open_count 3 (reconcile_metering env sandboxes tables).1.sessions
    ≡ (if is_ready (sandbox_of 3 sandboxes) then 1 else 0)
reconcile_metering-repairs_example =
    reconcile_metering-repairs env 3 sandboxes tables tables-OpenOnce (omega arith) logs_nothing

-- The callback that production gives: it suspends the resource and leaves the row.
check_grace_period-stuck_example :
    let g = check_grace_period env (k8s_stop_sandbox true) 1 (pos 0) spent sandboxes spent_tables in
    (g.sandboxes ≡ sandboxes)
    × (g.audit ≡ auto_stops 1 sandboxes)
    × Starts 1 spent.grace_period_started_at g.tables
check_grace_period-stuck_example =
    check_grace_period-stuck env (k8s_stop_sandbox true) 1 (pos 0) spent sandboxes spent_tables
      spent-IsDue refl (λ s. refl) (omega arith)

open_count-reset_monthly_credits_example :
    open_count 3 (reset_monthly_credits next_month 11000 sandboxes 3 (plan ∷ []) (session ∷ [])).1
    ≡ open_count 3 (session ∷ [])
open_count-reset_monthly_credits_example =
    open_count-reset_monthly_credits next_month 11000 sandboxes 3 refl 3 (plan ∷ []) (session ∷ [])
