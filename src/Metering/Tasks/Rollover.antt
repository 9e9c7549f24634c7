-- ===== src/Metering/Tasks/Rollover.antt =====
-- `handle_period_rollover` and `reset_monthly_credits`. `next_month` is `relativedelta(months=1)`,
-- of which only that it goes forward is used. The loop over the missed months runs on fuel.
pub mod Finish
pub mod Counts
use treadstone.Prelude.{
  ℕ, zero, suc, ◌-◌, Bool, false, Option, none, some, List, [], ◌∷◌, ◌++◌, leb, ◌&&◌, not, ◌==◌,
  select, find_first, if◌then◌else◌,
}
use treadstone.Prelude.Int.{pos}
use treadstone.Sandbox.{ready, Sandbox, same_status}
use treadstone.Metering.Model.{UserPlan, ComputeSession}
use treadstone.Metering.Sessions.{accrue, is_unset}

-- What both functions write to a plan whose period has ended.
abbrev pub advance : (ℕ → ℕ) → ℕ → UserPlan → UserPlan
advance next_month now plan = record plan {
  compute_units_monthly_used = pos 0;
  compute_units_overage = pos 0;
  period_start = plan.period_end;
  period_end = next_month plan.period_end;
  warning_80_notified_at = none;
  warning_100_notified_at = none;
  grace_period_started_at = none;
  gmt_updated = now;
}

-- The old session, closed at the boundary.
abbrev pub closed_at : ℕ → ℕ → ComputeSession → ComputeSession
closed_at boundary now cs = record (accrue (boundary - cs.last_metered_at) cs) {
  ended_at = some boundary;
  last_metered_at = boundary;
  gmt_updated = now;
}

-- The session of the new period. Its `gmt_updated` is the column's default.
abbrev pub opened_at : ℕ → ℕ → ComputeSession → ComputeSession
opened_at boundary now cs = record cs {
  started_at = boundary;
  ended_at = none;
  last_metered_at = boundary;
  vcpu_hours = 0;
  memory_hours = 0;
  gmt_updated = now;
}

abbrev pub is_ready : Option Sandbox → Bool
is_ready none = false
is_ready (some s) = same_status s.status ready

-- What a split leaves: the plan, the old session, and the new one if the sandbox still runs.
pub record Split : Type 0 where
  pub plan : UserPlan
  pub closed : ComputeSession
  pub opened : Option ComputeSession

-- Nothing is split before the period has ended.
unfoldable pub handle_period_rollover :
    (ℕ → ℕ) → ℕ → ComputeSession → UserPlan → Option Sandbox → Option Split
handle_period_rollover next_month now cs plan sandbox =
    if leb now plan.period_end
    then none
    else some (record {
      plan = advance next_month now plan;
      closed = closed_at plan.period_end now cs;
      opened = if is_ready sandbox then some (opened_at plan.period_end now cs) else none;
    })

-- One pass over the open sessions of a user: those of the new period, and the rest.
pub record Pass : Type 0 where
  pub plan : UserPlan
  pub next : List ComputeSession
  pub rest : List ComputeSession

abbrev pub sandbox_of : ℕ → List Sandbox → Option Sandbox
sandbox_of sandbox_id = find_first (λ s. s.id == sandbox_id)

abbrev add_opened : Option ComputeSession → List ComputeSession → List ComputeSession
add_opened none css = css
add_opened (some cs) css = cs ∷ css

abbrev skipped : ComputeSession → Pass → Pass
skipped cs p = record p { rest = cs ∷ p.rest }

abbrev add_split : Split → Pass → Pass
add_split r p = record p { next = add_opened r.opened p.next; rest = r.closed ∷ p.rest }

module _ (next_month : ℕ → ℕ) (now : ℕ) (sandboxes : List Sandbox) where
  unfoldable pub pass : UserPlan → List ComputeSession → Pass
  unfolding handle_period_rollover
  pass plan [] = record { plan = plan; next = []; rest = [] }
  pass plan (cs ∷ css) =
      elim (handle_period_rollover next_month now cs plan (sandbox_of cs.sandbox_id sandboxes)) [
        | none ↦ skipped cs (pass plan css)
        | some r ↦ add_split r (pass r.plan css)
      ]

  -- `if plan.period_end <= now`, after the pass
  abbrev pub catch_up : UserPlan → UserPlan
  catch_up plan = if leb plan.period_end now then advance next_month now plan else plan

  -- The loop over the months that a user missed. `rest` has the sessions that it is done with.
  unfoldable pub reset_plan : ℕ → UserPlan → List ComputeSession → List ComputeSession → Pass
  unfolding pass
  reset_plan zero plan live rest = record { plan = plan; next = live; rest = rest }
  reset_plan (suc fuel) plan live rest =
      let p = pass plan live in
      let months = reset_plan fuel (catch_up p.plan) p.next (p.rest ++ rest) in
      if leb plan.period_end now then months else record { plan = plan; next = live; rest = rest }

  -- A loop for each plan that is due. The sessions of other users are left alone.
  unfoldable pub reset_monthly_credits :
      ℕ → List UserPlan → List ComputeSession → List UserPlan × List ComputeSession
  unfolding reset_plan
  reset_monthly_credits fuel [] sessions = ([], sessions)
  reset_monthly_credits fuel (plan ∷ plans) sessions =
      let is_due = λ (cs : ComputeSession). cs.user_id == plan.user_id && is_unset cs.ended_at in
      let p = reset_plan fuel plan (select is_due sessions) [] in
      let r = reset_monthly_credits fuel plans (select (λ cs. not (is_due cs)) sessions) in
      (p.plan ∷ r.0, p.next ++ (p.rest ++ r.1))
