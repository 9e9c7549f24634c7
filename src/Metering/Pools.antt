-- ===== src/Metering/Pools.antt =====
-- The two pools of compute credits: `consume_compute_credits` of `MeteringService`, the queries on
-- what remains, and the grants.
pub mod Drain
pub mod Usable
pub mod Conservation
pub mod Totals
pub mod Fifo
use treadstone.Prelude.{
  ℕ, Option, none, some, List, [], ◌∷◌, ◌++◌, Bool, true, false, ◌&&◌, not, select, ltb, ◌==◌,
  if◌then◌else◌,
}
use treadstone.Prelude.Int.{ℤ, pos, ◌+ℤ◌, ◌-ℤ◌, min_ℤ, max_ℤ, ltb_ℤ, leb_ℤ}
use treadstone.Metering.Model.{
  UserPlan, ComputeGrant, Tables, Env, Action, pure, gets, modify, ◌>>=◌, ◌>>◌,
}
use treadstone.Metering.Helpers.{ConsumeResult}
use treadstone.Metering.Plans.{save_plan, get_user_plan, get_user_plan_for_update}

-- `expires_at IS NULL OR expires_at > now`
abbrev pub unexpired : ℕ → Option ℕ → Bool
unexpired now none = true
unexpired now (some t) = ltb now t

-- The `WHERE` of the query on grants.
unfoldable pub is_usable : ℕ → ℕ → ComputeGrant → Bool
is_usable user now g =
    g.user_id == user && (ltb_ℤ (pos 0) g.remaining_amount && unexpired now g.expires_at)

-- `expires_at ASC NULLS LAST`
abbrev pub expires_before : Option ℕ → Option ℕ → Bool
expires_before none b = false
expires_before (some a) none = true
expires_before (some a) (some b) = ltb a b

abbrev insert_grant : ComputeGrant → List ComputeGrant → List ComputeGrant
insert_grant g [] = g ∷ []
insert_grant g (h ∷ hs) =
    let rest = insert_grant g hs in
    if expires_before h.expires_at g.expires_at then h ∷ rest else g ∷ h ∷ hs

unfoldable pub by_expiry : List ComputeGrant → List ComputeGrant
by_expiry [] = []
by_expiry (g ∷ gs) = insert_grant g (by_expiry gs)

pub record Drained : Type 0 where
  pub rows : List ComputeGrant
  pub needed : ℤ
  pub consumed : ℤ

abbrev push_row : ComputeGrant → Drained → Drained
push_row g d = record d { rows = g ∷ d.rows }

-- The loop over the locked grants: take what is needed from each in turn, stop at 0.
unfoldable pub drain : ℕ → List ComputeGrant → ℤ → ℤ → Drained
drain now [] needed consumed = record { rows = []; needed = needed; consumed = consumed }
drain now (g ∷ gs) needed consumed =
    let deduct = min_ℤ g.remaining_amount needed in
    let paid = record g { remaining_amount = g.remaining_amount -ℤ deduct; gmt_updated = now } in
    let rest = push_row paid (drain now gs (needed -ℤ deduct) (consumed +ℤ deduct)) in
    if leb_ℤ needed (pos 0)
    then record { rows = g ∷ gs; needed = needed; consumed = consumed }
    else rest

-- Phase 2 on the table: the usable rows are drained in order, the others are left alone.
unfoldable pub drain_table : ℕ → ℕ → List ComputeGrant → ℤ → Drained
unfolding drain by_expiry is_usable
drain_table user now grants needed =
    let d = drain now (by_expiry (select (is_usable user now) grants)) needed (pos 0) in
    record d { rows = d.rows ++ select (λ g. not (is_usable user now g)) grants }

-- What phase 1 writes to the plan when the monthly pool falls short.
abbrev pub exhaust_monthly : Env → ℤ → UserPlan → UserPlan
exhaust_monthly env monthly_consumed plan =
    if ltb_ℤ (pos 0) monthly_consumed
    then record plan {
      compute_units_monthly_used = plan.compute_units_monthly_limit;
      gmt_updated = env.now;
    }
    else plan

abbrev pub add_overage : Env → ℤ → UserPlan → UserPlan
add_overage env shortfall plan =
    if ltb_ℤ (pos 0) shortfall
    then record plan {
      compute_units_overage = plan.compute_units_overage +ℤ shortfall;
      gmt_updated = env.now;
    }
    else plan

-- The plan, the grants and the result of a consumption of a positive amount.
pub record Consumption : Type 0 where
  pub plan : UserPlan
  pub grants : List ComputeGrant
  pub result : ConsumeResult

unfoldable pub consume_from : Env → UserPlan → List ComputeGrant → ℤ → Consumption
consume_from env plan grants amount =
    let remaining = plan.compute_units_monthly_limit -ℤ plan.compute_units_monthly_used in
    let monthly = max_ℤ (pos 0) remaining in
    let d = drain_table plan.user_id env.now grants (amount -ℤ monthly) in
    let shortfall = max_ℤ (pos 0) d.needed in
    if leb_ℤ amount remaining
    then record {
      plan = record plan {
        compute_units_monthly_used = plan.compute_units_monthly_used +ℤ amount;
        gmt_updated = env.now;
      };
      grants = grants;
      result = record { monthly = amount; extra = pos 0; shortfall = pos 0 };
    }
    else record {
      plan = add_overage env shortfall (exhaust_monthly env monthly plan);
      grants = d.rows;
      result = record { monthly = monthly; extra = d.consumed; shortfall = shortfall };
    }

-- `consume_compute_credits`
unfoldable pub consume_compute_credits : Env → ℕ → ℤ → Action ConsumeResult
consume_compute_credits env user amount =
    if leb_ℤ amount (pos 0)
    then pure (record { monthly = pos 0; extra = pos 0; shortfall = pos 0 })
    else do
      plan ← get_user_plan_for_update env user
      grants ← gets (λ t. t.grants)
      let c = consume_from env plan grants amount
      save_plan c.plan
      modify (λ t. record t { grants = c.grants })
      pure c.result

-- `SUM(remaining_amount)` over the usable grants
abbrev pub sum_remaining : List ComputeGrant → ℤ
sum_remaining [] = pos 0
sum_remaining (g ∷ gs) = g.remaining_amount +ℤ sum_remaining gs

unfoldable pub get_extra_compute_remaining : Env → ℕ → Tables → ℤ
unfolding is_usable
get_extra_compute_remaining env user t = sum_remaining (select (is_usable user env.now) t.grants)

-- monthly + extra - overage, for a plan and a sum of grants
abbrev pub remaining_of : UserPlan → ℤ → ℤ
remaining_of plan extra =
    plan.compute_units_monthly_limit -ℤ plan.compute_units_monthly_used +ℤ extra
    -ℤ plan.compute_units_overage

unfoldable pub get_total_compute_remaining : Env → ℕ → Action ℤ
get_total_compute_remaining env user = do
  plan ← get_user_plan env user
  extra ← gets (get_extra_compute_remaining env user)
  pure (remaining_of plan extra)

unfoldable create_compute_grant : Env → ℕ → ℤ → Option ℕ → Action ComputeGrant
create_compute_grant env user amount expires_at =
    let grant : ComputeGrant = record {
      user_id = user;
      original_amount = amount;
      remaining_amount = amount;
      granted_at = env.now;
      expires_at = expires_at;
      gmt_updated = env.now;
    } in
    modify (λ t. record t { grants = grant ∷ t.grants }) >> pure grant
