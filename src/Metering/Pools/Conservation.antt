-- ===== src/Metering/Pools/Conservation.antt =====
-- What a consumption takes and what it leaves, for every amount, plan and table of grants.
use treadstone.Prelude.{◌≡◌, refl, ap, ◌∙◌, false, List, arith, select, Bool-cases, inl, inr}
use treadstone.Prelude.Int.{ℤ, pos, ◌+ℤ◌, ◌-ℤ◌, ◌≤ℤ◌, ◌<ℤ◌, leb_ℤ, max_ℤ, int_laws, parts_of_eq}
use treadstone.Metering.Model.{UserPlan, ComputeGrant, Env}
use treadstone.Metering.Pools.{
  is_usable, drain_table, Drained, Consumption, consume_from, exhaust_monthly, add_overage,
  sum_remaining,
}
use treadstone.Metering.Pools.Usable.{
  drain_table-balance, drain_table-sum, drain_table-usable, drain_table-needed,
}

max_ℤ-nonneg : (a : ℤ) → (pos 0 ≤ℤ max_ℤ (pos 0) a) × (a ≤ℤ max_ℤ (pos 0) a)
unfolding max_ℤ
max_ℤ-nonneg a = ground arith

max_ℤ_of_nonneg : (a : ℤ) → pos 0 ≤ℤ a → max_ℤ (pos 0) a ≡ a
unfolding max_ℤ
max_ℤ_of_nonneg a h = ground arith

module _ (env : Env) (plan : UserPlan) (grants : List ComputeGrant) (amount : ℤ) where
  abbrev after : Consumption
  after = consume_from env plan grants amount

  abbrev left : ℤ
  left = plan.compute_units_monthly_limit -ℤ plan.compute_units_monthly_used

  exhaust_monthly-used :
      (exhaust_monthly env (max_ℤ (pos 0) left) plan).compute_units_monthly_used
      ≡ plan.compute_units_monthly_used +ℤ max_ℤ (pos 0) left
  unfolding max_ℤ ◌+ℤ◌ ◌-ℤ◌
  exhaust_monthly-used = ground arith

  add_overage-overage :
      (s : ℤ) (p : UserPlan)
      → pos 0 ≤ℤ s
      → (add_overage env s p).compute_units_overage ≡ p.compute_units_overage +ℤ s
  unfolding ◌+ℤ◌
  add_overage-overage s p h = ground arith

  -- The accounting of a consumption, whichever pools pay.
  pub record Accounts (c : Consumption) : Type 0 where
    pub split : c.result.monthly +ℤ c.result.extra +ℤ c.result.shortfall ≡ amount
    pub monthly_nonneg : pos 0 ≤ℤ c.result.monthly
    pub shortfall_nonneg : pos 0 ≤ℤ c.result.shortfall
    pub used :
        c.plan.compute_units_monthly_used ≡ plan.compute_units_monthly_used +ℤ c.result.monthly
    pub overage : c.plan.compute_units_overage ≡ plan.compute_units_overage +ℤ c.result.shortfall
    pub limit : c.plan.compute_units_monthly_limit ≡ plan.compute_units_monthly_limit
    pub all_grants : sum_remaining c.grants +ℤ c.result.extra ≡ sum_remaining grants
    pub usable :
        sum_remaining (select (is_usable plan.user_id env.now) c.grants) +ℤ c.result.extra
        ≡ sum_remaining (select (is_usable plan.user_id env.now) grants)

  from_monthly :
      pos 0 <ℤ amount
      → Accounts (record {
        plan = record plan {
          compute_units_monthly_used = plan.compute_units_monthly_used +ℤ amount;
          gmt_updated = env.now;
        };
        grants = grants;
        result = record { monthly = amount; extra = pos 0; shortfall = pos 0 };
      })
  from_monthly h = record {
    split = omega int_laws;
    monthly_nonneg = omega arith;
    shortfall_nonneg = omega arith;
    used = refl;
    overage = omega int_laws;
    limit = refl;
    all_grants = omega int_laws;
    usable = omega int_laws;
  }

  abbrev monthly : ℤ
  monthly = max_ℤ (pos 0) left

  abbrev need : ℤ
  need = amount -ℤ monthly

  need_nonneg : pos 0 <ℤ amount → leb_ℤ amount left ≡ false → pos 0 ≤ℤ need
  unfolding max_ℤ ◌-ℤ◌
  need_nonneg h e = ground (arith, h, e)

  abbrev d : Drained
  d = drain_table plan.user_id env.now grants need

  exhaust_monthly-limit :
      (exhaust_monthly env monthly plan).compute_units_monthly_limit
      ≡ plan.compute_units_monthly_limit
  exhaust_monthly-limit = ground arith

  exhaust_monthly-overage :
      (exhaust_monthly env monthly plan).compute_units_overage ≡ plan.compute_units_overage
  exhaust_monthly-overage = ground arith

  add_overage-used :
      (s : ℤ) (p : UserPlan)
      → (add_overage env s p).compute_units_monthly_used ≡ p.compute_units_monthly_used
  add_overage-used s p = ground arith

  add_overage-limit :
      (s : ℤ) (p : UserPlan)
      → (add_overage env s p).compute_units_monthly_limit ≡ p.compute_units_monthly_limit
  add_overage-limit s p = ground arith

  from_both :
      pos 0 ≤ℤ need
      → Accounts (record {
        plan = add_overage env (max_ℤ (pos 0) d.needed) (exhaust_monthly env monthly plan);
        grants = d.rows;
        result = record {
          monthly = monthly;
          extra = d.consumed;
          shortfall = max_ℤ (pos 0) d.needed;
        };
      })
  from_both n =
      let s : ℤ = max_ℤ (pos 0) d.needed in
      let short =
        max_ℤ_of_nonneg d.needed (drain_table-needed plan.user_id env.now grants need n) in
      record {
        split = omega (
          int_laws,
          parts_of_eq (drain_table-balance plan.user_id env.now grants need),
          parts_of_eq short,
        );
        monthly_nonneg = (max_ℤ-nonneg left).0;
        shortfall_nonneg = (max_ℤ-nonneg d.needed).0;
        used = add_overage-used s (exhaust_monthly env monthly plan) ∙ exhaust_monthly-used;
        overage =
            add_overage-overage s (exhaust_monthly env monthly plan) (max_ℤ-nonneg d.needed).0
            ∙ ap (λ x. x +ℤ s) exhaust_monthly-overage;
        limit = add_overage-limit s (exhaust_monthly env monthly plan) ∙ exhaust_monthly-limit;
        all_grants = drain_table-sum plan.user_id env.now grants need;
        usable = drain_table-usable plan.user_id env.now grants need n;
      }

  -- In memory, before the columns round what is stored, a consumption of a positive amount adds up: what the month, the grants and the overage bear is
  -- the amount, the plan's use and overage grow by their parts, and the grants, all of them and the
  -- usable ones, fall by theirs.
  pub consume_from-Accounts : pos 0 <ℤ amount → Accounts after
  unfolding consume_from
  consume_from-Accounts h = elim (Bool-cases (leb_ℤ amount left)) [
    | inl e ↦ rw e (from_monthly h)
    | inr e ↦ rw e (from_both (need_nonneg h e))
  ]
