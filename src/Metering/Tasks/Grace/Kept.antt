-- ===== src/Metering/Tasks/Grace/Kept.antt =====
-- Closing compute sessions leaves every grace period as it is.
use treadstone.Prelude.{
  ℕ, ◌*◌, ltb, ◌≡◌, ◌∙◌, Option, some, List, arith, ◌==◌, ==_iff, Bool-cases, Option-cases, inl,
  inr,
}
use treadstone.Prelude.Int.{ℤ, pos, leb_ℤ}
use treadstone.Metering.Model.{
  UserPlan, ComputeGrant, ComputeSession, Tables, Env, ok, Action, gets, modify, ◌>>=◌, ◌>>◌, pure,
  bind_rule,
}
use treadstone.Metering.Helpers.{ConsumeResult, calculate_cu_rate}
use treadstone.Metering.Plans.{
  plan_of, put_plan, get_user_plan_for_update, ensure_user_plan, create_plan, get_tier_template,
  save_plan,
}
use treadstone.Metering.Pools.{consume_from, consume_compute_credits}
use treadstone.Metering.Pools.Totals.{
  plan_of-user, plan_of-put_plan, plan_of-put_plan_ne, consume_from-user,
}
use treadstone.Metering.Sessions.{
  open_session, close_compute_session, close_found, put_open, save_session, settle, charge,
  consume_if_positive, accrue, ended, close_delta,
}
use treadstone.Metering.Sessions.Rows.{Result-cases}

-- The user has a plan, whose grace period began then.
abbrev pub Starts : ℕ → Option ℕ → Tables → Type 0
Starts user start t =
    (p : UserPlan) × (plan_of user t.plans ≡ some p) × (p.grace_period_started_at ≡ start)

module _ (env : Env) (user : ℕ) (start : Option ℕ) where
  abbrev Kept : {A : Type 0} → A × Tables → Type 0
  Kept r = Starts user start r.1

  put_plan-Starts :
      (payer : ℕ) (q r : UserPlan) (grants : List ComputeGrant) (t : Tables)
      → plan_of payer t.plans ≡ some r
      → q.user_id ≡ payer
      → q.grace_period_started_at ≡ r.grace_period_started_at
      → Starts user start t
      → Starts user start (record t { plans = put_plan q t.plans; grants = grants })
  put_plan-Starts payer q r grants t found same kept (p, here, began) =
      elim (Bool-cases (payer == user)) [
        | inl mine ↦
            let id : payer ≡ user = (==_iff payer user).0 mine in
            (
              q,
              plan_of-put_plan user q t.plans {q = p} (same ∙ id) here,
              ground (arith, kept, began, id, found, here),
            )
        | inr other ↦ (
          p,
          plan_of-put_plan_ne user q t.plans (λ e. ground (arith, other, same, e)) ∙ here,
          began,
        )
      ]

  for_update-Starts :
      (payer : ℕ) (t : Tables)
      → Starts user start t
      → Kept (get_user_plan_for_update env payer t)
        × ((r : UserPlan)
            → (get_user_plan_for_update env payer t).0 ≡ ok r
            → plan_of payer (get_user_plan_for_update env payer t).1.plans ≡ some r)
  unfolding get_user_plan_for_update ensure_user_plan create_plan get_tier_template
  for_update-Starts payer t (p, here, began) = elim (Option-cases (plan_of payer t.plans)) [
    | inr (r, found) ↦ rw found ((p, here, began), λ q e. ground (arith, found, e))
    | inl missing ↦ ((p, ground (arith, here, missing), began), λ q e. ground (arith, missing, e))
  ]

  consume_from-start :
      (plan : UserPlan) (grants : List ComputeGrant) (amount : ℤ)
      → (consume_from env plan grants amount).plan.grace_period_started_at
        ≡ plan.grace_period_started_at
  unfolding consume_from
  consume_from-start plan grants amount = ground arith

  consume-Starts :
      (payer : ℕ) (amount : ℤ) (t : Tables)
      → Starts user start t
      → Kept (consume_compute_credits env payer amount t)
  unfolding consume_compute_credits
  consume-Starts payer amount t h = elim (Bool-cases (leb_ℤ amount (pos 0))) [
    | inl nothing ↦ rw nothing h
    | inr due ↦
        let (kept, row) = for_update-Starts payer t h in
        let t1 = (get_user_plan_for_update env payer t).1 in
        rw due (
          bind_rule (get_user_plan_for_update env payer) (λ r. spend r) t Kept
            (λ r e.
              let found = row r e in
              let id = plan_of-user payer t1.plans {p = r} found in
              put_plan-Starts payer (consume_from env r t1.grants amount).plan r
                (consume_from env r t1.grants amount).grants t1 found
                (consume_from-user env r t1.grants amount ∙ id)
                (consume_from-start r t1.grants amount) kept)
            (λ x e. kept))
  ]
    where
      spend : UserPlan → Action ConsumeResult
      spend r = do
        grants ← gets (λ x. x.grants)
        let c = consume_from env r grants amount
        save_plan c.plan
        modify (λ x. record x { grants = c.grants })
        pure c.result

  consume_if_positive-Starts :
      (payer amount : ℕ) (t : Tables)
      → Starts user start t
      → Kept (consume_if_positive env payer amount t)
  consume_if_positive-Starts payer amount t h = elim (Bool-cases (ltb 0 amount)) [
    | inr nothing ↦ rw nothing h
    | inl due ↦
        let kept = consume-Starts payer (pos amount) t h in
        rw due (
          bind_rule (consume_compute_credits env payer (pos amount)) (λ _. pure tt) t Kept
            (λ r _. kept) (λ x _. kept))
  ]

  charge-Starts :
      (cs : ComputeSession) (elapsed : ℕ) (t : Tables)
      → Starts user start t
      → Kept (charge env cs elapsed t)
  unfolding charge
  charge-Starts cs elapsed t h = elim (Result-cases (calculate_cu_rate env cs.template)) [
    | inl (rate, e) ↦ rw e (consume_if_positive-Starts cs.user_id (rate * elapsed) t h)
    | inr (x, e) ↦ rw e h
  ]

  settle-Starts :
      (sandbox : ℕ) (cs : ComputeSession) (elapsed : ℕ) (t : Tables)
      → Starts user start t
      → Kept (settle env sandbox cs elapsed t)
  unfolding settle
  settle-Starts sandbox cs elapsed t h = elim (Bool-cases (ltb 0 elapsed)) [
    | inr idle ↦ rw idle h
    | inl busy ↦
        let t1 : Tables = record t { sessions = put_open sandbox (accrue elapsed cs) t.sessions } in
        let kept = charge-Starts cs elapsed t1 h in
        rw busy (
          bind_rule (charge env cs elapsed) (λ _. pure (accrue elapsed cs)) t1 Kept (λ u _. kept)
            (λ x _. kept))
  ]

  pub close-Starts :
      (sandbox : ℕ) (t : Tables) → Starts user start t → Kept (close_compute_session env sandbox t)
  unfolding close_compute_session close_found
  close-Starts sandbox t h = elim (Option-cases (open_session sandbox t.sessions)) [
    | inl missing ↦ rw missing h
    | inr (cs, found) ↦
        let kept = settle-Starts sandbox cs (close_delta env cs) t h in
        rw found (
          bind_rule (settle env sandbox cs (close_delta env cs))
            (λ settled. save_session sandbox (ended env settled) >> pure (some (ended env settled)))
            t Kept (λ settled _. kept) (λ x _. kept))
  ]
