-- ===== src/Metering/Tasks/Rollover/Finish.antt =====
-- The loop over the missed months comes to an end, and what it leaves in the plan.
use treadstone.Prelude.{
  ℕ, zero, suc, ◌+◌, ◌≤◌, ◌<◌, ◌≡◌, refl, true, false, leb, none, List, [], ◌∷◌, ◌++◌, arith, subst,
  Bool-cases, inl, inr, ◌⊎◌,
}
use treadstone.Prelude.Int.{pos}
use treadstone.Sandbox.{Sandbox}
use treadstone.Metering.Model.{UserPlan, ComputeSession}
use treadstone.Metering.Tasks.Rollover.{advance, handle_period_rollover, pass, catch_up, reset_plan}

-- What a reset leaves of a plan: it is the user's, its period goes forward, and nothing is used of
-- its credits.
abbrev pub IsReset : ℕ → UserPlan → Type 0
IsReset user plan =
    (plan.user_id ≡ user)
    × ((plan.compute_units_monthly_used ≡ pos 0)
        × ((plan.compute_units_overage ≡ pos 0)
            × ((plan.grace_period_started_at ≡ none) × (plan.period_start < plan.period_end))))

module _ (next_month : ℕ → ℕ) (now : ℕ) (sandboxes : List Sandbox)
    (later : (b : ℕ) → b < next_month b) where
  advance-IsReset : (plan : UserPlan) → IsReset plan.user_id (advance next_month now plan)
  advance-IsReset plan = (refl, (refl, (refl, (refl, later plan.period_end))))

  -- A pass moves the end of the period forward, if at all.
  pass-forward :
      (plan : UserPlan) (css : List ComputeSession)
      → let p = pass next_month now sandboxes plan css in
        (plan.period_end ≤ p.plan.period_end) × (p.plan.user_id ≡ plan.user_id)
  unfolding pass handle_period_rollover
  pass-forward plan [] = ground arith
  pass-forward plan (cs ∷ css) =
      let same = pass-forward plan css in
      let (further, user) = pass-forward (advance next_month now plan) css in
      let l = later plan.period_end in ground (arith, same, further, user, l)

  pass-IsReset :
      (user : ℕ) (plan : UserPlan) (css : List ComputeSession)
      → IsReset user plan
      → IsReset user (pass next_month now sandboxes plan css).plan
  unfolding pass handle_period_rollover
  pass-IsReset user plan [] h = h
  pass-IsReset user plan (cs ∷ css) h =
      let same = pass-IsReset user plan css h in
      let (u, hs) = h in
      let further =
        pass-IsReset user (advance next_month now plan) css
          (u, (refl, (refl, (refl, later plan.period_end)))) in
      ground (arith, same, further)

  -- A round of the loop: the plan is reset, and its period ends later.
  round-forward :
      (plan : UserPlan) (css : List ComputeSession)
      → plan.period_end ≤ now
      → let plan' =
          catch_up next_month now sandboxes (pass next_month now sandboxes plan css).plan in
        plan.period_end < plan'.period_end
  round-forward plan css due =
      let p = pass next_month now sandboxes plan css in
      let (further, user) = pass-forward plan css in
      let l = later p.plan.period_end in ground (arith, further, l, due)

  pass-moved :
      (plan : UserPlan) (css : List ComputeSession)
      → let p = pass next_month now sandboxes plan css in
        (p.plan.period_end ≡ plan.period_end) ⊎ IsReset plan.user_id p.plan
  unfolding pass handle_period_rollover
  pass-moved plan [] = inl refl
  pass-moved plan (cs ∷ css) =
      let same = pass-moved plan css in
      let further =
        pass-IsReset plan.user_id (advance next_month now plan) css (advance-IsReset plan) in
      ground (arith, same, further)

  round-IsReset :
      (plan : UserPlan) (css : List ComputeSession)
      → plan.period_end ≤ now
      → IsReset plan.user_id
          (catch_up next_month now sandboxes (pass next_month now sandboxes plan css).plan)
  round-IsReset plan css due =
      let p = pass next_month now sandboxes plan css in
      let moved = pass-moved plan css in
      let (further, user) = pass-forward plan css in
      let l = later p.plan.period_end in ground (arith, moved, further, user, l, due)

  reset_plan-IsReset :
      (fuel user : ℕ) (plan : UserPlan) (live rest : List ComputeSession)
      → IsReset user plan
      → IsReset user (reset_plan next_month now sandboxes fuel plan live rest).plan
  unfolding reset_plan
  reset_plan-IsReset zero user plan live rest h = h
  reset_plan-IsReset (suc fuel) user plan live rest h =
      elim (Bool-cases (leb plan.period_end now)) [
        | inr due ↦ rw due h
        | inl due ↦
            let p = pass next_month now sandboxes plan live in
            rw due (
              reset_plan-IsReset fuel user (catch_up next_month now sandboxes p.plan) p.next
                (p.rest ++ rest)
                (subst (λ u. IsReset u (catch_up next_month now sandboxes p.plan)) h.0
                  (round-IsReset plan live (ground (arith, due)))))
      ]

  -- As much fuel as there are microseconds to catch up with is enough.
  reset_plan-caught_up :
      (fuel : ℕ) (plan : UserPlan) (live rest : List ComputeSession)
      → now < plan.period_end + fuel
      → now < (reset_plan next_month now sandboxes fuel plan live rest).plan.period_end
  unfolding reset_plan
  reset_plan-caught_up zero plan live rest h = omega (arith, h)
  reset_plan-caught_up (suc fuel) plan live rest h = elim (Bool-cases (leb plan.period_end now)) [
    | inr due ↦ rw due (ground (arith, due))
    | inl due ↦
        let p = pass next_month now sandboxes plan live in
        let forward = round-forward plan live (ground (arith, due)) in
        rw due (
          reset_plan-caught_up fuel (catch_up next_month now sandboxes p.plan) p.next
            (p.rest ++ rest) (omega (arith, forward, h)))
  ]

  not_due : (plan : UserPlan) → now < plan.period_end + 0 → leb plan.period_end now ≡ false
  not_due plan h = ground (arith, h)

  same_result :
      (fuel fuel' : ℕ) (plan : UserPlan) (live rest : List ComputeSession)
      → now < plan.period_end + fuel
      → now < plan.period_end + fuel'
      → reset_plan next_month now sandboxes fuel plan live rest
        ≡ reset_plan next_month now sandboxes fuel' plan live rest
  unfolding reset_plan
  same_result zero zero plan live rest h h' = refl
  same_result zero (suc fuel') plan live rest h h' = rw (not_due plan h) refl
  same_result (suc fuel) zero plan live rest h h' = rw (not_due plan h') refl
  same_result (suc fuel) (suc fuel') plan live rest h h' =
      elim (Bool-cases (leb plan.period_end now)) [
        | inr due ↦ rw due refl
        | inl due ↦
            let p = pass next_month now sandboxes plan live in
            let forward = round-forward plan live (ground (arith, due)) in
            rw due (
              same_result fuel fuel' (catch_up next_month now sandboxes p.plan) p.next
                (p.rest ++ rest) (omega (arith, forward, h)) (omega (arith, forward, h')))
      ]

  -- If a month is longer than nothing, the loop over the missed months of a plan that is due ends:
  -- all amounts of fuel above the microseconds between the end of the period and now give the same.
  -- The period that it leaves ends after now, and the plan is the user's, with nothing used of its
  -- credits, no overage and no grace period.
  pub reset_plan-finishes :
      (fuel fuel' : ℕ) (plan : UserPlan) (live rest : List ComputeSession)
      → plan.period_end ≤ now
      → now < plan.period_end + fuel
      → now < plan.period_end + fuel'
      → let p = reset_plan next_month now sandboxes fuel plan live rest in
        (reset_plan next_month now sandboxes fuel' plan live rest ≡ p)
        × ((now < p.plan.period_end) × IsReset plan.user_id p.plan)
  unfolding reset_plan
  reset_plan-finishes zero fuel' plan live rest due h h' =
      let never : ⊥ = omega (arith, due, h) in absurd never
  reset_plan-finishes (suc fuel) fuel' plan live rest due h h' =
      let p = pass next_month now sandboxes plan live in
      let is_due : leb plan.period_end now ≡ true = ground (arith, due) in
      (
        same_result fuel' (suc fuel) plan live rest h' h,
        (
          reset_plan-caught_up (suc fuel) plan live rest h,
          rw is_due (
              reset_plan-IsReset fuel plan.user_id (catch_up next_month now sandboxes p.plan) p.next
                (p.rest ++ rest) (round-IsReset plan live due)),
        ),
      )
