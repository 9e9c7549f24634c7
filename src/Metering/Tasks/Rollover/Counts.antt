-- ===== src/Metering/Tasks/Rollover/Counts.antt =====
-- The reset splits the sessions of a sandbox that runs, and never leaves it without one.
use treadstone.Prelude.{
  ℕ, zero, suc, ◌+◌, ◌≡◌, refl, Bool, true, not, ◌&&◌, ◌==◌, List, [], ◌∷◌, ◌++◌, arith, All,
  count-append, select, ==_iff,
}
use treadstone.Sandbox.{Sandbox}
use treadstone.Metering.Model.{UserPlan, ComputeSession}
use treadstone.Metering.Sessions.{is_unset, is_open_for, open_count}
use treadstone.Metering.Tasks.Rollover.{
  advance, is_ready, handle_period_rollover, sandbox_of, pass, catch_up, reset_plan,
  reset_monthly_credits,
}

abbrev IsLive : ComputeSession → Type 0
IsLive cs = is_unset cs.ended_at ≡ true

module _ (next_month : ℕ → ℕ) (now : ℕ) (sandboxes : List Sandbox) (sandbox : ℕ)
    (runs : is_ready (sandbox_of sandbox sandboxes) ≡ true) where
  runs_too :
      (cs : ComputeSession)
      → (cs.sandbox_id == sandbox) ≡ true
      → is_ready (sandbox_of cs.sandbox_id sandboxes) ≡ true
  runs_too cs h = rw ((==_iff cs.sandbox_id sandbox).0 h) runs

  pass-All :
      (plan : UserPlan) (css : List ComputeSession)
      → All IsLive (pass next_month now sandboxes plan css).next
  unfolding pass handle_period_rollover
  pass-All plan [] = tt
  pass-All plan (cs ∷ css) =
      let same = pass-All plan css in
      let further = pass-All (advance next_month now plan) css in ground (arith, same, further)

  open_count-pass :
      (plan : UserPlan) (css : List ComputeSession)
      → All IsLive css
      → let p = pass next_month now sandboxes plan css in
        open_count sandbox p.next + open_count sandbox p.rest ≡ open_count sandbox css
  unfolding pass handle_period_rollover
  open_count-pass plan [] live = omega arith
  open_count-pass plan (cs ∷ css) (l, live) =
      let same = open_count-pass plan css live in
      let further = open_count-pass (advance next_month now plan) css live in
      let r = runs_too cs in ground (arith, same, further, l, r)

  open_count-reset_plan :
      (fuel : ℕ) (plan : UserPlan) (live rest : List ComputeSession)
      → All IsLive live
      → let p = reset_plan next_month now sandboxes fuel plan live rest in
        open_count sandbox p.next + open_count sandbox p.rest
        ≡ open_count sandbox live + open_count sandbox rest
  unfolding reset_plan
  open_count-reset_plan zero plan live rest l = refl
  open_count-reset_plan (suc fuel) plan live rest l =
      let p = pass next_month now sandboxes plan live in
      let here = open_count-pass plan live l in
      let apart = count-append (is_open_for sandbox) p.rest rest in
      let months =
        open_count-reset_plan fuel (catch_up next_month now sandboxes p.plan) p.next
          (p.rest ++ rest) (pass-All plan live) in
      ground (arith, here, apart, months)

  count-split :
      (q : ComputeSession → Bool) (css : List ComputeSession)
      → open_count sandbox (select q css) + open_count sandbox (select (λ cs. not (q cs)) css)
        ≡ open_count sandbox css
  count-split q [] = omega arith
  count-split q (cs ∷ css) = let rest = count-split q css in ground (arith, rest)

  select-All :
      (user : ℕ) (css : List ComputeSession)
      → All IsLive (select (λ cs. cs.user_id == user && is_unset cs.ended_at) css)
  select-All user [] = tt
  select-All user (cs ∷ css) = let rest = select-All user css in ground (arith, rest)

  -- A sandbox that runs has as many open sessions after the monthly reset as it had before,
  -- whatever the fuel, the months that were missed, and the clock.
  pub open_count-reset_monthly_credits :
      (fuel : ℕ) (plans : List UserPlan) (sessions : List ComputeSession)
      → open_count sandbox (reset_monthly_credits next_month now sandboxes fuel plans sessions).1
        ≡ open_count sandbox sessions
  unfolding reset_monthly_credits
  open_count-reset_monthly_credits fuel [] sessions = refl
  open_count-reset_monthly_credits fuel (plan ∷ plans) sessions =
      let due = λ (cs : ComputeSession). cs.user_id == plan.user_id && is_unset cs.ended_at in
      let others = select (λ cs. not (due cs)) sessions in
      let p = reset_plan next_month now sandboxes fuel plan (select due sessions) [] in
      let after = (reset_monthly_credits next_month now sandboxes fuel plans others).1 in
      let own =
        open_count-reset_plan fuel plan (select due sessions) []
          (select-All plan.user_id sessions) in
      let rest = open_count-reset_monthly_credits fuel plans others in
      let parts = count-split due sessions in
      let first = count-append (is_open_for sandbox) p.next (p.rest ++ after) in
      let second = count-append (is_open_for sandbox) p.rest after in
      let goal : open_count sandbox (p.next ++ (p.rest ++ after)) ≡ open_count sandbox sessions =
        omega (arith, own, rest, parts, first, second) in
      goal
