-- ===== src/Metering/Tasks/Grace/Enforced.antt =====
-- Whom the grace period stops, and when.
use treadstone.Prelude.{
  ◌≤◌, ap, ℕ, ◌≡◌, refl, true, Option, some, List, [], ◌∷◌, ◌||◌, arith, Bool-cases, inl, inr, ◌⊎◌,
  Option-cases, subst, sym, ◌∙◌, if◌then◌else◌,
}
use treadstone.Prelude.Int.{ℤ, pos, leb_ℤ}
use treadstone.Sandbox.{Sandbox}
use treadstone.Metering.Model.{UserPlan, Tables, Env}
use treadstone.Metering.Plans.{plan_of}
use treadstone.Metering.Sessions.{close_compute_session}
use treadstone.Metering.Tasks.Grace.Kept.{Starts, close-Starts}
use treadstone.Metering.Quota.{is_running_of, count_running_sandboxes}
use treadstone.Metering.Tasks.Grace.{
  Graced, GraceEvent, auto_stop, stop_all, enforce_stop, exceeds_cap, is_expired, handle_exhausted,
  handle_credits_restored, check_grace_period,
}

-- Rows with what became of them.
abbrev pub AllPairs : (Sandbox → Sandbox → Type 0) → List Sandbox → List Sandbox → Type 0
AllPairs R [] [] = Unit
AllPairs R [] (y ∷ ys) = ⊥
AllPairs R (x ∷ xs) [] = ⊥
AllPairs R (x ∷ xs) (y ∷ ys) = R x y × AllPairs R xs ys

-- A row is left alone unless it is a running sandbox of the user, and then the callback was asked.
abbrev pub IsStopped : (Sandbox → Option Sandbox) → ℕ → Sandbox → Sandbox → Type 0
IsStopped stop user s s' = (s' ≡ s) ⊎ ((is_running_of user s ≡ true) × (stop s ≡ some s'))

-- Whether the grace period of the plan is over, or the overage above its cap.
abbrev pub IsDue : Env → ℤ → UserPlan → Type 0
IsDue env total plan =
    (leb_ℤ total (pos 0) ≡ true)
    × ((started : ℕ) × ((plan.grace_period_started_at ≡ some started)
          × ((is_expired env started plan || exceeds_cap total plan) ≡ true)))

-- The events of stopping: one for each running sandbox of the user.
abbrev pub auto_stops : ℕ → List Sandbox → List GraceEvent
auto_stops user [] = []
auto_stops user (s ∷ ss) =
    let rest = auto_stops user ss in if is_running_of user s then auto_stop s.id ∷ rest else rest

module _ (env : Env) (stop : Sandbox → Option Sandbox) (user : ℕ) where
  stop_all-AllPairs :
      (ss : List Sandbox) (t : Tables)
      → AllPairs (IsStopped stop user) ss (stop_all env stop user ss t).sandboxes
  unfolding stop_all
  stop_all-AllPairs [] t = tt
  stop_all-AllPairs (s ∷ ss) t = elim (Bool-cases (is_running_of user s)) [
    | inr idle ↦ rw (AllPairs, idle) (inl refl, stop_all-AllPairs ss t)
    | inl runs ↦ elim (Option-cases (stop s)) [
      | inl e ↦ rw (AllPairs, runs, e) (inl refl, stop_all-AllPairs ss t)
      | inr (s', e) ↦
          rw (AllPairs, runs, e)
            (inr (runs, e), stop_all-AllPairs ss (close_compute_session env s.id t).1)
    ]
  ]

  enforce_stop-sandboxes :
      (ss : List Sandbox) (t : Tables)
      → (enforce_stop env stop user ss t).sandboxes ≡ (stop_all env stop user ss t).sandboxes
  unfolding enforce_stop
  enforce_stop-sandboxes ss t = ground arith

  -- A check of the grace period leaves every sandbox alone, unless the user's credits are used up,
  -- a grace period has begun, and it is over or the overage above the cap; and then it changes
  -- running sandboxes of that user only, each as the callback says.
  pub check_grace_period-spares :
      (total : ℤ) (plan : UserPlan) (ss : List Sandbox) (t : Tables)
      → let g = check_grace_period env stop user total plan ss t in
        (g.sandboxes ≡ ss) ⊎ (IsDue env total plan × AllPairs (IsStopped stop user) ss g.sandboxes)
  unfolding check_grace_period handle_exhausted handle_credits_restored
  check_grace_period-spares total plan ss t = elim (Bool-cases (leb_ℤ total (pos 0))) [
    | inr restored ↦ inl (ground (arith, restored))
    | inl exhausted ↦ elim (Option-cases plan.grace_period_started_at) [
      | inl e ↦ inl (ground (arith, exhausted, e))
      | inr (started, e) ↦
          elim (Bool-cases (is_expired env started plan || exceeds_cap total plan)) [
            | inr early ↦ inl (ground (arith, exhausted, e, early))
            | inl over ↦ inr (
              (exhausted, (started, (e, over))),
              subst (AllPairs (IsStopped stop user) ss)
                  (ground (arith, exhausted, e, over, enforce_stop-sandboxes ss t))
                  (stop_all-AllPairs ss t),
            )
          ]
    ]
  ]

  stop_all-sandboxes :
      (ss : List Sandbox) (t : Tables)
      → ((s : Sandbox) → stop s ≡ some s)
      → (stop_all env stop user ss t).sandboxes ≡ ss
  unfolding stop_all
  stop_all-sandboxes [] t h = refl
  stop_all-sandboxes (s ∷ ss) t h =
      let here = stop_all-sandboxes ss t h in
      let closed = stop_all-sandboxes ss (close_compute_session env s.id t).1 h in
      let same = h s in
      elim (Bool-cases (is_running_of user s)) [
        | inr idle ↦ ground (arith, idle, here)
        | inl runs ↦ ground (arith, runs, same, closed)
      ]

  stop_all-audit :
      (ss : List Sandbox) (t : Tables)
      → ((s : Sandbox) → stop s ≡ some s)
      → (stop_all env stop user ss t).audit ≡ auto_stops user ss
  unfolding stop_all
  stop_all-audit [] t h = refl
  stop_all-audit (s ∷ ss) t h =
      let here = stop_all-audit ss t h in
      let closed = stop_all-audit ss (close_compute_session env s.id t).1 h in
      let same = h s in
      elim (Bool-cases (is_running_of user s)) [
        | inr idle ↦ ground (arith, idle, here)
        | inl runs ↦ ground (arith, runs, same, closed)
      ]

  stop_all-Starts :
      (start : Option ℕ) (ss : List Sandbox) (t : Tables)
      → Starts user start t
      → Starts user start (stop_all env stop user ss t).tables
  unfolding stop_all
  stop_all-Starts start [] t h = h
  stop_all-Starts start (s ∷ ss) t h = elim (Bool-cases (is_running_of user s)) [
    | inr idle ↦ rw idle (stop_all-Starts start ss t h)
    | inl runs ↦ elim (Option-cases (stop s)) [
      | inl raised ↦ rw (runs, raised) (stop_all-Starts start ss t h)
      | inr (s', answered) ↦
          rw (runs, answered)
            (stop_all-Starts start ss (close_compute_session env s.id t).1
              (close-Starts env user start s.id t h))
    ]
  ]

  -- With a callback that leaves the row as it is, a check that is due leaves every sandbox running
  -- of a user who has one, records that it stopped each of them, and leaves the user's plan in the
  -- grace period as it began.
  pub check_grace_period-stuck :
      (total : ℤ) (plan : UserPlan) (ss : List Sandbox) (t : Tables)
      → IsDue env total plan
      → plan_of user t.plans ≡ some plan
      → ((s : Sandbox) → stop s ≡ some s)
      → 1 ≤ count_running_sandboxes user ss
      → let g = check_grace_period env stop user total plan ss t in
        (g.sandboxes ≡ ss)
        × (g.audit ≡ auto_stops user ss)
        × Starts user plan.grace_period_started_at g.tables
  unfolding check_grace_period handle_exhausted enforce_stop
  check_grace_period-stuck total plan ss t (exhausted, (started, (e, over))) found h runs =
      let same = stop_all-sandboxes ss t h in
      let still = ap (count_running_sandboxes user) same in
      let told = stop_all-audit ss t h in
      let run : check_grace_period env stop user total plan ss t ≡ stop_all env stop user ss t =
        ground (arith, exhausted, e, over, same, still, runs) in
      (
        ap (λ g. g.sandboxes) run ∙ same,
        ap (λ g. g.audit) run ∙ told,
        subst (λ (g : Graced). Starts user plan.grace_period_started_at g.tables) (sym run)
            (stop_all-Starts plan.grace_period_started_at ss t (plan, found, refl)),
      )
