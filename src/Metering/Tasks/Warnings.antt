-- ===== src/Metering/Tasks/Warnings.antt =====
-- `check_warning_thresholds`, for one user: `total_remaining` is the total of the snapshot.
use treadstone.Prelude.{
  ℕ, ◌+◌, ◌≤◌, ◌≡◌, Bool, true, false, Option, none, some, List, [], ◌∷◌, ◌++◌, ◌&&◌, arith, count,
  count-append, if◌then◌else◌,
}
use treadstone.Prelude.Int.{ℤ, pos, ◌*ℤ◌, leb_ℤ, ltb_ℤ}
use treadstone.Metering.Model.{UserPlan}
use treadstone.Metering.Sessions.{is_unset}

pub data Warning : Type 0 where
  compute_warning_80 compute_warning_100 : Warning

-- `monthly_used >= monthly_limit * 0.8`
abbrev is_past_80 : UserPlan → Bool
is_past_80 plan =
    leb_ℤ (pos 4 *ℤ plan.compute_units_monthly_limit) (pos 5 *ℤ plan.compute_units_monthly_used)

-- The plan, and the event if there is one.
unfoldable pub check_warning_threshold : ℕ → ℤ → UserPlan → UserPlan × List Warning
check_warning_threshold now total_remaining plan =
    if leb_ℤ total_remaining (pos 0) && is_unset plan.warning_100_notified_at
    then (
      record plan { warning_100_notified_at = some now; gmt_updated = now },
      compute_warning_100 ∷ [],
    )
    else if ltb_ℤ (pos 0) plan.compute_units_monthly_limit
        && (is_past_80 plan && is_unset plan.warning_80_notified_at)
    then (
      record plan { warning_80_notified_at = some now; gmt_updated = now },
      compute_warning_80 ∷ [],
    )
    else (plan, [])

-- What a tick finds: the time, what is used, and the total of what remains.
pub record Reading : Type 0 where
  pub now : ℕ
  pub used : ℤ
  pub total_remaining : ℤ

-- The ticks of a period, and the events of all of them.
unfoldable pub check_all : List Reading → UserPlan → List Warning
check_all [] plan = []
check_all (r ∷ rs) plan =
    let p =
      check_warning_threshold r.now r.total_remaining
        (record plan { compute_units_monthly_used = r.used }) in
    p.1 ++ check_all rs p.0

abbrev pub is_80 : Warning → Bool
is_80 Warning.compute_warning_80 = true
is_80 Warning.compute_warning_100 = false

abbrev pub is_100 : Warning → Bool
is_100 Warning.compute_warning_80 = false
is_100 Warning.compute_warning_100 = true

abbrev left : Option ℕ → ℕ
left none = 1
left (some t) = 0

count-check_warning_threshold :
    (now : ℕ) (total : ℤ) (plan : UserPlan)
    → let p = check_warning_threshold now total plan in
      (count is_80 p.1 + left p.0.warning_80_notified_at ≡ left plan.warning_80_notified_at)
      × (count is_100 p.1 + left p.0.warning_100_notified_at ≡ left plan.warning_100_notified_at)
unfolding check_warning_threshold
count-check_warning_threshold now total plan = ground arith

count-check_all :
    (rs : List Reading) (plan : UserPlan)
    → (count is_80 (check_all rs plan) ≤ left plan.warning_80_notified_at)
      × (count is_100 (check_all rs plan) ≤ left plan.warning_100_notified_at)
unfolding check_all
count-check_all [] plan = ground arith
count-check_all (r ∷ rs) plan =
    let read : UserPlan = record plan { compute_units_monthly_used = r.used } in
    let p = check_warning_threshold r.now r.total_remaining read in
    let (a, b) = count-check_warning_threshold r.now r.total_remaining read in
    let (c, d) = count-check_all rs p.0 in
    let e = count-append is_80 p.1 (check_all rs p.0) in
    let f = count-append is_100 p.1 (check_all rs p.0) in omega (arith, a, b, c, d, e, f)

left_most : (o : Option ℕ) → left o ≤ 1
left_most o = ground arith

-- However often the thresholds are checked within a period, and whatever is found, each of the two
-- warnings is given at most once.
pub check_all-once :
    (rs : List Reading) (plan : UserPlan)
    → (count is_80 (check_all rs plan) ≤ 1) × (count is_100 (check_all rs plan) ≤ 1)
check_all-once rs plan = omega (
  arith,
  count-check_all rs plan,
  left_most plan.warning_80_notified_at,
  left_most plan.warning_100_notified_at,
)
