-- ===== src/Metering/Tasks/Tick/Charges.antt =====
-- What a metering tick is to consume from whom.
use treadstone.Prelude.{
  ℕ, ◌+◌, ◌*◌, ◌-◌, ◌≡◌, Bool, List, [], ◌∷◌, arith, ◌==◌, Bool-cases, inl, inr, subst, ◌∙◌,
  if◌then◌else◌,
}
use treadstone.Metering.Model.{ComputeSession, Env, ok, err, Result}
use treadstone.Metering.Helpers.{calculate_cu_rate}
use treadstone.Metering.Sessions.Rows.{Result-cases}
use treadstone.Metering.Tasks.Tick.{
  Metered, metered_at, is_due, tick_rows, add_delta, keep_row, meter_row,
}

-- What is to be consumed from a user.
abbrev pub amount_of : ℕ → List (ℕ × ℕ) → ℕ
amount_of user [] = 0
amount_of user ((u, a) ∷ ds) = if u == user then a + amount_of user ds else amount_of user ds

amount_of-add_delta :
    (user u amount : ℕ) (ds : List (ℕ × ℕ))
    → amount_of user (add_delta u amount ds) ≡ amount_of user ds + (if u == user then amount else 0)
amount_of-add_delta user u amount [] = ground arith
amount_of-add_delta user u amount ((v, a) ∷ ds) =
    let rest = amount_of-add_delta user u amount ds in ground (arith, rest)

abbrev cost : Result ℕ → ℕ → ℕ
cost (err e) elapsed = 0
cost (ok rate) elapsed = rate * elapsed

-- The rate of each session that the tick meters, times the time since its last metering.
unfoldable pub owed : Env → (ComputeSession → Bool) → ℕ → List ComputeSession → ℕ
owed env lost user [] = 0
owed env lost user (cs ∷ css) =
    if is_due env lost cs
    then (if cs.user_id == user
        then cost (calculate_cu_rate env cs.template) (env.now - cs.last_metered_at)
          + owed env lost user css
        else owed env lost user css)
    else owed env lost user css

-- The deltas of a loop that did not raise hold this amount for the user.
abbrev Charges : ℕ → ℕ → Result Metered → Type 0
Charges user n (err e) = Unit
Charges user n (ok m) = amount_of user m.deltas ≡ n

keep_row-Charges :
    (user n : ℕ) (cs : ComputeSession) (r : Result Metered)
    → Charges user n r
    → Charges user n (keep_row cs r)
keep_row-Charges user n cs (ok m) h = h
keep_row-Charges user n cs (err e) h = tt

meter_row-Charges :
    (user n : ℕ) (cs : ComputeSession) (r : Result Metered)
    → Charges user n r
    → Charges user n (meter_row cs r)
meter_row-Charges user n cs (ok m) h = h
meter_row-Charges user n cs (err e) h = tt

tick_rows-Charges :
    (env : Env) (lost : ComputeSession → Bool) (user : ℕ) (deltas : List (ℕ × ℕ))
    (css : List ComputeSession)
    → Charges user (amount_of user deltas + owed env lost user css) (tick_rows env lost deltas css)
unfolding tick_rows owed
tick_rows-Charges env lost user deltas [] = omega arith
tick_rows-Charges env lost user deltas (cs ∷ css) = elim (Bool-cases (is_due env lost cs)) [
  | inr later ↦ rw later (keep_row-Charges user _ cs _ (tick_rows-Charges env lost user deltas css))
  | inl due ↦ elim (Result-cases (calculate_cu_rate env cs.template)) [
    | inr (x, e) ↦ rw (due, e) tt
    | inl (rate, e) ↦
        let elapsed = env.now - cs.last_metered_at in
        let added = add_delta cs.user_id (rate * elapsed) deltas in
        let total : amount_of user added + owed env lost user css
            ≡ amount_of user deltas
              + (if cs.user_id == user
                  then rate * elapsed + owed env lost user css
                  else owed env lost user css) =
          ground (arith, amount_of-add_delta user cs.user_id (rate * elapsed) deltas) in
        rw (due, e)
          (meter_row-Charges user _ (metered_at env.now cs) _ (
            subst (λ n. Charges user n (tick_rows env lost added css)) total
              (tick_rows-Charges env lost user added css)))
  ]
]

-- Where the loop of the tick does not raise, what it is to consume from a user is the rate of each of
-- the user's sessions that it meters times the time since that session's last metering: no session
-- is charged twice or to another user, and one that is skipped is not charged.
pub amount_of-tick_rows :
    (env : Env) (lost : ComputeSession → Bool) (user : ℕ) (css : List ComputeSession) (m : Metered)
    → tick_rows env lost [] css ≡ ok m
    → amount_of user m.deltas ≡ owed env lost user css
amount_of-tick_rows env lost user css m h =
    subst (Charges user (0 + owed env lost user css)) h (tick_rows-Charges env lost user [] css)
    ∙ omega arith
