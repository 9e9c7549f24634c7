-- ===== src/Metering/Tasks/Tick.antt =====
-- `tick_metering`. A session whose row another transaction changed since it was read is skipped:
-- `lost` says of which that is so. An exception leaves the database as it was.
pub mod Charges
use treadstone.Prelude.{ℕ, ◌+◌, ◌*◌, ◌-◌, Bool, List, [], ◌∷◌, ◌&&◌, not, ltb, ◌==◌, if◌then◌else◌}
use treadstone.Metering.Model.{
  ComputeSession, Tables, Env, Result, ok, err, Action, pure, ◌>>=◌, ◌>>◌,
}
use treadstone.Metering.Helpers.{calculate_cu_rate}
use treadstone.Metering.Sessions.{accrue, is_unset, consume_if_positive}

-- The sessions after the loop, `user_credit_deltas`, and how many were metered.
pub record Metered : Type 0 where
  pub rows : List ComputeSession
  pub deltas : List (ℕ × ℕ)
  pub metered : ℕ

-- `user_credit_deltas[user_id] = user_credit_deltas.get(user_id, 0) + cu_delta`
abbrev pub add_delta : ℕ → ℕ → List (ℕ × ℕ) → List (ℕ × ℕ)
add_delta user amount [] = (user, amount) ∷ []
add_delta user amount ((u, a) ∷ ds) =
    let rest = add_delta user amount ds in if u == user then (u, a + amount) ∷ ds else (u, a) ∷ rest

-- The row that the `UPDATE` leaves.
abbrev pub metered_at : ℕ → ComputeSession → ComputeSession
metered_at now cs = record (accrue (now - cs.last_metered_at) cs) {
  last_metered_at = now;
  gmt_updated = now;
}

-- Whether the tick meters a session.
abbrev pub is_due : Env → (ComputeSession → Bool) → ComputeSession → Bool
is_due env lost cs = is_unset cs.ended_at && (ltb cs.last_metered_at env.now && not (lost cs))

abbrev pub keep_row : ComputeSession → Result Metered → Result Metered
keep_row cs (err e) = err e
keep_row cs (ok m) = ok (record m { rows = cs ∷ m.rows })

abbrev pub meter_row : ComputeSession → Result Metered → Result Metered
meter_row cs (err e) = err e
meter_row cs (ok m) = ok (record m { rows = cs ∷ m.rows; metered = m.metered + 1 })

-- The loop over the open sessions; the rows that are not open pass unchanged.
unfoldable pub tick_rows :
    Env → (ComputeSession → Bool) → List (ℕ × ℕ) → List ComputeSession → Result Metered
tick_rows env lost deltas [] = ok (record { rows = []; deltas = deltas; metered = 0 })
tick_rows env lost deltas (cs ∷ css) =
    if is_due env lost cs
    then elim (calculate_cu_rate env cs.template) [
      | err e ↦ err e
      | ok rate ↦ meter_row (metered_at env.now cs) (
          tick_rows env lost (add_delta cs.user_id (rate * (env.now - cs.last_metered_at)) deltas)
            css)
    ]
    else keep_row cs (tick_rows env lost deltas css)

unfoldable pub consume_deltas : Env → List (ℕ × ℕ) → Action (Unit {0})
consume_deltas env [] = pure tt
consume_deltas env ((user, amount) ∷ ds) =
    consume_if_positive env user amount >> consume_deltas env ds

-- The commit at the end, or the rollback.
abbrev pub committed : ℕ → Tables → Result (Unit {0}) × Tables → Result ℕ × Tables
committed metered t (err e, t') = (err e, t)
committed metered t (ok u, t') = (ok metered, t')

-- After the loop the deltas are consumed.
unfoldable pub settle_tick : Env → Tables → Result Metered → Result ℕ × Tables
unfolding consume_deltas
settle_tick env t (err e) = (err e, t)
settle_tick env t (ok m) =
    committed m.metered t (consume_deltas env m.deltas (record t { sessions = m.rows }))

unfoldable pub tick_metering : Env → (ComputeSession → Bool) → Action ℕ
unfolding tick_rows settle_tick
tick_metering env lost t = settle_tick env t (tick_rows env lost [] t.sessions)
