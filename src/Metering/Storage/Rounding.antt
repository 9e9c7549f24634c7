-- ===== src/Metering/Storage/Rounding.antt =====
-- How far the GiB-hours of a release are from the exact ones.
use treadstone.Prelude.{ℕ, ◌+◌, ◌*◌, ◌-◌, ◌≤◌, ◌≡◌, arith, Bool-cases, ltb, inl, inr}
use treadstone.Metering.Model.{StorageLedger, Env}
use treadstone.Metering.Storage.{round_half_even, unit_gib_micros, final_gib_hours}

round_half_even-near :
    (n : ℕ)
    → (2 * (unit_gib_micros * round_half_even n unit_gib_micros) ≤ 2 * n + unit_gib_micros)
      × (2 * n ≤ 2 * (unit_gib_micros * round_half_even n unit_gib_micros) + unit_gib_micros)
unfolding round_half_even
round_half_even-near n = ground arith

-- The GiB-hours that a release adds are the ledger's size times the time since its last metering,
-- rounded: they differ from that product by at most half of the column's last digit.
final_gib_hours-near :
    (env : Env) (l : StorageLedger)
    → (2 * (unit_gib_micros * final_gib_hours env l)
        ≤ 2 * (l.size_gib * (env.now - l.last_metered_at)) + unit_gib_micros)
      × (2 * (l.size_gib * (env.now - l.last_metered_at))
          ≤ 2 * (unit_gib_micros * final_gib_hours env l) + unit_gib_micros)
unfolding final_gib_hours
final_gib_hours-near env l = elim (Bool-cases (ltb 0 (env.now - l.last_metered_at))) [
  | inl h ↦ rw h (round_half_even-near (l.size_gib * (env.now - l.last_metered_at)))
  | inr h ↦
      let z : l.size_gib * (env.now - l.last_metered_at) ≡ 0 = ground (arith, h) in
      rw (h, z) (omega arith, omega arith)
]
