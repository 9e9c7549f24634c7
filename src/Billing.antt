-- ===== src/Billing.antt =====
-- treadstone/metering/services/metering_state_observer.py: the observer through which the sync loop
-- opens and closes compute sessions. Each call is a method of `MeteringService` on the tables.
pub mod Rows
pub mod Tests
use treadstone.Prelude.{ℕ, Bool, if◌then◌else◌}
use treadstone.Metering.Model.{Tables, Env, Result, ok, err, Action, pure, ◌>>=◌, ◌>>◌}
use treadstone.Metering.Sessions.{open_compute_session, close_compute_session}
use treadstone.Metering.Storage.{record_storage_release}
use treadstone.Sync.Rows.{Ending, returned, raised, Observer}

-- What a call leaves, whether it raised or not.
abbrev ending_of : {A : Type 0} → Result A × Tables → Ending × Tables
ending_of (ok a, t) = (returned, t)
ending_of (err e, t) = (raised, t)

unfoldable pub release_after_close : Env → ℕ → Bool → Action (Unit {0})
release_after_close env sandbox persist = do
  close_compute_session env sandbox
  if persist then record_storage_release env sandbox >>= (λ _. pure tt) else pure tt

unfoldable pub metering_observer : Env → Observer Tables
unfolding release_after_close
metering_observer env = record {
  on_sandbox_ready =
      λ sandbox owner template t. ending_of (open_compute_session env sandbox owner template t);
  on_sandbox_stopped = λ sandbox t. ending_of (close_compute_session env sandbox t);
  on_sandbox_deleted = λ sandbox persist t. ending_of (release_after_close env sandbox persist t);
}
