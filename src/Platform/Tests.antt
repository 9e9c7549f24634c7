-- ===== src/Platform/Tests.antt =====
-- The limits on the platform at concrete inputs.
use treadstone.Prelude.{ℕ, ◌≡◌, refl, true, false, Option, none, some, [], ◌∷◌}
use treadstone.Sandbox.{Sandbox, ready}
use treadstone.Sync.Tests.{row}
use treadstone.Identity.Model.{err, sandbox_cap, storage_cap}
use treadstone.Platform.Limits.{
  PlatformLimitsConfigSnapshot, PlatformLimitsSnapshot, Platform, new_runtime, build_snapshot,
  check_create, total_storage, ensure_snapshot,
}

abbrev config : PlatformLimitsConfigSnapshot
config = record {
  max_registered_users = none;
  max_total_sandboxes = some 2;
  max_total_storage_gib = some 25;
  max_waitlist_applications = none;
}

abbrev sandbox : ℕ → ℕ → Sandbox
sandbox id size = record (row ready 1) { id = id; storage_size = some size; gmt_deleted = none }

abbrev platform : Platform
platform = record { limits = some config; users = []; sandboxes = sandbox 1 10 ∷ []; waitlist = 0 }

too_much : check_create true 20 (build_snapshot 5 platform) ≡ err (storage_cap 10 20 25)
unfolding build_snapshot check_create treadstone.Platform.Limits.storage_size_gib_case
too_much = refl

too_many :
    check_create false 0
      (build_snapshot 5 (record platform { sandboxes = sandbox 2 5 ∷ platform.sandboxes }))
    ≡ err (sandbox_cap 2 2)
unfolding build_snapshot check_create
too_many = refl

-- A size that is not offered is not counted.
uncounted : total_storage (sandbox 3 50 ∷ platform.sandboxes) ≡ 10
unfolding total_storage treadstone.Platform.Limits.storage_size_gib_case
uncounted = refl

abbrev read : ℕ → Option ℕ → PlatformLimitsSnapshot
read at token = build_snapshot at platform

-- The first answer stays until a refresh.
kept_snapshot :
    (ensure_snapshot
      (read 9)
      (some 1)
      (ensure_snapshot (read 8) (some 1) new_runtime).1).0.refreshed_at
    ≡ 8
unfolding build_snapshot ensure_snapshot
kept_snapshot = refl

other_database :
    (ensure_snapshot
      (read 9)
      (some 2)
      (ensure_snapshot (read 8) (some 1) new_runtime).1).0.refreshed_at
    ≡ 9
unfolding build_snapshot ensure_snapshot
other_database = refl
