-- ===== src/Lifecycle/Tests.antt =====
-- The lifecycle tasks at concrete rows.
use treadstone.Prelude.{◌*◌, ◌≡◌, refl, true, false, none, some, [], ◌⊎◌}
use treadstone.Sandbox.{ready, cold, error, deleted, Sandbox, live_disk, standard_snapshot}
use treadstone.Metering.Model.{Env}
use treadstone.Metering.Storage.{record_storage_release}
use treadstone.Metering.Tests.{tables, tables-OpenOnce}
use treadstone.Cold.Tests.{row}
use treadstone.Service.History.{is_commit}
use treadstone.Lifecycle.{is_idle, idle_auto_stop, is_outdated, auto_delete}
use treadstone.Lifecycle.Steps.{Ends, idle_auto_stop-stops, parked_deleted, auto_delete-commit}

-- An hour after the start of the clock.
abbrev env : Env
env = record { now = 3600 * 1000000; period_start = 0; period_end = 5000; spec_cache = [] }

abbrev idle : Sandbox
idle = record (row ready none live_disk) { gmt_last_active = some 0 }

abbrev outdated : Sandbox
outdated = record (row cold none standard_snapshot) {
  gmt_stopped = some 0;
  auto_delete_interval = 30;
}

test_is_idle : is_idle env idle ≡ true
unfolding is_idle
test_is_idle = refl

test_deleted : (auto_delete env true true outdated tables).0.status ≡ deleted
unfolding auto_delete record_storage_release
test_deleted = refl

test_failed : (auto_delete env false true outdated tables).0.status ≡ error
unfolding auto_delete
test_failed = refl

idle_auto_stop-stops_example : Ends env true idle tables (idle_auto_stop env true idle tables)
idle_auto_stop-stops_example = idle_auto_stop-stops env true idle tables tables-OpenOnce

auto_delete-commit_example :
    let p = auto_delete env true true outdated tables in
    (p ≡ (outdated, tables))
    ⊎ ((is_outdated env outdated ≡ true) × (is_commit parked_deleted outdated p.0 ≡ true))
auto_delete-commit_example = auto_delete-commit env true true outdated tables
