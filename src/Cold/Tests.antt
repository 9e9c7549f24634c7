-- ===== src/Cold/Tests.antt =====
-- Ticks of the cold storage at concrete rows.
use treadstone.Prelude.{◌≡◌, refl, true, false, Option, none, some, [], ◌∷◌, ◌⊎◌}
use treadstone.Sandbox.{
  SandboxStatus, ready, stopped, cold, error, Sandbox, PendingOperation, snapshotting, restoring,
  StorageBackendMode, live_disk, standard_snapshot, is_valid_transition,
}
use treadstone.Metering.Model.{Tables, Env}
use treadstone.Sync.Resource.{Resource}
use treadstone.Sync.Derive.{derive_status}
use treadstone.Cold.{Cluster}
use treadstone.Cold.Snapshot.{release_live_workspace_assets}
use treadstone.Cold.Restore.{process_sandbox}
use treadstone.Cold.Parked.{IsParked, process_sandbox-IsParked}
use treadstone.Cold.Disk.{deletes_disk, process_sandbox-ready}

abbrev pub env : Env
env = record { now = 1000; period_start = 0; period_end = 5000; spec_cache = [] }

abbrev pub tables : Tables
tables = record {
  tiers = [];
  plans = [];
  grants = [];
  storage_grants = [];
  sessions = [];
  ledger = [];
}

abbrev pub row : SandboxStatus → Option PendingOperation → StorageBackendMode → Sandbox
row status pending mode = record {
  id = 3;
  owner_id = 1;
  template = "aio-sandbox-tiny";
  auto_stop_interval = 15;
  auto_delete_interval = 0;
  is_direct = true;
  persist = true;
  storage_size = some 5;
  k8s_sandbox_claim_name = none;
  k8s_sandbox_name = some 7;
  k8s_namespace = 2;
  k8s_resource_version = some "10";
  last_synced_at = none;
  status = status;
  pending_operation = pending;
  status_message = none;
  service_fqdn = none;
  storage_backend_mode = some mode;
  k8s_workspace_pvc_name = none;
  k8s_workspace_pv_name = none;
  snapshot_k8s_volume_snapshot_name = some 8;
  version = 1;
  gmt_started = none;
  gmt_stopped = none;
  gmt_snapshotted = none;
  gmt_restored = none;
  gmt_last_active = none;
  gmt_deleted = none;
}

-- A sandbox whose Ready condition is "True".
abbrev pub up : Resource
up = record {
  name = some 7;
  namespace = some 2;
  resource_version = some "11";
  owner_references = [];
  operating_mode = none;
  conditions =
      record { type = some "Ready"; status = some "True"; reason = none; message = none } ∷ [];
  service_fqdn = none;
}

-- A sandbox whose controller gave up.
abbrev broken : Resource
broken = record up {
  conditions =
      record {
        type = some "Ready";
        status = some "False";
        reason = some "ReconcilerError";
        message = none;
      }
      ∷ [];
}

-- A cluster that answers every call, with the disk and the snapshot in it.
abbrev well : Cluster
well = record {
  backend_ready = none;
  cr = some (some up);
  binding = some (some (record { pvc_name = some 5; pv_name = some 6 }));
  create_snapshot = some 8;
  snapshot_ready = some (some true);
  content_answers = true;
  delete_bound = some true;
  live_cr = some true;
  delete_cr = true;
  live_pvc = some true;
  delete_pvc = true;
  cr_left = some false;
  pvc_left = some false;
  pv_left = some false;
  create_sandbox = none;
}

abbrev to_cold : Sandbox
to_cold = row stopped (some snapshotting) live_disk

abbrev to_live : Sandbox
to_live = row cold (some restoring) standard_snapshot

test_cutover : (process_sandbox env well "" to_cold tables).row.status ≡ cold
unfolding process_sandbox
test_cutover = refl

test_restored : (process_sandbox env well "" to_live tables).row.status ≡ ready
unfolding process_sandbox derive_status
test_restored = refl

process_sandbox-IsParked_example :
    let s' = (process_sandbox env well "" to_live tables).row in
    IsParked s' × ((s'.status ≡ cold) ⊎ (is_valid_transition cold s'.status ≡ true))
process_sandbox-IsParked_example = process_sandbox-IsParked env well "" to_live tables refl

deletes_at_cutover : deletes_disk (process_sandbox env well "" to_cold tables).commands ≡ true
unfolding process_sandbox release_live_workspace_assets
deletes_at_cutover = refl

process_sandbox-ready_example :
    (to_cold.pending_operation ≡ some snapshotting) × (well.snapshot_ready ≡ some (some true))
process_sandbox-ready_example = process_sandbox-ready env well "" to_cold tables deletes_at_cutover

-- The claim cannot be read once the resource has been told to go.
abbrev flaky : Cluster
flaky = record well { live_pvc = none }

abbrev claimed : Sandbox
claimed = record to_cold { k8s_workspace_pvc_name = some 5 }

raises : (release_live_workspace_assets flaky claimed).raised ≡ true
unfolding release_live_workspace_assets
raises = refl

-- A restore whose resource fails before there is a claim.
abbrev unbound : Cluster
unbound = record well { cr = some (some broken); binding = some none }

broken_fails : (derive_status broken).0 ≡ error
unfolding derive_status
broken_fails = refl
