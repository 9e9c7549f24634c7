-- ===== src/Sync/Tests.antt =====
-- The sync loop at a concrete row, with an observer that counts its calls.
use treadstone.Prelude.{ℕ, ◌+◌, ◌≡◌, ◌≢◌, refl, true, none, some, [], ◌∷◌, arith, sym, ◌∙◌}
use treadstone.Sandbox.{
  StorageBackendMode, SandboxStatus, creating, ready, stopped, deleting, deleted, Sandbox,
  is_valid_transition,
}
use treadstone.Sync.Resource.{Resource}
use treadstone.Sync.Derive.{derive_status}
use treadstone.Sync.Rows.{
  Observer, SyncEnv, World, StatusChange, returned, suppress_status_sync, optimistic_update,
  notify_on_transition, notify_ready,
}
use treadstone.Sync.Watch.{modified, handle_row, flushed}
use treadstone.Sync.Watch.Transitions.{handle_row-lost, handle_row-recorded}

abbrev counter : Observer ℕ
counter = record {
  on_sandbox_ready = λ s o t n. (returned, n + 1);
  on_sandbox_stopped = λ s n. (returned, n + 1);
  on_sandbox_deleted = λ s p n. (returned, n + 1);
}

abbrev env : SyncEnv ℕ
env = record { observers = counter ∷ []; now = 50; object_status = λ before after. after }

abbrev pub row : SandboxStatus → ℕ → Sandbox
row status version = record {
  id = 3;
  owner_id = 1;
  template = "aio-sandbox-tiny";
  auto_stop_interval = 15;
  auto_delete_interval = 0;
  is_direct = true;
  persist = true;
  storage_size = some 5;
  k8s_sandbox_claim_name = none;
  k8s_sandbox_name = some 7;
  k8s_namespace = 2;
  k8s_resource_version = some "10";
  last_synced_at = none;
  status = status;
  pending_operation = none;
  status_message = none;
  service_fqdn = none;
  storage_backend_mode = some StorageBackendMode.live_disk;
  k8s_workspace_pvc_name = none;
  k8s_workspace_pv_name = none;
  snapshot_k8s_volume_snapshot_name = none;
  version = version;
  gmt_started = none;
  gmt_stopped = none;
  gmt_snapshotted = none;
  gmt_restored = none;
  gmt_last_active = none;
  gmt_deleted = none;
}

-- A sandbox whose Ready condition is "True".
abbrev up : Resource
up = record {
  name = some 7;
  namespace = some 2;
  resource_version = some "11";
  owner_references = [];
  operating_mode = none;
  conditions =
      record { type = some "Ready"; status = some "True"; reason = none; message = none } ∷ [];
  service_fqdn = none;
}

abbrev world : SandboxStatus → ℕ → World ℕ
world status version = record { row = row status version; audit = []; observed = 0 }

becomes_ready : (handle_row env modified up (row creating 1) (world creating 1)).row.status ≡ ready
unfolding handle_row suppress_status_sync derive_status is_valid_transition optimistic_update
    flushed
becomes_ready = refl

tells_once : (handle_row env modified up (row creating 1) (world creating 1)).observed ≡ 1
unfolding handle_row suppress_status_sync derive_status is_valid_transition optimistic_update
    flushed notify_on_transition notify_ready
tells_once = refl

moved_on : (world stopped 2).row.version ≢ (row creating 1).version
moved_on h = omega (arith, h)

not_deleting : (row creating 1).status ≢ deleting
not_deleting h = cc

handle_row-lost_example :
    ((handle_row env modified up (row creating 1) (world stopped 2)).row.status ≡ stopped)
    × ((handle_row env modified up (row creating 1) (world stopped 2)).row.version ≡ 2)
    × ((handle_row env modified up (row creating 1) (world stopped 2)).audit ≡ [])
    × ((handle_row env modified up (row creating 1) (world stopped 2)).observed ≡ 0)
handle_row-lost_example =
    handle_row-lost env modified up (row creating 1) (world stopped 2) moved_on not_deleting

changes : (handle_row env modified up (row creating 1) (world creating 1)).row.status ≢ creating
changes h = creating_ne_ready (sym h ∙ becomes_ready)
  where
    creating_ne_ready : creating ≢ ready
    creating_ne_ready e = cc

not_deleted : (row deleting 1).status ≢ deleted
not_deleted h = cc

up_is_ready : (derive_status up).0 ≡ ready
unfolding derive_status
up_is_ready = refl

handle_row-recorded_example :
    (e : StatusChange) × ((handle_row env modified up (row creating 1) (world creating 1)).audit
      ≡ e ∷ [])
    × (e.sandbox_id ≡ 3)
    × (e.to_status ≡ (handle_row env modified up (row creating 1) (world creating 1)).row.status)
handle_row-recorded_example =
    handle_row-recorded env modified up (row creating 1) (world creating 1) changes
