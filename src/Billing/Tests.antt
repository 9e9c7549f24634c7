-- ===== src/Billing/Tests.antt =====
-- The sync loop with the metering observer, at a sandbox that becomes ready.
use treadstone.Prelude.{◌≡◌, ◌≢◌, refl, true, none, some, [], ◌∷◌}
use treadstone.Sandbox.{StorageBackendMode, creating, deleted, Sandbox}
use treadstone.Metering.Model.{Tables, Env, ok, ComputeSession}
use treadstone.Metering.Sessions.{insert_session, open_compute_session, close_compute_session}
use treadstone.Metering.Helpers.{get_template_resource_spec, resolve_spec}
use treadstone.Sync.Resource.{Resource}
use treadstone.Sync.Rows.{SyncEnv, World}
use treadstone.Sync.Watch.{modified, handle_row}
use treadstone.Sync.Reconcile.{reconcile_row}
use treadstone.Billing.Rows.{IsBilled, billing_env, handle_row-IsBilled, reconcile_row-IsBilled}

abbrev env : Env
env = record { now = 1000; period_start = 0; period_end = 5000; spec_cache = [] }

abbrev tables : Tables
tables = record {
  tiers = [];
  plans = [];
  grants = [];
  storage_grants = [];
  sessions = [];
  ledger = [];
}

abbrev sync : SyncEnv Tables
sync = record { observers = []; now = 1000; object_status = λ before after. after }

abbrev seen : Sandbox
seen = record {
  id = 3;
  owner_id = 1;
  template = "aio-sandbox-tiny";
  auto_stop_interval = 15;
  auto_delete_interval = 0;
  is_direct = true;
  persist = true;
  storage_size = some 5;
  k8s_sandbox_claim_name = none;
  k8s_sandbox_name = some 7;
  k8s_namespace = 2;
  k8s_resource_version = some "10";
  last_synced_at = none;
  status = creating;
  pending_operation = none;
  status_message = none;
  service_fqdn = none;
  storage_backend_mode = some StorageBackendMode.live_disk;
  k8s_workspace_pvc_name = none;
  k8s_workspace_pv_name = none;
  snapshot_k8s_volume_snapshot_name = none;
  version = 1;
  gmt_started = none;
  gmt_stopped = none;
  gmt_snapshotted = none;
  gmt_restored = none;
  gmt_last_active = none;
  gmt_deleted = none;
}

-- A sandbox whose Ready condition is "True".
abbrev up : Resource
up = record {
  name = some 7;
  namespace = some 2;
  resource_version = some "11";
  owner_references = [];
  operating_mode = none;
  conditions =
      record { type = some "Ready"; status = some "True"; reason = none; message = none } ∷ [];
  service_fqdn = none;
}

abbrev world : World Tables
world = record { row = seen; audit = []; observed = tables }

abbrev opened : ComputeSession
opened = record {
  sandbox_id = 3;
  user_id = 1;
  template = "aio-sandbox-tiny";
  vcpu_request = 250;
  memory_request = 1073741824;
  started_at = 1000;
  ended_at = none;
  last_metered_at = 1000;
  vcpu_hours = 0;
  memory_hours = 0;
  gmt_updated = 1000;
}

opens : (open_compute_session env 3 1 "aio-sandbox-tiny" tables).0 ≡ ok opened
unfolding open_compute_session insert_session get_template_resource_spec resolve_spec
opens = refl

closes : (close_compute_session env 3 tables).0 ≡ ok none
unfolding close_compute_session
closes = refl

alive : seen.status ≢ deleted
alive h = cc

handle_row-IsBilled_example :
    IsBilled 3
      (handle_row (billing_env env sync) modified up seen world).row.status
      (handle_row (billing_env env sync) modified up seen world).observed
handle_row-IsBilled_example =
    handle_row-IsBilled env sync modified up seen world opens closes refl alive refl

reconcile_row-IsBilled_example :
    IsBilled 3
      (reconcile_row (billing_env env sync) (some up) seen world).row.status
      (reconcile_row (billing_env env sync) (some up) seen world).observed
reconcile_row-IsBilled_example =
    reconcile_row-IsBilled env sync (some up) seen world opens closes refl alive refl
