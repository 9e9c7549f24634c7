-- ===== src/Metering/Tests/Quota.antt =====
-- The checks of a creation at concrete inputs.
use treadstone.Prelude.{◌≡◌, refl, true, none, some, [], ◌∷◌, inr, arith}
use treadstone.Prelude.Int.{◌-ℤ◌, ◌+ℤ◌}
use treadstone.Sandbox.{Sandbox, ready}
use treadstone.Metering.Model.{ok}
use treadstone.Sandbox.{StorageBackendMode}
use treadstone.Metering.Plans.{get_user_plan, get_user_plan_for_update, ensure_user_plan}
use treadstone.Metering.Pools.{get_extra_compute_remaining}
use treadstone.Metering.Storage.{get_current_storage_used, get_extra_storage_quota}
use treadstone.Metering.Quota.{
  enforce_create, check_template_allowed, check_compute_quota, check_concurrent_limit,
  check_storage_quota, check_sandbox_duration, validate_auto_stop_interval_for_tier,
}
use treadstone.Metering.Quota.Admission.{Admits}
use treadstone.Metering.Tests.{env, tables, plan}

abbrev running : Sandbox
running = record {
  id = 3;
  owner_id = 1;
  template = "aio-sandbox-tiny";
  auto_stop_interval = 15;
  auto_delete_interval = 0;
  is_direct = true;
  persist = true;
  storage_size = some 5;
  k8s_sandbox_claim_name = none;
  k8s_sandbox_name = none;
  k8s_namespace = 1;
  k8s_resource_version = none;
  last_synced_at = none;
  status = ready;
  pending_operation = none;
  status_message = none;
  service_fqdn = none;
  storage_backend_mode = some StorageBackendMode.live_disk;
  k8s_workspace_pvc_name = none;
  k8s_workspace_pv_name = none;
  snapshot_k8s_volume_snapshot_name = none;
  version = 1;
  gmt_started = none;
  gmt_stopped = none;
  gmt_snapshotted = none;
  gmt_restored = none;
  gmt_last_active = none;
  gmt_deleted = none;
}

passes : (enforce_create env (running ∷ []) 1 "aio-sandbox-tiny" (some 5) 15 tables).0 ≡ ok 1800
unfolding enforce_create check_template_allowed get_user_plan ensure_user_plan check_compute_quota
    ◌-ℤ◌ ◌+ℤ◌ get_extra_compute_remaining check_concurrent_limit get_user_plan_for_update
    check_storage_quota get_current_storage_used get_extra_storage_quota
    validate_auto_stop_interval_for_tier check_sandbox_duration
passes = refl

admitted : Admits env (running ∷ []) 1 "aio-sandbox-tiny" (some 5) 15 tables plan
unfolding get_extra_compute_remaining get_current_storage_used get_extra_storage_quota ◌-ℤ◌ ◌+ℤ◌
admitted = record {
  template_allowed = refl;
  credits = omega arith;
  running = omega arith;
  storage = inr (omega arith);
  duration = inr (omega arith, omega arith);
}
