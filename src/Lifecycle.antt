-- ===== src/Lifecycle.antt =====
-- treadstone/infra/services/sandbox_lifecycle_tasks.py, with the callbacks of sync_supervisor.py that
-- the leader gives it: idle sandboxes are stopped, and sandboxes that have been stopped for long
-- are deleted. Each row is handled in a savepoint, which an exception rolls back. `false` is the
-- answer of a call of the cluster that raises. Web links and audit events are left out.
pub mod Steps
pub mod Tests
use Prim.Native.String.{String}
use treadstone.Prelude.{
  ℕ, ◌+◌, ◌*◌, ◌-◌, Bool, true, false, Option, none, some, List, [], ◌∷◌, ◌&&◌, ◌||◌, ltb,
  if◌then◌else◌,
}
use treadstone.Sandbox.{
  ready, stopped, cold, error, deleting, deleted, Sandbox, standard_snapshot, same_status,
  status_in,
}
use treadstone.Metering.Model.{Tables, Env, Result, ok, err, ComputeSession, StorageLedger}
use treadstone.Metering.Sessions.{close_compute_session}
use treadstone.Metering.Storage.{record_storage_release}
use treadstone.Cold.{clear_snapshot_binding, is_mode}
use treadstone.Service.{is_none}

-- `_k8s_stop_sandbox`: it suspends the resource and leaves the row to the caller.
abbrev pub k8s_stop_sandbox : Bool → Sandbox → Option Sandbox
k8s_stop_sandbox answers s = if answers then some s else none

-- `(now - t).total_seconds() > minutes * 60`, where `t` is known
abbrev longer_ago : Env → Option ℕ → ℕ → Bool
longer_ago env none minutes = false
longer_ago env (some t) minutes = ltb (minutes * 60 * 1000000) (env.now - t)

unfoldable pub is_idle : Env → Sandbox → Bool
is_idle env s =
    same_status s.status ready
    && (ltb 0 s.auto_stop_interval && longer_ago env s.gmt_last_active s.auto_stop_interval)

-- What the callback leaves READY is marked.
abbrev mark_stopped : Env → Sandbox → Sandbox
mark_stopped env s =
    if same_status s.status ready
    then record s { status = stopped; gmt_stopped = some env.now; version = s.version + 1 }
    else s

abbrev pub after_close :
    Env → Sandbox → Tables → Sandbox → Result (Option ComputeSession) × Tables → Sandbox × Tables
after_close env s t s' (err e, t') = (s, t)
after_close env s t s' (ok cs, t') = (mark_stopped env s', t')

abbrev after_stop_callback : Env → Sandbox → Tables → Option Sandbox → Sandbox × Tables
after_stop_callback env s t none = (s, t)
after_stop_callback env s t (some s') = after_close env s t s' (close_compute_session env s.id t)

-- One row of `check_idle_auto_stop`.
unfoldable pub idle_auto_stop : Env → Bool → Sandbox → Tables → Sandbox × Tables
unfolding is_idle
idle_auto_stop env answers s t =
    if is_idle env s then after_stop_callback env s t (k8s_stop_sandbox answers s) else (s, t)

unfoldable check_idle_auto_stop :
    Env → (Sandbox → Bool) → List Sandbox → Tables → List Sandbox × Tables
unfolding idle_auto_stop
check_idle_auto_stop env answers [] t = ([], t)
check_idle_auto_stop env answers (s ∷ ss) t =
    let p = idle_auto_stop env (answers s) s t in
    let rest = check_idle_auto_stop env answers ss p.1 in (p.0 ∷ rest.0, rest.1)

unfoldable pub is_outdated : Env → Sandbox → Bool
is_outdated env s =
    status_in s.status (stopped ∷ cold ∷ [])
    && (is_none s.pending_operation
        && (ltb 0 s.auto_delete_interval && longer_ago env s.gmt_stopped s.auto_delete_interval))

-- What the delete callback does: it raises an `AutoDeleteFailure`, or another exception.
pub data Deletion : Type 0 where
  removed : Sandbox → Tables → Deletion
  auto_delete_failure : String → Bool → Deletion
  raised_other : Deletion

abbrev gone_at : Env → Sandbox → Sandbox
gone_at env s = record s { status = deleted; gmt_deleted = some env.now; version = s.version + 1 }

abbrev after_release : Env → Sandbox → Result (Option StorageLedger) × Tables → Deletion
after_release env s (err e, t') =
    auto_delete_failure "Auto-delete failed: could not release storage ledger" true
after_release env s (ok l, t') = removed (gone_at env (clear_snapshot_binding s)) t'

-- `_k8s_delete_sandbox`
unfoldable pub k8s_delete_sandbox : Env → Bool → Bool → Sandbox → Tables → Deletion
k8s_delete_sandbox env delete_bound delete_resource s t =
    if same_status s.status cold || is_mode standard_snapshot s.storage_backend_mode
    then (if delete_bound
        then after_release env s (record_storage_release env s.id t)
        else auto_delete_failure "Auto-delete failed: could not clean up cold snapshot asset" false)
    else if delete_resource
    then removed (record s { status = deleting; version = s.version + 1 }) t
    else raised_other

-- `_persist_auto_delete_failure`, which leaves `gmt_snapshotted`.
abbrev pub persist_failure : String → Bool → Sandbox → Sandbox
persist_failure message clear s =
    let s' = if clear then record s { snapshot_k8s_volume_snapshot_name = none } else s in
    if is_none s.gmt_deleted
    then record s' { status = error; status_message = some message; version = s.version + 1 }
    else s

abbrev pub after_deletion : Sandbox → Tables → Deletion → Sandbox × Tables
after_deletion s t (removed s' t') = (s', t')
after_deletion s t (auto_delete_failure message clear) = (persist_failure message clear s, t)
after_deletion s t raised_other = (s, t)

-- One row of `check_auto_delete`.
unfoldable pub auto_delete : Env → Bool → Bool → Sandbox → Tables → Sandbox × Tables
unfolding is_outdated k8s_delete_sandbox
auto_delete env delete_bound delete_resource s t =
    if is_outdated env s
    then after_deletion s t (k8s_delete_sandbox env delete_bound delete_resource s t)
    else (s, t)
