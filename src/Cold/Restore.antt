-- ===== src/Cold/Restore.antt =====
-- `_process_restoring` and `process_sandbox`.
use Prim.Native.String.{String, ◌++◌ as append}
use treadstone.Prelude.{ℕ, Bool, true, false, Option, none, some, [], ◌∷◌, ◌||◌, if◌then◌else◌}
use treadstone.Sandbox.{
  SandboxStatus, ready, stopped, error, Sandbox, PendingOperation, live_disk, same_status,
}
use treadstone.Metering.Model.{Tables, Env}
use treadstone.Metering.Storage.{update_storage_backend_mode}
use treadstone.Metering.Sessions.{open_compute_session}
use treadstone.Sync.Derive.{derive_status, nonempty_or}
use treadstone.Cold.{
  Binding, delete_snapshot, create_sandbox, Cluster, Tick, done, fail_restore,
  clear_snapshot_binding, with_message, with_binding, is_set,
}
use treadstone.Cold.Snapshot.{process_snapshotting}

abbrev or_now : Option ℕ → ℕ → Option ℕ
or_now none now = some now
or_now (some t) now = some t

abbrev default_prefix : SandboxStatus → String
default_prefix final =
    if same_status final ready then "Restored sandbox." else "Restored sandbox workspace."

abbrev cleanup_prefix : Option String → SandboxStatus → String
cleanup_prefix none final = default_prefix final
cleanup_prefix (some m) final = nonempty_or m (default_prefix final)

-- The row on its live disk.
abbrev pub restored : Env → SandboxStatus → Option String → Sandbox → Sandbox
restored env final message s = record s {
  status = final;
  pending_operation = none;
  storage_backend_mode = some live_disk;
  status_message = message;
  gmt_restored = some env.now;
  gmt_started = if same_status final ready then or_now s.gmt_started env.now else s.gmt_started;
}

-- A session that cannot be opened is left to the reconciliation.
unfoldable restored_tables : Env → SandboxStatus → Sandbox → Tables → Tables
restored_tables env final s t =
    let (_, t') = update_storage_backend_mode env s.id live_disk t in
    if same_status final ready
    then (open_compute_session env s.id s.owner_id s.template t').1
    else t'

-- The snapshot is dropped once its workspace is on a disk.
unfoldable pub cleaned_up : Cluster → SandboxStatus → Option String → Sandbox → Sandbox
cleaned_up c final message s = elim c.delete_bound [
  | none ↦ with_message (append (cleanup_prefix message final) " Snapshot cleanup is pending.") s
  | some deleted_any ↦
      if deleted_any || is_set s.snapshot_k8s_volume_snapshot_name
      then clear_snapshot_binding s
      else s
]

-- `_complete_restore_to_live_disk`
unfoldable pub complete_restore :
    Env → Cluster → SandboxStatus → Option String → Sandbox → Tables → Tick
unfolding restored_tables cleaned_up
complete_restore env c final message s t = record {
  row = cleaned_up c final message (restored env final message s);
  tables = restored_tables env final s t;
  commands = delete_snapshot ∷ [];
}

abbrev refreshed : Option Binding → Sandbox → Sandbox
refreshed none s = s
refreshed (some b) s = with_binding b s

abbrev is_bound : Sandbox → Bool
is_bound s = elim s.k8s_workspace_pvc_name [
  | none ↦ false
  | some _ ↦ elim s.k8s_workspace_pv_name [ none ↦ false | some _ ↦ true ]
]

-- The resource is there.
unfoldable pub restore_from : Env → Cluster → SandboxStatus × String → Sandbox → Tables → Tick
unfolding complete_restore
restore_from env c (derived_status, message) s t =
    if same_status derived_status error
    then complete_restore env c stopped
        (some (
          nonempty_or message
            "Restore materialized the workspace, but the sandbox failed to become ready."))
        s t
    else if is_bound s
    then (if same_status derived_status ready
        then complete_restore env c ready none s t
        else done t []
            (with_message (nonempty_or message "Waiting for restored sandbox to become ready.") s))
    else done t [] (with_message "Waiting for restored workspace disk." s)

abbrev create_restored : Cluster → Sandbox → Tables → Tick
create_restored c s t = elim c.create_sandbox [
  | some e ↦
      done t (create_sandbox ∷ []) (fail_restore (append "Failed to create restored sandbox: " e) s)
  | none ↦ done t (create_sandbox ∷ []) (with_message "Restoring sandbox from cold storage." s)
]

unfoldable pub with_snapshot : Env → Cluster → Sandbox → Tables → Tick
unfolding restore_from
with_snapshot env c s t = elim c.cr [
  | none ↦ done t [] s
  | some found ↦ elim found [
    | none ↦ create_restored c s t
    | some resource ↦ elim c.binding [
      | none ↦ done t [] s
      | some b ↦ restore_from env c (derive_status resource) (refreshed b s) t
    ]
  ]
]

unfoldable pub process_restoring : Env → Cluster → Sandbox → Tables → Tick
unfolding with_snapshot
process_restoring env c s t = elim c.backend_ready [
  | some e ↦ done t [] (fail_restore e s)
  | none ↦
      if is_set s.snapshot_k8s_volume_snapshot_name
      then with_snapshot env c s t
      else done t [] (fail_restore "Cold sandbox has no bound snapshot to restore from." s)
]

unfoldable pub by_pending :
    Option PendingOperation → Env → Cluster → String → Sandbox → Tables → Tick
unfolding process_snapshotting process_restoring
by_pending none env c failure s t = done t [] s
by_pending (some PendingOperation.snapshotting) env c failure s t =
    process_snapshotting env c failure s t
by_pending (some PendingOperation.restoring) env c failure s t = process_restoring env c s t

-- `failure` is the text of an exception that the tick catches.
unfoldable pub process_sandbox : Env → Cluster → String → Sandbox → Tables → Tick
unfolding by_pending
process_sandbox env c failure s t = by_pending s.pending_operation env c failure s t
