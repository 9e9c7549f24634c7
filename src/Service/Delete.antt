-- ===== src/Service/Delete.antt =====
-- `SandboxService.delete`. The web link of the sandbox is left out.
use treadstone.Prelude.{ℕ, ◌+◌, Option, none, some, List, [], ◌∷◌, not, if◌then◌else◌}
use treadstone.Sandbox.{deleting, deleted, Sandbox, standard_snapshot, is_valid_transition}
use treadstone.Metering.Model.{Tables, Env, Result, ok, err, StorageLedger, Action, pure}
use treadstone.Metering.Storage.{record_storage_release}
use treadstone.Cold.{clear_snapshot_binding, is_mode, is_set}
use treadstone.Service.{
  invalid_transition, Call, Switches, Answers, refuse, commit, is_none, find_owned, on_found,
  failed,
}

abbrev marked : Sandbox → Sandbox
marked s = record s { status = deleting; version = s.version + 1 }

abbrev pub gone : Env → Sandbox → Sandbox
gone env s = record s {
  status = deleted;
  gmt_deleted = some env.now;
  status_message = none;
  version = s.version + 1;
}

-- A second commit after the one that marked the row.
abbrev second : Sandbox → Sandbox → Tables → Call
second s s' t = commit s' (s ∷ s' ∷ []) t

abbrev release_storage : Env → Switches → Sandbox → Action (Option StorageLedger)
release_storage env switches s =
    if switches.metered then record_storage_release env s.id else pure none

abbrev released_cold : Env → Result (Option StorageLedger) × Tables → Sandbox → Sandbox → Call
released_cold env (ok l, t') s s' = second s (gone env s') t'
released_cold env (err e, t') s s' = second s (failed "Failed to delete cold snapshot asset" s') t'

-- Of a cold sandbox there is only the snapshot.
unfoldable pub delete_cold : Env → Switches → Answers → Sandbox → Tables → Call
delete_cold env switches a s t =
    if a.delete_bound
    then released_cold env (release_storage env switches s t) s (clear_snapshot_binding s)
    else second s (failed "Failed to delete cold snapshot asset" s) t

-- `s'` is the object in the session; if all goes well it is left to the commit of the caller.
abbrev delete_from_cluster : Answers → Sandbox → Sandbox → Tables → Call
delete_from_cluster a s s' t =
    if a.delete_resource
    then commit s' (s ∷ []) t
    else second s (failed "Failed to delete K8s resource" s') t

unfoldable pub delete_live : Answers → Sandbox → Tables → Call
delete_live a s t =
    if is_set s.snapshot_k8s_volume_snapshot_name
    then (if a.delete_bound
        then delete_from_cluster a s (clear_snapshot_binding s) t
        else second s (failed "Failed to delete bound snapshot during sandbox delete" s) t)
    else delete_from_cluster a s s t

unfoldable pub delete_found : Env → Switches → Answers → Sandbox → Tables → Call
unfolding delete_cold delete_live is_valid_transition
delete_found env switches a s t =
    if not (is_none s.pending_operation)
    then refuse invalid_transition t
    else if not (is_valid_transition s.status deleting)
    then refuse invalid_transition t
    else if is_mode standard_snapshot s.storage_backend_mode
    then delete_cold env switches a (marked s) t
    else delete_live a (marked s) t

unfoldable pub delete : Env → Switches → Answers → ℕ → ℕ → List Sandbox → Tables → Call
unfolding delete_found find_owned
delete env switches a sandbox_id owner_id rows t =
    on_found (find_owned sandbox_id owner_id rows) t (λ s. delete_found env switches a s t)
