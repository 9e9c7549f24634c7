-- ===== src/Sandbox.antt =====
-- treadstone/sandbox/models/sandbox.py: the row of a sandbox and the table of its transitions.
-- Times are microseconds. Ids and resource names are only compared, so they are numbers, and 0 is
-- the empty text. Of `endpoints` the key `service_fqdn` is kept. `storage_size` is the number that
-- `parse_storage_size_gib` reads; an interval below 0 means the same as 0, never. Labels, image and
-- the columns that are only shown or passed on to the cluster are left out.
pub mod Transitions
pub mod Tests
use Prim.Native.String.{String}
use treadstone.Prelude.{ℕ, Bool, true, false, Option, List, [], ◌∷◌, ◌||◌}

pub data SandboxStatus : Type 0 where
  creating ready stopped cold error deleting deleted : SandboxStatus

pub data PendingOperation : Type 0 where
  snapshotting restoring : PendingOperation

pub data StorageBackendMode : Type 0 where
  live_disk standard_snapshot archive_snapshot : StorageBackendMode

abbrev pub same_status : SandboxStatus → SandboxStatus → Bool
same_status SandboxStatus.creating SandboxStatus.creating = true
same_status SandboxStatus.ready SandboxStatus.ready = true
same_status SandboxStatus.stopped SandboxStatus.stopped = true
same_status SandboxStatus.cold SandboxStatus.cold = true
same_status SandboxStatus.error SandboxStatus.error = true
same_status SandboxStatus.deleting SandboxStatus.deleting = true
same_status SandboxStatus.deleted SandboxStatus.deleted = true
same_status _ _ = false

-- `x in l`
abbrev pub status_in : SandboxStatus → List SandboxStatus → Bool
status_in s [] = false
status_in s (r ∷ rs) = same_status s r || status_in s rs

-- `VALID_TRANSITIONS.get(from_status, [])`
unfoldable valid_transitions : SandboxStatus → List SandboxStatus
valid_transitions SandboxStatus.creating =
    SandboxStatus.ready ∷ SandboxStatus.error ∷ SandboxStatus.stopped ∷ SandboxStatus.deleting ∷ []
valid_transitions SandboxStatus.ready =
    SandboxStatus.stopped ∷ SandboxStatus.error ∷ SandboxStatus.deleting ∷ []
valid_transitions SandboxStatus.stopped =
    SandboxStatus.creating ∷ SandboxStatus.ready ∷ SandboxStatus.cold ∷ SandboxStatus.error
    ∷ SandboxStatus.deleting ∷ []
valid_transitions SandboxStatus.cold =
    SandboxStatus.stopped ∷ SandboxStatus.ready ∷ SandboxStatus.error ∷ SandboxStatus.deleting ∷ []
valid_transitions SandboxStatus.error =
    SandboxStatus.ready ∷ SandboxStatus.creating ∷ SandboxStatus.stopped ∷ SandboxStatus.cold
    ∷ SandboxStatus.deleting ∷ []
valid_transitions SandboxStatus.deleting = SandboxStatus.deleted ∷ []
valid_transitions SandboxStatus.deleted = []

unfoldable pub is_valid_transition : SandboxStatus → SandboxStatus → Bool
unfolding valid_transitions
is_valid_transition from_status to_status = status_in to_status (valid_transitions from_status)

pub record Sandbox : Type 0 where
  pub id : ℕ
  pub owner_id : ℕ
  pub template : String
  pub auto_stop_interval : ℕ
  pub auto_delete_interval : ℕ
  pub is_direct : Bool
  pub persist : Bool
  pub storage_size : Option ℕ
  pub k8s_sandbox_claim_name : Option ℕ
  pub k8s_sandbox_name : Option ℕ
  pub k8s_namespace : ℕ
  pub k8s_resource_version : Option String
  pub last_synced_at : Option ℕ
  pub status : SandboxStatus
  pub pending_operation : Option PendingOperation
  pub status_message : Option String
  pub service_fqdn : Option ℕ
  pub storage_backend_mode : Option StorageBackendMode
  pub k8s_workspace_pvc_name : Option ℕ
  pub k8s_workspace_pv_name : Option ℕ
  pub snapshot_k8s_volume_snapshot_name : Option ℕ
  pub version : ℕ
  pub gmt_started : Option ℕ
  pub gmt_stopped : Option ℕ
  pub gmt_snapshotted : Option ℕ
  pub gmt_restored : Option ℕ
  pub gmt_last_active : Option ℕ
  pub gmt_deleted : Option ℕ
