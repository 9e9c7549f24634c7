-- ===== src/Cold.antt =====
-- treadstone/storage/services/storage_snapshot_orchestrator.py: a sandbox's workspace goes to a
-- snapshot and comes back from one, a tick at a time, while `pending_operation` is set. A tick's
-- calls of the cluster are answered by a `Cluster`, in which `none` stands for an exception; what a
-- tick asks the cluster to change is kept as a list of commands, the latest first.
pub mod Snapshot
pub mod Restore
pub mod Parked
pub mod Disk
pub mod Loop
pub mod Tests
use Prim.Native.String.{String}
use treadstone.Prelude.{
  ℕ, Bool, true, false, Option, none, some, List, [], ◌∷◌, leb, ◌==◌, not, ◌&&◌, if◌then◌else◌,
}
use treadstone.Sandbox.{stopped, cold, Sandbox, StorageBackendMode, live_disk, standard_snapshot}
use treadstone.Metering.Model.{Tables}
use treadstone.Sync.Resource.{Resource}

pub data Command : Type 0 where
  create_snapshot delete_snapshot delete_sandbox delete_claim create_sandbox : Command

-- The claim that `_refresh_workspace_binding` settles on, and the volume bound to it.
pub record Binding : Type 0 where
  pub pvc_name : Option ℕ
  pub pv_name : Option ℕ

-- The answers to the calls of one tick. `backend_ready` and `create_sandbox` hold the text of the
-- exception if there is one; `delete_bound` says whether anything was deleted.
pub record Cluster : Type 0 where
  pub backend_ready : Option String
  pub cr : Option (Option Resource)
  pub binding : Option (Option Binding)
  pub create_snapshot : Option ℕ
  pub snapshot_ready : Option (Option Bool)
  pub content_answers : Bool
  pub delete_bound : Option Bool
  pub live_cr : Option Bool
  pub delete_cr : Bool
  pub live_pvc : Option Bool
  pub delete_pvc : Bool
  pub cr_left : Option Bool
  pub pvc_left : Option Bool
  pub pv_left : Option Bool
  pub create_sandbox : Option String

-- What a tick leaves: an exception rolls the session back, but not the cluster.
pub record Tick : Type 0 where
  pub row : Sandbox
  pub tables : Tables
  pub commands : List Command

-- The row and the tables to which a session is rolled back.
abbrev pub done : Tables → List Command → Sandbox → Tick
done t commands s = record { row = s; tables = t; commands = commands }

abbrev or_mode : Option StorageBackendMode → StorageBackendMode → Option StorageBackendMode
or_mode none m = some m
or_mode (some m') m = some m'

-- `_fail_snapshot`
abbrev pub fail_snapshot : String → Sandbox → Sandbox
fail_snapshot message s = record s {
  pending_operation = none;
  status = stopped;
  storage_backend_mode = or_mode s.storage_backend_mode live_disk;
  status_message = some message;
}

-- `_fail_restore`
abbrev pub fail_restore : String → Sandbox → Sandbox
fail_restore message s = record s {
  pending_operation = none;
  status = cold;
  storage_backend_mode = or_mode s.storage_backend_mode standard_snapshot;
  status_message = some message;
}

-- `_clear_snapshot_binding`
abbrev pub clear_snapshot_binding : Sandbox → Sandbox
clear_snapshot_binding s = record s {
  gmt_snapshotted = none;
  snapshot_k8s_volume_snapshot_name = none;
}

abbrev pub with_message : String → Sandbox → Sandbox
with_message message s = record s { status_message = some message }

abbrev pub with_binding : Binding → Sandbox → Sandbox
with_binding b s = record s {
  k8s_workspace_pvc_name = b.pvc_name;
  k8s_workspace_pv_name = b.pv_name;
}

-- A persistent row without a mode is taken to be on a live disk.
abbrev default_mode : Sandbox → Sandbox
default_mode s =
    if s.persist
    then record s { storage_backend_mode = or_mode s.storage_backend_mode live_disk }
    else s

abbrev pub is_mode : StorageBackendMode → Option StorageBackendMode → Bool
is_mode live_disk (some live_disk) = true
is_mode standard_snapshot (some standard_snapshot) = true
is_mode StorageBackendMode.archive_snapshot (some StorageBackendMode.archive_snapshot) = true
is_mode _ _ = false

-- A name that is neither absent nor empty.
abbrev pub is_set : Option ℕ → Bool
is_set none = false
is_set (some n) = not (n == 0)

abbrev not_before : Option ℕ → Option ℕ → Bool
not_before none t = false
not_before (some r) none = false
not_before (some r) (some t) = leb t r

-- The snapshot that a row on a live disk is still bound to is the one that it was restored from.
abbrev pub has_stale_snapshot : Sandbox → Bool
has_stale_snapshot s =
    is_mode live_disk s.storage_backend_mode
    && (is_set s.snapshot_k8s_volume_snapshot_name && not_before s.gmt_restored s.gmt_snapshotted)
