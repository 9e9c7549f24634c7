-- ===== src/Cold/Disk.antt =====
-- In which order a tick gives up the disk and the snapshot: the workspace is to be on one of them.
use Prim.Native.String.{String}
use treadstone.Prelude.{
  ◌≡◌, Bool, true, false, inl, inr, none, some, List, [], ◌∷◌, arith, sym, subst,
}
use treadstone.Sandbox.{error, Sandbox, snapshotting, restoring, live_disk}
use treadstone.Metering.Model.{Tables, Env}
use treadstone.Sync.Resource.{Resource}
use treadstone.Sync.Derive.{derive_status}
use treadstone.Cold.{Command, Cluster, default_mode, is_set}
use treadstone.Cold.Snapshot.{
  when_created, when_stopped, when_missing, when_backend_ready, process_snapshotting,
}
use treadstone.Cold.Restore.{
  cleaned_up, complete_restore, restore_from, with_snapshot, process_restoring, process_sandbox,
}
use treadstone.Cold.Parked.{
  pending_cases, process_sandbox-idle, process_sandbox-snapshotting, process_sandbox-restoring,
}

-- Whether the disk is asked to go, or the resource that owns it.
abbrev pub deletes_disk : List Command → Bool
deletes_disk [] = false
deletes_disk (Command.delete_sandbox ∷ cs) = true
deletes_disk (Command.delete_claim ∷ cs) = true
deletes_disk (_ ∷ cs) = deletes_disk cs

abbrev pub deletes_snapshot : List Command → Bool
deletes_snapshot [] = false
deletes_snapshot (Command.delete_snapshot ∷ cs) = true
deletes_snapshot (_ ∷ cs) = deletes_snapshot cs

module _ (env : Env) (c : Cluster) (t : Tables) where
  when_created-ready :
      (failure : String) (keep s : Sandbox)
      → deletes_disk (when_created env c keep t failure s).commands ≡ true
      → c.snapshot_ready ≡ some (some true)
  unfolding when_created
  when_created-ready failure keep s h = ground (arith, h)

  when_missing-kept :
      (failure : String) (keep s : Sandbox)
      → deletes_disk (when_missing env c keep t failure s).commands ≡ false
  unfolding when_missing when_stopped
  when_missing-kept failure keep s = ground arith

  process_snapshotting-ready :
      (failure : String) (s : Sandbox)
      → deletes_disk (process_snapshotting env c failure s t).commands ≡ true
      → c.snapshot_ready ≡ some (some true)
  unfolding process_snapshotting when_backend_ready
  process_snapshotting-ready failure s h = ground (
    arith,
    h,
    when_created-ready failure s (default_mode s),
    when_missing-kept failure s (default_mode s),
  )

  process_restoring-kept :
      (s : Sandbox) → deletes_disk (process_restoring env c s t).commands ≡ false
  unfolding process_restoring with_snapshot restore_from complete_restore
  process_restoring-kept s = ground arith

  process_restoring-moved :
      (s : Sandbox)
      → deletes_snapshot (process_restoring env c s t).commands ≡ true
      → let s' = (process_restoring env c s t).row in
        (s'.storage_backend_mode ≡ some live_disk) × (s'.pending_operation ≡ none)
  unfolding process_restoring with_snapshot restore_from complete_restore cleaned_up
  process_restoring-moved s h = ground (arith, h)

-- A tick asks for the disk, or for the resource that owns it, to be deleted only if the snapshot
-- of the sandbox is then ready to use.
pub process_sandbox-ready :
    (env : Env) (c : Cluster) (failure : String) (s : Sandbox) (t : Tables)
    → deletes_disk (process_sandbox env c failure s t).commands ≡ true
    → (s.pending_operation ≡ some snapshotting) × (c.snapshot_ready ≡ some (some true))
process_sandbox-ready env c failure s t h = elim (pending_cases s.pending_operation) [
  | inl e ↦ ground (arith, h, process_sandbox-idle env c failure s t e)
  | inr (inl e) ↦ (
    e,
    process_snapshotting-ready env c t failure s (
        subst (λ tick. deletes_disk tick.commands ≡ true)
          (process_sandbox-snapshotting env c failure s t e) h),
  )
  | inr (inr e) ↦
      ground
        (arith, h, process_sandbox-restoring env c failure s t e, process_restoring-kept env c t s)
]

-- A restore asks for the snapshot to be deleted only in the tick that moves the row to a live disk
-- and ends the pending operation, and it never asks for the disk or the resource to be deleted.
process_sandbox-moved :
    (env : Env) (c : Cluster) (failure : String) (s : Sandbox) (t : Tables)
    → s.pending_operation ≡ some restoring
    → let tick = process_sandbox env c failure s t in
      ((deletes_snapshot tick.commands ≡ true)
        → (tick.row.storage_backend_mode ≡ some live_disk) × (tick.row.pending_operation ≡ none))
      × (deletes_disk tick.commands ≡ false)
process_sandbox-moved env c failure s t p =
    subst
      (λ tick.
        (deletes_snapshot tick.commands ≡ true
          → (tick.row.storage_backend_mode ≡ some live_disk) × (tick.row.pending_operation ≡ none))
        × (deletes_disk tick.commands ≡ false))
      (sym (process_sandbox-restoring env c failure s t p))
      (process_restoring-moved env c t s, process_restoring-kept env c t s)

-- If the resource of a restore reports an error and no claim is found, then for a sandbox that has
-- none recorded, the tick deletes the snapshot and puts the row on a live disk that is not there.
process_restoring-unbound :
    (env : Env) (c : Cluster) (s : Sandbox) (t : Tables) (resource : Resource)
    → c.backend_ready ≡ none
    → is_set s.snapshot_k8s_volume_snapshot_name ≡ true
    → c.cr ≡ some (some resource)
    → (derive_status resource).0 ≡ error
    → c.binding ≡ some none
    → s.k8s_workspace_pvc_name ≡ none
    → let tick = process_restoring env c s t in
      (deletes_snapshot tick.commands ≡ true)
      × ((tick.row.storage_backend_mode ≡ some live_disk)
          × (tick.row.k8s_workspace_pvc_name ≡ none))
unfolding process_restoring with_snapshot restore_from complete_restore cleaned_up
process_restoring-unbound env c s t resource ready' named found failed unbound no_claim =
    ground (arith, ready', named, found, failed, unbound, no_claim)
