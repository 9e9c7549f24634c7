-- ===== src/Sync/Reconcile.antt =====
-- `reconcile`, for one row: the comparison of the row that was read (`seen`) with the resource that
-- the list has for it, if it has one. As in Watch the world's row is what other sessions have made
-- of `seen`. All rows share one transaction, so a flush that no commit follows is not lost: the next
-- row's commit takes it along.
pub mod Effects
use Prim.Native.String.{String}
use treadstone.Prelude.{ℕ, Bool, Option, none, some, ◌∷◌, not, ◌&&◌, if◌then◌else◌}
use treadstone.Sandbox.{
  SandboxStatus, creating, ready, stopped, cold, error, deleting, deleted, Sandbox, same_status,
  is_valid_transition,
}
use treadstone.Sync.Resource.{Resource, present, same_version, is_stale_snapshot}
use treadstone.Sync.Derive.{derive_status}
use treadstone.Sync.Rows.{
  SyncEnv, World, k8s_reconcile, status_change, notify_deleted, notify_on_transition,
  optimistic_update, update_sync_metadata, delete_sandbox_row, suppress_status_sync,
}
use treadstone.Sync.Watch.{flushed}

pub data MissingPolicy : Type 0 where
  delete skip warn_only mark_error : MissingPolicy

-- `_CR_MISSING_POLICY.get(status, "mark_error")`
unfoldable pub cr_missing_policy : SandboxStatus → MissingPolicy
cr_missing_policy SandboxStatus.deleting = delete
cr_missing_policy SandboxStatus.creating = skip
cr_missing_policy SandboxStatus.stopped = warn_only
cr_missing_policy SandboxStatus.cold = warn_only
cr_missing_policy SandboxStatus.ready = warn_only
cr_missing_policy SandboxStatus.error = warn_only
cr_missing_policy SandboxStatus.deleted = mark_error

-- The names of a resource that is there: `if cr_name and …` guards the flush.
abbrev pub renamed : Sandbox → Option ℕ → Option ℕ
renamed seen name = elim (present name) [ none ↦ seen.k8s_sandbox_name | some n ↦ some n ]

module _ {M : Type 0} (env : SyncEnv M) where
  open env use {observers, now}

  abbrev after_missing : Sandbox → World M → Option Sandbox → World M
  after_missing seen w none = w
  after_missing seen w (some row) = record {
    row = row;
    audit = status_change seen seen.status error k8s_reconcile none ∷ w.audit;
    observed = notify_on_transition observers seen seen.status error w.observed;
  }

  -- The row's resource is not in the list.
  unfoldable pub reconcile_missing : MissingPolicy → Sandbox → World M → World M
  reconcile_missing delete seen w = record {
    row = delete_sandbox_row w.row now;
    audit = status_change seen seen.status deleted k8s_reconcile none ∷ w.audit;
    observed = notify_deleted observers seen w.observed;
  }
  reconcile_missing skip seen w = w
  reconcile_missing warn_only seen w = w
  reconcile_missing mark_error seen w =
      after_missing seen w (optimistic_update w.row seen.version error none none now)

  abbrev after_change :
      Sandbox → SandboxStatus → String → Sandbox → World M → Option Sandbox → World M
  after_change seen new_status message row w none = record w { row = row }
  after_change seen new_status message row w (some row') = record {
    row = row';
    audit = status_change seen seen.status new_status k8s_reconcile (some message) ∷ w.audit;
    observed = notify_on_transition observers seen seen.status new_status w.observed;
  }

  -- The row with the sync metadata, where the resource's version is new.
  abbrev with_metadata : Bool → Option String → Sandbox → World M → World M
  with_metadata known rv row w = record w {
    row = if known then row else update_sync_metadata row rv now;
  }

  unfoldable pub reconcile_to : SandboxStatus → String → Resource → Sandbox → World M → World M
  reconcile_to new_status message cr seen w =
      let row = flushed seen (renamed seen cr.name) cr.service_fqdn w.row in
      let known = same_version seen.k8s_resource_version cr.resource_version in
      if suppress_status_sync seen
      then with_metadata known cr.resource_version row w
      else if known && same_status new_status seen.status
      then record w { row = row }
      else if not (same_status new_status seen.status) && is_valid_transition seen.status new_status
      then after_change seen new_status message row w
          (optimistic_update row seen.version new_status cr.resource_version (some message) now)
      else with_metadata known cr.resource_version row w

  unfoldable pub reconcile_row : Option Resource → Sandbox → World M → World M
  unfolding reconcile_missing reconcile_to cr_missing_policy
  reconcile_row none seen w = reconcile_missing (cr_missing_policy seen.status) seen w
  reconcile_row (some cr) seen w =
      let (new_status, message) = derive_status cr in
      if is_stale_snapshot cr.resource_version seen.k8s_resource_version
      then w
      else reconcile_to new_status message cr seen w
