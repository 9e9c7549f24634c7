-- ===== src/Sync/Watch.antt =====
-- `handle_watch_event`. The row is read once (`seen`); until the handler's first write other
-- sessions may change it, so the handler writes to a world whose row may differ from `seen`.
-- Where the source commits nothing, the world is given back as it was.
pub mod Transitions
use Prim.Native.String.{String}
use treadstone.Prelude.{
  ℕ, Bool, true, false, Option, none, some, [], ◌∷◌, not, ◌&&◌, ◌||◌, ◌==◌, if◌then◌else◌,
}
use treadstone.Sandbox.{
  SandboxStatus, cold, error, deleting, deleted, Sandbox, PendingOperation, snapshotting,
  same_status, is_valid_transition,
}
use treadstone.Sync.Resource.{
  Resource, present, present_text, same_version, same_name, claim_owner_name, get_or,
}
use treadstone.Sync.Derive.{derive_status}
use treadstone.Sync.Rows.{
  SyncEnv, World, k8s_watch, status_change, notify_deleted, notify_on_transition, optimistic_update,
  update_sync_metadata, delete_sandbox_row, suppress_status_sync, is_sync_visible,
}

pub data EventType : Type 0 where
  added modified removed other : EventType

abbrev pub is_snapshotting : Option PendingOperation → Bool
is_snapshotting (some snapshotting) = true
is_snapshotting _ = false

-- The names that an ADDED or MODIFIED event brings; the ORM writes the columns that change.
abbrev with_name : Sandbox → Option ℕ → Sandbox → Sandbox
with_name seen name row =
    if same_name seen.k8s_sandbox_name name then row else record row { k8s_sandbox_name = name }

abbrev fqdn_changes : Sandbox → Option ℕ → Bool
fqdn_changes seen fqdn = elim (present fqdn) [
  | none ↦ false
  | some f ↦ not (same_name seen.service_fqdn (some f))
]

abbrev with_fqdn : Sandbox → Option ℕ → Sandbox → Sandbox
with_fqdn seen fqdn row = if fqdn_changes seen fqdn then record row { service_fqdn = fqdn } else row

-- The flush of the dirty columns, and whether there were any.
unfoldable pub flushed : Sandbox → Option ℕ → Option ℕ → Sandbox → Sandbox
flushed seen name fqdn row = with_fqdn seen fqdn (with_name seen name row)

unfoldable pub is_dirty : Sandbox → Option ℕ → Option ℕ → Bool
is_dirty seen name fqdn = not (same_name seen.k8s_sandbox_name name) || fqdn_changes seen fqdn

module _ {M : Type 0} (env : SyncEnv M) where
  open env use {observers, now, object_status}

  -- The status update, its audit event and the observers, in one transaction; a row whose version
  -- has moved is left to whoever moved it.
  abbrev after_update : Sandbox → SandboxStatus → Option String → World M → Option Sandbox → World M
  after_update seen new_status message w none = w
  after_update seen new_status message w (some row) = record {
    row = row;
    audit = status_change seen seen.status new_status k8s_watch message ∷ w.audit;
    observed = notify_on_transition observers seen seen.status new_status w.observed;
  }

  -- `told` is what the observers, who were told before, have written in the session: it is committed
  -- with the status, and goes with the session where the version has moved.
  abbrev after_error : Sandbox → M → World M → Option Sandbox → World M
  after_error seen told w none = w
  after_error seen told w (some row) = record {
    row = row;
    audit = status_change seen (object_status seen.status error) error k8s_watch none ∷ w.audit;
    observed = told;
  }

  unfoldable pub handle_deleted : Resource → Sandbox → World M → World M
  handle_deleted cr seen w =
      if is_snapshotting seen.pending_operation || same_status seen.status cold
      then w
      else (let told = notify_deleted observers seen w.observed in
          if same_status seen.status deleting
          then record {
            row = delete_sandbox_row w.row now;
            audit = status_change seen deleting deleted k8s_watch none ∷ w.audit;
            observed = told;
          }
          else after_error seen told w
              (optimistic_update w.row seen.version error cr.resource_version none now))

  -- The commit where only the sync metadata or the flushed columns are new.
  unfoldable pub commit_metadata : Bool → Bool → Option String → Sandbox → World M → World M
  commit_metadata synced dirty rv row w =
      if synced
      then record w { row = update_sync_metadata row rv now }
      else if dirty
      then record w { row = row }
      else w

  abbrev has_text : Option String → Bool
  has_text none = false
  has_text (some _) = true

  unfoldable pub change_to : SandboxStatus → String → Resource → Sandbox → World M → World M
  unfolding commit_metadata
  change_to new_status message cr seen w =
      let row = flushed seen cr.name cr.service_fqdn w.row in
      let dirty = is_dirty seen cr.name cr.service_fqdn in
      let moved = not (same_version seen.k8s_resource_version cr.resource_version) in
      if suppress_status_sync seen
      then commit_metadata (has_text (present_text cr.resource_version) && moved) dirty
          cr.resource_version row w
      else if same_status seen.status new_status
      then commit_metadata moved dirty cr.resource_version row w
      else if not (is_valid_transition seen.status new_status)
      then w
      else after_update seen new_status (some message) w
          (optimistic_update row seen.version new_status cr.resource_version (some message) now)

  unfoldable handle_changed : Resource → Sandbox → World M → World M
  unfolding change_to
  handle_changed cr seen w =
      let (new_status, message) = derive_status cr in change_to new_status message cr seen w

  unfoldable pub handle_row : EventType → Resource → Sandbox → World M → World M
  unfolding handle_deleted handle_changed
  handle_row removed cr seen w = handle_deleted cr seen w
  handle_row added cr seen w = handle_changed cr seen w
  handle_row modified cr seen w = handle_changed cr seen w
  handle_row other cr seen w = w

abbrev name_matches : Option ℕ → ℕ → Bool
name_matches none n = false
name_matches (some m) n = m == n

abbrev claim_matches : Option ℕ → Option ℕ → Bool
claim_matches claim none = false
claim_matches claim (some n) = name_matches claim n

-- The `WHERE` that finds the row of an event: by name, by claim, or by the claim that owns the CR.
unfoldable is_row_of : ℕ → Resource → ℕ → Sandbox → Bool
unfolding is_sync_visible claim_owner_name
is_row_of default_namespace cr cr_name s =
    (name_matches s.k8s_sandbox_name cr_name
      || name_matches s.k8s_sandbox_claim_name cr_name
      || claim_matches s.k8s_sandbox_claim_name (claim_owner_name cr.owner_references))
    && s.k8s_namespace == get_or cr.namespace default_namespace
    && is_sync_visible s
