-- ===== src/Sync/Rows.antt =====
-- What the sync loop writes: the row of one sandbox, the audit trail, and the state `M` that the
-- registered observers keep. Also sandbox_state_observer.py, the interface of the observers.
use Prim.Native.String.{String}
use treadstone.Prelude.{
  ℕ, ◌+◌, Bool, true, false, Option, none, some, List, [], ◌∷◌, not, ◌&&◌, ◌==◌, if◌then◌else◌,
}
use treadstone.Sandbox.{
  SandboxStatus, ready, stopped, cold, error, deleting, deleted, Sandbox, PendingOperation,
  same_status, status_in,
}
use treadstone.Sync.Resource.{present_text}

-- How a call of an observer ends. What it wrote before an exception stays in the session.
pub data Ending : Type 0 where
  returned raised : Ending

-- `SandboxStateObserver`
pub record Observer (M : Type 0) : Type 0 where
  pub on_sandbox_ready : ℕ → ℕ → String → M → Ending × M
  pub on_sandbox_stopped : ℕ → M → Ending × M
  pub on_sandbox_deleted : ℕ → Bool → M → Ending × M

pub data Source : Type 0 where
  k8s_watch k8s_reconcile : Source

-- The audit event "sandbox.status.change".
pub record StatusChange : Type 0 where
  pub sandbox_id : ℕ
  pub from_status : SandboxStatus
  pub to_status : SandboxStatus
  pub source : Source
  pub message : Option String

-- What is committed: the observers write in the session of the handler, and commit nothing.
pub record World (M : Type 0) : Type 0 where
  pub row : Sandbox
  pub audit : List StatusChange
  pub observed : M

-- What a handler has besides the cluster and the row. `object_status old new` is the status that
-- the session's copy of a row shows once an UPDATE statement has written `new` over `old`; it is
-- SQLAlchemy's, whose default for `synchronize_session` gives `new`.
pub record SyncEnv (M : Type 0) : Type 0 where
  pub observers : List (Observer M)
  pub now : ℕ
  pub object_status : SandboxStatus → SandboxStatus → SandboxStatus

-- The registered observers in turn, each in a `try` that only logs.
module _ {M : Type 0} where
  unfoldable notify_each : (Observer M → M → Ending × M) → List (Observer M) → M → M
  notify_each call [] m = m
  notify_each call (o ∷ os) m = notify_each call os (call o m).1

  unfoldable pub notify_ready : List (Observer M) → Sandbox → M → M
  unfolding notify_each
  notify_ready observers s =
      notify_each (λ o. o.on_sandbox_ready s.id s.owner_id s.template) observers

  unfoldable pub notify_stopped : List (Observer M) → Sandbox → M → M
  unfolding notify_each
  notify_stopped observers s = notify_each (λ o. o.on_sandbox_stopped s.id) observers

  -- `_try_notify_sandbox_deleted`
  unfoldable pub notify_deleted : List (Observer M) → Sandbox → M → M
  unfolding notify_each
  notify_deleted observers s = notify_each (λ o. o.on_sandbox_deleted s.id s.persist) observers

  -- `_notify_observers_on_transition`
  unfoldable pub notify_on_transition :
      List (Observer M) → Sandbox → SandboxStatus → SandboxStatus → M → M
  notify_on_transition observers s old_status new_status m =
      if not (same_status old_status ready) && same_status new_status ready
      then notify_ready observers s m
      else if same_status old_status ready
          && status_in new_status (stopped ∷ cold ∷ error ∷ deleting ∷ [])
      then notify_stopped observers s m
      else m

abbrev keep_if_none : Option String → Option String → Option String
keep_if_none none old = old
keep_if_none (some s) old = some s

abbrev if_status : SandboxStatus → SandboxStatus → ℕ → Option ℕ → Option ℕ
if_status s s' now old = if same_status s s' then some now else old

-- The row that `_optimistic_update` writes, and `none` where its `WHERE` finds no row.
abbrev updated_row : Sandbox → ℕ → SandboxStatus → Option String → Option String → ℕ → Sandbox
updated_row row expected new_status rv message now = record row {
  status = new_status;
  version = expected + 1;
  last_synced_at = some now;
  k8s_resource_version = keep_if_none (present_text rv) row.k8s_resource_version;
  status_message = keep_if_none message row.status_message;
  gmt_started = if_status new_status ready now row.gmt_started;
  gmt_stopped = if_status new_status stopped now row.gmt_stopped;
}

unfoldable pub optimistic_update :
    Sandbox → ℕ → SandboxStatus → Option String → Option String → ℕ → Option Sandbox
optimistic_update row expected new_status rv message now =
    if row.version == expected
    then some (updated_row row expected new_status rv message now)
    else none

-- `_update_sync_metadata`
abbrev pub update_sync_metadata : Sandbox → Option String → ℕ → Sandbox
update_sync_metadata row rv now = record row {
  k8s_resource_version = rv;
  last_synced_at = some now;
}

-- `_delete_sandbox_row`
abbrev pub delete_sandbox_row : Sandbox → ℕ → Sandbox
delete_sandbox_row row now = record row { status = deleted; gmt_deleted = some now }

-- `_record_status_change`
abbrev pub status_change :
    Sandbox → SandboxStatus → SandboxStatus → Source → Option String → StatusChange
status_change s from_status to_status source message = record {
  sandbox_id = s.id;
  from_status = from_status;
  to_status = to_status;
  source = source;
  message = message;
}

abbrev is_pending : Option PendingOperation → Bool
is_pending none = false
is_pending (some _) = true

-- `_suppress_status_sync`: both pending operations suppress it.
unfoldable pub suppress_status_sync : Sandbox → Bool
suppress_status_sync s = is_pending s.pending_operation

-- `_sync_visible_sandbox_clause`
abbrev is_unset : Option ℕ → Bool
is_unset none = true
is_unset (some _) = false

unfoldable pub is_sync_visible : Sandbox → Bool
is_sync_visible s = if is_unset s.gmt_deleted then true else same_status s.status deleting
