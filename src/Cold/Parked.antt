-- ===== src/Cold/Parked.antt =====
-- What a tick does to the status of a row.
use Prim.Native.String.{String}
use treadstone.Prelude.{
  ◌≡◌, refl, Bool, true, false, ◌⊎◌, inl, inr, Option, none, some, List, arith, sym, subst, ap, [],
}
use treadstone.Sandbox.{
  SandboxStatus, ready, stopped, cold, Sandbox, PendingOperation, snapshotting, restoring,
  same_status, is_valid_transition,
}
use treadstone.Metering.Model.{Tables, Env}
use treadstone.Sync.Effect.{same_status_iff}
use treadstone.Cold.{Command, Cluster, Tick, done, default_mode}
use treadstone.Cold.Snapshot.{
  Part, finish, after_release, when_created, when_stopped, when_missing, when_backend_ready,
  process_snapshotting, release_live_workspace_assets,
}
use treadstone.Cold.Restore.{
  cleaned_up, complete_restore, restore_from, with_snapshot, process_restoring, by_pending,
  process_sandbox,
}

abbrev pub is_parked : Option PendingOperation → SandboxStatus → Bool
is_parked none s = true
is_parked (some PendingOperation.snapshotting) s = same_status s stopped
is_parked (some PendingOperation.restoring) s = same_status s cold

-- A row that waits for a snapshot is stopped, and one that waits for a restore is cold.
abbrev pub IsParked : Sandbox → Type 0
IsParked s = is_parked s.pending_operation s.status ≡ true

abbrev is_snapshot_state : Option PendingOperation → SandboxStatus → Bool
is_snapshot_state none SandboxStatus.stopped = true
is_snapshot_state none SandboxStatus.cold = true
is_snapshot_state (some PendingOperation.snapshotting) SandboxStatus.stopped = true
is_snapshot_state _ _ = false

abbrev InSnapshot : Sandbox → Type 0
InSnapshot s = is_snapshot_state s.pending_operation s.status ≡ true

release-keeps :
    (c : Cluster) (s : Sandbox)
    → let p = release_live_workspace_assets c s in
      (p.row.pending_operation ≡ s.pending_operation) × (p.row.status ≡ s.status)
unfolding release_live_workspace_assets
release-keeps c s = ground arith

module _ (env : Env) (c : Cluster) (keep : Sandbox) (t : Tables) (h : InSnapshot keep) where
  finish-InSnapshot :
      (commands : List Command) (s : Sandbox)
      → InSnapshot s
      → InSnapshot (finish env c keep t commands s).row
  unfolding finish
  finish-InSnapshot commands s i = ground arith

  after_release-InSnapshot :
      (failure : String) (p : Part)
      → InSnapshot p.row
      → InSnapshot (after_release env c keep t failure p).row
  unfolding after_release
  after_release-InSnapshot failure p i = ground (arith, finish-InSnapshot p.commands p.row i)

  when_created-InSnapshot :
      (failure : String) (s : Sandbox)
      → InSnapshot s
      → InSnapshot (when_created env c keep t failure s).row
  unfolding when_created
  when_created-InSnapshot failure s i =
      let s' : Sandbox = record s { gmt_snapshotted = some env.now } in
      let (p, st) = release-keeps c s' in
      ground (
        arith,
        after_release-InSnapshot failure (release_live_workspace_assets c s') (rw (p, st) i),
      )

  when_stopped-InSnapshot :
      (failure : String) (s : Sandbox)
      → InSnapshot s
      → InSnapshot (when_stopped env c keep t failure s).row
  unfolding when_stopped
  when_stopped-InSnapshot failure s i = ground arith

  when_missing-InSnapshot :
      (failure : String) (s : Sandbox)
      → InSnapshot s
      → InSnapshot (when_missing env c keep t failure s).row
  unfolding when_missing
  when_missing-InSnapshot failure s i = ground (arith, when_stopped-InSnapshot failure s i)

  when_backend_ready-InSnapshot :
      (failure : String) (s : Sandbox)
      → InSnapshot s
      → InSnapshot (when_backend_ready env c keep t failure s).row
  unfolding when_backend_ready
  when_backend_ready-InSnapshot failure s i =
      ground (arith, when_missing-InSnapshot failure s i, when_created-InSnapshot failure s i)

process_snapshotting-InSnapshot :
    (env : Env) (c : Cluster) (failure : String) (s : Sandbox) (t : Tables)
    → InSnapshot s
    → InSnapshot (process_snapshotting env c failure s t).row
unfolding process_snapshotting
process_snapshotting-InSnapshot env c failure s t i =
    ground (arith, when_backend_ready-InSnapshot env c s t i failure (default_mode s))

abbrev is_restore_state : Option PendingOperation → SandboxStatus → Bool
is_restore_state none SandboxStatus.stopped = true
is_restore_state none SandboxStatus.ready = true
is_restore_state none SandboxStatus.cold = true
is_restore_state (some PendingOperation.restoring) SandboxStatus.cold = true
is_restore_state _ _ = false

abbrev InRestore : Sandbox → Type 0
InRestore s = is_restore_state s.pending_operation s.status ≡ true

module _ (env : Env) (c : Cluster) (t : Tables) where
  complete_restore-InRestore :
      (message : Option String) (s : Sandbox)
      → (InRestore (complete_restore env c ready message s t).row)
        × (InRestore (complete_restore env c stopped message s t).row)
  unfolding complete_restore cleaned_up
  complete_restore-InRestore message s = ground arith

  restore_from-InRestore :
      (derived : SandboxStatus) (message : String) (s : Sandbox)
      → InRestore s
      → InRestore (restore_from env c (derived, message) s t).row
  unfolding restore_from complete_restore cleaned_up
  restore_from-InRestore derived message s i = ground arith

  with_snapshot-InRestore : (s : Sandbox) → InRestore s → InRestore (with_snapshot env c s t).row
  unfolding with_snapshot restore_from complete_restore cleaned_up
  with_snapshot-InRestore s i = ground arith

  process_restoring-InRestore :
      (s : Sandbox) → InRestore s → InRestore (process_restoring env c s t).row
  unfolding process_restoring
  process_restoring-InRestore s i = ground (arith, with_snapshot-InRestore s i)

start-InSnapshot :
    (s : Sandbox) → s.pending_operation ≡ some snapshotting → s.status ≡ stopped → InSnapshot s
start-InSnapshot s p h = ground (arith, p, h)

start-InRestore :
    (s : Sandbox) → s.pending_operation ≡ some restoring → s.status ≡ cold → InRestore s
start-InRestore s p h = ground (arith, p, h)

pub pending_cases :
    (o : Option PendingOperation) → (o ≡ none) ⊎ ((o ≡ some snapshotting) ⊎ (o ≡ some restoring))
pending_cases none = inl refl
pending_cases (some PendingOperation.snapshotting) = inr (inl refl)
pending_cases (some PendingOperation.restoring) = inr (inr refl)

abbrev ParkedStep : Sandbox → Tick → Type 0
ParkedStep s tick =
    IsParked tick.row
    × ((tick.row.status ≡ s.status) ⊎ (is_valid_transition s.status tick.row.status ≡ true))

step_of_snapshot :
    (s : Sandbox) (tick : Tick) → s.status ≡ stopped → InSnapshot tick.row → ParkedStep s tick
unfolding is_valid_transition
step_of_snapshot s tick h i = ground (arith, h, i)

step_of_restore :
    (s : Sandbox) (tick : Tick) → s.status ≡ cold → InRestore tick.row → ParkedStep s tick
unfolding is_valid_transition
step_of_restore s tick h i = ground (arith, h, i)

module _ (env : Env) (c : Cluster) (failure : String) (s : Sandbox) (t : Tables) where
  pub process_sandbox-snapshotting :
      s.pending_operation ≡ some snapshotting
      → process_sandbox env c failure s t ≡ process_snapshotting env c failure s t
  unfolding process_sandbox
  process_sandbox-snapshotting p = ap (λ o. by_pending o env c failure s t) p

  pub process_sandbox-restoring :
      s.pending_operation ≡ some restoring
      → process_sandbox env c failure s t ≡ process_restoring env c s t
  unfolding process_sandbox
  process_sandbox-restoring p = ap (λ o. by_pending o env c failure s t) p

  pub process_sandbox-idle :
      s.pending_operation ≡ none → process_sandbox env c failure s t ≡ done t [] s
  unfolding process_sandbox
  process_sandbox-idle p = ap (λ o. by_pending o env c failure s t) p

-- A row that waits for a snapshot is stopped, and one that waits for a restore is cold: if so
-- before a tick, then also after it, and the tick leaves the status or moves it along
-- `VALID_TRANSITIONS`, whatever the cluster answers.
pub process_sandbox-IsParked :
    (env : Env) (c : Cluster) (failure : String) (s : Sandbox) (t : Tables)
    → IsParked s
    → let s' = (process_sandbox env c failure s t).row in
      IsParked s' × ((s'.status ≡ s.status) ⊎ (is_valid_transition s.status s'.status ≡ true))
unfolding process_sandbox
process_sandbox-IsParked env c failure s t h = elim (pending_cases s.pending_operation) [
  | inl e ↦ subst (ParkedStep s) (sym (process_sandbox-idle env c failure s t e)) (h, inl refl)
  | inr (inl e) ↦
      let st = same_status_iff s.status stopped (subst (λ o. is_parked o s.status ≡ true) e h) in
      subst (ParkedStep s) (sym (process_sandbox-snapshotting env c failure s t e)) (
        step_of_snapshot s (process_snapshotting env c failure s t) st
          (process_snapshotting-InSnapshot env c failure s t (start-InSnapshot s e st)))
  | inr (inr e) ↦
      let st = same_status_iff s.status cold (subst (λ o. is_parked o s.status ≡ true) e h) in
      subst (ParkedStep s) (sym (process_sandbox-restoring env c failure s t e)) (
        step_of_restore s (process_restoring env c s t) st
          (process_restoring-InRestore env c t s (start-InRestore s e st)))
]
