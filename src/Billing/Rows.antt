-- ===== src/Billing/Rows.antt =====
-- A sandbox is billed while it is ready: the sync loop keeps its open sessions in step with its
-- status.
use treadstone.Prelude.{
  ℕ, ◌-◌, ◌≡◌, ◌≢◌, refl, Bool, true, ◌⊎◌, inl, inr, Option, List, [], ◌∷◌, arith, max,
  if◌then◌else◌, ap, ◌∙◌, ◌==◌,
}
use treadstone.Sandbox.{
  SandboxStatus, ready, error, deleted, Sandbox, same_status, is_valid_transition,
}
use treadstone.Metering.Model.{Tables, Env, Result, ok, err, ComputeSession, bind_rule, pure, ◌>>=◌}
use treadstone.Metering.Sessions.{open_count, open_compute_session, close_compute_session}
use treadstone.Metering.Sessions.Rows.{close_count}
use treadstone.Metering.Sessions.Counts.{counted_open, open_count-open_compute_session}
use treadstone.Metering.Storage.{record_storage_release}
use treadstone.Sync.Resource.{Resource}
use treadstone.Sync.Rows.{
  Observer, SyncEnv, World, notify_ready, notify_stopped, notify_deleted, notify_on_transition,
}
use treadstone.Sync.Watch.{EventType, handle_row}
use treadstone.Sync.Effect.{Effect, quiet, moved, gone}
use treadstone.Sync.Watch.Transitions.{handle_row-Effect}
use treadstone.Sync.Reconcile.{reconcile_row}
use treadstone.Sync.Reconcile.Effects.{reconcile_row-Effect}
use treadstone.Billing.{metering_observer, release_after_close, ending_of}

ending_of-tables : {A : Type 0} (r : Result A × Tables) → (ending_of r).1 ≡ r.1
ending_of-tables (ok a, t) = refl
ending_of-tables (err e, t) = refl

-- One open session while the sandbox is ready, none otherwise.
abbrev pub IsBilled : ℕ → SandboxStatus → Tables → Type 0
IsBilled sandbox status t =
    open_count sandbox t.sessions ≡ (if same_status status ready then 1 else 0)

release_sessions :
    (env : Env) (sandbox : ℕ) (t : Tables)
    → (record_storage_release env sandbox t).1.sessions ≡ t.sessions
unfolding record_storage_release
release_sessions env sandbox t = ground arith

persist_sessions :
    (env : Env) (sandbox : ℕ) (persist : Bool) (t : Tables)
    → ((if persist then record_storage_release env sandbox >>= (λ _. pure tt) else pure tt)
        t).1.sessions
      ≡ t.sessions
persist_sessions env sandbox persist t = ground (arith, release_sessions env sandbox t)

release_after_close-sessions :
    (env : Env) (sandbox : ℕ) (persist : Bool) (t : Tables)
    → (release_after_close env sandbox persist t).1.sessions
      ≡ (close_compute_session env sandbox t).1.sessions
unfolding release_after_close
release_after_close-sessions env sandbox persist t =
    bind_rule (close_compute_session env sandbox)
      (λ _. if persist then record_storage_release env sandbox >>= (λ _. pure tt) else pure tt) t
      (λ r. r.1.sessions ≡ (close_compute_session env sandbox t).1.sessions)
      (λ closed h. persist_sessions env sandbox persist (close_compute_session env sandbox t).1)
      (λ e h. refl)

module _ (env : Env) (seen : Sandbox) (m : Tables) {cs : ComputeSession}
    {closed : Option ComputeSession}
    (opens : (open_compute_session env seen.id seen.owner_id seen.template m).0 ≡ ok cs)
    (closes : (close_compute_session env seen.id m).0 ≡ ok closed) where
  abbrev observers : List (Observer Tables)
  observers = metering_observer env ∷ []

  itself :
      (if seen.id == seen.id
        then max (open_count seen.id m.sessions) 1
        else open_count seen.id m.sessions)
      ≡ max (open_count seen.id m.sessions) 1
  itself = ground arith

  ready_count :
      open_count seen.id (notify_ready observers seen m).sessions
      ≡ max (open_count seen.id m.sessions) 1
  unfolding notify_ready metering_observer
  ready_count =
      ap (λ (t : Tables). open_count seen.id t.sessions)
        (ending_of-tables (open_compute_session env seen.id seen.owner_id seen.template m))
      ∙ open_count-open_compute_session env seen.id seen.owner_id seen.id seen.template m
      ∙ ap (counted_open seen.id seen.id m) opens
      ∙ itself

  stopped_count :
      open_count seen.id (notify_stopped observers seen m).sessions
      ≡ open_count seen.id m.sessions - 1
  unfolding notify_stopped metering_observer
  stopped_count =
      ap (λ (t : Tables). open_count seen.id t.sessions)
        (ending_of-tables (close_compute_session env seen.id m))
      ∙ close_count env seen.id m closes

  deleted_count :
      open_count seen.id (notify_deleted observers seen m).sessions
      ≡ open_count seen.id m.sessions - 1
  unfolding notify_deleted metering_observer
  deleted_count =
      ap (λ (t : Tables). open_count seen.id t.sessions)
        (ending_of-tables (release_after_close env seen.id seen.persist m))
      ∙ ap (open_count seen.id) (release_after_close-sessions env seen.id seen.persist m)
      ∙ close_count env seen.id m closes

  transition_count :
      (new : SandboxStatus)
      → IsBilled seen.id seen.status m
      → (is_valid_transition seen.status new ≡ true)
        ⊎ (((seen.status ≡ error) × (new ≡ error)) ⊎ (seen.status ≡ deleted))
      → seen.status ≢ deleted
      → IsBilled seen.id new (notify_on_transition observers seen seen.status new m)
  unfolding notify_on_transition is_valid_transition
  transition_count new billed valid alive =
      ground (arith, billed, valid, alive, ready_count, stopped_count)

  Effect-IsBilled :
      {w w' : World Tables}
      → w.observed ≡ m
      → w.row.status ≡ seen.status
      → seen.status ≢ deleted
      → IsBilled seen.id seen.status m
      → Effect observers seen w w'
      → IsBilled seen.id w'.row.status w'.observed
  Effect-IsBilled at fresh alive billed (quiet s v a o) = rw (s, fresh, o, at) billed
  Effect-IsBilled at fresh alive billed (moved new v s v' valid e a t (inl o)) =
      rw (s, o, at) (transition_count new billed valid alive)
  Effect-IsBilled at fresh alive billed (moved new v s v' valid e a t (inr (failed, o))) =
      rw (s, o, at, failed) (ground (arith, billed, deleted_count))
  Effect-IsBilled at fresh alive billed (gone was s e a t o) =
      rw (s, o, at) (ground (arith, billed, deleted_count, was))

-- The sync loop with the metering observer as its only one.
abbrev pub billing_env : Env → SyncEnv Tables → SyncEnv Tables
billing_env env sync = record sync { observers = metering_observer env ∷ [] }

-- A watch event keeps the billing in step: if the sandbox has one open session where it is ready
-- and none otherwise, the same is true of its new status afterwards, provided that the row has not
-- changed its status since it was read, is not deleted, and neither opening nor closing a session
-- raises.
pub handle_row-IsBilled :
    (env : Env) (sync : SyncEnv Tables) (event : EventType) (cr : Resource) (seen : Sandbox)
    (w : World Tables) {cs : ComputeSession} {closed : Option ComputeSession}
    → (open_compute_session env seen.id seen.owner_id seen.template w.observed).0 ≡ ok cs
    → (close_compute_session env seen.id w.observed).0 ≡ ok closed
    → w.row.status ≡ seen.status
    → seen.status ≢ deleted
    → IsBilled seen.id seen.status w.observed
    → IsBilled seen.id
        (handle_row (billing_env env sync) event cr seen w).row.status
        (handle_row (billing_env env sync) event cr seen w).observed
handle_row-IsBilled env sync event cr seen w opens closes fresh alive billed =
    Effect-IsBilled env seen w.observed opens closes {w = w} refl fresh alive billed
      (handle_row-Effect (billing_env env sync) cr seen w event)

-- Reconciling a row keeps the billing in step: if the sandbox has one open session where it is ready
-- and none otherwise, the same is true of its new status afterwards, provided that the row has not
-- changed its status since it was read, is not deleted, and neither opening nor closing a session
-- raises.
pub reconcile_row-IsBilled :
    (env : Env) (sync : SyncEnv Tables) (cr : Option Resource) (seen : Sandbox) (w : World Tables)
    {cs : ComputeSession} {closed : Option ComputeSession}
    → (open_compute_session env seen.id seen.owner_id seen.template w.observed).0 ≡ ok cs
    → (close_compute_session env seen.id w.observed).0 ≡ ok closed
    → w.row.status ≡ seen.status
    → seen.status ≢ deleted
    → IsBilled seen.id seen.status w.observed
    → IsBilled seen.id
        (reconcile_row (billing_env env sync) cr seen w).row.status
        (reconcile_row (billing_env env sync) cr seen w).observed
reconcile_row-IsBilled env sync cr seen w opens closes fresh alive billed =
    Effect-IsBilled env seen w.observed opens closes {w = w} refl fresh alive billed
      (reconcile_row-Effect (billing_env env sync) seen w cr)
