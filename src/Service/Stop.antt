-- ===== src/Service/Stop.antt =====
-- `SandboxService.stop` and `SandboxService.snapshot`.
use treadstone.Prelude.{ℕ, ◌+◌, Option, some, List, [], ◌∷◌, ◌++◌, ◌&&◌, not, if◌then◌else◌}
use treadstone.Sandbox.{ready, stopped, error, Sandbox, snapshotting, same_status, status_in}
use treadstone.Metering.Model.{Tables, Env, Result, ok, err, ComputeSession}
use treadstone.Metering.Sessions.{close_compute_session}
use treadstone.Service.{
  ServiceError, invalid_transition, unsupported, snapshot_backend_not_ready, returned, raised, Call,
  Switches, Answers, refuse, commit, is_none, find_owned, on_found, failed,
}

abbrev suspended : Env → Sandbox → Sandbox
suspended env s = record s { status = stopped; gmt_stopped = some env.now; version = s.version + 1 }

-- A close that raises is rolled back.
abbrev kept : Result (Option ComputeSession) × Tables → Tables → Tables
kept (ok cs, t') t = t'
kept (err e, t') t = t

unfoldable closed_tables : Env → Switches → Sandbox → Tables → Tables
closed_tables env switches s t =
    if switches.metered then kept (close_compute_session env s.id t) t else t

-- `s` is the row as the first commit left it.
unfoldable pub suspend : Env → Switches → Answers → Sandbox → Tables → Call
unfolding closed_tables
suspend env switches a s t =
    if a.mode_set
    then commit s (s ∷ []) (closed_tables env switches s t)
    else commit (failed "Failed to stop sandbox" s) (s ∷ failed "Failed to stop sandbox" s ∷ []) t

unfoldable pub stop_found : Env → Switches → Answers → Sandbox → Tables → Call
unfolding suspend
stop_found env switches a s t =
    if not (is_none s.pending_operation)
    then refuse invalid_transition t
    else if not (status_in s.status (ready ∷ error ∷ []))
    then refuse invalid_transition t
    else suspend env switches a (suspended env s) t

unfoldable pub stop : Env → Switches → Answers → ℕ → ℕ → List Sandbox → Tables → Call
unfolding stop_found find_owned
stop env switches a sandbox_id owner_id rows t =
    on_found (find_owned sandbox_id owner_id rows) t (λ s. stop_found env switches a s t)

abbrev preparing : Sandbox → Sandbox
preparing s = record s {
  pending_operation = some snapshotting;
  status_message = some "Preparing cold snapshot.";
  version = s.version + 1;
}

abbrev after_commits : List Sandbox → ServiceError → Tables → Call
after_commits commits e t = record { outcome = raised e; commits = commits; tables = t }

-- `commits` are those of the stop, if there was one.
abbrev prepare : Answers → List Sandbox → Sandbox → Tables → Call
prepare a commits s t =
    if a.snapshot_class
    then commit (preparing s) (commits ++ preparing s ∷ []) t
    else after_commits commits snapshot_backend_not_ready t

abbrev after_stop : Answers → Call → Call
after_stop a c = elim c.outcome [
  | raised e ↦ c
  | returned s ↦
      if same_status s.status stopped
      then prepare a c.commits s c.tables
      else after_commits c.commits invalid_transition c.tables
]

unfoldable pub snapshot_found : Env → Switches → Answers → Sandbox → Tables → Call
unfolding stop_found
snapshot_found env switches a s t =
    if not (s.persist && s.is_direct)
    then refuse unsupported t
    else if not (is_none s.pending_operation)
    then refuse invalid_transition t
    else if same_status s.status ready
    then after_stop a (stop_found env switches a s t)
    else if same_status s.status stopped
    then prepare a [] s t
    else refuse invalid_transition t

unfoldable pub snapshot : Env → Switches → Answers → ℕ → ℕ → List Sandbox → Tables → Call
unfolding snapshot_found find_owned
snapshot env switches a sandbox_id owner_id rows t =
    on_found (find_owned sandbox_id owner_id rows) t (λ s. snapshot_found env switches a s t)
