-- ===== src/Metering/Reconcile.antt =====
-- treadstone/metering/services/metering_reconcile.py: the repair of sessions that do not go with the
-- status of their sandbox. A repair that raises is logged and left for the next time: the log is
-- the list of the sandboxes for which that was so.
pub mod Repaired
use treadstone.Prelude.{ℕ, Bool, List, [], ◌∷◌, ◌++◌, ◌&&◌, ◌||◌, not, ◌==◌, select, if◌then◌else◌}
use treadstone.Sandbox.{ready, Sandbox, same_status}
use treadstone.Metering.Model.{ComputeSession, Tables, Env, Result, ok, err}
use treadstone.Metering.Sessions.{is_unset, open_count, open_compute_session, close_compute_session}
use treadstone.Metering.Tasks.Rollover.{is_ready, sandbox_of}

-- READY, and without an open session.
abbrev pub is_missing : Tables → Sandbox → Bool
is_missing t s = same_status s.status ready && open_count s.id t.sessions == 0

-- Open, and its sandbox is not READY or not there.
abbrev pub is_stale : List Sandbox → ComputeSession → Bool
is_stale sandboxes cs = is_unset cs.ended_at && not (is_ready (sandbox_of cs.sandbox_id sandboxes))

abbrev pub sandbox_ids : List ComputeSession → List ℕ
sandbox_ids [] = []
sandbox_ids (cs ∷ css) = cs.sandbox_id ∷ sandbox_ids css

abbrev pub log_failure : {A : Type 0} → ℕ → Result A → List ℕ → List ℕ
log_failure sandbox (ok a) log = log
log_failure sandbox (err e) log = sandbox ∷ log

-- Case 1
unfoldable pub open_missing : Env → List Sandbox → Tables → List ℕ × Tables
open_missing env [] t = ([], t)
open_missing env (s ∷ ss) t =
    let r = open_compute_session env s.id s.owner_id s.template t in
    let rest = open_missing env ss r.1 in (log_failure s.id r.0 rest.0, rest.1)

-- Case 2
unfoldable pub close_stale : Env → List ℕ → Tables → List ℕ × Tables
close_stale env [] t = ([], t)
close_stale env (sandbox ∷ ids) t =
    let r = close_compute_session env sandbox t in
    let rest = close_stale env ids r.1 in (log_failure sandbox r.0 rest.0, rest.1)

unfoldable pub reconcile_metering : Env → List Sandbox → Tables → List ℕ × Tables
unfolding open_missing close_stale
reconcile_metering env sandboxes t =
    let opened = open_missing env (select (is_missing t) sandboxes) t in
    let closed =
      close_stale env (sandbox_ids (select (is_stale sandboxes) opened.1.sessions)) opened.1 in
    (opened.0 ++ closed.0, closed.1)
