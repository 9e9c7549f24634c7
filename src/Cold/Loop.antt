-- ===== src/Cold/Loop.antt =====
-- `run_storage_snapshot_tick`: the rows that wait for a snapshot or a restore, one after the other.
-- Each has a session of its own, so a row whose tick raises keeps the others from nothing.
use Prim.Native.String.{String}
use treadstone.Prelude.{Bool, ◌&&◌, not, List, [], ◌∷◌, All, Bool-cases, inl, inr, if◌then◌else◌}
use treadstone.Sandbox.{Sandbox}
use treadstone.Metering.Model.{Tables, Env}
use treadstone.Cold.{Cluster}
use treadstone.Service.{is_none}
use treadstone.Cold.Restore.{process_sandbox}
use treadstone.Cold.Parked.{IsParked, process_sandbox-IsParked}

-- Not deleted, and with an operation pending.
abbrev waits : Sandbox → Bool
waits s = is_none s.gmt_deleted && not (is_none s.pending_operation)

-- `answers` and `failures` are what the cluster answers in the tick of a row.
unfoldable run_storage_snapshot_tick :
    Env → (Sandbox → Cluster) → (Sandbox → String) → List Sandbox → Tables → List Sandbox × Tables
run_storage_snapshot_tick env answers failures [] t = ([], t)
run_storage_snapshot_tick env answers failures (s ∷ ss) t =
    let tick = process_sandbox env (answers s) (failures s) s t in
    let handled = run_storage_snapshot_tick env answers failures ss tick.tables in
    let rest = run_storage_snapshot_tick env answers failures ss t in
    if waits s then (tick.row ∷ handled.0, handled.1) else (s ∷ rest.0, rest.1)

-- Every row that waits is in the status that its operation needs, before the loop and after it.
run_storage_snapshot_tick-All :
    (env : Env) (answers : Sandbox → Cluster) (failures : Sandbox → String) (ss : List Sandbox)
    (t : Tables)
    → All IsParked ss
    → All IsParked (run_storage_snapshot_tick env answers failures ss t).0
unfolding run_storage_snapshot_tick
run_storage_snapshot_tick-All env answers failures [] t h = tt
run_storage_snapshot_tick-All env answers failures (s ∷ ss) t (h, hs) =
    let tick = process_sandbox env (answers s) (failures s) s t in
    elim (Bool-cases (waits s)) [
      | inr idle ↦ rw (All, idle) (h, run_storage_snapshot_tick-All env answers failures ss t hs)
      | inl due ↦
          rw (All, due)
            (
              (process_sandbox-IsParked env (answers s) (failures s) s t h).0,
              run_storage_snapshot_tick-All env answers failures ss tick.tables hs,
            )
    ]
