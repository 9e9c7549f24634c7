-- ===== src/Cold/Snapshot.antt =====
-- `_process_snapshotting`. A step that raises gives `none`; `keep` has the row and the tables to
-- which the session is then rolled back.
use Prim.Native.String.{String, ◌++◌ as append}
use treadstone.Prelude.{
  ℕ, Bool, true, false, Option, none, some, List, [], ◌∷◌, ◌||◌, if◌then◌else◌,
}
use treadstone.Sandbox.{
  SandboxStatus, stopped, cold, error, Sandbox, standard_snapshot, same_status,
}
use treadstone.Metering.Model.{Tables, Env}
use treadstone.Metering.Storage.{update_storage_backend_mode}
use treadstone.Sync.Resource.{present}
use treadstone.Sync.Derive.{derive_status, nonempty_or}
use treadstone.Cold.{
  Command, create_snapshot, delete_snapshot, delete_sandbox, delete_claim, Cluster, Tick,
  fail_snapshot, clear_snapshot_binding, with_message, with_binding, done, default_mode, is_mode,
  is_set, has_stale_snapshot,
}

-- What a part of a tick leaves of the row, and the commands that it gave.
pub record Part : Type 0 where
  pub raised : Bool
  pub row : Sandbox
  pub commands : List Command

-- `_release_live_workspace_assets`
abbrev release_pvc : Cluster → List Command → Sandbox → Part
release_pvc c commands s = elim (present s.k8s_workspace_pvc_name) [
  | none ↦ record { raised = false; row = s; commands = commands }
  | some n ↦ elim c.live_pvc [
    | none ↦ record { raised = true; row = s; commands = commands }
    | some there ↦
        if there
        then record {
          raised = if c.delete_pvc then false else true;
          row = s;
          commands = delete_claim ∷ commands;
        }
        else record { raised = false; row = s; commands = commands }
  ]
]

abbrev release_bound : Cluster → List Command → Sandbox → Part
release_bound c commands s = elim s.k8s_workspace_pvc_name [
  | some n ↦ release_pvc c commands s
  | none ↦ elim c.binding [
    | none ↦ record { raised = true; row = s; commands = commands }
    | some found ↦ elim found [
      | none ↦ release_pvc c commands s
      | some b ↦ release_pvc c commands (with_binding b s)
    ]
  ]
]

unfoldable pub release_live_workspace_assets : Cluster → Sandbox → Part
release_live_workspace_assets c s = elim c.live_cr [
  | none ↦ record { raised = true; row = s; commands = [] }
  | some there ↦
      if there
      then (if c.delete_cr
          then release_bound c (delete_sandbox ∷ []) s
          else record { raised = true; row = s; commands = delete_sandbox ∷ [] })
      else release_bound c [] s
]

-- An object is asked for only under a name.
abbrev asked : Option ℕ → Option Bool → Option Bool
asked name answer = if is_set name then answer else some false

abbrev any_left : Option Bool → Option Bool → Option Bool → Option Bool
any_left none b c = none
any_left (some a) none c = none
any_left (some a) (some b) none = none
any_left (some a) (some b) (some c) = some (a || (b || c))

-- The row once the live disk is gone.
abbrev cutover : Sandbox → Sandbox
cutover s = record s {
  status = cold;
  pending_operation = none;
  storage_backend_mode = some standard_snapshot;
  status_message = none;
  k8s_workspace_pv_name = none;
  k8s_workspace_pvc_name = none;
}

module _ (env : Env) (c : Cluster) (keep : Sandbox) (t : Tables) where
  abbrev abort : List Command → Tick
  abort commands = done t commands keep

  -- After the release: wait for the live disk to go, then cut over.
  unfoldable pub finish : List Command → Sandbox → Tick
  finish commands s =
      elim (any_left c.cr_left (asked s.k8s_workspace_pvc_name c.pvc_left)
        (asked s.k8s_workspace_pv_name c.pv_left)) [
          | none ↦ abort commands
          | some left ↦
              if left
              then done t commands (with_message "Waiting for live disk cleanup." s)
              else record {
                row = cutover s;
                tables = (update_storage_backend_mode env s.id standard_snapshot t).1;
                commands = commands;
              }
        ]

  -- A release that raises takes the snapshot with it.
  unfoldable pub after_release : String → Part → Tick
  unfolding finish
  after_release failure p =
      if p.raised
      then elim c.delete_bound [
        | none ↦ abort (delete_snapshot ∷ p.commands)
        | some _ ↦ done t (delete_snapshot ∷ p.commands) (
            fail_snapshot (append "Failed to release live disk after snapshot: " failure)
              (clear_snapshot_binding p.row))
      ]
      else finish p.commands p.row

  -- The snapshot exists.
  unfoldable pub when_created : String → Sandbox → Tick
  unfolding after_release release_live_workspace_assets
  when_created failure s = elim c.snapshot_ready [
    | none ↦ abort []
    | some found ↦ elim found [
      | none ↦ done t [] (fail_snapshot "Snapshot asset disappeared before it became ready." s)
      | some is_ready ↦
          if is_ready
          then (if c.content_answers
              then after_release failure
                  (release_live_workspace_assets c (record s { gmt_snapshotted = some env.now }))
              else abort [])
          else done t [] (with_message "Waiting for snapshot to become ready." s)
    ]
  ]

  abbrev create_from : String → Sandbox → Tick
  create_from failure s = elim s.k8s_workspace_pvc_name [
    | none ↦ done t [] (fail_snapshot "Workspace PVC is not available for snapshot." s)
    | some pvc ↦ elim c.create_snapshot [
      | none ↦
          done t (create_snapshot ∷ [])
            (fail_snapshot (append "Failed to create cold snapshot: " failure) s)
      | some name ↦ done t (create_snapshot ∷ []) (record s {
        snapshot_k8s_volume_snapshot_name = some name;
        status_message = some "Creating cold snapshot.";
      })
    ]
  ]

  -- The sandbox has stopped.
  unfoldable pub when_stopped : String → Sandbox → Tick
  when_stopped failure s = elim c.binding [
    | none ↦ abort []
    | some found ↦ elim found [
      | none ↦ done t [] (fail_snapshot "Failed to locate workspace PVC for snapshot." s)
      | some b ↦ create_from failure (with_binding b s)
    ]
  ]

  abbrev by_status : String → Sandbox → SandboxStatus × String → Tick
  by_status failure s (derived_status, message) =
      if same_status derived_status error
      then done t [] (
          fail_snapshot
            (nonempty_or message
              "Sandbox entered an error state while waiting to stop for snapshot.")
            s)
      else if same_status derived_status stopped
      then when_stopped failure s
      else done t []
          (with_message (nonempty_or message "Waiting for sandbox to stop before snapshot.") s)

  -- There is no snapshot yet.
  unfoldable pub when_missing : String → Sandbox → Tick
  unfolding when_stopped
  when_missing failure s = elim c.cr [
    | none ↦ abort []
    | some found ↦ elim found [
      | none ↦
          done t []
            (fail_snapshot "Sandbox CR disappeared before the sandbox stopped for snapshot." s)
      | some resource ↦ by_status failure s (derive_status resource)
    ]
  ]

  abbrev by_snapshot : String → Sandbox → Tick
  by_snapshot failure s = elim s.snapshot_k8s_volume_snapshot_name [
    | none ↦ when_missing failure s
    | some name ↦ when_created failure s
  ]

  abbrev drop_stale : String → Sandbox → Tick
  drop_stale failure s = elim c.delete_bound [
    | none ↦ done t (delete_snapshot ∷ []) (
        fail_snapshot
          (append "Failed to clean up previous snapshot before creating a new one: " failure) s)
    | some _ ↦
        done t (delete_snapshot ∷ [])
          (record (clear_snapshot_binding s) { gmt_snapshotted = some env.now })
  ]

  unfoldable pub when_backend_ready : String → Sandbox → Tick
  unfolding when_created when_missing
  when_backend_ready failure s =
      if has_stale_snapshot s
      then drop_stale failure s
      else if is_mode standard_snapshot s.storage_backend_mode
      then done t [] (record s { pending_operation = none; status = cold; status_message = none })
      else by_snapshot failure s

-- `failure` is the text of an exception that the tick catches.
unfoldable pub process_snapshotting : Env → Cluster → String → Sandbox → Tables → Tick
unfolding when_backend_ready
process_snapshotting env c failure s t = elim c.backend_ready [
  | some e ↦ done t [] (fail_snapshot e (default_mode s))
  | none ↦ when_backend_ready env c s t failure (default_mode s)
]
