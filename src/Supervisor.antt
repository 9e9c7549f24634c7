-- ===== src/Supervisor.antt =====
-- `LeaderControlledSyncSupervisor` of treadstone/infra/services/sync_supervisor.py: the background
-- tasks of a replica. What happens is a sequence of events, since the loop of `run` waits for the
-- election while other coroutines go on: a round of the loop is two events. Stopping the tasks is one
-- step, though it waits for their ends, and a failed release is logged and ignored.
pub mod Tests
pub mod Safety
pub mod Shutdown
use treadstone.Prelude.{ℕ, ◌+◌, Bool, true, false, Option, none, some, List, [], ◌∷◌, if◌then◌else◌}

-- A task that has ended is still the task of its slot. It has `crashed` if an exception ended it.
pub data Task : Type 0 where
  running done crashed : Task

-- The fields, the local variable `state` of `run`, whether `run` waits for the election, and how
-- often `release_if_held` has been called.
pub record Supervisor : Type 0 where
  pub session_factory : Bool
  pub stopping : Bool
  pub shutdown_complete : Bool
  pub sync_task : Option Task
  pub metering_task : Option Task
  pub lifecycle_task : Option Task
  pub snapshot_task : Option Task
  pub is_leader : Bool
  pub waits : Bool
  pub releases : ℕ

abbrev pub new_supervisor : Bool → Supervisor
new_supervisor session_factory = record {
  session_factory = session_factory;
  stopping = false;
  shutdown_complete = false;
  sync_task = none;
  metering_task = none;
  lifecycle_task = none;
  snapshot_task = none;
  is_leader = false;
  waits = false;
  releases = 0;
}

-- What an attempt of the elector comes to. An exception counts as FOLLOWER.
pub data Attempt : Type 0 where
  leader follower failed : Attempt

pub data Slot : Type 0 where
  sync metering lifecycle snapshot : Slot

unfoldable pub reap_task : Option Task → Option Task
reap_task (some done) = none
reap_task (some crashed) = none
reap_task (some running) = some running
reap_task none = none

unfoldable pub reap_all : Supervisor → Supervisor
unfolding reap_task
reap_all s = record s {
  sync_task = reap_task s.sync_task;
  metering_task = reap_task s.metering_task;
  lifecycle_task = reap_task s.lifecycle_task;
  snapshot_task = reap_task s.snapshot_task;
}

abbrev pub has_crashed : Option Task → Bool
has_crashed (some crashed) = true
has_crashed (some running) = false
has_crashed (some done) = false
has_crashed none = false

-- The tasks are stopped one by one, and waiting for one that has crashed raises its exception: then
-- it stays in its slot, and the ones behind it go on.
unfoldable pub stop_all_tasks : Supervisor → Bool × Supervisor
stop_all_tasks s =
    if has_crashed s.sync_task
    then (true, s)
    else if has_crashed s.metering_task
    then (true, record s { sync_task = none })
    else if has_crashed s.lifecycle_task
    then (true, record s { sync_task = none; metering_task = none })
    else (
      has_crashed s.snapshot_task,
      record s {
        sync_task = none;
        metering_task = none;
        lifecycle_task = none;
        snapshot_task = if has_crashed s.snapshot_task then s.snapshot_task else none;
      },
    )

abbrev pub or_start : Bool → Option Task → Option Task
or_start allowed (some task) = some task
or_start true none = some running
or_start false none = none

unfoldable pub start_missing : Supervisor → Supervisor
start_missing s = record s {
  sync_task = or_start true s.sync_task;
  metering_task = or_start s.session_factory s.metering_task;
  lifecycle_task = or_start s.session_factory s.lifecycle_task;
  snapshot_task = or_start s.session_factory s.snapshot_task;
}

abbrev pub completed : Bool × Supervisor → Supervisor
completed (true, s) = s
completed (false, s) = record s { shutdown_complete = true; releases = s.releases + 1 }

unfoldable pub shutdown : Supervisor → Supervisor
unfolding stop_all_tasks
shutdown s =
    if s.shutdown_complete then s else completed (stop_all_tasks (record s { stopping = true }))

-- The loop's test, and the round up to the election; at the end of the loop `run` shuts down.
unfoldable pub begin_round : Supervisor → Supervisor
unfolding reap_all shutdown
begin_round s =
    if s.waits then s else if s.stopping then shutdown s else record (reap_all s) { waits = true }

-- An exception from stopping a task ends `run`, which then shuts down.
abbrev pub or_end : Bool × Supervisor → Supervisor
or_end (true, s) = shutdown s
or_end (false, s) = s

abbrev pub act_on : Attempt → Supervisor → Supervisor
act_on leader s = record (start_missing s) { is_leader = true; waits = false }
act_on follower s = or_end (stop_all_tasks (record s { is_leader = false; waits = false }))
act_on failed s = or_end (stop_all_tasks (record s { is_leader = false; waits = false }))

-- The rest of the round, once the election has answered.
unfoldable pub end_round : Attempt → Supervisor → Supervisor
unfolding start_missing stop_all_tasks shutdown
end_round attempt s = if s.waits then act_on attempt s else s

-- A running task ends by itself, as `done` or `crashed`.
abbrev pub ended : Task → Option Task → Option Task
ended how (some running) = some how
ended how (some done) = some done
ended how (some crashed) = some crashed
ended how none = none

abbrev pub end_task : Task → Slot → Supervisor → Supervisor
end_task how sync s = record s { sync_task = ended how s.sync_task }
end_task how metering s = record s { metering_task = ended how s.metering_task }
end_task how lifecycle s = record s { lifecycle_task = ended how s.lifecycle_task }
end_task how snapshot s = record s { snapshot_task = ended how s.snapshot_task }

-- `run` is cancelled wherever it waits, and shuts down.
unfoldable pub cancel_run : Supervisor → Supervisor
unfolding shutdown
cancel_run s = shutdown (record s { waits = false })

pub data Event : Type 0 where
  began : Event
  answered : Attempt → Event
  task_ended : Task → Slot → Event
  shut_down : Event
  cancelled : Event

unfoldable pub after : Event → Supervisor → Supervisor
unfolding begin_round end_round cancel_run shutdown
after began s = begin_round s
after (answered attempt) s = end_round attempt s
after (task_ended how slot) s = end_task how slot s
after shut_down s = shutdown s
after cancelled s = cancel_run s

unfoldable pub run : List Event → Supervisor → Supervisor
unfolding after
run [] s = s
run (e ∷ es) s = run es (after e s)
