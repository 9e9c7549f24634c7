-- ===== src/Supervisor/Shutdown.antt =====
-- What a shutdown leaves, and what a round of a leader starts.
use treadstone.Prelude.{◌≡◌, refl, true, false, Option, none, some, List, [], ◌∷◌, arith}
use treadstone.Supervisor.{
  Task, running, done, crashed, Supervisor, leader, Slot, or_start, reap_task, reap_all,
  has_crashed, stop_all_tasks, start_missing, shutdown, begin_round, end_round, cancel_run, Event,
  began, answered, task_ended, shut_down, cancelled, after, run,
}
use treadstone.Supervisor.Safety.{any_task, any_crashed}

-- Shut down, with no round under way.
record IsQuiet (s : Supervisor) : Type 0 where
  complete : s.shutdown_complete ≡ true
  stops : s.stopping ≡ true
  rests : s.waits ≡ false
  idle : any_task s ≡ false

after-IsQuiet : (e : Event) {s : Supervisor} → IsQuiet s → IsQuiet (after e s)
unfolding after begin_round end_round cancel_run shutdown
after-IsQuiet began v = ground arith
after-IsQuiet (answered attempt) v = ground arith
after-IsQuiet (task_ended how Slot.sync) v = ground arith
after-IsQuiet (task_ended how Slot.metering) v = ground arith
after-IsQuiet (task_ended how Slot.lifecycle) v = ground arith
after-IsQuiet (task_ended how Slot.snapshot) v = ground arith
after-IsQuiet shut_down v = ground arith
after-IsQuiet cancelled v = ground arith

run-IsQuiet : (es : List Event) {s : Supervisor} → IsQuiet s → IsQuiet (run es s)
unfolding run
run-IsQuiet [] v = v
run-IsQuiet (e ∷ es) v = run-IsQuiet es (after-IsQuiet e v)

-- After a shutdown that finds no round of the loop under way and no task that has crashed, no task
-- runs any more, whatever happens.
pub run-shutdown :
    (es : List Event) (s : Supervisor)
    → s.shutdown_complete ≡ false
    → s.waits ≡ false
    → any_crashed s ≡ false
    → any_task (run es (shutdown s)) ≡ false
unfolding shutdown stop_all_tasks
run-shutdown es s fresh rests sound =
    (run-IsQuiet es {s = shutdown s} (ground (arith, fresh, rests, sound))).idle

has_crashed-reap_task : (task : Option Task) → has_crashed (reap_task task) ≡ false
unfolding reap_task
has_crashed-reap_task none = refl
has_crashed-reap_task (some running) = refl
has_crashed-reap_task (some done) = refl
has_crashed-reap_task (some crashed) = refl

-- A shutdown that comes while a round waits for the election does not hold: if the election then
-- answers LEADER, the round starts the tasks again, and they go on though the shutdown is complete;
-- neither cancelling `run` nor a further shutdown stops them.
pub run-race :
    (s : Supervisor)
    → s.stopping ≡ false
    → s.waits ≡ false
    → s.shutdown_complete ≡ false
    → let s' = run (began ∷ shut_down ∷ answered leader ∷ cancelled ∷ shut_down ∷ []) s in
      (s'.shutdown_complete ≡ true) × (s'.sync_task ≡ some running)
unfolding run after begin_round reap_all shutdown stop_all_tasks end_round start_missing cancel_run
run-race s goes rests fresh =
    rw
      (
        goes,
        rests,
        fresh,
        has_crashed-reap_task s.sync_task,
        has_crashed-reap_task s.metering_task,
        has_crashed-reap_task s.lifecycle_task,
        has_crashed-reap_task s.snapshot_task,
      )
      (refl, refl)

restarted : (task : Option Task) → or_start true (reap_task task) ≡ some running
unfolding reap_task
restarted none = refl
restarted (some running) = refl
restarted (some done) = refl
restarted (some crashed) = refl

-- A round that ends as LEADER has all four tasks running, where there is a session factory, also
-- those that had ended by themselves.
run-leader :
    (s : Supervisor)
    → s.stopping ≡ false
    → s.waits ≡ false
    → s.session_factory ≡ true
    → let s' = run (began ∷ answered leader ∷ []) s in
      (s'.sync_task ≡ some running)
      × (s'.metering_task ≡ some running)
      × (s'.lifecycle_task ≡ some running)
      × (s'.snapshot_task ≡ some running)
unfolding run after begin_round reap_all end_round start_missing
run-leader s goes rests has_factory =
    rw (goes, rests, has_factory)
      (
        restarted s.sync_task,
        restarted s.metering_task,
        restarted s.lifecycle_task,
        restarted s.snapshot_task,
      )
