-- ===== src/Supervisor/Safety.antt =====
-- When the background tasks run.
use treadstone.Prelude.{
  ◌≡◌, refl, Bool, true, false, Option, none, some, List, [], ◌∷◌, ◌||◌, ◌&&◌, arith, if◌then◌else◌,
}
use treadstone.Supervisor.{
  Task, Supervisor, new_supervisor, Attempt, leader, follower, failed, Slot, reap_task, reap_all,
  has_crashed, stop_all_tasks, start_missing, shutdown, begin_round, end_round, completed, or_end,
  act_on, end_task, cancel_run, Event, began, answered, task_ended, shut_down, cancelled, after,
  run,
}

abbrev pub is_there : Option Task → Bool
is_there none = false
is_there (some task) = true

-- Some task has been started and not yet stopped.
abbrev pub any_task : Supervisor → Bool
any_task s =
    is_there s.sync_task
    || is_there s.metering_task
    || is_there s.lifecycle_task
    || is_there s.snapshot_task

abbrev pub any_crashed : Supervisor → Bool
any_crashed s =
    has_crashed s.sync_task
    || has_crashed s.metering_task
    || has_crashed s.lifecycle_task
    || has_crashed s.snapshot_task

-- Tasks are there only while the last answer of the election was LEADER, or where a shutdown met one
-- that has crashed; the leadership is released once, when the supervisor is shut down.
pub record IsLed (s : Supervisor) : Type 0 where
  pub led : any_task s ≡ true → (s.is_leader || s.stopping && any_crashed s) ≡ true
  pub once : s.releases ≡ (if s.shutdown_complete then 1 else 0)
  pub stops : s.shutdown_complete ≡ true → s.stopping ≡ true

-- What stopping the tasks leaves: no task, or one that has crashed.
record Stopped (s : Supervisor) (r : Bool × Supervisor) : Type 0 where
  cleared : r.0 ≡ false → any_task r.1 ≡ false
  left : r.0 ≡ true → any_crashed r.1 ≡ true
  leads : r.1.is_leader ≡ s.is_leader
  stops : r.1.stopping ≡ s.stopping
  complete : r.1.shutdown_complete ≡ s.shutdown_complete
  released : r.1.releases ≡ s.releases

stop_all_tasks-Stopped : (s : Supervisor) → Stopped s (stop_all_tasks s)
unfolding stop_all_tasks
stop_all_tasks-Stopped s = record {
  cleared = λ h. ground (arith, h);
  left = λ h. ground (arith, h);
  leads = ground arith;
  stops = ground arith;
  complete = ground arith;
  released = ground arith;
}

completed-IsLed :
    {s : Supervisor} (r : Bool × Supervisor)
    → Stopped s r
    → s.stopping ≡ true
    → s.shutdown_complete ≡ false
    → s.releases ≡ 0
    → IsLed (completed r)
completed-IsLed (true, t) d stops fresh none_yet = record {
  led = λ h. ground (arith, d.left refl, d.stops, stops);
  once = ground (arith, d.released, d.complete, fresh, none_yet);
  stops = λ h. ground (arith, d.stops, stops);
}
completed-IsLed (false, t) d stops fresh none_yet = record {
  led = λ h. ground (arith, h, d.cleared refl);
  once = ground (arith, d.released, none_yet);
  stops = λ h. ground (arith, d.stops, stops);
}

if-IsLed :
    (b : Bool) {s t : Supervisor}
    → (b ≡ true → IsLed s)
    → (b ≡ false → IsLed t)
    → IsLed (if b then s else t)
if-IsLed true then_led else_led = then_led refl
if-IsLed false then_led else_led = else_led refl

-- A shutdown needs no leader: it is enough that tasks of a supervisor that is shut down are led.
shutdown_from-IsLed :
    {s : Supervisor}
    → (s.shutdown_complete ≡ true → IsLed s)
    → s.releases ≡ (if s.shutdown_complete then 1 else 0)
    → IsLed (shutdown s)
unfolding shutdown
shutdown_from-IsLed {s} v once = if-IsLed s.shutdown_complete v (λ fresh.
    completed-IsLed (stop_all_tasks (record s { stopping = true }))
      (stop_all_tasks-Stopped (record s { stopping = true })) refl fresh
      (ground (arith, once, fresh)))

shutdown-IsLed : {s : Supervisor} → IsLed s → IsLed (shutdown s)
shutdown-IsLed v = shutdown_from-IsLed (λ complete. v) v.once

or_end-IsLed :
    {s : Supervisor} (r : Bool × Supervisor)
    → Stopped s r
    → s.releases ≡ (if s.shutdown_complete then 1 else 0)
    → (s.shutdown_complete ≡ true → s.stopping ≡ true)
    → IsLed (or_end r)
or_end-IsLed (true, t) d once stops =
    shutdown_from-IsLed
      (λ complete. record {
        led = λ h. ground (arith, complete, d.left refl, d.complete, d.stops, stops);
        once = ground (arith, d.released, d.complete, once);
        stops = λ h. ground (arith, complete, d.complete, d.stops, stops);
      })
      (ground (arith, d.released, d.complete, once))
or_end-IsLed (false, t) d once stops = record {
  led = λ h. ground (arith, h, d.cleared refl);
  once = ground (arith, d.released, d.complete, once);
  stops = λ h. ground (arith, h, d.complete, d.stops, stops);
}

reap_all-IsLed : {s : Supervisor} → s.stopping ≡ false → IsLed s → IsLed (reap_all s)
unfolding reap_all reap_task
reap_all-IsLed goes v = record {
  led = λ h. ground (arith, h, goes, v.led);
  once = v.once;
  stops = v.stops;
}

begin_round-IsLed : {s : Supervisor} → IsLed s → IsLed (begin_round s)
unfolding begin_round
begin_round-IsLed {s} v =
    if-IsLed s.waits (λ waits. v)
      (λ rests.
        if-IsLed s.stopping (λ stops. shutdown-IsLed v)
          (λ goes.
            let w = reap_all-IsLed goes v in
            record { led = w.led; once = w.once; stops = w.stops }))

act_on-IsLed : (attempt : Attempt) {s : Supervisor} → IsLed s → IsLed (act_on attempt s)
unfolding start_missing
act_on-IsLed leader v = record { led = λ h. refl; once = v.once; stops = v.stops }
act_on-IsLed follower {s} v =
    let s' : Supervisor = record s { is_leader = false; waits = false } in
    or_end-IsLed (stop_all_tasks s') (stop_all_tasks-Stopped s') v.once v.stops
act_on-IsLed failed {s} v =
    let s' : Supervisor = record s { is_leader = false; waits = false } in
    or_end-IsLed (stop_all_tasks s') (stop_all_tasks-Stopped s') v.once v.stops

end_round-IsLed : (attempt : Attempt) {s : Supervisor} → IsLed s → IsLed (end_round attempt s)
unfolding end_round
end_round-IsLed attempt {s} v = if-IsLed s.waits (λ waits. act_on-IsLed attempt v) (λ rests. v)

end_task-IsLed : (how : Task) (slot : Slot) {s : Supervisor} → IsLed s → IsLed (end_task how slot s)
end_task-IsLed how Slot.sync v = record {
  led = λ h. ground (arith, h, v.led);
  once = v.once;
  stops = v.stops;
}
end_task-IsLed how Slot.metering v = record {
  led = λ h. ground (arith, h, v.led);
  once = v.once;
  stops = v.stops;
}
end_task-IsLed how Slot.lifecycle v = record {
  led = λ h. ground (arith, h, v.led);
  once = v.once;
  stops = v.stops;
}
end_task-IsLed how Slot.snapshot v = record {
  led = λ h. ground (arith, h, v.led);
  once = v.once;
  stops = v.stops;
}

after-IsLed : (e : Event) {s : Supervisor} → IsLed s → IsLed (after e s)
unfolding after cancel_run
after-IsLed began v = begin_round-IsLed v
after-IsLed (answered attempt) v = end_round-IsLed attempt v
after-IsLed (task_ended how slot) v = end_task-IsLed how slot v
after-IsLed shut_down v = shutdown-IsLed v
after-IsLed cancelled v = shutdown-IsLed (record { led = v.led; once = v.once; stops = v.stops })

run_from-IsLed : (es : List Event) {s : Supervisor} → IsLed s → IsLed (run es s)
unfolding run
run_from-IsLed [] v = v
run_from-IsLed (e ∷ es) v = run_from-IsLed es (after-IsLed e v)

-- Whatever happens to a supervisor, and in whatever order, it has background tasks only if the last
-- answer of the election was LEADER, or if it is stopping and one of the tasks has crashed; it has
-- released its leadership once if it is shut down, and otherwise not at all; and if it is shut
-- down, it is stopping.
pub run-IsLed :
    (session_factory : Bool) (es : List Event) → IsLed (run es (new_supervisor session_factory))
run-IsLed session_factory es =
    run_from-IsLed es (record { led = λ h. cc; once = refl; stops = λ h. cc })
