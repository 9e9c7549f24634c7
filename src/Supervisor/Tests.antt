-- ===== src/Supervisor/Tests.antt =====
-- The supervisor at concrete sequences of events.
use treadstone.Prelude.{◌≡◌, refl, true, false, some, List, [], ◌∷◌}
use treadstone.Supervisor.{
  running, done, crashed, new_supervisor, leader, follower, Slot, shutdown, Event, began, answered,
  task_ended, shut_down, cancelled, run,
}
use treadstone.Supervisor.Safety.{any_task, IsLed, run-IsLed}
use treadstone.Supervisor.Shutdown.{run-shutdown, run-race}

abbrev day : List Event
day = began ∷ answered leader ∷ task_ended done Slot.metering ∷ began ∷ answered leader ∷ []

run-IsLed_example : IsLed (run day (new_supervisor true))
run-IsLed_example = run-IsLed true day

restarts : (run day (new_supervisor true)).metering_task ≡ some running
unfolding run
restarts = refl

loses : any_task (run (began ∷ answered follower ∷ []) (run day (new_supervisor true))) ≡ false
unfolding run
loses = refl

run-shutdown_example : any_task (run day (shutdown (run day (new_supervisor true)))) ≡ false
unfolding run
run-shutdown_example = run-shutdown day (run day (new_supervisor true)) refl refl refl

run-race_example :
    let s' =
      run
        (began ∷ shut_down ∷ answered leader ∷ cancelled ∷ shut_down ∷ [])
        (new_supervisor true) in
    (s'.shutdown_complete ≡ true) × (s'.sync_task ≡ some running)
run-race_example = run-race (new_supervisor true) refl refl refl

-- The sync loop crashes while the election is lost: metering goes on, and no shutdown stops it.
abbrev crash : List Event
crash = task_ended crashed Slot.sync ∷ answered follower ∷ shut_down ∷ []

outlives :
    (run (began ∷ answered leader ∷ began ∷ crash) (new_supervisor true)).metering_task
    ≡ some running
unfolding run
outlives = refl
