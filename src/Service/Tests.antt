-- ===== src/Service/Tests.antt =====
-- Calls on a sandbox at concrete rows.
use treadstone.Prelude.{◌≡◌, ◌≤◌, ◌+◌, refl, true, false, none, some, List, [], ◌∷◌}
use treadstone.Sandbox.{
  creating, ready, stopped, cold, error, deleting, deleted, SandboxStatus, Sandbox, snapshotting,
  live_disk, standard_snapshot,
}
use treadstone.Metering.Storage.{
  record_storage_release, get_current_storage_used, get_extra_storage_quota,
}
use treadstone.Metering.Quota.{count_running_sandboxes}
use treadstone.Cold.Tests.{env, tables, row, up}
use treadstone.Sync.Derive.{derive_status}
use treadstone.Service.{Switches, Answers, find_owned}
use treadstone.Service.Start.{start, is_stale_message}
use treadstone.Service.Stop.{stop, snapshot}
use treadstone.Service.Delete.{delete}
use treadstone.Metering.Tests.{tables as billed, plan}
use treadstone.Service.Create.{Request, CreateAnswers, Created, provisioned, create}
use treadstone.Service.Create.Outcome.{AsAnswered, create-AsAnswered}
use treadstone.Service.Create.Quotas.{create-within_quotas}
use treadstone.Service.History.{is_history, never, deleting_fails, calls-history}

abbrev switches : Switches
switches = record { metered = true; enforced = false }

abbrev answers : Answers
answers = record {
  snapshot_class = true;
  mode_set = true;
  get_sandbox = some (some up);
  still_there = true;
  delete_bound = true;
  delete_resource = true;
}

-- The cluster raises at every change.
abbrev failing : Answers
failing = record answers { mode_set = false; delete_bound = false; delete_resource = false }

abbrev statuses : List Sandbox → List SandboxStatus
statuses [] = []
statuses (s ∷ ss) = s.status ∷ statuses ss

abbrev at_stop : Sandbox
at_stop = row stopped none live_disk

abbrev at_ready : Sandbox
at_ready = row ready none live_disk

test_start :
    statuses (start env switches answers 3 1 (at_stop ∷ []) tables).commits ≡ creating ∷ ready ∷ []
unfolding start derive_status
test_start = refl

test_stale : is_stale_message "Pod DOES not exist yet" ≡ true
unfolding is_stale_message
test_stale = refl

test_snapshot :
    statuses (snapshot env switches answers 3 1 (at_ready ∷ []) tables).commits
    ≡ stopped ∷ stopped ∷ []
unfolding snapshot
test_snapshot = refl

test_stop_fails :
    statuses (stop env switches failing 3 1 (at_ready ∷ []) tables).commits ≡ stopped ∷ error ∷ []
unfolding stop
test_stop_fails = refl

test_delete_cold :
    statuses (delete env switches answers 3 1 (row cold none standard_snapshot ∷ []) tables).commits
    ≡ deleting ∷ deleted ∷ []
unfolding delete record_storage_release
test_delete_cold = refl

finds : find_owned 3 1 (at_ready ∷ []) ≡ some at_ready
unfolding find_owned
finds = refl

calls-history_example :
    is_history never at_ready (start env switches failing 3 1 (at_ready ∷ []) tables).commits ≡ true
    × (is_history never at_ready (stop env switches failing 3 1 (at_ready ∷ []) tables).commits
          ≡ true
        × (is_history never at_ready
                (snapshot env switches failing 3 1 (at_ready ∷ []) tables).commits
              ≡ true
            × (is_history deleting_fails at_ready
                  (delete env switches failing 3 1 (at_ready ∷ []) tables).commits
                ≡ true)))
calls-history_example = calls-history env switches failing 3 1 (at_ready ∷ []) tables at_ready finds

abbrev busy : Sandbox
busy = row stopped (some snapshotting) live_disk

finds_busy : find_owned 3 1 (busy ∷ []) ≡ some busy
unfolding find_owned
finds_busy = refl

abbrev request : Request
request = record {
  owner_id = 1;
  template = "aio-sandbox-tiny";
  auto_stop_interval = 15;
  auto_delete_interval = 0;
  persist = true;
  storage_size = 5;
}

abbrev create_answers : CreateAnswers
create_answers = record {
  new_id = 9;
  namespace = 2;
  template_found = true;
  size_allowed = true;
  storage_class = true;
  name_taken = false;
  provision = provisioned;
  ledger_answers = true;
}

abbrev created : Created
created = create env switches create_answers request (at_ready ∷ []) billed

test_create : statuses created.rows ≡ creating ∷ ready ∷ []
unfolding create
test_create = refl

abbrev enforcing : Switches
enforcing = record switches { enforced = true }

create-within_quotas_example :
    (count_running_sandboxes 1
        (create env enforcing create_answers request (at_ready ∷ []) billed).rows
      ≤ plan.max_concurrent_running)
    × (get_current_storage_used 1
          (create env enforcing create_answers request (at_ready ∷ []) billed).tables
        ≤ plan.storage_capacity_limit_gib + get_extra_storage_quota env 1 billed)
unfolding create treadstone.Metering.Quota.enforce_create
    treadstone.Metering.Quota.check_template_allowed treadstone.Metering.Plans.get_user_plan
    treadstone.Metering.Plans.ensure_user_plan treadstone.Metering.Quota.check_compute_quota
    treadstone.Prelude.Int.◌-ℤ◌ treadstone.Prelude.Int.◌+ℤ◌
    treadstone.Metering.Pools.get_extra_compute_remaining
    treadstone.Metering.Quota.check_concurrent_limit
    treadstone.Metering.Plans.get_user_plan_for_update treadstone.Metering.Quota.check_storage_quota
    get_current_storage_used get_extra_storage_quota
    treadstone.Metering.Quota.validate_auto_stop_interval_for_tier
    treadstone.Metering.Quota.check_sandbox_duration
create-within_quotas_example =
    create-within_quotas env enforcing create_answers request (at_ready ∷ []) billed plan refl refl
      refl refl

create-AsAnswered_example : AsAnswered switches true 9 (at_ready ∷ []) created created.outcome
create-AsAnswered_example =
    create-AsAnswered env switches create_answers request (at_ready ∷ []) billed plan refl refl
