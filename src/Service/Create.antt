-- ===== src/Service/Create.antt =====
-- `SandboxService.create`: validate, persist, provision, record. Names, labels and images are left
-- out; a name that is taken is an answer. The requested size is the number that
-- `parse_storage_size_gib` reads, and whether the template allows it is an answer, as is what comes
-- of creating the resource, and whether the database takes the row of the ledger: `false` stands for
-- any exception there.
pub mod Outcome
pub mod Quotas
use Prim.Native.String.{String}
use treadstone.Prelude.{
  ℕ, ◌+◌, Bool, Option, none, some, List, [], ◌∷◌, ◌&&◌, ◌||◌, not, if◌then◌else◌,
}
use treadstone.Sandbox.{creating, error, Sandbox, live_disk, same_status}
use treadstone.Metering.Model.{
  Tables, Env, bad_request, Result, ok, err, StorageLedger, Action, pure,
}
use treadstone.Metering.Storage.{record_storage_allocation}
use treadstone.Metering.Quota.{enforce_create}
use treadstone.Service.{
  ServiceError, template_not_found, refused, storage_backend_not_ready, name_conflict, CallResult,
  returned, raised, Switches, failed,
}

pub record Request : Type 0 where
  pub owner_id : ℕ
  pub template : String
  pub auto_stop_interval : ℕ
  pub auto_delete_interval : ℕ
  pub persist : Bool
  pub storage_size : ℕ

pub data Provision : Type 0 where
  provisioned template_missing provision_failed : Provision

-- What the cluster and the database answer. `new_id` is the fresh id.
pub record CreateAnswers : Type 0 where
  pub new_id : ℕ
  pub namespace : ℕ
  pub template_found : Bool
  pub size_allowed : Bool
  pub storage_class : Bool
  pub name_taken : Bool
  pub provision : Provision
  pub ledger_answers : Bool

-- The rows and the tables that are committed at the end.
pub record Created : Type 0 where
  pub outcome : CallResult
  pub rows : List Sandbox
  pub tables : Tables

abbrev pub requested_gib : Request → Option ℕ
requested_gib r = if r.persist then some r.storage_size else none

-- The row that `_persist_sandbox` builds.
abbrev pub new_row : Env → CreateAnswers → Request → Sandbox
new_row env a r = record {
  id = a.new_id;
  owner_id = r.owner_id;
  template = r.template;
  auto_stop_interval = r.auto_stop_interval;
  auto_delete_interval = r.auto_delete_interval;
  is_direct = r.persist;
  persist = r.persist;
  storage_size = requested_gib r;
  k8s_sandbox_claim_name = if r.persist then none else some a.new_id;
  k8s_sandbox_name = if r.persist then some a.new_id else none;
  k8s_namespace = a.namespace;
  k8s_resource_version = none;
  last_synced_at = none;
  status = creating;
  pending_operation = none;
  status_message = none;
  service_fqdn = none;
  storage_backend_mode = if r.persist then some live_disk else none;
  k8s_workspace_pvc_name = none;
  k8s_workspace_pv_name = none;
  snapshot_k8s_volume_snapshot_name = none;
  version = 1;
  gmt_started = none;
  gmt_stopped = none;
  gmt_snapshotted = none;
  gmt_restored = none;
  gmt_last_active = some env.now;
  gmt_deleted = none;
}

-- An allocation that raises is logged, and not committed.
abbrev recorded : Result StorageLedger × Tables → Tables → Tables
recorded (ok l, t') t = t'
recorded (err e, t') t = t

-- `_record_metering`
unfoldable pub record_metering : Env → Switches → Bool → Request → Sandbox → Tables → Tables
record_metering env switches ledger_answers r s t =
    if not switches.metered || (not s.persist || same_status s.status error)
    then t
    else if not ledger_answers
    then t
    else recorded (record_storage_allocation env r.owner_id s.id r.storage_size live_disk t) t

abbrev pub settled : Env → Switches → Bool → Request → Sandbox → List Sandbox → Tables → Created
settled env switches ledger_answers r s rows t = record {
  outcome = returned s;
  rows = s ∷ rows;
  tables = record_metering env switches ledger_answers r s t;
}

abbrev pub provision_message : Bool → String
provision_message persist =
    if persist then "Failed to create Sandbox CR" else "Failed to create SandboxClaim"

-- `_provision_k8s`, and what follows. Where the template is missing the row is deleted again.
unfoldable pub provision_k8s :
    Env → Switches → Bool → Provision → Request → Sandbox → List Sandbox → Tables → Created
unfolding record_metering
provision_k8s env switches ledger_answers provisioned r s rows t =
    settled env switches ledger_answers r s rows t
provision_k8s env switches ledger_answers template_missing r s rows t = record {
  outcome = raised template_not_found;
  rows = rows;
  tables = t;
}
provision_k8s env switches ledger_answers provision_failed r s rows t =
    settled env switches ledger_answers r (failed (provision_message s.persist) s) rows t

abbrev refuse_create : ServiceError → List Sandbox → Tables → Created
refuse_create e rows t = record { outcome = raised e; rows = rows; tables = t }

-- `t` are the tables to which a refused call goes back, `t'` those after the checks.
abbrev pub persisted :
    Env → Switches → CreateAnswers → Request → List Sandbox → Tables → Result ℕ × Tables → Created
persisted env switches a r rows t (err e, t') = refuse_create (refused e) rows t
persisted env switches a r rows t (ok max_duration, t') =
    if r.persist && not a.storage_class
    then refuse_create storage_backend_not_ready rows t
    else if a.name_taken
    then refuse_create name_conflict rows t
    else provision_k8s env switches a.ledger_answers a.provision r (new_row env a r) rows t'

abbrev pub create_checks : Env → Switches → Request → List Sandbox → Action ℕ
create_checks env switches r rows =
    if switches.metered && switches.enforced
    then enforce_create env rows r.owner_id r.template (requested_gib r) r.auto_stop_interval
    else pure 0

unfoldable pub create : Env → Switches → CreateAnswers → Request → List Sandbox → Tables → Created
unfolding provision_k8s
create env switches a r rows t =
    if r.persist && not a.template_found
    then refuse_create template_not_found rows t
    else if r.persist && not a.size_allowed
    then refuse_create (refused bad_request) rows t
    else persisted env switches a r rows t (create_checks env switches r rows t)
