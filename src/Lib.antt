-- ===== src/Lib.antt =====
-- Treadstone runs sandboxes for agents on Kubernetes, and bills them. This library models the
-- core of its control plane (treadstone/): who runs the background work, how the rows of
-- sandboxes follow the cluster, what running sandboxes cost their users, and who may sign in, act
-- by a key, and get through to a sandbox.
--
-- The parts, and how they interact:
--   * Leader is treadstone/infra/services/leader_election.py. Replicas elect one of them over a
--     Kubernetes Lease; the elected one runs the sync loop and the metering tasks.
--     `Leader.Elector` has the methods of `LeaderElector`, `Leader.Api` the Lease API as an
--     interface: optimistic concurrency by `resourceVersion`, as Kubernetes documents it, where a
--     failed request may or may not have been carried out. `Leader.Race` is the step relation of
--     any number of replicas, a step per request. They share one clock that does not run
--     backwards.
--   * Sandbox is treadstone/sandbox/models/sandbox.py: the row, the statuses,
--     `VALID_TRANSITIONS`.
--   * Service is treadstone/sandbox/services/sandbox_service.py: `Service.Create`,
--     `Service.Start`, `Service.Stop` (with `snapshot`) and `Service.Delete` are what the API's
--     calls do to a row, with what they commit on the way and what the cluster answers.
--     `snapshot` and a `start` from cold only set `pending_operation`, which Cold works off.
--   * Cold is treadstone/storage/services/storage_snapshot_orchestrator.py: `Cold.Snapshot` takes
--     the workspace of a stopped sandbox to a snapshot, `Cold.Restore` brings it back, a tick at
--     a time; `Cold.Loop` is the loop over the rows. A tick is a function of the row, the tables
--     and the answers of the cluster.
--   * Lifecycle is treadstone/infra/services/sandbox_lifecycle_tasks.py with the callbacks of
--     sync_supervisor.py: the leader stops idle sandboxes and deletes those stopped for long.
--   * Sync is treadstone/infra/services/k8s_sync.py with sandbox_state_observer.py:
--     `Sync.Resource` what is read of a Sandbox resource, `Sync.Derive`
--     `derive_status_from_sandbox_cr`, `Sync.Rows` the writes and the calls of the observers,
--     `Sync.Watch` `handle_watch_event`, `Sync.Reconcile` the body of `reconcile` for a row. A
--     handler reads its row once; the world that it writes to has a row that other sessions may
--     have changed in between.
--   * Metering is treadstone/metering: `Metering.Model` the tables and the monad of a method on a
--     database session, `Metering.Helpers` metering_helpers.py, and of metering_service.py
--     `Metering.Plans` the plans, `Metering.Pools` the consumption of credits,
--     `Metering.Sessions` the compute sessions, `Metering.Storage` the storage ledger,
--     `Metering.Quota` the quota checks, with the part of `SandboxService._validate_create` that
--     runs them. `Metering.Tasks` is metering_tasks.py, what the leader does every minute: `Tick`
--     `tick_metering`, `Warnings` the thresholds, `Grace` the grace period, `Rollover` the
--     monthly reset. `Metering.Reconcile` is `reconcile_metering` of metering_reconcile.py, which
--     repairs what the observer missed.
--   * Billing is treadstone/metering/services/metering_state_observer.py, where the sync loop
--     calls the compute sessions: an observer of Sync whose state are the tables of Metering.
--   * Supervisor is `LeaderControlledSyncSupervisor` of sync_supervisor.py, which asks the
--     elector of Leader and starts and stops the background tasks. Its life is a list of events,
--     and a round of `run` is two of them, since a shutdown may come while it waits for the
--     election.
--   * Identity is treadstone/identity: `Identity.Model` the tables of models/user.py, api_key.py
--     and cli_login_flow.py with a result type for the errors that handlers raise. `Identity.Cli`
--     is services/cli_login_flow.py and api/cli_auth.py, the login of the command line, and
--     `Identity.Cli.Race` the step relation of requests that overlap, each split into what it
--     reads and what it writes. Of api/auth.py `Identity.Oauth` has the authorize and the
--     callback handler of a provider, `Identity.Keys` the API keys, with the validators of their
--     requests in treadstone/api/schemas.py, and `Identity.Users` registration, passwords and the
--     administration of users. `Identity.Keys.Auth` is api/deps.py: who a request is.
--   * Platform is treadstone/platform/services/platform_limits.py: `Platform.Limits` the snapshot
--     of limits and usage, the checks, with the part of `create_sandbox` in
--     sandbox/api/sandboxes.py that runs them, and the runtime that caches the snapshot.
--     Registration asks it too.
--   * Proxy is how requests get to a sandbox. `Proxy.Host` is the sandbox's name in a host, as
--     proxy/middleware/sandbox_subdomain.py and identity/services/browser_login.py read it and
--     sandboxes.py writes it; `Proxy.Headers` what proxy/services/sandbox_proxy.py and the
--     middleware do to headers and cookies; `Proxy.Links` the web links of sandboxes.py with the
--     tickets and cookies of identity/services/browser_auth.py; `Proxy.Edge` the handlers of the
--     middleware, and `Proxy.Api` proxy/api/sandbox_proxy.py, which asks `Identity.Keys.Auth`.
--   * Prelude has the names of the library that the parts share, with integers, lists and tests
--     over the native numbers; `Prelude.Text` has text as a list of character codes.
--
-- Bounds: the loop of the monthly reset over missed months runs on fuel, and as many units as
-- there are microseconds to catch up with are enough, since every round moves the end of the
-- period; every other loop is over a list of rows, headers or events. What a month is
-- (`relativedelta`) is an argument, of which only that it goes forward is used. Numbers are
-- unbounded, as in Python. Times are microseconds; a difference that the code takes stops at 0,
-- where the code tests for a positive one. Credits and hours are as the code computes them in
-- memory: the rounding to four decimals that the columns do when they are stored is not modelled.
-- Text that the code only compares is a number, with 0 for the empty text; text that it takes
-- apart is a list of codes, whose capital letters are those of ASCII.
--
-- Not under the repository's control, and so arguments: the hashes, the encoding and decoding of
-- signed tokens, the check of a password, the exchange with an OAuth provider and what it answers
-- of the account and its addresses, what fastapi-users does to the tables on a login, and the
-- reading and the writing of cookies.
--
-- Not modelled: the update of a sandbox, the storage tick, the repair of the storage ledger, the
-- discovery of a sandbox's claim, password resets and verification mails, the endpoints that only
-- list rows, the admin endpoints of plans and platform limits, the waitlist, the streaming of
-- bytes through the proxy, the audit log's queries, the command line client, and the runtime in
-- the sandbox image. The cluster, the database and the HTTP layer are not part of the program:
-- the Lease API is an interface, the answers of the cluster are arguments, and a database session
-- is a function on tables, run one call at a time, except where it is a step of requests that
-- overlap.
pub mod Prelude
pub mod Platform
pub mod Identity
pub mod Proxy
pub mod Leader
pub mod Supervisor
pub mod Sandbox
pub mod Sync
pub mod Metering
pub mod Billing
pub mod Cold
pub mod Service
pub mod Lifecycle
