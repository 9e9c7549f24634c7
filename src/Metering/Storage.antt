-- ===== src/Metering/Storage.antt =====
-- The storage ledger: `record_storage_allocation`, `update_storage_backend_mode` and
-- `record_storage_release` of `MeteringService`, and the queries on storage. GiB-hours are counted
-- in the column's scale of 0.0001, so a GiB held for 360000 microseconds is one unit.
pub mod Rounding
pub mod Rows
use treadstone.Prelude.{
  ℕ, ◌+◌, ◌*◌, ◌-◌, ◌/◌, ◌%◌, Bool, true, false, Option, none, some, List, [], ◌∷◌, ◌&&◌,
  find_first, count, select, ltb, ◌==◌, if◌then◌else◌,
}
use treadstone.Metering.Model.{
  StorageState, StorageLedger, StorageQuotaGrant, Tables, Env, Action, pure, gets, modify, ◌>>=◌,
  ◌>>◌,
}
use treadstone.Sandbox.{StorageBackendMode}
use treadstone.Metering.Pools.{unexpired}

abbrev pub is_active : StorageState → Bool
is_active StorageState.active = true
is_active _ = false

abbrev same_mode : StorageBackendMode → StorageBackendMode → Bool
same_mode StorageBackendMode.live_disk StorageBackendMode.live_disk = true
same_mode StorageBackendMode.standard_snapshot StorageBackendMode.standard_snapshot = true
same_mode StorageBackendMode.archive_snapshot StorageBackendMode.archive_snapshot = true
same_mode _ _ = false

-- `sandbox_id == … AND storage_state == ACTIVE`
abbrev is_active_for : ℕ → StorageLedger → Bool
is_active_for sandbox l = l.sandbox_id == sandbox && is_active l.storage_state

-- A partial unique index allows one active row for a sandbox.
abbrev pub active_count : ℕ → List StorageLedger → ℕ
active_count sandbox = count (is_active_for sandbox)

abbrev pub active_ledger : ℕ → List StorageLedger → Option StorageLedger
active_ledger sandbox = find_first (is_active_for sandbox)

-- The changed object goes back to the active row that it was read from.
abbrev pub put_active : ℕ → StorageLedger → List StorageLedger → List StorageLedger
put_active sandbox l [] = []
put_active sandbox l (x ∷ xs) =
    let rest = put_active sandbox l xs in if is_active_for sandbox x then l ∷ xs else x ∷ rest

abbrev save_ledger : ℕ → StorageLedger → Action (Unit {0})
save_ledger sandbox l = modify (λ t. record t { ledger = put_active sandbox l t.ledger })

abbrev pub new_ledger : Env → ℕ → ℕ → ℕ → StorageBackendMode → StorageLedger
new_ledger env user sandbox size_gib backend_mode = record {
  user_id = user;
  sandbox_id = sandbox;
  size_gib = size_gib;
  storage_state = StorageState.active;
  backend_mode = backend_mode;
  allocated_at = env.now;
  released_at = none;
  gib_hours_consumed = 0;
  last_metered_at = env.now;
  gmt_updated = env.now;
}

abbrev pub with_mode : Env → StorageBackendMode → StorageLedger → StorageLedger
with_mode env backend_mode l = record l { backend_mode = backend_mode; gmt_updated = env.now }

-- An active row takes the mode, if it has another.
unfoldable pub set_mode : Env → ℕ → StorageBackendMode → StorageLedger → Action StorageLedger
set_mode env sandbox backend_mode l =
    if same_mode l.backend_mode backend_mode
    then pure l
    else save_ledger sandbox (with_mode env backend_mode l) >> pure (with_mode env backend_mode l)

abbrev allocate : Env → ℕ → ℕ → ℕ → StorageBackendMode → Option StorageLedger → Action StorageLedger
allocate env user sandbox size_gib backend_mode none = do
  modify (λ t. record t { ledger = new_ledger env user sandbox size_gib backend_mode ∷ t.ledger })
  pure (new_ledger env user sandbox size_gib backend_mode)
allocate env user sandbox size_gib backend_mode (some l) = set_mode env sandbox backend_mode l

unfoldable pub record_storage_allocation :
    Env → ℕ → ℕ → ℕ → StorageBackendMode → Action StorageLedger
record_storage_allocation env user sandbox size_gib backend_mode = do
  existing ← gets (λ t. active_ledger sandbox t.ledger)
  allocate env user sandbox size_gib backend_mode existing

abbrev set_mode_option :
    Env → ℕ → StorageBackendMode → Option StorageLedger → Action (Option StorageLedger)
set_mode_option env sandbox backend_mode none = pure none
set_mode_option env sandbox backend_mode (some l) =
    set_mode env sandbox backend_mode l >>= (λ l'. pure (some l'))

unfoldable pub update_storage_backend_mode :
    Env → ℕ → StorageBackendMode → Action (Option StorageLedger)
update_storage_backend_mode env sandbox backend_mode = do
  found ← gets (λ t. active_ledger sandbox t.ledger)
  set_mode_option env sandbox backend_mode found

-- `quantize`: to the nearest, and from halfway to the even neighbour.
unfoldable pub round_half_even : ℕ → ℕ → ℕ
round_half_even n d =
    let q = n / d in
    let r = 2 * (n % d) in
    if ltb r d then q else if ltb d r then q + 1 else if q % 2 == 0 then q else q + 1

abbrev pub unit_gib_micros : ℕ
unit_gib_micros = 360000

-- What the time since the last metering adds, at no time at all nothing.
unfoldable pub final_gib_hours : Env → StorageLedger → ℕ
unfolding round_half_even
final_gib_hours env l =
    let elapsed = env.now - l.last_metered_at in
    if ltb 0 elapsed then round_half_even (l.size_gib * elapsed) unit_gib_micros else 0

abbrev pub released : Env → StorageLedger → StorageLedger
released env l = record l {
  gib_hours_consumed = l.gib_hours_consumed + final_gib_hours env l;
  storage_state = StorageState.deleted;
  released_at = some env.now;
  last_metered_at = env.now;
  gmt_updated = env.now;
}

abbrev release_option : Env → ℕ → Option StorageLedger → Action (Option StorageLedger)
release_option env sandbox none = pure none
release_option env sandbox (some l) =
    save_ledger sandbox (released env l) >> pure (some (released env l))

unfoldable pub record_storage_release : Env → ℕ → Action (Option StorageLedger)
record_storage_release env sandbox = do
  found ← gets (λ t. active_ledger sandbox t.ledger)
  release_option env sandbox found

-- `SUM(size_gib)` of the user's active rows
abbrev pub sum_active : ℕ → List StorageLedger → ℕ
sum_active user [] = 0
sum_active user (l ∷ ls) =
    (if l.user_id == user && is_active l.storage_state then l.size_gib else 0) + sum_active user ls

unfoldable pub get_current_storage_used : ℕ → Tables → ℕ
get_current_storage_used user t = sum_active user t.ledger

abbrev sum_grants : List StorageQuotaGrant → ℕ
sum_grants [] = 0
sum_grants (g ∷ gs) = g.size_gib + sum_grants gs

unfoldable pub get_extra_storage_quota : Env → ℕ → Tables → ℕ
get_extra_storage_quota env user t =
    sum_grants (select (λ g. g.user_id == user && unexpired env.now g.expires_at) t.storage_grants)
