-- ===== src/Platform/Limits.antt =====
-- treadstone/platform/services/platform_limits.py, with the checks that the endpoint for creating
-- sandboxes in sandbox/api/sandboxes.py makes. The lock of the runtime is held for one refresh, so a
-- refresh is one step. A bind token is a number, the identity of a database engine.
pub mod Cache
use treadstone.Prelude.{
  ℕ, ◌+◌, Bool, true, false, Option, none, some, List, [], ◌∷◌, ◌&&◌, ◌||◌, ◌==◌, length, count,
  ltb, leb, if◌then◌else◌,
}
use treadstone.Sandbox.{Sandbox}
use treadstone.Identity.Model.{
  User, Error, registration_cap, sandbox_cap, storage_cap, waitlist_cap, Result, ok, ◌>>=◌, ◌>>◌,
  raise_if,
}

pub record PlatformLimitsConfigSnapshot : Type 0 where
  pub max_registered_users : Option ℕ
  pub max_total_sandboxes : Option ℕ
  pub max_total_storage_gib : Option ℕ
  pub max_waitlist_applications : Option ℕ

pub record PlatformLimitsUsageSnapshot : Type 0 where
  pub registered_users : ℕ
  pub total_sandboxes : ℕ
  pub total_storage_gib : ℕ
  pub waitlist_applications : ℕ

pub record PlatformLimitsSnapshot : Type 0 where
  pub config : PlatformLimitsConfigSnapshot
  pub usage : PlatformLimitsUsageSnapshot
  pub refreshed_at : ℕ

-- The row of the limits, if there is one; the users; the sandboxes; how many applications wait.
pub record Platform : Type 0 where
  pub limits : Option PlatformLimitsConfigSnapshot
  pub users : List User
  pub sandboxes : List Sandbox
  pub waitlist : ℕ

-- The sizes that are offered; any other counts as nothing.
unfoldable pub storage_size_gib_case : Option ℕ → ℕ
storage_size_gib_case none = 0
storage_size_gib_case (some n) = if n == 5 || n == 10 || n == 20 then n else 0

abbrev pub is_kept : Sandbox → Bool
is_kept s = elim s.gmt_deleted [ none ↦ true | some at ↦ false ]

unfoldable pub total_storage : List Sandbox → ℕ
unfolding storage_size_gib_case
total_storage [] = 0
total_storage (s ∷ ss) =
    (if is_kept s && s.persist then storage_size_gib_case s.storage_size else 0) + total_storage ss

abbrev no_limits : PlatformLimitsConfigSnapshot
no_limits = record {
  max_registered_users = none;
  max_total_sandboxes = none;
  max_total_storage_gib = none;
  max_waitlist_applications = none;
}

abbrev or_no_limits : Option PlatformLimitsConfigSnapshot → PlatformLimitsConfigSnapshot
or_no_limits none = no_limits
or_no_limits (some config) = config

unfoldable pub build_snapshot : ℕ → Platform → PlatformLimitsSnapshot
unfolding total_storage
build_snapshot now p = record {
  config = or_no_limits p.limits;
  usage = record {
    registered_users = length p.users;
    total_sandboxes = count is_kept p.sandboxes;
    total_storage_gib = total_storage p.sandboxes;
    waitlist_applications = p.waitlist;
  };
  refreshed_at = now;
}

abbrev pub below : Option ℕ → ℕ → (ℕ → Error) → Result (Unit {0})
below none used cap = ok tt
below (some maximum) used cap = raise_if (leb maximum used) (cap maximum)

unfoldable pub check_user_registration_allowed : PlatformLimitsSnapshot → Result (Unit {0})
check_user_registration_allowed s =
    below s.config.max_registered_users s.usage.registered_users
      (registration_cap s.usage.registered_users)

unfoldable pub check_sandbox_creation_allowed : PlatformLimitsSnapshot → Result (Unit {0})
check_sandbox_creation_allowed s =
    below s.config.max_total_sandboxes s.usage.total_sandboxes (sandbox_cap s.usage.total_sandboxes)

abbrev pub fits : Option ℕ → ℕ → ℕ → Result (Unit {0})
fits none used requested = ok tt
fits (some maximum) used requested =
    raise_if (ltb maximum (used + requested)) (storage_cap used requested maximum)

unfoldable pub check_storage_allocation_allowed : PlatformLimitsSnapshot → ℕ → Result (Unit {0})
check_storage_allocation_allowed s requested_gib =
    fits s.config.max_total_storage_gib s.usage.total_storage_gib requested_gib

unfoldable check_waitlist_submission_allowed : PlatformLimitsSnapshot → Result (Unit {0})
check_waitlist_submission_allowed s =
    below s.config.max_waitlist_applications s.usage.waitlist_applications
      (waitlist_cap s.usage.waitlist_applications)

abbrev pub check_size : Bool → ℕ → PlatformLimitsSnapshot → Result (Unit {0})
check_size false requested_gib s = ok tt
check_size true requested_gib s = check_storage_allocation_allowed s requested_gib

-- The checks of the endpoint, for a persistent sandbox with its size.
unfoldable pub check_create : Bool → ℕ → PlatformLimitsSnapshot → Result (Unit {0})
unfolding check_sandbox_creation_allowed check_storage_allocation_allowed
check_create persist requested_gib s = do
  check_sandbox_creation_allowed s
  check_size persist requested_gib s

pub record PlatformLimitsRuntime : Type 0 where
  pub snapshot : Option PlatformLimitsSnapshot
  pub task : Bool
  pub session_factory : Option ℕ
  pub bind_token : Option ℕ

abbrev pub new_runtime : PlatformLimitsRuntime
new_runtime = record { snapshot = none; task = false; session_factory = none; bind_token = none }

abbrev pub same_token : Option ℕ → Option ℕ → Bool
same_token none none = true
same_token (some a) (some b) = a == b
same_token _ _ = false

-- What the database holds is an argument, for the token of the session that is asked.
module _ (read : Option ℕ → PlatformLimitsSnapshot) where
  unfoldable pub refresh_from_session :
      Option ℕ → PlatformLimitsRuntime → PlatformLimitsSnapshot × PlatformLimitsRuntime
  refresh_from_session token r =
      (read token, record r { snapshot = some (read token); bind_token = token })

  abbrev kept_or :
      Option ℕ
      → PlatformLimitsRuntime
      → Option PlatformLimitsSnapshot
      → PlatformLimitsSnapshot × PlatformLimitsRuntime
  kept_or token r none = refresh_from_session token r
  kept_or token r (some s) =
      if same_token r.bind_token token then (s, r) else refresh_from_session token r

  unfoldable pub ensure_snapshot :
      Option ℕ → PlatformLimitsRuntime → PlatformLimitsSnapshot × PlatformLimitsRuntime
  unfolding refresh_from_session
  ensure_snapshot token r = kept_or token r r.snapshot

  -- The sessions of the factory have its token.
  abbrev refresh_by : Option ℕ → PlatformLimitsRuntime → PlatformLimitsRuntime
  refresh_by none r = r
  refresh_by (some factory) r = record r {
    snapshot = some (read (some factory));
    bind_token = some factory;
  }

  unfoldable pub force_refresh : PlatformLimitsRuntime → PlatformLimitsRuntime
  force_refresh r = refresh_by r.session_factory r

  unfoldable pub start_runtime : ℕ → PlatformLimitsRuntime → PlatformLimitsRuntime
  unfolding force_refresh
  start_runtime factory r = record (force_refresh (record r { session_factory = some factory })) {
    task = true;
  }

unfoldable pub stop_runtime : PlatformLimitsRuntime → PlatformLimitsRuntime
stop_runtime r = new_runtime
