-- ===== src/Service.antt =====
-- treadstone/sandbox/services/sandbox_service.py: what the calls of the API do to the row of a
-- sandbox. A call's commits are kept in a list, the first one first; what is not committed is lost
-- with the session, so a call that raises leaves the tables as they were at its last commit. The
-- row that `start` reads again is the object that its session holds: it is not loaded again.
pub mod Start
pub mod Stop
pub mod Delete
pub mod Create
pub mod History
pub mod Tests
use Prim.Native.String.{String}
use treadstone.Prelude.{
  ℕ, ◌+◌, Bool, true, false, Option, none, some, List, [], ◌∷◌, ◌&&◌, ◌==◌, if◌then◌else◌,
}
use treadstone.Sandbox.{error, Sandbox}
use treadstone.Metering.Model.{Tables, Error}
use treadstone.Sync.Resource.{Resource}

-- The errors that the calls raise.
pub data ServiceError : Type 0 where
  sandbox_not_found invalid_transition unsupported snapshot_backend_not_ready : ServiceError
  template_not_found storage_backend_not_ready name_conflict : ServiceError
  refused : Error → ServiceError

pub data CallResult : Type 0 where
  returned : Sandbox → CallResult
  raised : ServiceError → CallResult

pub record Call : Type 0 where
  pub outcome : CallResult
  pub commits : List Sandbox
  pub tables : Tables

-- `metered` is whether the service was given a metering service, `enforced` whether its checks are
-- switched on as well.
pub record Switches : Type 0 where
  pub metered : Bool
  pub enforced : Bool

-- What the cluster answers. `false` and `none` stand for an exception, but of `snapshot_class` for
-- a class that is missing; `still_there` is whether the row is found again.
pub record Answers : Type 0 where
  pub snapshot_class : Bool
  pub mode_set : Bool
  pub get_sandbox : Option (Option Resource)
  pub still_there : Bool
  pub delete_bound : Bool
  pub delete_resource : Bool

abbrev pub refuse : ServiceError → Tables → Call
refuse e t = record { outcome = raised e; commits = []; tables = t }

abbrev pub commit : Sandbox → List Sandbox → Tables → Call
commit s commits t = record { outcome = returned s; commits = commits; tables = t }

abbrev pub is_none {ℓ} : {A : Type ℓ} → Option A → Bool
is_none none = true
is_none (some a) = false

-- `get`
unfoldable pub find_owned : ℕ → ℕ → List Sandbox → Option Sandbox
find_owned sandbox_id owner_id [] = none
find_owned sandbox_id owner_id (s ∷ ss) =
    let rest = find_owned sandbox_id owner_id ss in
    if s.id == sandbox_id && (s.owner_id == owner_id && is_none s.gmt_deleted) then some s else rest

-- A call on a row that is there, and on one that is not.
abbrev pub on_found : Option Sandbox → Tables → (Sandbox → Call) → Call
on_found none t f = refuse sandbox_not_found t
on_found (some s) t f = f s

-- The compensating write after a failure.
abbrev pub failed : String → Sandbox → Sandbox
failed message s = record s {
  status = error;
  status_message = some message;
  version = s.version + 1;
}
