-- ===== src/Sync/Derive/Ready.antt =====
-- What a derived status says of the resource.
use treadstone.Prelude.{◌≡◌, true, false, Option, none, some, arith}
use treadstone.Sandbox.{ready}
use treadstone.Sync.Resource.{Condition, Resource}
use treadstone.Sync.Derive.{
  condition_of, status_is_true, derive_from_ready, derive_from_finished, derive_status, reason_is,
}

from_ready-ready :
    (c : Option Condition)
    → (derive_from_ready c).0 ≡ ready
    → (status_is_true c ≡ true) × (reason_is c "SandboxSuspended" ≡ false)
unfolding derive_from_ready
from_ready-ready none h = cc
from_ready-ready (some c) h = ground (arith, h)

from_finished-ready :
    (finished c : Option Condition)
    → (derive_from_finished finished c).0 ≡ ready
    → (status_is_true finished ≡ false)
      × (status_is_true c ≡ true)
      × (reason_is c "SandboxSuspended" ≡ false)
unfolding derive_from_finished
from_finished-ready finished c h = ground (arith, h, from_ready-ready c)

-- A sandbox is derived to be ready only where its Ready condition is "True" and not because it is
-- suspended, and its Finished condition is not "True".
derive_status-ready :
    (cr : Resource)
    → (derive_status cr).0 ≡ ready
    → (status_is_true (condition_of "Finished" cr.conditions) ≡ false)
      × (status_is_true (condition_of "Ready" cr.conditions) ≡ true)
      × (reason_is (condition_of "Ready" cr.conditions) "SandboxSuspended" ≡ false)
unfolding derive_status
derive_status-ready cr h = ground (
  arith,
  h,
  from_finished-ready (condition_of "Finished" cr.conditions) (condition_of "Ready" cr.conditions),
)
