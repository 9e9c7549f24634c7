-- ===== src/Metering/Tests/Storage.antt =====
-- The storage ledger at concrete inputs.
use treadstone.Prelude.{◌≡◌, refl, [], ◌∷◌}
use treadstone.Metering.Model.{StorageLedger, Tables, Env}
use treadstone.Sandbox.{StorageBackendMode}
use treadstone.Metering.Storage.{new_ledger, final_gib_hours}
use treadstone.Metering.Tests.{env, tables}

abbrev allocated : Tables
allocated = record tables { ledger = new_ledger env 1 4 5 StorageBackendMode.live_disk ∷ [] }

abbrev later_env : Env
later_env = record env { now = 541000 }

abbrev row : StorageLedger
row = new_ledger env 1 4 5 StorageBackendMode.live_disk

-- 5 GiB for 0.54 s are exactly 7.5 units, which go to the even neighbour.
half_unit : final_gib_hours later_env row ≡ 8
unfolding final_gib_hours
half_unit = refl
