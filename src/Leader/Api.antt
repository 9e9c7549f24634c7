-- ===== src/Leader/Api.antt =====
-- The Lease API of Kubernetes, which is not part of the program: what `LeaseStoreProtocol` offers
-- over a state `S` of the cluster, with the documented behaviour that the elector relies on
-- (optimistic concurrency by `resourceVersion`). A request that fails may have been carried out.
use treadstone.Prelude.{ℕ, ◌≤◌, ◌<◌, ◌≡◌, ◌⊎◌, Option, none, some}
use treadstone.Leader.Lease.{Lease, LeaseSpec, Manifest, Reply, stored, ReadReply, found}

-- What one write may do to the cluster: nothing, or store the manifest under a fresh version.
pub record Kept (was now : Option Lease) (old new : ℕ) : Type 0 where
  pub same : now ≡ was
  pub later : old ≤ new

pub record Stored (now : Option Lease) (old new : ℕ) (spec : LeaseSpec) : Type 0 where
  pub value : now ≡ some (record { resource_version = new; spec = spec })
  pub fresh : old < new

-- The lease that a replace request met had the version that the manifest names, if it names one.
pub record Matched (was : Option Lease) (version : ℕ) : Type 0 where
  pub before : Lease
  pub present : was ≡ some before
  pub same_version : (version ≡ 0) ⊎ (before.resource_version ≡ version)

pub record LeaseApi (S : Type 0) : Type 0 where
  pub get_lease : S → ReadReply
  pub create_lease : Manifest → S → Reply × S
  pub replace_lease : Manifest → S → Reply × S
  pub current : S → Option Lease
  pub revision : S → ℕ
  pub get_current : (s : S) (o : Option Lease) → get_lease s ≡ found o → o ≡ current s
  pub versions :
      (s : S) (l : Lease)
      → current s ≡ some l
      → (0 < l.resource_version) × (l.resource_version ≤ revision s)
  pub create_effect :
      (m : Manifest) (s : S)
      → Kept (current s) (current (create_lease m s).1) (revision s) (revision (create_lease m s).1)
        ⊎ ((current s ≡ none)
            × Stored
                (current (create_lease m s).1)
                (revision s)
                (revision (create_lease m s).1)
                m.spec)
  pub create_stored :
      (m : Manifest) (s : S)
      → (create_lease m s).0 ≡ stored
      → (current s ≡ none)
        × Stored (current (create_lease m s).1) (revision s) (revision (create_lease m s).1) m.spec
  pub replace_effect :
      (m : Manifest) (s : S)
      → Kept
          (current s)
          (current (replace_lease m s).1)
          (revision s)
          (revision (replace_lease m s).1)
        ⊎ (Matched (current s) m.resource_version
            × Stored
                (current (replace_lease m s).1)
                (revision s)
                (revision (replace_lease m s).1)
                m.spec)
  pub replace_stored :
      (m : Manifest) (s : S)
      → (replace_lease m s).0 ≡ stored
      → Matched (current s) m.resource_version
        × Stored
            (current (replace_lease m s).1)
            (revision s)
            (revision (replace_lease m s).1)
            m.spec
