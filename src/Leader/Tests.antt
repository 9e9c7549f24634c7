-- ===== src/Leader/Tests.antt =====
-- A store that keeps one lease and counts its writes, and replicas that race for it.
use treadstone.Prelude.{
  ℕ, suc, ◌+◌, ◌≡◌, ◌≢◌, ◌⊎◌, ◌||◌, refl, inl, inr, Option, none, some, arith, ◌==◌, if◌then◌else◌,
  Bool-cases, ◌≤◌, ◌<◌, sym, ap, some_inj,
}
use treadstone.Leader.Lease.{Lease, LeaseSpec, Manifest, Reply, stored, gone, conflict, found}
use treadstone.Leader.Api.{LeaseApi, Kept, Stored, Matched}
use treadstone.Leader.Elector.{Elector, decide, write}
use treadstone.Leader.Race.{System, begin, read, send, Reach, start, later, Leads, WellConfigured}
use treadstone.Leader.Race.Safety.{one_leader}

record Cluster : Type 0 where
  spec : Option LeaseSpec
  writes : ℕ

abbrev lease_of : Option LeaseSpec → ℕ → Option Lease
lease_of none n = none
lease_of (some spec) n = some (record { resource_version = suc n; spec = spec })

abbrev create_in : Manifest → Cluster → Option LeaseSpec → Reply × Cluster
create_in m c none = (stored, record { spec = some m.spec; writes = suc c.writes })
create_in m c (some _) = (conflict, c)

abbrev replace_in : Manifest → Cluster → Option LeaseSpec → Reply × Cluster
replace_in m c none = (gone, c)
replace_in m c (some _) =
    if m.resource_version == 0 || suc c.writes == m.resource_version
    then (stored, record { spec = some m.spec; writes = suc c.writes })
    else (conflict, c)

-- The laws of the API, for the stored spec `o` as an argument so that it can be split.
module _ (m : Manifest) (n : ℕ) where
  abbrev at_spec : Option LeaseSpec → Cluster
  at_spec o = record { spec = o; writes = n }

  abbrev Left : Reply × Cluster → Option LeaseSpec → Type 0
  Left (r, c) o =
      Kept (lease_of o n) (lease_of c.spec c.writes) (suc n) (suc c.writes) × (r ≢ stored)

  abbrev Put : Reply × Cluster → Type 0
  Put (r, c) = Stored (lease_of c.spec c.writes) (suc n) (suc c.writes) m.spec

  created :
      (o : Option LeaseSpec)
      → Left (create_in m (at_spec o) o) o
        ⊎ ((lease_of o n ≡ none) × Put (create_in m (at_spec o) o))
  created none = inr (refl, record { value = refl; fresh = omega arith })
  created (some x) = inl (record { same = refl; later = omega arith }, λ h. cc)

  replaced :
      (o : Option LeaseSpec)
      → Left (replace_in m (at_spec o) o) o
        ⊎ (Matched (lease_of o n) m.resource_version × Put (replace_in m (at_spec o) o))
  replaced none = inl (record { same = refl; later = omega arith }, λ h. cc)
  replaced (some x) = elim (Bool-cases (m.resource_version == 0 || suc n == m.resource_version)) [
    | inl e ↦ rw e (
        inr (
          record { before = _; present = refl; same_version = ground (arith, e) },
          record { value = refl; fresh = omega arith },
        ))
    | inr e ↦ rw e (inl (record { same = refl; later = omega arith }, λ h. cc))
  ]

abbrev cluster_current : Cluster → Option Lease
cluster_current c = lease_of c.spec c.writes

versions_lem :
    (o : Option LeaseSpec) (n : ℕ) (l : Lease)
    → lease_of o n ≡ some l
    → (0 < l.resource_version) × (l.resource_version ≤ suc n)
versions_lem none n l h = cc
versions_lem (some x) n l h =
    let e = ap (λ (y : Lease). y.resource_version) (some_inj h) in
    (omega (arith, e), omega (arith, e))

found_inj : {a b : Option Lease} → found a ≡ found b → a ≡ b
found_inj h = cc

abbrev api : LeaseApi Cluster
api = record {
  get_lease = λ c. found (cluster_current c);
  create_lease = λ m c. create_in m c c.spec;
  replace_lease = λ m c. replace_in m c c.spec;
  current = cluster_current;
  revision = λ c. suc c.writes;
  get_current = λ c o h. found_inj (sym h);
  versions = λ c l h. versions_lem c.spec c.writes l h;
  create_effect = λ m c. elim (created m c.writes c.spec) [ inl x ↦ inl x.0 | inr y ↦ inr y ];
  create_stored = λ m c h. elim (created m c.writes c.spec) [ inl x ↦ absurd (x.1 h) | inr y ↦ y ];
  replace_effect = λ m c. elim (replaced m c.writes c.spec) [ inl x ↦ inl x.0 | inr y ↦ inr y ];
  replace_stored =
      λ m c h. elim (replaced m c.writes c.spec) [ inl x ↦ absurd (x.1 h) | inr y ↦ y ];
}

-- Lease duration 15 s, renewed every 5 s, tried again every 2 s.
abbrev electors : ℕ → Elector
electors i = record {
  holder_identity = i + 1;
  lease_duration_seconds = 15;
  renew_interval_seconds = 5;
  retry_interval_seconds = 2;
}

electors-WellConfigured : WellConfigured electors
electors-WellConfigured = record { named = λ i. omega arith; distinct = λ i j h. omega (arith, h) }

abbrev empty : Cluster
empty = record { spec = none; writes = 0 }

-- Replica 0 creates the lease; replica 1 read before that, and its request is refused.
abbrev race : (t : System Cluster) × Reach api electors t
race = (
  _,
  later
      (later
        (later (later (later (later (start empty 7) (begin 0)) (begin 1)) (read 0 7 none refl refl))
          (read 1 7 none refl refl))
        (send 0 7 none refl))
      (send 1 7 none refl),
)

race_outcome : ((race.0.replica 0).leading ≡ some 7) × ((race.0.replica 1).leading ≡ none)
unfolding write decide
race_outcome = (refl, refl)

race-Leads : Leads electors race.0 0 7
unfolding write decide
race-Leads = (refl, omega arith)

one_leader_example : ◌≡◌ {A = ℕ} 0 0
one_leader_example =
    one_leader api electors 0 0 7 7 electors-WellConfigured race.1 race-Leads race-Leads
