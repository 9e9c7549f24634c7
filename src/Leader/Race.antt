-- ===== src/Leader/Race.antt =====
-- Many replicas over one Lease: their attempts interleaved in any order, a request at a time. The
-- replicas read one clock, which never runs backwards.
pub mod Invariant
pub mod Safety
use treadstone.Prelude.{ℕ, ◌+◌, ◌*◌, ◌≤◌, ◌<◌, ◌≡◌, ◌≢◌, Option, none, some, ◌==◌, if◌then◌else◌}
use treadstone.Leader.Lease.{Lease, Manifest, found}
use treadstone.Leader.Api.{LeaseApi}
use treadstone.Leader.Elector.{
  Elector, Outcome, leader, follower, raised, decide, write, plan_release,
}

-- Where a replica stands: between two calls, or after one of the requests of a call. `now` is what
-- the call read from the clock.
pub data Phase : Type 0 where
  idle : Phase
  reading : (now : ℕ) → Phase
  writing : (now : ℕ) (seen : Option Lease) → Phase
  releasing : (seen : Lease) (m : Manifest) → Phase

-- `leading` holds the clock reading of the last attempt if that attempt answered LEADER.
pub record Replica : Type 0 where
  pub phase : Phase
  pub leading : Option ℕ

pub record System (S : Type 0) : Type 0 where
  pub store : S
  pub clock : ℕ
  pub replica : ℕ → Replica

abbrev pub update : (ℕ → Replica) → ℕ → Replica → ℕ → Replica
update f i r j = if j == i then r else f j

abbrev pub won : ℕ → Outcome → Option ℕ
won now leader = some now
won now follower = none
won now raised = none

module _ {S : Type 0} (api : LeaseApi S) (electors : ℕ → Elector) where
  pub data Step (t : System S) : System S → Type 0 where
    -- time passes
    wait : (n : ℕ) → Step t (record t { clock = t.clock + n })
    -- `try_acquire_or_renew` is called and reads the clock
    begin :
        (i : ℕ)
        → Step t (record t {
          replica = update t.replica i (record (t.replica i) { phase = reading t.clock });
        })
    -- the answer to `get_lease`
    read :
        (i now : ℕ) (o : Option Lease)
        → (t.replica i).phase ≡ reading now
        → api.get_lease t.store ≡ found o
        → Step t (record t {
          replica = update t.replica i (record (t.replica i) { phase = writing now o });
        })
    -- `get_lease` raises, so the attempt does
    read_raises :
        (i : ℕ)
        → Step t
            (record t { replica = update t.replica i (record { phase = idle; leading = none }) })
    -- the request of the attempt, and its answer
    send :
        (i now : ℕ) (o : Option Lease)
        → (t.replica i).phase ≡ writing now o
        → Step t (record t {
          store = (write api (decide (electors i) now o) t.store).1;
          replica = update t.replica i (record {
            phase = idle;
            leading = won now (write api (decide (electors i) now o) t.store).0;
          });
        })
    -- `release_if_held` reads the lease and finds itself the holder
    plan :
        (i : ℕ) (l : Lease) (m : Manifest)
        → api.get_lease t.store ≡ found (some l)
        → plan_release (electors i) t.clock (some l) ≡ some m
        → Step t (record t {
          replica = update t.replica i (record (t.replica i) { phase = releasing l m });
        })
    -- its request, whatever the answer
    drop :
        (i : ℕ) (l : Lease) (m : Manifest)
        → (t.replica i).phase ≡ releasing l m
        → Step t (record t {
          store = (api.replace_lease m t.store).1;
          replica = update t.replica i (record { phase = idle; leading = none });
        })

  -- No replica has begun.
  pub data Reach : System S → Type 0 where
    start :
        (s : S) (clock : ℕ)
        → Reach (record {
          store = s;
          clock = clock;
          replica = λ _. record { phase = idle; leading = none };
        })
    later : {t u : System S} → Reach t → Step t u → Reach u

-- A replica leads and its last renewal is younger than the lease duration.
abbrev pub Leads : {S : Type 0} → (ℕ → Elector) → System S → ℕ → ℕ → Type 0
Leads electors t i at =
    ((t.replica i).leading ≡ some at)
    × (t.clock < at + (electors i).lease_duration_seconds * 1000000)

-- Every replica has an identity of its own.
pub record WellConfigured (electors : ℕ → Elector) : Type 0 where
  pub named : (i : ℕ) → (electors i).holder_identity ≢ 0
  pub distinct : (i j : ℕ) → (electors i).holder_identity ≡ (electors j).holder_identity → i ≡ j
