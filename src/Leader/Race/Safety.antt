-- ===== src/Leader/Race/Safety.antt =====
-- Mutual exclusion of leaders.
use treadstone.Prelude.{ℕ, ◌≡◌, sym, ap, ◌∙◌, some, some_inj}
use treadstone.Leader.Lease.{Lease}
use treadstone.Leader.Api.{LeaseApi}
use treadstone.Leader.Elector.{Elector}
use treadstone.Leader.Race.{System, Reach, Leads, WellConfigured}
use treadstone.Leader.Race.Invariant.{Reach-Inv}

-- At most one replica leads, where every replica has an identity of its own: in every state that
-- the replicas can reach, however their requests interleave and whichever of them fail, two
-- replicas whose last attempts answered LEADER and whose renewals are both younger than their lease
-- durations are the same replica.
pub one_leader :
    {S : Type 0} (api : LeaseApi S) (electors : ℕ → Elector) {t : System S} (i j at at' : ℕ)
    → WellConfigured electors
    → Reach api electors t
    → Leads electors t i at
    → Leads electors t j at'
    → i ≡ j
one_leader api electors i j at at' config r (led_i, fresh_i) (led_j, fresh_j) =
    let inv = Reach-Inv api electors config r in
    let own_i = (rw led_i at (inv.holds i)) fresh_i in
    let own_j = (rw led_j at (inv.holds j)) fresh_j in
    let same = some_inj (sym own_i.present ∙ own_j.present) in
    config.distinct i j
      (sym own_i.holder ∙ ap (λ (l : Lease). l.spec.holder_identity) same ∙ own_j.holder)

-- In every reachable state a replica that leads is the holder that the stored lease names, with its
-- last renewal, where every replica has an identity of its own.
leader-owns :
    {S : Type 0} (api : LeaseApi S) (electors : ℕ → Elector) {t : System S} (i at : ℕ)
    → WellConfigured electors
    → Reach api electors t
    → Leads electors t i at
    → (l : Lease) × (api.current t.store ≡ some l)
      × (l.spec.holder_identity ≡ (electors i).holder_identity)
      × (l.spec.renew_time ≡ some at)
leader-owns api electors i at config r (led, fresh) =
    let own = (rw led at ((Reach-Inv api electors config r).holds i)) fresh in
    (own.lease, own.present, own.holder, own.renewed)
