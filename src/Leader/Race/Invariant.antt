-- ===== src/Leader/Race/Invariant.antt =====
-- What holds of the store and of every replica after any steps.
pub mod Writes
use treadstone.Prelude.{
  ℕ, ◌+◌, ◌*◌, ◌≤◌, ◌<◌, ◌≡◌, ◌≢◌, refl, ap, ◌∙◌, ◌⊎◌, inl, inr, Option, none, some, false, Bool,
  arith, ◌==◌, Bool-cases, ==_iff, some_inj, if◌then◌else◌,
}
use treadstone.Leader.Lease.{Lease, LeaseSpec, Manifest}
use treadstone.Leader.Api.{LeaseApi}
use treadstone.Leader.Elector.{
  Elector, Outcome, leader, follower, raised, write, plan_release, release,
}
use treadstone.Leader.Race.{
  Phase, idle, reading, writing, releasing, Replica, System, update, won, Step, wait, begin, read,
  read_raises, send, plan, drop, Reach, start, later, WellConfigured,
}
use Writes.{
  Seen, Change, Seen-Change, Seen-get, Owned, Owned-write, Owned-release, write-Change,
  write-leader, replace-Change,
}

module _ {S : Type 0} (api : LeaseApi S) (electors : ℕ → Elector) where
  -- What the phase of replica `i` says about the store and the clock.
  abbrev InPhase : S → ℕ → ℕ → Phase → Type 0
  InPhase s clock i idle = Unit
  InPhase s clock i (reading now) = now ≤ clock
  InPhase s clock i (writing now none) = now ≤ clock
  InPhase s clock i (writing now (some l)) = (now ≤ clock) × Seen api s l
  InPhase s clock i (releasing l m) =
      Seen api s l
      × (l.spec.holder_identity ≡ (electors i).holder_identity)
      × (m.resource_version ≡ l.resource_version)

  abbrev pub Holds : S → ℕ → ℕ → Option ℕ → Type 0
  Holds s clock i none = Unit
  Holds s clock i (some at) =
      clock < at + (electors i).lease_duration_seconds * 1000000 → Owned api s (electors i) at

  pub record Inv (t : System S) : Type 0 where
    pub in_phase : (i : ℕ) → InPhase t.store t.clock i (t.replica i).phase
    pub holds : (i : ℕ) → Holds t.store t.clock i (t.replica i).leading

  module _ (config : WellConfigured electors) where
    InPhase-Change :
        (s s' : S) (version : ℕ) (spec : LeaseSpec) (clock i : ℕ) (p : Phase)
        → Change api s s' version spec
        → InPhase s clock i p
        → InPhase s' clock i p
    InPhase-Change s s' v spec clock i idle c h = tt
    InPhase-Change s s' v spec clock i (reading now) c h = h
    InPhase-Change s s' v spec clock i (writing now none) c h = h
    InPhase-Change s s' v spec clock i (writing now (some l)) c h =
        (h.0, Seen-Change api s s' v spec l c h.1)
    InPhase-Change s s' v spec clock i (releasing l m) c h =
        (Seen-Change api s s' v spec l c h.0, h.1, h.2)

    InPhase-wait :
        (s : S) (clock n i : ℕ) (p : Phase) → InPhase s clock i p → InPhase s (clock + n) i p
    InPhase-wait s clock n i idle h = tt
    InPhase-wait s clock n i (reading now) h = omega (arith, h)
    InPhase-wait s clock n i (writing now none) h = omega (arith, h)
    InPhase-wait s clock n i (writing now (some l)) h = (omega (arith, h.0), h.1)
    InPhase-wait s clock n i (releasing l m) h = h

    Holds-wait :
        (s : S) (clock n i : ℕ) (o : Option ℕ) → Holds s clock i o → Holds s (clock + n) i o
    Holds-wait s clock n i none h = tt
    Holds-wait s clock n i (some at) h = λ lt. h (omega (arith, lt))

    -- One replica changes, by `r`, and the store stays.
    turn :
        (t : System S) (i : ℕ) (r : Replica)
        → Inv t
        → InPhase t.store t.clock i r.phase
        → Holds t.store t.clock i r.leading
        → Inv (record t { replica = update t.replica i r })
    turn t i r inv p h = record {
      in_phase = λ j. elim (Bool-cases (j == i)) [
        | inl e ↦ let same : j ≡ i = (==_iff j i).0 e in rw (e, same) p
        | inr e ↦ rw e (inv.in_phase j)
      ];
      holds = λ j. elim (Bool-cases (j == i)) [
        | inl e ↦ let same : j ≡ i = (==_iff j i).0 e in rw (e, same) h
        | inr e ↦ rw e (inv.holds j)
      ];
    }

    Seen-replica :
        (s : S) (clock i now : ℕ) (o : Option Lease)
        → InPhase s clock i (writing now o)
        → (now ≤ clock) × ((l : Lease) → o ≡ some l → Seen api s l)
    Seen-replica s clock i now none h = (h, λ l e. cc)
    Seen-replica s clock i now (some x) h = (h.0, λ l e. rw (← some_inj e) h.1)

    -- The store changes by a request of replica `i`, which then answers or gives up.
    request :
        (t : System S) (i : ℕ) (s' : S) (r : Replica) (version : ℕ) (spec : LeaseSpec)
        → Inv t
        → Change api t.store s' version spec
        → InPhase s' t.clock i r.phase
        → Holds s' t.clock i r.leading
        → ((j at : ℕ)
            → j ≢ i
            → t.clock < at + (electors j).lease_duration_seconds * 1000000
            → Owned api t.store (electors j) at
            → Owned api s' (electors j) at)
        → Inv (record t { store = s'; replica = update t.replica i r })
    request t i s' r version spec inv c p h keeps = record {
      in_phase = λ j. elim (Bool-cases (j == i)) [
        | inl e ↦ let same : j ≡ i = (==_iff j i).0 e in rw (e, same) p
        | inr e ↦ rw e (
            InPhase-Change t.store s' version spec t.clock j (t.replica j).phase c (inv.in_phase j))
      ];
      holds = λ j. elim (Bool-cases (j == i)) [
        | inl e ↦ let same : j ≡ i = (==_iff j i).0 e in rw (e, same) h
        | inr e ↦ rw e (others j (t.replica j).leading (ne j e) (inv.holds j))
      ];
    }
      where
        ne : (j : ℕ) → (j == i) ≡ false → j ≢ i
        ne j e = ground (arith, e)

        others : (j : ℕ) (o : Option ℕ) → j ≢ i → Holds t.store t.clock j o → Holds s' t.clock j o
        others j none n k = tt
        others j (some at) n k = λ lt. keeps j at n lt (k lt)

    Holds-won :
        (s : S) (clock i now : ℕ) (o : Outcome)
        → (o ≡ leader → Owned api s (electors i) now)
        → Holds s clock i (won now o)
    Holds-won s clock i now leader h = λ _. h refl
    Holds-won s clock i now follower h = tt
    Holds-won s clock i now raised h = tt

    distinct : (j i : ℕ) → j ≢ i → (electors j).holder_identity ≢ (electors i).holder_identity
    distinct j i n e = n (config.distinct j i e)

    released :
        (e : Elector) (now : ℕ) (l : Lease) (m : Manifest)
        → plan_release e now (some l) ≡ some m
        → (l.spec.holder_identity ≡ e.holder_identity) × (m.resource_version ≡ l.resource_version)
    unfolding plan_release
    released e now l m h = ground (arith, h)

    -- Every step keeps the invariant.
    pub Step-Inv : {t u : System S} → Step api electors t u → Inv t → Inv u
    Step-Inv {t} (wait n) inv = record {
      in_phase = λ j. InPhase-wait t.store t.clock n j (t.replica j).phase (inv.in_phase j);
      holds = λ j. Holds-wait t.store t.clock n j (t.replica j).leading (inv.holds j);
    }
    Step-Inv {t} (begin i) inv = turn t i _ inv (omega arith) (inv.holds i)
    Step-Inv {t} (read i now none at_read got) inv =
        turn t i _ inv (rw at_read at (inv.in_phase i)) (inv.holds i)
    Step-Inv {t} (read i now (some l) at_read got) inv =
        turn t i _ inv (rw at_read at (inv.in_phase i), Seen-get api t.store l got) (inv.holds i)
    Step-Inv {t} (read_raises i) inv = turn t i _ inv tt tt
    Step-Inv {t} (send i now o at_write) inv =
        let (version, spec, change) = write-Change api (electors i) now o t.store in
        let (past, seen) = Seen-replica t.store t.clock i now o (rw at_write at (inv.in_phase i)) in
        request t i _ _ version spec inv change tt
          (Holds-won _ t.clock i now _ (write-leader api (electors i) now o t.store))
          (λ j at n lt own.
            Owned-write api (electors i) (electors j) now at o t.store own seen (distinct j i n)
              (config.named j) (omega (arith, past, lt)))
    Step-Inv {t} (plan i l m got planned) inv =
        let (mine, version) = released (electors i) t.clock l m planned in
        turn t i _ inv (Seen-get api t.store l got, mine, version) (inv.holds i)
    Step-Inv {t} (drop i l m at_release) inv =
        let (seen, mine, version) = rw at_release at (inv.in_phase i) in
        request t i _ _ _ _ inv (replace-Change api m t.store) tt tt (λ j at n lt own.
          Owned-release api m t.store (electors i) (electors j) at l own seen version mine
            (distinct j i n))

    pub Reach-Inv : {t : System S} → Reach api electors t → Inv t
    Reach-Inv (start s clock) = record { in_phase = λ i. tt; holds = λ i. tt }
    Reach-Inv (later r st) = Step-Inv st (Reach-Inv r)
