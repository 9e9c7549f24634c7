-- ===== src/Leader/Race/Invariant/Writes.antt =====
-- What a write does to a lease that some replica has seen, and to a lease that a leader owns.
use treadstone.Prelude.{
  ℕ, ◌+◌, ◌*◌, ◌≤◌, ◌<◌, ◌≡◌, ◌≢◌, refl, ap, sym, ◌∙◌, ◌⊎◌, inl, inr, Option, none, some, arith,
  ◌==◌, Bool-cases, some_inj,
}
use treadstone.Leader.Lease.{Lease, LeaseSpec, Manifest, Reply, stored, found}
use treadstone.Leader.Api.{LeaseApi, Kept, Stored, Matched}
use treadstone.Leader.Elector.{
  Elector, leader, Plan, follow, create, renew, take_over, creation, renewal, takeover, decide,
  write, lease_is_expired, after_create, after_replace,
}

module _ {S : Type 0} (api : LeaseApi S) where
  -- The version of a lease that was read never comes back with another content.
  pub record Seen (s : S) (l : Lease) : Type 0 where
    pub positive : 0 < l.resource_version
    pub known : l.resource_version ≤ api.revision s
    pub unique :
        (l' : Lease) → api.current s ≡ some l' → l'.resource_version ≡ l.resource_version → l' ≡ l

  -- The lease names the replica and carries the time of its last renewal.
  pub record Owned (s : S) (e : Elector) (at : ℕ) : Type 0 where
    pub lease : Lease
    pub present : api.current s ≡ some lease
    pub holder : lease.spec.holder_identity ≡ e.holder_identity
    pub renewed : lease.spec.renew_time ≡ some at
    pub lasts : lease.spec.lease_duration_seconds ≡ some e.lease_duration_seconds

  -- A write stored `spec`, over no lease or over the lease of some version.
  pub record Wrote (s s' : S) (version : ℕ) (spec : LeaseSpec) : Type 0 where
    pub was : (api.current s ≡ none) ⊎ Matched (api.current s) version
    pub stored : Stored (api.current s') (api.revision s) (api.revision s') spec

  abbrev pub Change : S → S → ℕ → LeaseSpec → Type 0
  Change s s' version spec =
      Kept (api.current s) (api.current s') (api.revision s) (api.revision s')
      ⊎ Wrote s s' version spec

  pub Seen-get : (s : S) (l : Lease) → api.get_lease s ≡ found (some l) → Seen s l
  Seen-get s l h =
      let now = api.get_current s (some l) h in
      let (positive, known) = api.versions s l (sym now) in
      record { positive = positive; known = known; unique = λ l' p _. some_inj (sym p ∙ sym now) }

  pub Seen-Change :
      (s s' : S) (version : ℕ) (spec : LeaseSpec) (l : Lease)
      → Change s s' version spec
      → Seen s l
      → Seen s' l
  Seen-Change s s' version spec l (inl kept) seen = record {
    positive = seen.positive;
    known = omega (arith, seen.known, kept.later);
    unique = λ l' p. seen.unique l' (sym kept.same ∙ p);
  }
  Seen-Change s s' version spec l (inr wrote) seen = record {
    positive = seen.positive;
    known = omega (arith, seen.known, wrote.stored.fresh);
    unique = λ l' p q. absurd (
        omega (
          arith,
          ap (λ (x : Lease). x.resource_version) (some_inj (sym p ∙ wrote.stored.value)),
          seen.known,
          wrote.stored.fresh,
        ));
  }

  pub replace-Change :
      (m : Manifest) (s : S) → Change s (api.replace_lease m s).1 m.resource_version m.spec
  replace-Change m s = elim (api.replace_effect m s) [
    | inl kept ↦ inl kept
    | inr (matched, st) ↦ inr (record { was = inr matched; stored = st })
  ]

  create-Change :
      (m : Manifest) (s : S) → Change s (api.create_lease m s).1 m.resource_version m.spec
  create-Change m s = elim (api.create_effect m s) [
    | inl kept ↦ inl kept
    | inr (nothing, st) ↦ inr (record { was = inl nothing; stored = st })
  ]

  abbrev manifest_of : Plan → Manifest → Manifest
  manifest_of follow d = d
  manifest_of (create m) d = m
  manifest_of (renew m) d = m
  manifest_of (take_over m) d = m

  plan-Change :
      (p : Plan) (d : Manifest) (s : S)
      → Change s (write api p s).1 (manifest_of p d).resource_version (manifest_of p d).spec
  unfolding write
  plan-Change follow d s = inl (record { same = refl; later = omega arith })
  plan-Change (create m) d s = create-Change m s
  plan-Change (renew m) d s = replace-Change m s
  plan-Change (take_over m) d s = replace-Change m s

  leader-stored : (r : Reply) → after_replace r ≡ leader → r ≡ stored
  leader-stored r h = ground (arith, h)

  leader-created : (r : Reply) → after_create r ≡ leader → r ≡ stored
  leader-created r h = ground (arith, h)

  plan-leader :
      (p : Plan) (d : Manifest) (s : S)
      → (write api p s).0 ≡ leader
      → Stored
          (api.current (write api p s).1)
          (api.revision s)
          (api.revision (write api p s).1)
          (manifest_of p d).spec
  unfolding write
  plan-leader follow d s h = cc
  plan-leader (create m) d s h = (api.create_stored m s (leader-created _ h)).1
  plan-leader (renew m) d s h = (api.replace_stored m s (leader-stored _ h)).1
  plan-leader (take_over m) d s h = (api.replace_stored m s (leader-stored _ h)).1

  -- Every manifest that an attempt sends names the replica and the time that it read.
  decide-manifest :
      (e : Elector) (now : ℕ) (o : Option Lease)
      → ((manifest_of (decide e now o) (creation e now)).spec.holder_identity ≡ e.holder_identity)
        × ((manifest_of (decide e now o) (creation e now)).spec.renew_time ≡ some now)
        × ((manifest_of (decide e now o) (creation e now)).spec.lease_duration_seconds
            ≡ some e.lease_duration_seconds)
  unfolding decide
  decide-manifest e now o = ground arith

  -- An attempt that answers LEADER has just renewed the lease in its own name.
  pub write-leader :
      (e : Elector) (now : ℕ) (o : Option Lease) (s : S)
      → (write api (decide e now o) s).0 ≡ leader
      → Owned (write api (decide e now o) s).1 e now
  write-leader e now o s h =
      let st = plan-leader (decide e now o) (creation e now) s h in
      let (holder, renewed, lasts) = decide-manifest e now o in
      record { lease = _; present = st.value; holder = holder; renewed = renewed; lasts = lasts }

  Owned-same :
      (s s' : S) (k : Elector) (at : ℕ)
      → api.current s' ≡ api.current s
      → Owned s k at
      → Owned s' k at
  Owned-same s s' k at same own = record {
    lease = own.lease;
    present = same ∙ own.present;
    holder = own.holder;
    renewed = own.renewed;
    lasts = own.lasts;
  }

  -- The owner's lease, on which a write under the version of `l` can change only `l` itself.
  replace-Owned :
      (m : Manifest) (s : S) (k : Elector) (at : ℕ) (l : Lease)
      → Owned s k at
      → Seen s l
      → m.resource_version ≡ l.resource_version
      → (l.spec.holder_identity ≡ k.holder_identity
          → l.spec.renew_time ≡ some at
          → l.spec.lease_duration_seconds ≡ some k.lease_duration_seconds
          → ⊥)
      → Owned (api.replace_lease m s).1 k at
  replace-Owned m s k at l own seen v other = elim (api.replace_effect m s) [
    | inl kept ↦ Owned-same s _ k at kept.same own
    | inr (matched, st) ↦
        let same = some_inj (sym own.present ∙ matched.present) in
        let version : own.lease.resource_version ≡ l.resource_version = omega (
          arith,
          v,
          seen.positive,
          ap (λ (x : Lease). x.resource_version) same,
          matched.same_version,
        ) in
        let e = seen.unique own.lease own.present version in
        absurd (other (rw e at own.holder) (rw e at own.renewed) (rw e at own.lasts))
  ]

  -- No other replica's attempt changes the lease before it expires.
  pub Owned-write :
      (e k : Elector) (now at : ℕ) (o : Option Lease) (s : S)
      → Owned s k at
      → ((l : Lease) → o ≡ some l → Seen s l)
      → k.holder_identity ≢ e.holder_identity
      → k.holder_identity ≢ 0
      → now < at + k.lease_duration_seconds * 1000000
      → Owned (write api (decide e now o) s).1 k at
  Owned-write e k now at none s own seen other named fresh =
      unfold decide write in
      elim (api.create_effect (creation e now) s) [
        | inl kept ↦ Owned-same s _ k at kept.same own
        | inr (nothing, st) ↦ cc (nothing, own.present)
      ]
  Owned-write e k now at (some l) s own seen other named fresh =
      elim (Bool-cases (l.spec.holder_identity == e.holder_identity)) [
        | inl mine ↦
            unfold decide write in
            rw mine (
              replace-Owned (renewal e now l) s k at l own (seen l refl) refl
                (λ h _ _. other (ground (arith, h, mine))))
        | inr theirs ↦ elim (Bool-cases (l.spec.holder_identity == 0)) [
          | inl free ↦
              unfold decide write in
              rw (theirs, free)
                (replace-Owned (takeover e now l) s k at l own (seen l refl) refl
                  (λ h _ _. named (ground (arith, h, free))))
          | inr taken ↦ elim (Bool-cases (lease_is_expired e l.spec now)) [
            | inl old ↦
                unfold decide write in
                rw (theirs, taken, old)
                  (replace-Owned (takeover e now l) s k at l own (seen l refl) refl
                    (λ h r d. unfold lease_is_expired in absurd (ground (arith, old, r, d, fresh))))
            | inr young ↦ unfold decide write in rw (theirs, taken, young) own
          ]
        ]
      ]

  pub Owned-release :
      (m : Manifest) (s : S) (e k : Elector) (at : ℕ) (l : Lease)
      → Owned s k at
      → Seen s l
      → m.resource_version ≡ l.resource_version
      → l.spec.holder_identity ≡ e.holder_identity
      → k.holder_identity ≢ e.holder_identity
      → Owned (api.replace_lease m s).1 k at
  Owned-release m s e k at l own seen v mine other =
      replace-Owned m s k at l own seen v (λ h _ _. other (sym h ∙ mine))

  pub write-Change :
      (e : Elector) (now : ℕ) (o : Option Lease) (s : S)
      → (version : ℕ) × (spec : LeaseSpec) × Change s (write api (decide e now o) s).1 version spec
  write-Change e now o s = (_, _, plan-Change (decide e now o) (creation e now) s)
