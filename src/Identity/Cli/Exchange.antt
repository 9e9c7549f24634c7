-- ===== src/Identity/Cli/Exchange.antt =====
-- The exchange of a CLI login flow for a token, one request after the other.
use treadstone.Prelude.{
  ℕ, ◌+◌, ◌≤◌, ◌≡◌, ◌≢◌, refl, true, Option, none, some, List, [], ◌∷◌, ◌&&◌, ◌==◌, count, arith,
  Option-cases, inl, inr,
}
use treadstone.Identity.Model.{User, CliLoginFlow, used, Accounts, flow_used, ok, err}
use treadstone.Identity.Cli.{
  is_pending, is_approved, with_use, cli_flow_ttl, flow_of, user_of, approve_cli_flow,
  consume_cli_flow, verify_flow_secret, create_cli_flow, poll_cli_flow, approve_by_session,
  provider_session, exchange_cli_flow,
}
use treadstone.Identity.Cli.Race.{rows_of}

flow_of-consume :
    (flow_id : ℕ) (fs : List CliLoginFlow) {flow : CliLoginFlow}
    → flow_of flow_id fs ≡ some flow
    → is_approved flow.status ≡ true
    → flow_of flow_id (consume_cli_flow flow_id fs).1 ≡ some (with_use flow)
unfolding consume_cli_flow
flow_of-consume flow_id [] h a = cc
flow_of-consume flow_id (f ∷ fs) {flow} h a =
    ground (arith, h, a, flow_of-consume flow_id fs {flow = flow})

-- What a successful exchange has read.
exchange-approved :
    (hash : ℕ → ℕ) (now flow_id user : ℕ) (raw_secret : Option ℕ) (db : Accounts)
    {flow : CliLoginFlow}
    → flow_of flow_id db.flows ≡ some flow
    → (exchange_cli_flow hash now flow_id raw_secret db).0 ≡ ok user
    → (is_approved flow.status ≡ true)
      × (verify_flow_secret hash flow raw_secret ≡ ok tt)
      × ((exchange_cli_flow hash now flow_id raw_secret db).1
          ≡ record db { flows = (consume_cli_flow flow_id db.flows).1 })
unfolding exchange_cli_flow
exchange-approved hash now flow_id user raw_secret db found h = (
  ground (arith, found, rw found at h),
  ground (arith, found, rw found at h),
  ground (arith, found, rw found at h),
)

exchange-missing :
    (hash : ℕ → ℕ) (now flow_id user : ℕ) (raw_secret : Option ℕ) (db : Accounts)
    → flow_of flow_id db.flows ≡ none
    → (exchange_cli_flow hash now flow_id raw_secret db).0 ≢ ok user
unfolding exchange_cli_flow
exchange-missing hash now flow_id user raw_secret db missing h = ground (arith, rw missing at h)

-- A used flow, asked for with its secret.
used_flow :
    (hash : ℕ → ℕ) (now flow_id : ℕ) (raw_secret : Option ℕ) (db : Accounts) (flow : CliLoginFlow)
    → flow_of flow_id db.flows ≡ some (with_use flow)
    → verify_flow_secret hash flow raw_secret ≡ ok tt
    → (poll_cli_flow hash now flow_id raw_secret db ≡ ok used)
      × (exchange_cli_flow hash now flow_id raw_secret db ≡ (err flow_used, db))
unfolding exchange_cli_flow poll_cli_flow
used_flow hash now flow_id raw_secret db flow found verified =
    (rw (found, verified) refl, rw (found, verified) refl)

-- After a successful exchange the flow is used, as its poll shows, and a further exchange with the
-- same secret is refused as such and changes nothing, whatever the time.
exchange-again :
    (hash : ℕ → ℕ) (now now' flow_id user : ℕ) (raw_secret : Option ℕ) (db : Accounts)
    → (exchange_cli_flow hash now flow_id raw_secret db).0 ≡ ok user
    → let db' = (exchange_cli_flow hash now flow_id raw_secret db).1 in
      (poll_cli_flow hash now' flow_id raw_secret db' ≡ ok used)
      × (exchange_cli_flow hash now' flow_id raw_secret db' ≡ (err flow_used, db'))
exchange-again hash now now' flow_id user raw_secret db h =
    elim (Option-cases (flow_of flow_id db.flows)) [
      | inl missing ↦ absurd (exchange-missing hash now flow_id user raw_secret db missing h)
      | inr (flow, found) ↦
          let (a, v, after) = exchange-approved hash now flow_id user raw_secret db found h in
          let db' : Accounts = record db { flows = (consume_cli_flow flow_id db.flows).1 } in
          rw after (
            used_flow hash now' flow_id raw_secret db' flow
              (flow_of-consume flow_id db.flows found a) v)
    ]

pending_absent :
    (flow_id : ℕ) (fs : List CliLoginFlow)
    → rows_of flow_id fs ≡ 0
    → count (λ f. f.id == flow_id && is_pending f.status) fs ≡ 0
pending_absent flow_id [] h = refl
pending_absent flow_id (f ∷ fs) h = ground (arith, h, pending_absent flow_id fs)

approved_absent :
    (now flow_id user provider : ℕ) (fs : List CliLoginFlow)
    → rows_of flow_id fs ≡ 0
    → count
        (λ f. f.id == flow_id && is_approved f.status)
        (approve_cli_flow now flow_id user provider fs).1
      ≡ 0
unfolding approve_cli_flow
approved_absent now flow_id user provider [] h = refl
approved_absent now flow_id user provider (f ∷ fs) h =
    ground (arith, h, approved_absent now flow_id user provider fs)

-- A sign-in: a flow is created under an id that is free, with a secret that is not empty; a user
-- who is signed in approves it with the secret before it expires; then the exchange with the
-- secret, at whatever time, answers a token for that user, if the user is still there.
pub exchange-approve-create :
    (hash : ℕ → ℕ) (now now' now'' flow_id raw_secret : ℕ) (user : User) (db : Accounts)
    → raw_secret ≢ 0
    → rows_of flow_id db.flows ≡ 0
    → user_of (some user.id) db.users ≡ some user
    → now' ≤ now + cli_flow_ttl
    → let created = (create_cli_flow hash now flow_id raw_secret db).1 in
      let signed = approve_by_session hash now' (some user) flow_id (some raw_secret) created in
      (signed.0 ≡ ok tt)
      × ((exchange_cli_flow hash now'' flow_id (some raw_secret) signed.1).0 ≡ ok user.id)
unfolding create_cli_flow approve_by_session exchange_cli_flow approve_cli_flow consume_cli_flow
exchange-approve-create hash now now' now'' flow_id raw_secret user db filled fresh there early = (
  ground (arith, filled, early, pending_absent flow_id db.flows fresh),
  ground (
    arith,
    filled,
    early,
    there,
    pending_absent flow_id db.flows fresh,
    approved_absent now' flow_id user.id provider_session db.flows fresh,
  ),
)
