-- ===== src/Service/Create/Outcome.antt =====
-- What a creation leaves behind.
use treadstone.Prelude.{
  ℕ, Bool, ◌≡◌, refl, not, ◌&&◌, some, List, ◌∷◌, arith, Bool-cases, inl, inr, ◌⊎◌, if◌then◌else◌,
  subst, sym, ap, Option-cases,
}
use treadstone.Sandbox.{Sandbox, creating, error, same_status}
use treadstone.Metering.Model.{Tables, Env, UserPlan, Result, ok, err}
use treadstone.Metering.Plans.{plan_of}
use treadstone.Metering.Storage.{active_count, active_ledger, record_storage_allocation, set_mode}
use treadstone.Metering.Storage.Rows.{active_ledger-some}
use treadstone.Metering.Quota.Checks.{enforce_create_lem}
use treadstone.Service.{CallResult, returned, raised, Switches, failed}
use treadstone.Service.Create.{
  Request, Provision, CreateAnswers, Created, new_row, record_metering, settled, provision_k8s,
  persisted, create_checks, create, requested_gib, provision_message, provisioned, template_missing,
  provision_failed,
}

-- The storage that is booked for a new row: that of a persistent sandbox that did not fail, if the
-- database takes it.
abbrev booked : Switches → Bool → Sandbox → ℕ
booked switches ledger_answers s =
    if ledger_answers && (switches.metered && (s.persist && not (same_status s.status error)))
    then 1
    else 0

-- A refused creation leaves no row; the other leaves one, and the storage that goes with it.
abbrev pub AsAnswered : Switches → Bool → ℕ → List Sandbox → Created → CallResult → Type 0
AsAnswered switches ledger_answers sandbox rows c (raised e) = c.rows ≡ rows
AsAnswered switches ledger_answers sandbox rows c (returned s) =
    (c.rows ≡ s ∷ rows)
    × ((s.id ≡ sandbox)
        × (((s.status ≡ creating) ⊎ (s.status ≡ error))
            × (active_count sandbox c.tables.ledger ≡ booked switches ledger_answers s)))

record_metering-count :
    (env : Env) (switches : Switches) (ledger_answers : Bool) (r : Request) (s : Sandbox)
    (t : Tables)
    → active_count s.id t.ledger ≡ 0
    → active_count s.id (record_metering env switches ledger_answers r s t).ledger
      ≡ booked switches ledger_answers s
unfolding record_metering record_storage_allocation set_mode
record_metering-count env switches ledger_answers r s t fresh =
    elim (Option-cases (active_ledger s.id t.ledger)) [
      | inl missing ↦ ground (arith, fresh, missing)
      | inr (l, found) ↦
          let one = active_ledger-some s.id t.ledger found in ground (arith, fresh, one)
    ]

settled-AsAnswered :
    (env : Env) (switches : Switches) (ledger_answers : Bool) (r : Request) (s : Sandbox)
    (rows : List Sandbox) (t : Tables)
    → active_count s.id t.ledger ≡ 0
    → (s.status ≡ creating) ⊎ (s.status ≡ error)
    → AsAnswered switches ledger_answers s.id rows
        (settled env switches ledger_answers r s rows t)
        (returned s)
settled-AsAnswered env switches ledger_answers r s rows t fresh status =
    (refl, (refl, (status, record_metering-count env switches ledger_answers r s t fresh)))

provision_k8s-AsAnswered :
    (env : Env) (switches : Switches) (ledger_answers : Bool) (p : Provision) (r : Request)
    (s : Sandbox) (rows : List Sandbox) (t : Tables)
    → active_count s.id t.ledger ≡ 0
    → s.status ≡ creating
    → let c = provision_k8s env switches ledger_answers p r s rows t in
      AsAnswered switches ledger_answers s.id rows c c.outcome
unfolding provision_k8s
provision_k8s-AsAnswered env switches ledger_answers provisioned r s rows t fresh h =
    settled-AsAnswered env switches ledger_answers r s rows t fresh (inl h)
provision_k8s-AsAnswered env switches ledger_answers template_missing r s rows t fresh h = refl
provision_k8s-AsAnswered env switches ledger_answers provision_failed r s rows t fresh h =
    settled-AsAnswered env switches ledger_answers r (failed (provision_message s.persist) s) rows t
      fresh (inr refl)

abbrev IsAnswered : Switches → Bool → ℕ → List Sandbox → Created → Type 0
IsAnswered switches ledger_answers sandbox rows c =
    AsAnswered switches ledger_answers sandbox rows c c.outcome

module _ (env : Env) (switches : Switches) (a : CreateAnswers) (r : Request) (rows : List Sandbox)
    (t : Tables) where
  persisted-IsAnswered :
      (checked : Result ℕ × Tables)
      → active_count a.new_id checked.1.ledger ≡ 0
      → IsAnswered switches a.ledger_answers a.new_id rows
          (persisted env switches a r rows t checked)
  persisted-IsAnswered (err e, t') fresh = refl
  persisted-IsAnswered (ok n, t') fresh = elim (Bool-cases (r.persist && not a.storage_class)) [
    | inl h ↦ rw h refl
    | inr h ↦ elim (Bool-cases a.name_taken) [
      | inl taken ↦ rw (h, taken) refl
      | inr free ↦
          rw (h, free)
            (provision_k8s-AsAnswered env switches a.ledger_answers a.provision r (new_row env a r)
              rows t' fresh refl)
    ]
  ]

  pub create_checks-keeps :
      (plan : UserPlan)
      → plan_of r.owner_id t.plans ≡ some plan
      → (create_checks env switches r rows t).1 ≡ t
  create_checks-keeps plan found = elim (Bool-cases (switches.metered && switches.enforced)) [
    | inr off ↦ rw off refl
    | inl on ↦ rw on (
        ap (λ (p : Result ℕ × Tables). p.1)
          (enforce_create_lem env rows r.owner_id r.template t plan found (requested_gib r)
            r.auto_stop_interval))
  ]

  -- A creation by a user who has a plan, under an id that holds no storage, either raises and leaves
  -- the rows of the sandboxes as they were, or answers the new row: then it is the one that was
  -- added, it has the new id, it is creating or in error, and one active ledger row goes with it if
  -- it is persistent, did not fail, metering is on and the database took the row, and none
  -- otherwise.
  pub create-AsAnswered :
      (plan : UserPlan)
      → plan_of r.owner_id t.plans ≡ some plan
      → active_count a.new_id t.ledger ≡ 0
      → let c = create env switches a r rows t in
        AsAnswered switches a.ledger_answers a.new_id rows c c.outcome
  unfolding create
  create-AsAnswered plan found fresh = elim (Bool-cases (r.persist && not a.template_found)) [
    | inl missing ↦ rw missing refl
    | inr there ↦ elim (Bool-cases (r.persist && not a.size_allowed)) [
      | inl refused' ↦ rw (there, refused') refl
      | inr allowed ↦
          let checked = create_checks env switches r rows t in
          let run : create env switches a r rows t ≡ persisted env switches a r rows t checked =
            rw (there, allowed) refl in
          subst (IsAnswered switches a.ledger_answers a.new_id rows) (sym run) (
            persisted-IsAnswered checked (
              subst (λ (x : Tables). active_count a.new_id x.ledger ≡ 0)
                (sym (create_checks-keeps plan found)) fresh))
    ]
  ]
