-- ===== src/Service/Create/Quotas.antt =====
-- What a creation leaves within the quotas of its owner.
use treadstone.Prelude.{
  ℕ, ◌+◌, ◌≤◌, ◌≡◌, ◌≢◌, ◌∙◌, ap, refl, Bool, true, false, none, some, List, ◌&&◌, not, sym, subst,
  arith, Bool-cases, inl, inr, ◌⊎◌, if◌then◌else◌,
}
use treadstone.Sandbox.{Sandbox, live_disk}
use treadstone.Metering.Model.{Tables, Env, UserPlan, Result, ok, err}
use treadstone.Metering.Plans.{plan_of}
use treadstone.Metering.Storage.{
  active_ledger, record_storage_allocation, get_current_storage_used, get_extra_storage_quota,
}
use treadstone.Metering.Quota.{count_running_sandboxes}
use treadstone.Metering.Quota.Admission.{Admits, enforce_create-Admits, allocated-sum}
use treadstone.Service.{ServiceError, returned, raised, Switches, failed}
use treadstone.Service.Create.{
  Request, CreateAnswers, Created, new_row, record_metering, settled, provision_k8s, persisted,
  create_checks, create, requested_gib, provision_message, Provision, provisioned, template_missing,
  provision_failed,
}
use treadstone.Service.Create.Outcome.{create_checks-keeps}

-- The storage is booked with its size, or not at all.
record_metering-used :
    (env : Env) (switches : Switches) (ledger_answers : Bool) (r : Request) (s : Sandbox)
    (t : Tables)
    → active_ledger s.id t.ledger ≡ none
    → (get_current_storage_used r.owner_id (record_metering env switches ledger_answers r s t)
        ≤ get_current_storage_used r.owner_id t + r.storage_size)
      × (s.persist ≡ false → record_metering env switches ledger_answers r s t ≡ t)
unfolding record_metering record_storage_allocation
record_metering-used env switches ledger_answers r s t missing =
    let sum = allocated-sum env r.owner_id s.id r.storage_size live_disk t missing in
    (ground (arith, missing, sum), λ volatile. ground (arith, volatile))

raised_ne_returned : {e : ServiceError} {s : Sandbox} → raised e ≢ returned s
raised_ne_returned h = cc

module _ (env : Env) (switches : Switches) (a : CreateAnswers) (r : Request) (rows : List Sandbox)
    (t : Tables) (plan : UserPlan) where
  -- If the creation answers a row, the owner's running sandboxes are within the plan's limit, and
  -- what the owner holds is within the quota, or as before.
  abbrev Fits : Created → Type 0
  Fits c =
      (s : Sandbox)
      → c.outcome ≡ returned s
      → (count_running_sandboxes r.owner_id c.rows ≤ plan.max_concurrent_running)
        × (r.persist ≡ true
            → get_current_storage_used r.owner_id c.tables
              ≤ plan.storage_capacity_limit_gib + get_extra_storage_quota env r.owner_id t)
        × (r.persist ≡ false
            → get_current_storage_used r.owner_id c.tables ≡ get_current_storage_used r.owner_id t)

  held_within :
      (persist : Bool) {held quota before : ℕ}
      → (persist ≡ true → held ≤ quota)
      → (persist ≡ false → held ≡ before)
      → held ≤ (if persist then quota else before)
  held_within true h h' = h refl
  held_within false h h' = ground (arith, h' refl)

  storage_held :
      (size used quota : ℕ) → (some size ≡ none) ⊎ (used + size ≤ quota) → used + size ≤ quota
  storage_held size used quota (inl h) = cc
  storage_held size used quota (inr h) = h

  settled-Fits :
      (s : Sandbox)
      → s.persist ≡ r.persist
      → active_ledger s.id t.ledger ≡ none
      → Admits env rows r.owner_id r.template (requested_gib r) r.auto_stop_interval t plan
      → Fits (settled env switches a.ledger_answers r s rows t)
  settled-Fits s same missing admitted s' h =
      let (booked, volatile) = record_metering-used env switches a.ledger_answers r s t missing in
      (
        ground (arith, admitted.running),
        λ persists.
            let size : requested_gib r ≡ some r.storage_size = rw persists refl in
            let held = storage_held r.storage_size _ _ (rw size at admitted.storage) in
            omega (arith, booked, held),
        λ gone. ap (get_current_storage_used r.owner_id) (volatile (same ∙ gone)),
      )

  refused-Fits : (c : Created) {e : ServiceError} → c.outcome ≡ raised e → Fits c
  refused-Fits c h s h' = absurd (raised_ne_returned (sym h ∙ h'))

  provision_k8s-Fits :
      (p : Provision) (s : Sandbox)
      → s.persist ≡ r.persist
      → active_ledger s.id t.ledger ≡ none
      → Admits env rows r.owner_id r.template (requested_gib r) r.auto_stop_interval t plan
      → Fits (provision_k8s env switches a.ledger_answers p r s rows t)
  unfolding provision_k8s
  provision_k8s-Fits provisioned s same missing admitted = settled-Fits s same missing admitted
  provision_k8s-Fits template_missing s same missing admitted = refused-Fits _ refl
  provision_k8s-Fits provision_failed s same missing admitted =
      settled-Fits (failed (provision_message s.persist) s) same missing admitted

  persisted-Fits :
      (checked : Result ℕ)
      → active_ledger a.new_id t.ledger ≡ none
      → ((n : ℕ)
          → checked ≡ ok n
          → Admits env rows r.owner_id r.template (requested_gib r) r.auto_stop_interval t plan)
      → Fits (persisted env switches a r rows t (checked, t))
  persisted-Fits (err e) missing admits = refused-Fits _ refl
  persisted-Fits (ok n) missing admits = elim (Bool-cases (r.persist && not a.storage_class)) [
    | inl h ↦ rw h (refused-Fits _ refl)
    | inr h ↦ elim (Bool-cases a.name_taken) [
      | inl taken ↦ rw (h, taken) (refused-Fits _ refl)
      | inr free ↦
          rw (h, free)
            (provision_k8s-Fits a.provision (new_row env a r) refl missing (admits n refl))
    ]
  ]

  create-Fits :
      switches.metered && switches.enforced ≡ true
      → plan_of r.owner_id t.plans ≡ some plan
      → active_ledger a.new_id t.ledger ≡ none
      → Fits (create env switches a r rows t)
  unfolding create
  create-Fits on found missing = elim (Bool-cases (r.persist && not a.template_found)) [
    | inl gone ↦ rw gone (refused-Fits _ refl)
    | inr there ↦ elim (Bool-cases (r.persist && not a.size_allowed)) [
      | inl refused' ↦ rw (there, refused') (refused-Fits _ refl)
      | inr allowed ↦
          let checked = create_checks env switches r rows t in
          let same : checked ≡ (checked.0, t) =
            ap (λ x. (checked.0, x)) (create_checks-keeps env switches a r rows t plan found) in
          let run : create env switches a r rows t
              ≡ persisted env switches a r rows t (checked.0, t) =
            rw (there, allowed) (ap (persisted env switches a r rows t) same) in
          subst Fits (sym run) (
            persisted-Fits checked.0 missing (λ n h.
              enforce_create-Admits env rows r.owner_id r.template t plan (requested_gib r)
                r.auto_stop_interval found (rw on at h)))
    ]
  ]

  -- Where the quotas are enforced, a creation by a user who has a plan, under an id that holds no
  -- storage, that answers a row leaves the user's running sandboxes, the new one included, within
  -- the plan's limit. What the user then holds in storage is within the quota if the sandbox is
  -- persistent, and at most what it was otherwise.
  pub create-within_quotas :
      {s : Sandbox}
      → switches.metered && switches.enforced ≡ true
      → plan_of r.owner_id t.plans ≡ some plan
      → active_ledger a.new_id t.ledger ≡ none
      → (create env switches a r rows t).outcome ≡ returned s
      → (count_running_sandboxes r.owner_id (create env switches a r rows t).rows
          ≤ plan.max_concurrent_running)
        × (get_current_storage_used r.owner_id (create env switches a r rows t).tables ≤ (
            if r.persist
            then plan.storage_capacity_limit_gib + get_extra_storage_quota env r.owner_id t
            else get_current_storage_used r.owner_id t))
  create-within_quotas on found missing answered =
      let fits = create-Fits on found missing _ answered in
      (fits.0, held_within r.persist fits.1 fits.2)
