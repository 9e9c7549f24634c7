-- ===== src/Sync/Reconcile/Effects.antt =====
-- What reconciling a row can do, in the terms of a watch event.
use Prim.Native.String.{String}
use treadstone.Prelude.{
  ◌≡◌, ◌≢◌, refl, Bool, true, false, inl, inr, Option, none, some, [], if◌then◌else◌, arith,
  Bool-cases, Option-cases, ◌&&◌, not, sym, ◌∙◌,
}
use treadstone.Sandbox.{
  SandboxStatus, error, deleting, deleted, Sandbox, same_status, is_valid_transition,
}
use treadstone.Sync.Resource.{Resource, same_version, is_stale_snapshot}
use treadstone.Sync.Derive.{derive_status}
use treadstone.Sync.Rows.{SyncEnv, World, optimistic_update, suppress_status_sync}
use treadstone.Sync.Watch.{flushed}
use treadstone.Sync.Effect.{Effect, quiet, moved, gone, Effect-lost}
use treadstone.Sync.Watch.Transitions.{optimistic_update-some, flushed_keeps}
use treadstone.Sync.Reconcile.{
  MissingPolicy, delete, skip, warn_only, mark_error, cr_missing_policy, renamed, reconcile_missing,
  reconcile_to, reconcile_row, with_metadata,
}

-- A resource of which nothing is read.
abbrev nothing : Resource
nothing = record {
  name = none;
  namespace = none;
  resource_version = none;
  owner_references = [];
  operating_mode = none;
  conditions = [];
  service_fqdn = none;
}

module _ {M : Type 0} (env : SyncEnv M) (seen : Sandbox) (w : World M) where
  with_metadata-Effect :
      (known : Bool) (rv : Option String) (row : Sandbox)
      → row.status ≡ w.row.status
      → row.version ≡ w.row.version
      → Effect env.observers seen w (with_metadata env known rv row w)
  with_metadata-Effect true rv row s v = quiet s v refl refl
  with_metadata-Effect false rv row s v = quiet s v refl refl

  reconcile_to-Effect :
      (new : SandboxStatus) (message : String) (cr : Resource)
      → Effect env.observers seen w (reconcile_to env new message cr seen w)
  unfolding reconcile_to
  reconcile_to-Effect new message cr =
      let name = renamed seen cr.name in
      let row = flushed seen name cr.service_fqdn w.row in
      let (s, v) = flushed_keeps env cr seen w name cr.service_fqdn w.row in
      let known = same_version seen.k8s_resource_version cr.resource_version in
      let same = same_status new seen.status in
      elim (Bool-cases (suppress_status_sync seen)) [
        | inl pending ↦ rw pending (with_metadata-Effect known _ row s v)
        | inr free ↦ elim (Bool-cases (known && same)) [
          | inl settled ↦ rw (free, settled) (quiet s v refl refl)
          | inr behind ↦ elim (Bool-cases (not same && is_valid_transition seen.status new)) [
            | inr blocked ↦ rw (free, behind, blocked) (with_metadata-Effect known _ row s v)
            | inl steps ↦
                let attempt =
                  optimistic_update row seen.version new cr.resource_version (some message)
                    env.now in
                elim (Option-cases attempt) [
                  | inl lost ↦ rw (free, behind, steps, lost) (quiet s v refl refl)
                  | inr (row', won) ↦
                      let (same_v, new_s, new_v) =
                        optimistic_update-some env cr seen w row row' seen.version new
                          cr.resource_version (some message) won in
                      rw (free, behind, steps, won)
                        (moved new (sym v ∙ same_v) new_s new_v (inl (ground (arith, steps))) _ refl
                          (refl, refl) (inl refl))
                ]
          ]
        ]
      ]

  deleting_policy : (s : SandboxStatus) → cr_missing_policy s ≡ delete → s ≡ deleting
  unfolding cr_missing_policy
  deleting_policy s h = ground (arith, h)

  error_policy : (s : SandboxStatus) → cr_missing_policy s ≡ mark_error → s ≡ deleted
  unfolding cr_missing_policy
  error_policy s h = ground (arith, h)

  reconcile_missing-Effect :
      (policy : MissingPolicy)
      → cr_missing_policy seen.status ≡ policy
      → Effect env.observers seen w (reconcile_missing env policy seen w)
  unfolding reconcile_missing
  reconcile_missing-Effect delete h =
      gone (deleting_policy seen.status h) refl _ refl (refl, refl) refl
  reconcile_missing-Effect skip h = quiet refl refl refl refl
  reconcile_missing-Effect warn_only h = quiet refl refl refl refl
  reconcile_missing-Effect mark_error h =
      elim (Option-cases (optimistic_update w.row seen.version error none none env.now)) [
        | inl lost ↦ rw lost (quiet refl refl refl refl)
        | inr (row', won) ↦
            let (same_v, new_s, new_v) =
              optimistic_update-some env nothing seen w w.row row' seen.version error none none
                won in
            rw won (
              moved error same_v new_s new_v (inr (inr (error_policy seen.status h))) _ refl
                (refl, refl) (inl refl))
      ]

  pub reconcile_row-Effect :
      (cr : Option Resource) → Effect env.observers seen w (reconcile_row env cr seen w)
  unfolding reconcile_row
  reconcile_row-Effect none = reconcile_missing-Effect (cr_missing_policy seen.status) refl
  reconcile_row-Effect (some cr) =
      elim (Bool-cases (is_stale_snapshot cr.resource_version seen.k8s_resource_version)) [
        | inl stale ↦ rw stale (quiet refl refl refl refl)
        | inr fresh ↦ rw fresh (reconcile_to-Effect (derive_status cr).0 (derive_status cr).1 cr)
      ]

-- Reconciling a row whose version has moved since it was read, and that was not being deleted,
-- changes neither its status nor its version, records nothing and commits nothing that an observer
-- wrote.
reconcile_row-lost :
    {M : Type 0} (env : SyncEnv M) (cr : Option Resource) (seen : Sandbox) (w : World M)
    → w.row.version ≢ seen.version
    → seen.status ≢ deleting
    → ((reconcile_row env cr seen w).row.status ≡ w.row.status)
      × ((reconcile_row env cr seen w).row.version ≡ w.row.version)
      × ((reconcile_row env cr seen w).audit ≡ w.audit)
      × ((reconcile_row env cr seen w).observed ≡ w.observed)
reconcile_row-lost env cr seen w = Effect-lost (reconcile_row-Effect env seen w cr)

-- A resource that is missing from the list never changes the status of a row that is not being
-- deleted, and finishes the deletion of a row that is.
reconcile_row-missing :
    {M : Type 0} (env : SyncEnv M) (seen : Sandbox) (w : World M)
    → seen.status ≢ deleted
    → (reconcile_row env none seen w).row.status
      ≡ (if same_status seen.status deleting then deleted else w.row.status)
unfolding reconcile_row reconcile_missing cr_missing_policy
reconcile_row-missing env seen w alive = ground (arith, alive)
