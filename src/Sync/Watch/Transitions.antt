-- ===== src/Sync/Watch/Transitions.antt =====
-- Which status changes a watch event can make, and what it records of them.
use Prim.Native.String.{String}
use treadstone.Prelude.{
  ℕ, ◌+◌, ◌≡◌, ◌≢◌, refl, Bool, true, false, ◌⊎◌, inl, inr, Option, none, some, ◌∷◌, arith,
  Bool-cases, Option-cases, sym, ◌∙◌,
}
use treadstone.Sandbox.{
  SandboxStatus, cold, error, deleting, deleted, Sandbox, same_status, is_valid_transition,
}
use treadstone.Sync.Resource.{Resource}
use treadstone.Sync.Derive.{derive_status}
use treadstone.Sync.Rows.{SyncEnv, World, StatusChange, optimistic_update, suppress_status_sync}
use treadstone.Sync.Watch.{
  EventType, added, modified, removed, is_snapshotting, commit_metadata, change_to, handle_row,
  handle_deleted, flushed,
}
use treadstone.Sync.Effect.{
  Effect, quiet, moved, gone, same_status_iff, Effect-lost, Effect-recorded,
}

module _ {M : Type 0} (env : SyncEnv M) (cr : Resource) (seen : Sandbox) (w : World M) where
  pub optimistic_update-some :
      (row row' : Sandbox) (v : ℕ) (new : SandboxStatus) (rv message : Option String)
      → optimistic_update row v new rv message env.now ≡ some row'
      → (row.version ≡ v) × (row'.status ≡ new) × (row'.version ≡ v + 1)
  unfolding optimistic_update
  optimistic_update-some row row' v new rv message h = ground (arith, h)

  pub flushed_keeps :
      (name fqdn : Option ℕ) (row : Sandbox)
      → ((flushed seen name fqdn row).status ≡ row.status)
        × ((flushed seen name fqdn row).version ≡ row.version)
  unfolding flushed
  flushed_keeps name fqdn row = ground arith

  metadata-Effect :
      (synced dirty : Bool) (rv : Option String) (row : Sandbox)
      → row.status ≡ w.row.status
      → row.version ≡ w.row.version
      → Effect env.observers seen w (commit_metadata env synced dirty rv row w)
  unfolding commit_metadata
  metadata-Effect true dirty rv row s v = quiet s v refl refl
  metadata-Effect false true rv row s v = quiet s v refl refl
  metadata-Effect false false rv row s v = quiet refl refl refl refl

  change_to-Effect :
      (new : SandboxStatus) (message : String)
      → Effect env.observers seen w (change_to env new message cr seen w)
  unfolding change_to
  change_to-Effect new message =
      let row = flushed seen cr.name cr.service_fqdn w.row in
      let (s, v) = flushed_keeps cr.name cr.service_fqdn w.row in
      elim (Bool-cases (suppress_status_sync seen)) [
        | inl pending ↦ rw pending (metadata-Effect _ _ _ row s v)
        | inr free ↦ elim (Bool-cases (same_status seen.status new)) [
          | inl same ↦ rw (free, same) (metadata-Effect _ _ _ row s v)
          | inr differ ↦ elim (Bool-cases (is_valid_transition seen.status new)) [
            | inr invalid ↦ rw (free, differ, invalid) (quiet refl refl refl refl)
            | inl valid ↦
                elim (Option-cases (
                  optimistic_update row seen.version new cr.resource_version (some message)
                    env.now)) [
                      | inl lost ↦ rw (free, differ, valid, lost) (quiet refl refl refl refl)
                      | inr (row', won) ↦
                          let (same_v, new_s, new_v) =
                            optimistic_update-some row row' seen.version new cr.resource_version
                              (some message) won in
                          rw (free, differ, valid, won)
                            (moved new (sym v ∙ same_v) new_s new_v (inl valid) _ refl (refl, refl)
                              (inl refl))
                    ]
          ]
        ]
      ]

  error_allowed :
      (s : SandboxStatus)
      → same_status s cold ≡ false
      → same_status s deleting ≡ false
      → (is_valid_transition s error ≡ true) ⊎ (((s ≡ error) × (error ≡ error)) ⊎ (s ≡ deleted))
  unfolding is_valid_transition
  error_allowed s c d = ground (arith, c, d)

  deleted-Effect : Effect env.observers seen w (handle_deleted env cr seen w)
  unfolding handle_deleted
  deleted-Effect = elim (Bool-cases (is_snapshotting seen.pending_operation)) [
    | inl p ↦ rw p (quiet refl refl refl refl)
    | inr p ↦ elim (Bool-cases (same_status seen.status cold)) [
      | inl is_cold ↦ rw (p, is_cold) (quiet refl refl refl refl)
      | inr warm ↦ elim (Bool-cases (same_status seen.status deleting)) [
        | inl going ↦
            rw (p, warm, going)
              (gone (same_status_iff seen.status deleting going) refl _ refl (refl, refl) refl)
        | inr staying ↦
            elim (Option-cases
              (optimistic_update w.row seen.version error cr.resource_version none env.now)) [
                | inl lost ↦ rw (p, warm, staying, lost) (quiet refl refl refl refl)
                | inr (row', won) ↦
                    let (same_v, new_s, new_v) =
                      optimistic_update-some w.row row' seen.version error cr.resource_version none
                        won in
                    rw (p, warm, staying, won)
                      (moved error same_v new_s new_v (error_allowed seen.status warm staying) _
                        refl (refl, refl) (inr (refl, refl)))
              ]
      ]
    ]
  ]

  pub handle_row-Effect :
      (event : EventType) → Effect env.observers seen w (handle_row env event cr seen w)
  unfolding handle_row
  handle_row-Effect removed = deleted-Effect
  handle_row-Effect added = change_to-Effect (derive_status cr).0 (derive_status cr).1
  handle_row-Effect modified = change_to-Effect (derive_status cr).0 (derive_status cr).1
  handle_row-Effect EventType.other = quiet refl refl refl refl

-- The optimistic lock: if the row's version has moved since it was read, and the row that was read was
-- not being deleted, an event commits no change of its status or its version, no audit event, and
-- nothing that an observer wrote. An observer may have been told of a deletion by then.
pub handle_row-lost :
    {M : Type 0} (env : SyncEnv M) (event : EventType) (cr : Resource) (seen : Sandbox)
    (w : World M)
    → w.row.version ≢ seen.version
    → seen.status ≢ deleting
    → ((handle_row env event cr seen w).row.status ≡ w.row.status)
      × ((handle_row env event cr seen w).row.version ≡ w.row.version)
      × ((handle_row env event cr seen w).audit ≡ w.audit)
      × ((handle_row env event cr seen w).observed ≡ w.observed)
handle_row-lost env event cr seen w = Effect-lost (handle_row-Effect env cr seen w event)

-- Every change of a status by a watch event leaves one audit event, which names the sandbox and its
-- new status.
pub handle_row-recorded :
    {M : Type 0} (env : SyncEnv M) (event : EventType) (cr : Resource) (seen : Sandbox)
    (w : World M)
    → (handle_row env event cr seen w).row.status ≢ w.row.status
    → (e : StatusChange) × ((handle_row env event cr seen w).audit ≡ e ∷ w.audit)
      × (e.sandbox_id ≡ seen.id)
      × (e.to_status ≡ (handle_row env event cr seen w).row.status)
handle_row-recorded env event cr seen w = Effect-recorded (handle_row-Effect env cr seen w event)
