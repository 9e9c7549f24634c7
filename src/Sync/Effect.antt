-- ===== src/Sync/Effect.antt =====
-- What handling a row may do to its world, whether an event or a reconciliation brought it about,
-- and what that means for its status.
use treadstone.Prelude.{◌+◌, ◌≡◌, ◌≢◌, refl, true, ◌⊎◌, inl, inr, List, ◌∷◌, arith, sym, ◌∙◌}
use treadstone.Sandbox.{
  SandboxStatus, error, deleting, deleted, Sandbox, same_status, is_valid_transition,
}
use treadstone.Sandbox.Transitions.{only_deleted}
use treadstone.Sync.Rows.{World, Observer, StatusChange, notify_on_transition, notify_deleted}

pub same_status_iff : (s t : SandboxStatus) → same_status s t ≡ true → s ≡ t
same_status_iff s t h = ground (arith, h)

-- What a handler has done to a world, by what it recorded.
pub data Effect {M : Type 0} (observers : List (Observer M)) (seen : Sandbox) (w w' : World M)
    : Type 0 where
  -- no status change: the row keeps its status and version
  quiet :
      w'.row.status ≡ w.row.status
      → w'.row.version ≡ w.row.version
      → w'.audit ≡ w.audit
      → w'.observed ≡ w.observed
      → Effect observers seen w w'
  -- the version had not moved, and the status changed with it
  moved :
      (new : SandboxStatus)
      → w.row.version ≡ seen.version
      → w'.row.status ≡ new
      → w'.row.version ≡ seen.version + 1
      → (is_valid_transition seen.status new ≡ true)
        ⊎ (((seen.status ≡ error) × (new ≡ error)) ⊎ (seen.status ≡ deleted))
      → (e : StatusChange) → w'.audit ≡ e ∷ w.audit
      → (e.sandbox_id ≡ seen.id) × (e.to_status ≡ new)
      → (w'.observed ≡ notify_on_transition observers seen seen.status new w.observed)
        ⊎ ((new ≡ error) × (w'.observed ≡ notify_deleted observers seen w.observed))
      → Effect observers seen w w'
  -- a row that was being deleted is deleted
  gone :
      seen.status ≡ deleting
      → w'.row.status ≡ deleted
      → (e : StatusChange) → w'.audit ≡ e ∷ w.audit
      → (e.sandbox_id ≡ seen.id) × (e.to_status ≡ deleted)
      → w'.observed ≡ notify_deleted observers seen w.observed
      → Effect observers seen w w'

-- What other sessions may do to a row while a handler waits: whoever changes the status also moves
-- the version, but for the deletion of a row that is being deleted; and such a row is at most
-- deleted.
pub record IsDisciplined (seen now : Sandbox) : Type 0 where
  pub versioned :
      now.version ≡ seen.version
      → (now.status ≡ seen.status) ⊎ ((seen.status ≡ deleting) × (now.status ≡ deleted))
  pub final : seen.status ≡ deleting → (now.status ≡ deleting) ⊎ (now.status ≡ deleted)
  pub alive : seen.status ≢ deleted

abbrev pub KeepsOrSteps : SandboxStatus → SandboxStatus → Type 0
KeepsOrSteps s t = (t ≡ s) ⊎ (is_valid_transition s t ≡ true)

deleting_ne_error : deleting ≢ error
deleting_ne_error h = cc

pub Effect-KeepsOrSteps :
    {M : Type 0} {observers : List (Observer M)} {seen : Sandbox} {w w' : World M}
    → Effect observers seen w w'
    → IsDisciplined seen w.row
    → KeepsOrSteps w.row.status w'.row.status
Effect-KeepsOrSteps (quiet s v a o) d = inl s
Effect-KeepsOrSteps {seen} {w} (moved new v s v' valid e a t o) d = elim (d.versioned v) [
  | inl same ↦ elim valid [
    | inl ok ↦ inr (rw (same, s) ok)
    | inr (inl (was, is)) ↦ inl (s ∙ is ∙ sym was ∙ sym same)
    | inr (inr dead) ↦ absurd (d.alive dead)
  ]
  | inr (going, dead) ↦ elim valid [
    | inl ok ↦ inl (s ∙ only_deleted new (rw (← going) ok) ∙ sym dead)
    | inr (inl (was, is)) ↦ absurd (deleting_ne_error (sym going ∙ was))
    | inr (inr gone_before) ↦ absurd (d.alive gone_before)
  ]
]
Effect-KeepsOrSteps (gone was s e a t o) d = elim (d.final was) [
  | inl deleting_still ↦ inr (rw (deleting_still, s) (unfold is_valid_transition in refl))
  | inr deleted_already ↦ inl (s ∙ sym deleted_already)
]

pub Effect-lost :
    {M : Type 0} {observers : List (Observer M)} {seen : Sandbox} {w w' : World M}
    → Effect observers seen w w'
    → w.row.version ≢ seen.version
    → seen.status ≢ deleting
    → (w'.row.status ≡ w.row.status)
      × (w'.row.version ≡ w.row.version)
      × (w'.audit ≡ w.audit)
      × (w'.observed ≡ w.observed)
Effect-lost (quiet s v a o) n d = (s, v, a, o)
Effect-lost (moved new v s v' valid e a t o) n d = absurd (n v)
Effect-lost (gone was s e a t o) n d = absurd (d was)

pub Effect-recorded :
    {M : Type 0} {observers : List (Observer M)} {seen : Sandbox} {w w' : World M}
    → Effect observers seen w w'
    → w'.row.status ≢ w.row.status
    → (e : StatusChange) × (w'.audit ≡ e ∷ w.audit)
      × (e.sandbox_id ≡ seen.id)
      × (e.to_status ≡ w'.row.status)
Effect-recorded (quiet s v a o) n = absurd (n s)
Effect-recorded (moved new v s v' valid e a t o) n = (e, a, t.0, t.1 ∙ sym s)
Effect-recorded (gone was s e a t o) n = (e, a, t.0, t.1 ∙ sym s)
