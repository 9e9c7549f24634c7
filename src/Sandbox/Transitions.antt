-- ===== src/Sandbox/Transitions.antt =====
-- What the table of transitions allows in several steps.
use treadstone.Prelude.{◌≡◌, refl, true, false, arith, ◌⊎◌, inl, inr}
use treadstone.Sandbox.{
  SandboxStatus, creating, ready, stopped, cold, error, deleting, deleted, is_valid_transition,
}

-- The statuses that follow a status, along `VALID_TRANSITIONS`.
pub data Reaches : SandboxStatus → SandboxStatus → Type 0 where
  here : (s : SandboxStatus) → Reaches s s
  step :
      (s t : SandboxStatus) {u : SandboxStatus}
      → is_valid_transition s t ≡ true
      → Reaches t u
      → Reaches s u

-- A sandbox can be deleted from every status, through `deleting`.
Reaches-deleted : (s : SandboxStatus) → Reaches s deleted
unfolding is_valid_transition
Reaches-deleted SandboxStatus.creating =
    step creating deleting refl (step deleting deleted refl (here deleted))
Reaches-deleted SandboxStatus.ready =
    step ready deleting refl (step deleting deleted refl (here deleted))
Reaches-deleted SandboxStatus.stopped =
    step stopped deleting refl (step deleting deleted refl (here deleted))
Reaches-deleted SandboxStatus.cold =
    step cold deleting refl (step deleting deleted refl (here deleted))
Reaches-deleted SandboxStatus.error =
    step error deleting refl (step deleting deleted refl (here deleted))
Reaches-deleted SandboxStatus.deleting = step deleting deleted refl (here deleted)
Reaches-deleted SandboxStatus.deleted = here deleted

pub only_deleted : (t : SandboxStatus) → is_valid_transition deleting t ≡ true → t ≡ deleted
unfolding is_valid_transition
only_deleted t h = ground (arith, h)

terminal : (t : SandboxStatus) → is_valid_transition deleted t ≡ false
unfolding is_valid_transition
terminal t = ground arith

deleted_stays : {s t : SandboxStatus} → Reaches s t → s ≡ deleted → t ≡ deleted
deleted_stays (here s) e = e
deleted_stays (step s t v r) e = ground (arith, v, e, terminal t)

-- A sandbox that is being deleted is never anything else again but deleted.
Reaches-deleting :
    {s t : SandboxStatus} → Reaches s t → s ≡ deleting → (t ≡ deleting) ⊎ (t ≡ deleted)
Reaches-deleting (here s) e = inl e
Reaches-deleting (step s t v r) e = inr (deleted_stays r (only_deleted t (rw (← e) v)))
