-- ===== src/Sandbox/Tests.antt =====
-- The table of transitions at concrete statuses.
use treadstone.Prelude.{refl}
use treadstone.Sandbox.{deleting, deleted, is_valid_transition}
use treadstone.Sandbox.Transitions.{Reaches, here, step}

deleting_to_deleted : Reaches deleting deleted
unfolding is_valid_transition
deleting_to_deleted = step deleting deleted refl (here deleted)
