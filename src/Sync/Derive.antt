-- ===== src/Sync/Derive.antt =====
-- `derive_status_from_sandbox_cr`
pub mod Ready
use Prim.Native.String.{String}
use text.Mathlib.Text.{◌==◌ as str_eq}
use treadstone.Prelude.{ℕ, Bool, true, false, Option, none, some, List, [], ◌∷◌, if◌then◌else◌}
use treadstone.Sandbox.{SandboxStatus, creating, ready, stopped, error}
use treadstone.Sync.Resource.{Condition, Resource, get_or, text_is}

-- `condition_by_type.get(kind)`: of two conditions of a type the later one counts.
unfoldable pub condition_of : String → List Condition → Option Condition
condition_of kind [] = none
condition_of kind (c ∷ cs) =
    let rest = condition_of kind cs in
    elim rest [ some d ↦ some d | none ↦ if text_is c.type kind then some c else none ]

abbrev pub status_is_true : Option Condition → Bool
status_is_true none = false
status_is_true (some c) = text_is c.status "True"

abbrev absent_or_true : Option Condition → Bool
absent_or_true none = true
absent_or_true (some c) = text_is c.status "True"

abbrev pub reason_is : Option Condition → String → Bool
reason_is none r = false
reason_is (some c) r = text_is c.reason r

abbrev message_or : Option Condition → String → String
message_or none d = d
message_or (some c) d = get_or c.message d

-- `message or default`
abbrev pub nonempty_or : String → String → String
nonempty_or s d = if str_eq s "" then d else s

-- The tests from the Ready condition on.
unfoldable pub derive_from_ready : Option Condition → SandboxStatus × String
derive_from_ready none = (creating, "No Ready condition yet")
derive_from_ready (some c) =
    let message = get_or c.message "" in
    if text_is c.reason "SandboxExpired"
    then (stopped, "Sandbox expired")
    else if text_is c.reason "SandboxSuspended"
    then (stopped, nonempty_or message "Sandbox is suspended")
    else if text_is c.reason "ReconcilerError"
    then (error, message)
    else if text_is c.status "True"
    then (ready, message)
    else if text_is c.reason "DependenciesNotReady"
    then (creating, message)
    else (creating, message)

abbrev is_suspended_mode : Resource → Bool
is_suspended_mode cr = str_eq (get_or cr.operating_mode "Running") "Suspended"

-- From the Finished condition on.
unfoldable pub derive_from_finished : Option Condition → Option Condition → SandboxStatus × String
unfolding derive_from_ready
derive_from_finished finished_cond ready_cond =
    if status_is_true finished_cond
    then (stopped, message_or finished_cond "Sandbox finished")
    else derive_from_ready ready_cond

unfoldable pub derive_status : Resource → SandboxStatus × String
unfolding condition_of derive_from_finished
derive_status cr =
    let ready_cond = condition_of "Ready" cr.conditions in
    let suspended_cond = condition_of "Suspended" cr.conditions in
    let finished_cond = condition_of "Finished" cr.conditions in
    if is_suspended_mode cr
    then (if absent_or_true suspended_cond
        then (stopped, "Sandbox is suspended")
        else if reason_is ready_cond "SandboxSuspended"
        then (stopped, message_or ready_cond "Sandbox is suspending")
        else derive_from_finished finished_cond ready_cond)
    else derive_from_finished finished_cond ready_cond
