-- ===== src/Service/Start.antt =====
-- `SandboxService.start`.
use Prim.Native.String.{String}
use Prim.Native.String.{[] as nil, ◌∷◌ as cons}
use Prim.Native.Char.{Char, code}
use treadstone.Prelude.{
  ℕ, ◌+◌, Bool, true, false, Option, none, some, List, [], ◌∷◌, ◌&&◌, ◌||◌, not, leb, ◌==◌,
  if◌then◌else◌,
}
use treadstone.Sandbox.{
  SandboxStatus, creating, ready, stopped, cold, error, Sandbox, restoring, same_status, status_in,
  is_valid_transition,
}
use treadstone.Metering.Model.{Tables, Env, Result, ok, err, Action, pure, ◌>>◌}
use treadstone.Metering.Quota.{
  check_template_allowed, check_compute_quota, check_concurrent_limit,
  validate_auto_stop_interval_for_tier,
}
use treadstone.Sync.Resource.{Resource}
use treadstone.Sync.Derive.{derive_status}
use treadstone.Service.{
  invalid_transition, snapshot_backend_not_ready, refused, Call, Switches, Answers, refuse, commit,
  is_none, find_owned, on_found, failed,
}

-- `lower`, for ASCII
abbrev lower_code : Char → ℕ
lower_code c = if leb 65 (code c) && leb (code c) 90 then code c + 32 else code c

abbrev begins : String → String → Bool
begins nil s = true
begins (cons c p) nil = false
begins (cons c p) (cons d s) = code c == lower_code d && begins p s

-- `p in s.lower()`
unfoldable in_lower : String → String → Bool
in_lower p nil = begins p nil
in_lower p (cons c s) = let rest = in_lower p s in begins p (cons c s) || rest

-- A Ready condition whose message still tells of a sandbox that does not run.
unfoldable pub is_stale_message : String → Bool
unfolding in_lower
is_stale_message message = in_lower "does not exist" message || in_lower "suspended" message

-- The checks before a resume.
unfoldable enforce_start : Env → List Sandbox → Sandbox → Action ℕ
enforce_start env sandboxes s = do
  check_template_allowed env s.owner_id s.template
  check_compute_quota env s.owner_id
  check_concurrent_limit env sandboxes s.owner_id
  validate_auto_stop_interval_for_tier env s.owner_id s.auto_stop_interval

-- What the first commit of a resume writes.
abbrev resumed : Env → Sandbox → Sandbox
resumed env s = record s {
  status = creating;
  gmt_started = some env.now;
  gmt_last_active = some env.now;
  version = s.version + 1;
}

abbrev queued : Env → Sandbox → Sandbox
queued env s = record s {
  pending_operation = some restoring;
  gmt_started = some env.now;
  gmt_last_active = some env.now;
  status_message = some "Queued sandbox restore.";
  version = s.version + 1;
}

abbrev already_ready : Env → Resource → String → Sandbox → Sandbox
already_ready env cr message s = record s {
  status = ready;
  status_message = some message;
  version = s.version + 1;
  gmt_started = some env.now;
  k8s_resource_version = cr.resource_version;
}

abbrev restore : Env → Answers → Sandbox → Tables → Tables → Call
restore env a s t t' =
    if a.snapshot_class
    then commit (queued env s) (queued env s ∷ []) t'
    else refuse snapshot_backend_not_ready t

-- The resource is ready at once: the row need not wait for the loop.
abbrev fast_path : Env → Answers → Resource → SandboxStatus × String → Sandbox → Tables → Call
fast_path env a cr (actual_status, message) s t =
    if same_status actual_status ready
    then (if is_stale_message message
        then commit s (s ∷ []) t
        else if a.still_there && is_valid_transition s.status ready
        then commit (already_ready env cr message s) (s ∷ already_ready env cr message s ∷ []) t
        else commit s (s ∷ []) t)
    else commit s (s ∷ []) t

abbrev after_resume : Env → Answers → Option (Option Resource) → Sandbox → Tables → Call
after_resume env a none s t = commit s (s ∷ []) t
after_resume env a (some none) s t = commit s (s ∷ []) t
after_resume env a (some (some cr)) s t = fast_path env a cr (derive_status cr) s t

-- `s` is the row as the first commit left it.
unfoldable pub resume : Env → Answers → Sandbox → Tables → Call
unfolding is_stale_message is_valid_transition
resume env a s t =
    if a.mode_set
    then after_resume env a a.get_sandbox s t
    else commit (failed "Failed to start sandbox" s) (s ∷ failed "Failed to start sandbox" s ∷ []) t

abbrev admitted : Env → Answers → Result ℕ × Tables → Sandbox → Tables → Call
admitted env a (err e, t') s t = refuse (refused e) t
admitted env a (ok n, t') s t =
    if same_status s.status cold then restore env a s t t' else resume env a (resumed env s) t'

abbrev enforcement : Env → Switches → List Sandbox → Sandbox → Action ℕ
enforcement env switches rows s =
    if switches.metered && switches.enforced then enforce_start env rows s else pure 0

unfoldable pub start_found : Env → Switches → Answers → List Sandbox → Sandbox → Tables → Call
unfolding resume enforce_start
start_found env switches a rows s t =
    if not (is_none s.pending_operation)
    then refuse invalid_transition t
    else if not (status_in s.status (stopped ∷ error ∷ cold ∷ []))
    then refuse invalid_transition t
    else admitted env a (enforcement env switches rows s t) s t

unfoldable pub start : Env → Switches → Answers → ℕ → ℕ → List Sandbox → Tables → Call
unfolding start_found find_owned
start env switches a sandbox_id owner_id rows t =
    on_found (find_owned sandbox_id owner_id rows) t (λ s. start_found env switches a rows s t)
