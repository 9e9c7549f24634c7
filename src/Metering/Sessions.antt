-- ===== src/Metering/Sessions.antt =====
-- Compute sessions: `open_compute_session` and `close_compute_session` of `MeteringService`, and
-- metering_state_observer.py, which calls them. An elapsed time is in microseconds; the hours of a
-- session are its requests times that, and the credits its template's rate times that.
pub mod Rows
pub mod Counts
use Prim.Native.String.{String}
use treadstone.Prelude.{
  ℕ, ◌+◌, ◌*◌, ◌-◌, Bool, true, false, Option, none, some, List, [], ◌∷◌, ◌&&◌, find_first, count,
  ltb, ◌==◌, if◌then◌else◌,
}
use treadstone.Prelude.Int.{pos}
use treadstone.Metering.Model.{
  ComputeSession, Env, Spec, Result, Action, pure, gets, modify, ◌>>=◌, ◌>>◌,
}
use treadstone.Metering.Helpers.{get_template_resource_spec, calculate_cu_rate}
use treadstone.Metering.Pools.{consume_compute_credits}

abbrev pub is_unset : Option ℕ → Bool
is_unset none = true
is_unset (some _) = false

-- `sandbox_id == … AND ended_at IS NULL`
abbrev pub is_open_for : ℕ → ComputeSession → Bool
is_open_for sandbox cs = cs.sandbox_id == sandbox && is_unset cs.ended_at

-- The open sessions of a sandbox; a partial unique index allows one.
abbrev pub open_count : ℕ → List ComputeSession → ℕ
open_count sandbox = count (is_open_for sandbox)

abbrev pub open_session : ℕ → List ComputeSession → Option ComputeSession
open_session sandbox = find_first (is_open_for sandbox)

-- The changed object goes back to the open row that it was read from.
abbrev pub put_open : ℕ → ComputeSession → List ComputeSession → List ComputeSession
put_open sandbox cs [] = []
put_open sandbox cs (x ∷ xs) =
    let rest = put_open sandbox cs xs in if is_open_for sandbox x then cs ∷ xs else x ∷ rest

abbrev pub save_session : ℕ → ComputeSession → Action (Unit {0})
save_session sandbox cs = modify (λ t. record t { sessions = put_open sandbox cs t.sessions })

abbrev lift : {A : Type 0} → Result A → Action A
lift r t = (r, t)

abbrev new_session : Env → ℕ → ℕ → String → Spec → ComputeSession
new_session env sandbox user template spec = record {
  sandbox_id = sandbox;
  user_id = user;
  template = template;
  vcpu_request = spec.vcpu;
  memory_request = spec.memory;
  started_at = env.now;
  ended_at = none;
  last_metered_at = env.now;
  vcpu_hours = 0;
  memory_hours = 0;
  gmt_updated = env.now;
}

unfoldable pub insert_session : Env → ℕ → ℕ → String → Action ComputeSession
insert_session env sandbox user template = do
  spec ← lift (get_template_resource_spec env template)
  modify (λ t. record t { sessions = new_session env sandbox user template spec ∷ t.sessions })
  pure (new_session env sandbox user template spec)

abbrev or_insert : Option ComputeSession → Action ComputeSession → Action ComputeSession
or_insert none insert = insert
or_insert (some cs) insert = pure cs

unfoldable pub open_compute_session : Env → ℕ → ℕ → String → Action ComputeSession
open_compute_session env sandbox user template = do
  existing ← gets (λ t. open_session sandbox t.sessions)
  or_insert existing (insert_session env sandbox user template)

abbrev pub max_close_delta : ℕ
max_close_delta = 120 * 1000000

-- Seconds since the last metering, 0 if the clock is behind, capped.
abbrev pub close_delta : Env → ComputeSession → ℕ
close_delta env cs =
    let elapsed = env.now - cs.last_metered_at in
    if ltb max_close_delta elapsed then max_close_delta else elapsed

abbrev pub accrue : ℕ → ComputeSession → ComputeSession
accrue elapsed cs = record cs {
  vcpu_hours = cs.vcpu_hours + cs.vcpu_request * elapsed;
  memory_hours = cs.memory_hours + cs.memory_request * elapsed;
}

abbrev pub ended : Env → ComputeSession → ComputeSession
ended env cs = record cs {
  ended_at = some env.now;
  last_metered_at = env.now;
  gmt_updated = env.now;
}

-- `if cu_delta > 0`
abbrev pub consume_if_positive : Env → ℕ → ℕ → Action (Unit {0})
consume_if_positive env user amount =
    if ltb 0 amount
    then consume_compute_credits env user (pos amount) >>= (λ _. pure tt)
    else pure tt

unfoldable pub charge : Env → ComputeSession → ℕ → Action (Unit {0})
charge env cs elapsed = do
  rate ← lift (calculate_cu_rate env cs.template)
  consume_if_positive env cs.user_id (rate * elapsed)

-- The final accrual, which a close of no elapsed time skips.
unfoldable pub settle : Env → ℕ → ComputeSession → ℕ → Action ComputeSession
settle env sandbox cs elapsed =
    if ltb 0 elapsed
    then save_session sandbox (accrue elapsed cs)
      >> (charge env cs elapsed >> pure (accrue elapsed cs))
    else pure cs

unfoldable pub close_found : Env → ℕ → ComputeSession → Action (Option ComputeSession)
close_found env sandbox cs = do
  settled ← settle env sandbox cs (close_delta env cs)
  save_session sandbox (ended env settled)
  pure (some (ended env settled))

abbrev close_option : Env → ℕ → Option ComputeSession → Action (Option ComputeSession)
close_option env sandbox none = pure none
close_option env sandbox (some cs) = close_found env sandbox cs

unfoldable pub close_compute_session : Env → ℕ → Action (Option ComputeSession)
close_compute_session env sandbox = do
  found ← gets (λ t. open_session sandbox t.sessions)
  close_option env sandbox found
