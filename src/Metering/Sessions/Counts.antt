-- ===== src/Metering/Sessions/Counts.antt =====
-- The counts of open sessions, and the invariant that they keep.
use Prim.Native.String.{String}
use treadstone.Prelude.{
  ℕ, ◌-◌, ◌≤◌, ◌≡◌, Option, none, some, arith, ◌==◌, Bool-cases, inl, inr, max, ==_iff,
  if◌then◌else◌, ap,
}
use treadstone.Metering.Model.{ComputeSession, Tables, Env, ok, err, Result}
use treadstone.Metering.Sessions.{open_count, open_compute_session, close_compute_session}
use treadstone.Metering.Sessions.Rows.{
  Opened, Closed, open_compute_session-Opened, close_compute_session-Closed,
}

-- No sandbox has two open sessions.
abbrev pub OpenOnce : Tables → Type 0
OpenOnce t = (sandbox : ℕ) → open_count sandbox t.sessions ≤ 1

-- How many sessions of `other` are open once a session of `sandbox` is to be opened.
abbrev pub counted_open : ℕ → ℕ → Tables → Result ComputeSession → ℕ
counted_open sandbox other t (ok cs) =
    if other == sandbox then max (open_count sandbox t.sessions) 1 else open_count other t.sessions
counted_open sandbox other t (err e) = open_count other t.sessions

-- Opening a session of a sandbox that has an open one changes nothing; where it has none there is
-- one afterwards. No other sandbox's open sessions change, and nothing does where the template is
-- not known.
pub open_count-open_compute_session :
    (env : Env) (sandbox user other : ℕ) (template : String) (t : Tables)
    → open_count other (open_compute_session env sandbox user template t).1.sessions
      ≡ counted_open sandbox other t (open_compute_session env sandbox user template t).0
open_count-open_compute_session env sandbox user other template t =
    go (open_compute_session env sandbox user template t)
      (open_compute_session-Opened env sandbox user template t)
  where
    go :
        (r : Result ComputeSession × Tables)
        → Opened sandbox t r
        → open_count other r.1.sessions ≡ counted_open sandbox other t r.0
    go (err e, t') same = ap (λ (x : Tables). open_count other x.sessions) same
    go (ok cs, t') (here, elsewhere) = elim (Bool-cases (other == sandbox)) [
      | inl h ↦ rw (h, (==_iff other sandbox).0 h) here
      | inr h ↦ rw h (elsewhere other (ground (arith, h)))
    ]

-- How many sessions of `other` are open once the session of `sandbox` is to be closed.
abbrev counted_close : ℕ → ℕ → Tables → Result (Option ComputeSession) → ℕ
counted_close sandbox other t (ok none) = open_count other t.sessions
counted_close sandbox other t (ok (some cs)) =
    if other == sandbox then open_count sandbox t.sessions - 1 else open_count other t.sessions
counted_close sandbox other t (err e) = open_count other t.sessions

-- Closing answers a session where it has ended one of the sandbox's open sessions, and none where
-- the sandbox had none. No other sandbox's open sessions change, and none does where the charge
-- raises.
open_count-close_compute_session :
    (env : Env) (sandbox other : ℕ) (t : Tables)
    → open_count other (close_compute_session env sandbox t).1.sessions
      ≡ counted_close sandbox other t (close_compute_session env sandbox t).0
open_count-close_compute_session env sandbox other t =
    go (close_compute_session env sandbox t) (close_compute_session-Closed env sandbox t)
  where
    go :
        (r : Result (Option ComputeSession) × Tables)
        → Closed sandbox t r
        → open_count other r.1.sessions ≡ counted_close sandbox other t r.0
    go (err e, t') same = same other
    go (ok none, t') (none_open, same) = ap (λ (x : Tables). open_count other x.sessions) same
    go (ok (some cs), t') (here, elsewhere) = elim (Bool-cases (other == sandbox)) [
      | inl h ↦ rw (h, (==_iff other sandbox).0 h) here
      | inr h ↦ rw h (elsewhere other (ground (arith, h)))
    ]

-- If no sandbox has two open sessions, none has two after a call that opens or one that closes a
-- session, of any sandbox, whether the call raises or not.
pub compute_session-OpenOnce :
    (env : Env) (sandbox user : ℕ) (template : String) (t : Tables)
    → OpenOnce t
    → OpenOnce (open_compute_session env sandbox user template t).1
      × OpenOnce (close_compute_session env sandbox t).1
compute_session-OpenOnce env sandbox user template t once = (
  λ other.
      rw (open_count-open_compute_session env sandbox user other template t)
        (opened other (open_compute_session env sandbox user template t).0),
  λ other.
      rw (open_count-close_compute_session env sandbox other t)
        (closed other (close_compute_session env sandbox t).0),
)
  where
    opened : (other : ℕ) (r : Result ComputeSession) → counted_open sandbox other t r ≤ 1
    opened other (ok cs) = ground (arith, once sandbox, once other)
    opened other (err e) = once other

    closed : (other : ℕ) (r : Result (Option ComputeSession)) → counted_close sandbox other t r ≤ 1
    closed other (ok none) = once other
    closed other (ok (some cs)) = ground (arith, once sandbox, once other)
    closed other (err e) = once other
