-- ===== src/Lifecycle/Steps.antt =====
-- What the lifecycle tasks may do to a row, and when.
use Prim.Native.String.{String}
use treadstone.Prelude.{
  ℕ, ◌+◌, ◌≡◌, ◌≤◌, refl, Bool, true, false, Option, none, some, ◌⊎◌, inl, inr, ◌&&◌, arith,
  Bool-cases, ap, sym, ◌∙◌, subst,
}
use treadstone.Sandbox.{SandboxStatus, stopped, Sandbox, is_valid_transition}
use treadstone.Metering.Model.{Tables, Env, Error, Result, ok, err, ComputeSession}
use treadstone.Metering.Sessions.{open_count, close_compute_session}
use treadstone.Metering.Sessions.Counts.{OpenOnce}
use treadstone.Metering.Sessions.Rows.{Closed, close_compute_session-Closed}
use treadstone.Service.{is_none}
use treadstone.Service.History.{is_commit}
use treadstone.Lifecycle.{
  is_idle, after_close, idle_auto_stop, is_outdated, Deletion, removed, auto_delete_failure,
  raised_other, k8s_delete_sandbox, after_deletion, auto_delete, persist_failure,
}

-- What stopping an idle sandbox amounts to.
abbrev pub IsStoppedIdle : Env → Sandbox → Sandbox × Tables → Type 0
IsStoppedIdle env s p =
    (is_idle env s ≡ true)
    × ((p.0.status ≡ stopped)
        × ((p.0.version ≡ s.version + 1) × (open_count s.id p.1.sessions ≡ 0)))

close-none :
    (sandbox : ℕ) (t : Tables) (r : Result (Option ComputeSession) × Tables)
    → open_count sandbox t.sessions ≤ 1
    → Closed sandbox t r
    → (cs : Option ComputeSession) → r.0 ≡ ok cs
    → open_count sandbox r.1.sessions ≡ 0
close-none sandbox t (ok none, t') once (none_open, same) cs e =
    ap (λ (x : Tables). open_count sandbox x.sessions) same ∙ none_open
close-none sandbox t (ok (some x), t') once (here, elsewhere) cs e = ground (arith, once, here)
close-none sandbox t (err x, t') once same cs e = cc

-- How a check of an idle sandbox may end, with the reason for it.
abbrev pub Ends : Env → Bool → Sandbox → Tables → Sandbox × Tables → Type 0
Ends env answers s t p =
    let closed = (close_compute_session env s.id t).0 in
    (((is_idle env s && answers) ≡ false) × (p ≡ (s, t)))
    ⊎ (((e : Error) × (closed ≡ err e) × (p ≡ (s, t)))
        ⊎ ((answers ≡ true)
            × ((cs : Option ComputeSession) × (closed ≡ ok cs))
            × IsStoppedIdle env s p))

after_close-stopped :
    (env : Env) (s : Sandbox) (t : Tables) (r : Result (Option ComputeSession) × Tables)
    → open_count s.id t.sessions ≤ 1
    → Closed s.id t r
    → is_idle env s ≡ true
    → let p = after_close env s t s r in
      ((e : Error) × (r.0 ≡ err e) × (p ≡ (s, t)))
      ⊎ ((true ≡ true) × ((cs : Option ComputeSession) × (r.0 ≡ ok cs)) × IsStoppedIdle env s p)
unfolding is_idle
after_close-stopped env s t (err e, t') once c idle = inl (e, refl, refl)
after_close-stopped env s t (ok cs, t') once c idle =
    let closed = close-none s.id t (ok cs, t') once c cs refl in
    inr (refl, (cs, refl), (idle, ground (arith, idle, closed)))

-- A check of idle sandboxes leaves a row and the tables as they were where the sandbox was not READY
-- or not idle for longer than its interval, where the callback raises, and where closing the compute
-- session raises. Otherwise the sandbox is stopped, its version goes up by one, and it has no open
-- compute session any more, if no sandbox had two.
pub idle_auto_stop-stops :
    (env : Env) (answers : Bool) (s : Sandbox) (t : Tables)
    → OpenOnce t
    → Ends env answers s t (idle_auto_stop env answers s t)
unfolding idle_auto_stop
idle_auto_stop-stops env false s t once = elim (Bool-cases (is_idle env s)) [
  | inr busy ↦ rw busy (inl (refl, refl))
  | inl idle ↦ rw idle (inl (refl, refl))
]
idle_auto_stop-stops env true s t once = elim (Bool-cases (is_idle env s)) [
  | inr busy ↦ rw busy (inl (refl, refl))
  | inl idle ↦
      let run : idle_auto_stop env true s t
          ≡ after_close env s t s (close_compute_session env s.id t) =
        rw idle refl in
      subst (Ends env true s t) (sym run) (
        inr (
          after_close-stopped env s t (close_compute_session env s.id t) (once s.id)
            (close_compute_session-Closed env s.id t) idle))
]

-- A failed clean-up aside, a cold sandbox is deleted at once: there is nothing to wait for.
abbrev pub parked_deleted : SandboxStatus → SandboxStatus → Bool
parked_deleted SandboxStatus.stopped SandboxStatus.deleted = true
parked_deleted SandboxStatus.cold SandboxStatus.deleted = true
parked_deleted _ _ = false

abbrev IsSound : Sandbox → Deletion → Type 0
IsSound s (removed s' t') = is_commit parked_deleted s s' ≡ true
IsSound s (auto_delete_failure message clear) = Unit
IsSound s raised_other = Unit

k8s_delete_sandbox-commit :
    (env : Env) (delete_bound delete_resource : Bool) (s : Sandbox) (t : Tables)
    → is_outdated env s ≡ true
    → IsSound s (k8s_delete_sandbox env delete_bound delete_resource s t)
unfolding k8s_delete_sandbox is_outdated is_valid_transition
k8s_delete_sandbox-commit env delete_bound delete_resource s t due = ground (arith, due)

failure-commit :
    (env : Env) (message : String) (clear : Bool) (s : Sandbox)
    → is_outdated env s ≡ true
    → is_none s.gmt_deleted ≡ true
    → is_commit parked_deleted s (persist_failure message clear s) ≡ true
unfolding is_outdated is_valid_transition
failure-commit env message clear s due there = ground (arith, due, there)

deletion-commit :
    (env : Env) (s : Sandbox) (t : Tables)
    → is_outdated env s ≡ true
    → (d : Deletion) → IsSound s d
    → let p = after_deletion s t d in
      (p ≡ (s, t)) ⊎ ((is_outdated env s ≡ true) × (is_commit parked_deleted s p.0 ≡ true))
deletion-commit env s t due (removed s' t') h = inr (due, h)
deletion-commit env s t due (auto_delete_failure message clear) h =
    elim (Bool-cases (is_none s.gmt_deleted)) [
      | inr late ↦ rw late (inl refl)
      | inl there ↦ inr (due, failure-commit env message clear s due there)
    ]
deletion-commit env s t due raised_other h = inl refl

-- A check of automatic deletion leaves a row alone, or the sandbox was stopped or cold with nothing
-- pending, for longer than its interval: then it makes one commit, along `VALID_TRANSITIONS` or from
-- stopped or cold to deleted.
pub auto_delete-commit :
    (env : Env) (delete_bound delete_resource : Bool) (s : Sandbox) (t : Tables)
    → let p = auto_delete env delete_bound delete_resource s t in
      (p ≡ (s, t)) ⊎ ((is_outdated env s ≡ true) × (is_commit parked_deleted s p.0 ≡ true))
unfolding auto_delete
auto_delete-commit env delete_bound delete_resource s t = elim (Bool-cases (is_outdated env s)) [
  | inr early ↦ rw early (inl refl)
  | inl due ↦
      let d = k8s_delete_sandbox env delete_bound delete_resource s t in
      let run : auto_delete env delete_bound delete_resource s t ≡ after_deletion s t d =
        rw due refl in
      subst
        (λ p. (p ≡ (s, t)) ⊎ ((is_outdated env s ≡ true) × (is_commit parked_deleted s p.0 ≡ true)))
        (sym run)
        (deletion-commit env s t due d
          (k8s_delete_sandbox-commit env delete_bound delete_resource s t due))
]
