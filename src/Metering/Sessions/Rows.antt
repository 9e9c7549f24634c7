-- ===== src/Metering/Sessions/Rows.antt =====
-- How opening and closing change the open sessions of every sandbox.
use treadstone.Prelude.{
  ℕ, ◌-◌, ◌*◌, ◌≤◌, ◌≡◌, ◌≢◌, refl, Option, none, some, List, [], ◌∷◌, arith, ◌==◌, Bool-cases,
  Option-cases, inl, inr, ◌⊎◌, max, ==_iff, ltb, ap, sym, ◌∙◌,
}
use Prim.Native.String.{String}
use treadstone.Prelude.Int.{ℤ, pos}
use treadstone.Metering.Model.{
  ComputeSession, Tables, Env, ok, err, Error, Result, ◌>>◌, pure, bind_rule,
}
use treadstone.Metering.Plans.{
  get_user_plan_for_update, ensure_user_plan, create_plan, get_tier_template,
}
use treadstone.Metering.Helpers.{calculate_cu_rate, get_template_resource_spec}
use treadstone.Metering.Pools.{consume_compute_credits}
use treadstone.Metering.Sessions.{
  open_count, open_session, put_open, open_compute_session, insert_session, close_compute_session,
  close_found, save_session, settle, charge, consume_if_positive, accrue, ended, close_delta,
}

plan_for_update-sessions :
    (env : Env) (user : ℕ) (t : Tables)
    → (get_user_plan_for_update env user t).1.sessions ≡ t.sessions
unfolding get_user_plan_for_update ensure_user_plan create_plan get_tier_template
plan_for_update-sessions env user t = ground arith

consume-sessions :
    (env : Env) (user : ℕ) (amount : ℤ) (t : Tables)
    → (consume_compute_credits env user amount t).1.sessions ≡ t.sessions
unfolding consume_compute_credits
consume-sessions env user amount t = ground (arith, plan_for_update-sessions env user t)

pub ok_inj : {A : Type 0} {a b : A} → ok a ≡ ok b → a ≡ b
ok_inj h = cc

pub Result-cases :
    {A : Type 0} (r : Result A) → ((a : A) × (r ≡ ok a)) ⊎ ((e : Error) × (r ≡ err e))
Result-cases (ok a) = inl (a, refl)
Result-cases (err e) = inr (e, refl)

pub consume_if_positive-sessions :
    (env : Env) (user amount : ℕ) (t : Tables)
    → (consume_if_positive env user amount t).1.sessions ≡ t.sessions
consume_if_positive-sessions env user amount t =
    ground (arith, consume-sessions env user (pos amount) t)

charge-sessions :
    (env : Env) (cs : ComputeSession) (elapsed : ℕ) (t : Tables)
    → (charge env cs elapsed t).1.sessions ≡ t.sessions
unfolding charge
charge-sessions env cs elapsed t = elim (Result-cases (calculate_cu_rate env cs.template)) [
  | inl (rate, e) ↦ rw e (consume_if_positive-sessions env cs.user_id (rate * elapsed) t)
  | inr (x, e) ↦ rw e
]

-- Replacing the open row of a sandbox by a session of that sandbox.
module _ (sandbox : ℕ) (cs : ComputeSession) (same : cs.sandbox_id ≡ sandbox) where
  put_open-open :
      (xs : List ComputeSession)
      → cs.ended_at ≡ none
      → open_count sandbox (put_open sandbox cs xs) ≡ open_count sandbox xs
  put_open-open [] e = refl
  put_open-open (x ∷ xs) e = ground (arith, same, e, put_open-open xs e)

  put_open-ended :
      (xs : List ComputeSession) (at : ℕ)
      → cs.ended_at ≡ some at
      → open_count sandbox (put_open sandbox cs xs) ≡ open_count sandbox xs - 1
  put_open-ended [] at e = refl
  put_open-ended (x ∷ xs) at e = ground (arith, same, e, put_open-ended xs at e)

  put_open-other :
      (other : ℕ) (xs : List ComputeSession)
      → other ≢ sandbox
      → open_count other (put_open sandbox cs xs) ≡ open_count other xs
  put_open-other other [] n = refl
  put_open-other other (x ∷ xs) n = ground (arith, same, n, put_open-other other xs n)

open_session-some :
    (sandbox : ℕ) (xs : List ComputeSession) {cs : ComputeSession}
    → open_session sandbox xs ≡ some cs
    → (cs.sandbox_id ≡ sandbox) × (cs.ended_at ≡ none) × (1 ≤ open_count sandbox xs)
open_session-some sandbox [] h = cc
open_session-some sandbox (x ∷ xs) {cs} h =
    ground (arith, h, open_session-some sandbox xs {cs = cs})

open_session-none :
    (sandbox : ℕ) (xs : List ComputeSession)
    → open_session sandbox xs ≡ none
    → open_count sandbox xs ≡ 0
open_session-none sandbox [] h = refl
open_session-none sandbox (x ∷ xs) h = ground (arith, h, open_session-none sandbox xs)

-- What opening does to the open sessions, by how it ends.
abbrev pub Opened : ℕ → Tables → Result ComputeSession × Tables → Type 0
Opened sandbox t (ok cs, t') =
    (open_count sandbox t'.sessions ≡ max (open_count sandbox t.sessions) 1)
    × ((other : ℕ) → other ≢ sandbox → open_count other t'.sessions ≡ open_count other t.sessions)
Opened sandbox t (err e, t') = t' ≡ t

pub open_compute_session-Opened :
    (env : Env) (sandbox user : ℕ) (template : String) (t : Tables)
    → Opened sandbox t (open_compute_session env sandbox user template t)
unfolding open_compute_session insert_session
open_compute_session-Opened env sandbox user template t =
    elim (Option-cases (open_session sandbox t.sessions)) [
      | inr (cs, found) ↦
          rw found (omega (arith, (open_session-some sandbox t.sessions found).2), λ other n. refl)
      | inl missing ↦ elim (Result-cases (get_template_resource_spec env template)) [
        | inr (x, e) ↦ rw (missing, e) refl
        | inl (spec, e) ↦
            rw (missing, e)
              (
                ground (arith, open_session-none sandbox t.sessions missing),
                λ other n. ground (arith, n),
              )
      ]
    ]

-- What closing does.
abbrev pub Closed : ℕ → Tables → Result (Option ComputeSession) × Tables → Type 0
Closed sandbox t (ok none, t') = (open_count sandbox t.sessions ≡ 0) × (t' ≡ t)
Closed sandbox t (ok (some cs), t') =
    (open_count sandbox t'.sessions ≡ open_count sandbox t.sessions - 1)
    × ((other : ℕ) → other ≢ sandbox → open_count other t'.sessions ≡ open_count other t.sessions)
Closed sandbox t (err e, t') =
    (other : ℕ) → open_count other t'.sessions ≡ open_count other t.sessions

-- What `settle` leaves: the same open rows, and a session of the same sandbox.
abbrev Settled : ℕ → Tables → Result ComputeSession × Tables → Type 0
Settled sandbox t (ok cs, t') =
    (cs.sandbox_id ≡ sandbox)
    × ((other : ℕ) → open_count other t'.sessions ≡ open_count other t.sessions)
Settled sandbox t (err e, t') =
    (other : ℕ) → open_count other t'.sessions ≡ open_count other t.sessions

put_open-counts :
    (sandbox : ℕ) (cs : ComputeSession) (xs : List ComputeSession) (other : ℕ)
    → cs.sandbox_id ≡ sandbox
    → cs.ended_at ≡ none
    → open_count other (put_open sandbox cs xs) ≡ open_count other xs
put_open-counts sandbox cs xs other same e = elim (Bool-cases (other == sandbox)) [
  | inl h ↦
      let o : other ≡ sandbox = (==_iff other sandbox).0 h in
      rw o (put_open-open sandbox cs same xs e)
  | inr h ↦ put_open-other sandbox cs same other xs (ground (arith, h))
]

settle-Settled :
    (env : Env) (sandbox : ℕ) (cs : ComputeSession) (elapsed : ℕ) (t : Tables)
    → cs.sandbox_id ≡ sandbox
    → cs.ended_at ≡ none
    → Settled sandbox t (settle env sandbox cs elapsed t)
unfolding settle
settle-Settled env sandbox cs elapsed t same e = elim (Bool-cases (ltb 0 elapsed)) [
  | inr h ↦ rw h (same, λ other. refl)
  | inl h ↦
      let t1 : Tables = record t { sessions = put_open sandbox (accrue elapsed cs) t.sessions } in
      let kept = λ (other : ℕ).
        ap (open_count other) (charge-sessions env cs elapsed t1)
        ∙ put_open-counts sandbox (accrue elapsed cs) t.sessions other same e in
      rw h (
        bind_rule (charge env cs elapsed) (λ _. pure (accrue elapsed cs)) t1 (Settled sandbox t)
          (λ u _. (same, kept)) (λ x _. kept))
]

pub close_compute_session-Closed :
    (env : Env) (sandbox : ℕ) (t : Tables) → Closed sandbox t (close_compute_session env sandbox t)
unfolding close_compute_session close_found
close_compute_session-Closed env sandbox t = elim (Option-cases (open_session sandbox t.sessions)) [
  | inl missing ↦ rw missing (open_session-none sandbox t.sessions missing, refl)
  | inr (cs, found) ↦
      let (same, e, _) = open_session-some sandbox t.sessions found in
      let ready = settle-Settled env sandbox cs (close_delta env cs) t same e in
      rw found (
        bind_rule (settle env sandbox cs (close_delta env cs))
          (λ settled. save_session sandbox (ended env settled) >> pure (some (ended env settled))) t
          (Closed sandbox t)
          (λ settled r. finish settled (settle env sandbox cs (close_delta env cs) t) ready r)
          (λ x r. failed x (settle env sandbox cs (close_delta env cs) t) ready r))
]
  where
    finish :
        (settled : ComputeSession) (r : Result ComputeSession × Tables)
        → Settled sandbox t r
        → r.0 ≡ ok settled
        → Closed sandbox t
            ((save_session sandbox (ended env settled) >> pure (some (ended env settled))) r.1)
    finish settled (ok s, t') (same, kept) h =
        let here : settled.sandbox_id ≡ sandbox =
          ap (λ (x : ComputeSession). x.sandbox_id) (ok_inj (sym h)) ∙ same in
        (
          put_open-ended sandbox (ended env settled) here t'.sessions env.now refl
              ∙ ap (λ n. n - 1) (kept sandbox),
          λ other n.
              put_open-other sandbox (ended env settled) here other t'.sessions n ∙ kept other,
        )
    finish settled (err x, t') kept h = cc

    failed :
        (x : Error) (r : Result ComputeSession × Tables)
        → Settled sandbox t r
        → r.0 ≡ err x
        → Closed sandbox t (err x, r.1)
    failed x (ok s, t') kept h = cc
    failed x (err y, t') kept h = kept

-- Closing, where it does not raise, leaves one open session fewer.
pub close_count :
    (env : Env) (sandbox : ℕ) (t : Tables) {r : Option ComputeSession}
    → (close_compute_session env sandbox t).0 ≡ ok r
    → open_count sandbox (close_compute_session env sandbox t).1.sessions
      ≡ open_count sandbox t.sessions - 1
close_count env sandbox t h =
    go (close_compute_session env sandbox t) (close_compute_session-Closed env sandbox t) h
  where
    go :
        {r : Option ComputeSession} (c : Result (Option ComputeSession) × Tables)
        → Closed sandbox t c
        → c.0 ≡ ok r
        → open_count sandbox c.1.sessions ≡ open_count sandbox t.sessions - 1
    go (err e, t') kept h = cc
    go (ok none, t') (none_open, same) h =
        ap (λ (x : Tables). open_count sandbox x.sessions) same ∙ omega (arith, none_open)
    go (ok (some cs), t') (here, elsewhere) h = here
