-- ===== src/Metering/Reconcile/Repaired.antt =====
-- The repair leaves each sandbox the sessions that its status asks for.
use treadstone.Prelude.{
  ℕ, ◌≤◌, ◌≡◌, refl, Bool, true, false, ◌&&◌, ◌||◌, ◌==◌, Option, none, some, List, [], ◌∷◌, ◌++◌,
  arith, Bool-cases, inl, inr, ap, sym, ◌∙◌, count, select, ==_iff, if◌then◌else◌,
}
use treadstone.Sandbox.{Sandbox}
use treadstone.Metering.Model.{ComputeSession, Tables, Env, Result, ok, err}
use treadstone.Metering.Sessions.{open_count, open_compute_session, close_compute_session}
use treadstone.Metering.Sessions.Counts.{OpenOnce, counted_open, open_count-open_compute_session}
use treadstone.Metering.Sessions.Rows.{Closed, close_compute_session-Closed}
use treadstone.Metering.Tasks.Rollover.{is_ready, sandbox_of}
use treadstone.Metering.Reconcile.{
  is_missing, is_stale, sandbox_ids, log_failure, open_missing, close_stale, reconcile_metering,
}

abbrev pub mem : ℕ → List ℕ → Bool
mem n [] = false
mem n (m ∷ ms) = n == m || mem n ms

abbrev ids_of : List Sandbox → List ℕ
ids_of [] = []
ids_of (s ∷ ss) = s.id ∷ ids_of ss

mem-append : (n : ℕ) (ms ns : List ℕ) → mem n (ms ++ ns) ≡ (mem n ms || mem n ns)
mem-append n [] ns = refl
mem-append n (m ∷ ms) ns = let rest = mem-append n ms ns in ground (arith, rest)

abbrev is_logged : {A : Type 0} → ℕ → ℕ → Result A → Bool
is_logged other sandbox (ok a) = false
is_logged other sandbox (err e) = other == sandbox

mem-log_failure :
    {A : Type 0} (other sandbox : ℕ) (r : Result A) (log : List ℕ)
    → mem other (log_failure sandbox r log) ≡ (is_logged other sandbox r || mem other log)
mem-log_failure other sandbox (ok a) log = refl
mem-log_failure other sandbox (err e) log = refl

-- From `c` open sessions to `c'`, over sandboxes of which one may be the one in question.
abbrev OpenFacts : ℕ → ℕ → Bool → Bool → Type 0
OpenFacts c c' inside logged =
    (c ≤ c')
    × ((c ≤ 1 → c' ≤ 1) × ((inside ≡ false → c' ≡ c) × (inside ≡ true → logged ≡ false → 1 ≤ c')))

OpenFacts-trans :
    (c c' c'' : ℕ) (i i' l l' : Bool)
    → OpenFacts c c' i l
    → OpenFacts c' c'' i' l'
    → OpenFacts c c'' (i || i') (l || l')
OpenFacts-trans c c' c'' i i' l l' f g = (
  ground (arith, f.0, g.0),
  (
    λ h. g.1.0 (f.1.0 h),
    (λ h. ground (arith, f.1.1.0, g.1.1.0, h), λ h k. ground (arith, f.1.1.1, g.1.1.1, g.0, h, k)),
  ),
)

open_count_same :
    (other sandbox : ℕ) (t : Tables)
    → (other == sandbox) ≡ true
    → open_count other t.sessions ≡ open_count sandbox t.sessions
open_count_same other sandbox t h = ap (λ n. open_count n t.sessions) ((==_iff other sandbox).0 h)

open_step :
    (sandbox other : ℕ) (t : Tables) (r : Result ComputeSession)
    → OpenFacts
        (open_count other t.sessions)
        (counted_open sandbox other t r)
        (other == sandbox)
        (is_logged other sandbox r)
open_step sandbox other t (ok cs) = elim (Bool-cases (other == sandbox)) [
  | inl h ↦ rw h (ground (arith, open_count_same other sandbox t h))
  | inr h ↦ rw h (ground (arith))
]
open_step sandbox other t (err e) = elim (Bool-cases (other == sandbox)) [
  | inl h ↦ rw h (ground (arith))
  | inr h ↦ rw h (ground (arith))
]

open_missing-OpenFacts :
    (env : Env) (other : ℕ) (ss : List Sandbox) (t : Tables)
    → OpenFacts
        (open_count other t.sessions)
        (open_count other (open_missing env ss t).1.sessions)
        (mem other (ids_of ss))
        (mem other (open_missing env ss t).0)
unfolding open_missing
open_missing-OpenFacts env other [] t = ground arith
open_missing-OpenFacts env other (s ∷ ss) t =
    let r = open_compute_session env s.id s.owner_id s.template t in
    let rest = open_missing-OpenFacts env other ss r.1 in
    let counted = open_count-open_compute_session env s.id s.owner_id other s.template t in
    rw (mem-log_failure other s.id r.0 (open_missing env ss r.1).0) (
      OpenFacts-trans (open_count other t.sessions) (open_count other r.1.sessions)
        (open_count other (open_missing env ss r.1).1.sessions) (other == s.id)
        (mem other (ids_of ss)) (is_logged other s.id r.0) (mem other (open_missing env ss r.1).0)
        (rw counted (open_step s.id other t r.0)) rest)

abbrev CloseFacts : ℕ → ℕ → Bool → Bool → Type 0
CloseFacts c c' inside logged =
    (c' ≤ c) × ((inside ≡ false → c' ≡ c) × (inside ≡ true → logged ≡ false → c ≤ 1 → c' ≡ 0))

CloseFacts-trans :
    (c c' c'' : ℕ) (i i' l l' : Bool)
    → CloseFacts c c' i l
    → CloseFacts c' c'' i' l'
    → CloseFacts c c'' (i || i') (l || l')
CloseFacts-trans c c' c'' i i' l l' f g = (
  ground (arith, f.0, g.0),
  (λ h. ground (arith, f.1.0, g.1.0, h), λ h k m. ground (arith, f.0, f.1.1, g.0, g.1.1, h, k, m)),
)

close_step :
    (sandbox other : ℕ) (t : Tables) (r : Result (Option ComputeSession) × Tables)
    → Closed sandbox t r
    → CloseFacts
        (open_count other t.sessions)
        (open_count other r.1.sessions)
        (other == sandbox)
        (is_logged other sandbox r.0)
close_step sandbox other t (err e, t') same = let equal = same other in ground (arith, equal)
close_step sandbox other t (ok none, t') (none_open, same) =
    let equal = ap (λ (x : Tables). open_count other x.sessions) same in
    elim (Bool-cases (other == sandbox)) [
      | inl h ↦ rw h (ground (arith, open_count_same other sandbox t h, none_open, equal))
      | inr h ↦ rw h (ground (arith, equal))
    ]
close_step sandbox other t (ok (some cs), t') (here, elsewhere) =
    elim (Bool-cases (other == sandbox)) [
      | inl h ↦ rw h (
          ground
            (arith, open_count_same other sandbox t h, open_count_same other sandbox t' h, here))
      | inr h ↦ rw h (ground (arith, elsewhere other (ground (arith, h))))
    ]

close_stale-CloseFacts :
    (env : Env) (other : ℕ) (ids : List ℕ) (t : Tables)
    → CloseFacts
        (open_count other t.sessions)
        (open_count other (close_stale env ids t).1.sessions)
        (mem other ids)
        (mem other (close_stale env ids t).0)
unfolding close_stale
close_stale-CloseFacts env other [] t = ground arith
close_stale-CloseFacts env other (sandbox ∷ ids) t =
    let r = close_compute_session env sandbox t in
    let rest = close_stale-CloseFacts env other ids r.1 in
    rw (mem-log_failure other sandbox r.0 (close_stale env ids r.1).0) (
      CloseFacts-trans (open_count other t.sessions) (open_count other r.1.sessions)
        (open_count other (close_stale env ids r.1).1.sessions) (other == sandbox) (mem other ids)
        (is_logged other sandbox r.0) (mem other (close_stale env ids r.1).0)
        (close_step sandbox other t r (close_compute_session-Closed env sandbox t)) rest)

-- The sandboxes whose sessions case 2 closes are those that do not run and have an open one.
mem-stale :
    (sandboxes : List Sandbox) (sandbox : ℕ) (css : List ComputeSession)
    → (is_ready (sandbox_of sandbox sandboxes) ≡ true
        → mem sandbox (sandbox_ids (select (is_stale sandboxes) css)) ≡ false)
      × (is_ready (sandbox_of sandbox sandboxes) ≡ false
          → 1 ≤ open_count sandbox css
          → mem sandbox (sandbox_ids (select (is_stale sandboxes) css)) ≡ true)
mem-stale sandboxes sandbox [] = ground arith
mem-stale sandboxes sandbox (cs ∷ css) = elim (Bool-cases (sandbox == cs.sandbox_id)) [
  | inl h ↦
      let rest = mem-stale sandboxes sandbox css in
      let same : is_ready (sandbox_of cs.sandbox_id sandboxes)
          ≡ is_ready (sandbox_of sandbox sandboxes) =
        ap (λ n. is_ready (sandbox_of n sandboxes)) (sym ((==_iff sandbox cs.sandbox_id).0 h)) in
      ground (arith, h, same, rest)
  | inr h ↦ let rest = mem-stale sandboxes sandbox css in ground (arith, h, rest)
]

mem-absent :
    (t : Tables) (sandbox : ℕ) (ss : List Sandbox)
    → count (λ s. s.id == sandbox) ss ≡ 0
    → mem sandbox (ids_of (select (is_missing t) ss)) ≡ false
mem-absent t sandbox [] h = refl
mem-absent t sandbox (s ∷ ss) h = let rest = mem-absent t sandbox ss in ground (arith, h, rest)

-- Where ids are unique, case 1 opens a session for a sandbox if it runs and has none.
mem-missing :
    (t : Tables) (sandbox : ℕ) (ss : List Sandbox)
    → count (λ s. s.id == sandbox) ss ≤ 1
    → mem sandbox (ids_of (select (is_missing t) ss))
      ≡ (is_ready (sandbox_of sandbox ss) && open_count sandbox t.sessions == 0)
mem-missing t sandbox [] h = refl
mem-missing t sandbox (s ∷ ss) h = elim (Bool-cases (s.id == sandbox)) [
  | inl e ↦
      let rest = mem-absent t sandbox ss in
      let counted = open_count_same s.id sandbox t e in ground (arith, h, e, rest, counted)
  | inr e ↦ let rest = mem-missing t sandbox ss in ground (arith, h, e, rest)
]

both_cases :
    (c c' c'' : ℕ) (runs i l j l' : Bool)
    → OpenFacts c c' i l
    → CloseFacts c' c'' j l'
    → c ≤ 1
    → i ≡ (runs && c == 0)
    → (runs ≡ true → j ≡ false)
    → (runs ≡ false → 1 ≤ c' → j ≡ true)
    → (l || l') ≡ false
    → c'' ≡ (if runs then 1 else 0)
both_cases c c' c'' true i l j l' opened closed once found kept taken logged =
    ground (arith, opened, closed, once, found, kept, logged)
both_cases c c' c'' false i l j l' opened closed once found kept taken logged =
    ground (arith, opened, closed, once, found, taken, logged)

-- After the repair, a sandbox that is READY has one open session and every other has none, but for
-- those whose repair raised: if no sandbox had two before, and ids are unique.
pub reconcile_metering-repairs :
    (env : Env) (sandbox : ℕ) (sandboxes : List Sandbox) (t : Tables)
    → OpenOnce t
    → count (λ s. s.id == sandbox) sandboxes ≤ 1
    → mem sandbox (reconcile_metering env sandboxes t).0 ≡ false
    → open_count sandbox (reconcile_metering env sandboxes t).1.sessions
      ≡ (if is_ready (sandbox_of sandbox sandboxes) then 1 else 0)
unfolding reconcile_metering
reconcile_metering-repairs env sandbox sandboxes t once unique h =
    let missing = select (is_missing t) sandboxes in
    let t' = (open_missing env missing t).1 in
    let stale = sandbox_ids (select (is_stale sandboxes) t'.sessions) in
    let opened = open_missing-OpenFacts env sandbox missing t in
    let closed = close_stale-CloseFacts env sandbox stale t' in
    let (kept, taken) = mem-stale sandboxes sandbox t'.sessions in
    let log = mem-append sandbox (open_missing env missing t).0 (close_stale env stale t').0 in
    both_cases (open_count sandbox t.sessions) (open_count sandbox t'.sessions)
      (open_count sandbox (close_stale env stale t').1.sessions)
      (is_ready (sandbox_of sandbox sandboxes)) (mem sandbox (ids_of missing))
      (mem sandbox (open_missing env missing t).0) (mem sandbox stale)
      (mem sandbox (close_stale env stale t').0) opened closed (once sandbox)
      (mem-missing t sandbox sandboxes unique) kept taken (sym log ∙ h)
