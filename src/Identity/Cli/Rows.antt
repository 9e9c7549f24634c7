-- ===== src/Identity/Cli/Rows.antt =====
-- What the writes on CLI login flows do to the rows, row by row.
use treadstone.Prelude.{
  subst, ℕ, ◌+◌, ◌≤◌, ◌≡◌, refl, Bool, true, false, Option, none, some, List, [], ◌∷◌, ◌&&◌, ◌==◌,
  zero, suc, count, All, arith, inl, inr, sym, Option-cases, if◌then◌else◌,
}
use treadstone.Identity.Model.{User, CliLoginFlow, FlowStatus, pending, approved, ok}
use treadstone.Identity.Cli.{
  is_approved, flow_of, user_of, approve_cli_flow, consume_cli_flow, exchange_read, fail_write,
}
use treadstone.Identity.Cli.Race.{Grant, rows_of, has, get_elem?}

abbrev is_live : FlowStatus → Bool
is_live pending = true
is_live approved = true
is_live _ = false

-- The rows from which a token may still come.
abbrev pub live_of : ℕ → List CliLoginFlow → ℕ
live_of flow_id = count (λ f. f.id == flow_id && is_live f.status)

abbrev backed : List Grant → ℕ → Option ℕ → Bool
backed approvals flow_id none = false
backed approvals flow_id (some user) = has (record { flow_id = flow_id; user_id = user }) approvals

-- An approved row names a user who approved it.
abbrev pub row_backed : List Grant → CliLoginFlow → Bool
row_backed approvals f = if is_approved f.status then backed approvals f.id f.user_id else true

pub rows_of-live :
    (flow_id : ℕ) (fs : List CliLoginFlow) → rows_of flow_id fs ≡ 0 → live_of flow_id fs ≡ 0
rows_of-live flow_id [] h = refl
rows_of-live flow_id (f ∷ fs) h = ground (arith, h, rows_of-live flow_id fs)

pub rows_of-consume :
    (other flow_id : ℕ) (fs : List CliLoginFlow)
    → rows_of other (consume_cli_flow flow_id fs).1 ≡ rows_of other fs
unfolding consume_cli_flow
rows_of-consume other flow_id [] = refl
rows_of-consume other flow_id (f ∷ fs) = ground (arith, rows_of-consume other flow_id fs)

pub rows_of-approve :
    (other now flow_id user provider : ℕ) (fs : List CliLoginFlow)
    → rows_of other (approve_cli_flow now flow_id user provider fs).1 ≡ rows_of other fs
unfolding approve_cli_flow
rows_of-approve other now flow_id user provider [] = refl
rows_of-approve other now flow_id user provider (f ∷ fs) =
    ground (arith, rows_of-approve other now flow_id user provider fs)

pub rows_of-fail :
    (other now flow_id : ℕ) (fs : List CliLoginFlow)
    → rows_of other (fail_write now flow_id fs) ≡ rows_of other fs
unfolding fail_write
rows_of-fail other now flow_id [] = refl
rows_of-fail other now flow_id (f ∷ fs) = ground (arith, rows_of-fail other now flow_id fs)

live_of-consume :
    (other flow_id : ℕ) (fs : List CliLoginFlow)
    → live_of other (consume_cli_flow flow_id fs).1
        + (if flow_id == other then count (λ f. f.id == flow_id && is_approved f.status) fs else 0)
      ≡ live_of other fs
unfolding consume_cli_flow
live_of-consume other flow_id [] = ground arith
live_of-consume other flow_id (f ∷ fs) = ground (arith, live_of-consume other flow_id fs)

pub live_of-approve :
    (other now flow_id user provider : ℕ) (fs : List CliLoginFlow)
    → live_of other (approve_cli_flow now flow_id user provider fs).1 ≡ live_of other fs
unfolding approve_cli_flow
live_of-approve other now flow_id user provider [] = refl
live_of-approve other now flow_id user provider (f ∷ fs) =
    ground (arith, live_of-approve other now flow_id user provider fs)

pub live_of-fail :
    (other now flow_id : ℕ) (fs : List CliLoginFlow)
    → live_of other (fail_write now flow_id fs) ≤ live_of other fs
unfolding fail_write
live_of-fail other now flow_id [] = omega arith
live_of-fail other now flow_id (f ∷ fs) = ground (arith, live_of-fail other now flow_id fs)

has_self : (g : Grant) (gs : List Grant) → has g (g ∷ gs) ≡ true
has_self g gs = ground arith

has-cons : (g h : Grant) (gs : List Grant) → has g gs ≡ true → has g (h ∷ gs) ≡ true
has-cons g h gs p = ground (arith, p)

pub All-has-cons :
    (h : Grant) (approvals gs : List Grant)
    → All (λ g. has g approvals ≡ true) gs
    → All (λ g. has g (h ∷ approvals) ≡ true) gs
All-has-cons h approvals [] p = tt
All-has-cons h approvals (g ∷ gs) (p, ps) =
    (has-cons g h approvals p, All-has-cons h approvals gs ps)

pub All-get_elem? {ℓ κ} :
    {A : Type ℓ} (P : A → Type κ) (xs : List A) (i : ℕ) (x : A)
    → All P xs
    → get_elem? xs i ≡ some x
    → P x
All-get_elem? P [] i x p h = cc
All-get_elem? P (y ∷ ys) zero x (p, ps) h = subst P (cc) p
All-get_elem? P (y ∷ ys) (suc i) x (p, ps) h = All-get_elem? P ys i x ps h

pub rows-consume :
    (approvals : List Grant) (flow_id : ℕ) (fs : List CliLoginFlow)
    → All (λ f. row_backed approvals f ≡ true) fs
    → All (λ f. row_backed approvals f ≡ true) (consume_cli_flow flow_id fs).1
unfolding consume_cli_flow
rows-consume approvals flow_id [] p = tt
rows-consume approvals flow_id (f ∷ fs) (p, ps) =
    (ground (arith, p), rows-consume approvals flow_id fs ps)

pub rows-fail :
    (approvals : List Grant) (now flow_id : ℕ) (fs : List CliLoginFlow)
    → All (λ f. row_backed approvals f ≡ true) fs
    → All (λ f. row_backed approvals f ≡ true) (fail_write now flow_id fs)
unfolding fail_write
rows-fail approvals now flow_id [] p = tt
rows-fail approvals now flow_id (f ∷ fs) (p, ps) =
    (ground (arith, p), rows-fail approvals now flow_id fs ps)

row_backed-cons :
    (g : Grant) (approvals : List Grant) (f : CliLoginFlow)
    → row_backed approvals f ≡ true
    → row_backed (g ∷ approvals) f ≡ true
row_backed-cons g approvals f p = ground (arith, p)

pub rows-approve :
    (approvals : List Grant) (now provider : ℕ) (g : Grant) (fs : List CliLoginFlow)
    → All (λ f. row_backed approvals f ≡ true) fs
    → All
        (λ f. row_backed (g ∷ approvals) f ≡ true)
        (approve_cli_flow now g.flow_id g.user_id provider fs).1
unfolding approve_cli_flow
rows-approve approvals now provider g [] p = tt
rows-approve approvals now provider g (f ∷ fs) (p, ps) =
    (ground (arith, row_backed-cons g approvals f p), rows-approve approvals now provider g fs ps)

flow_of-backed :
    (approvals : List Grant) (flow_id : ℕ) (fs : List CliLoginFlow) {flow : CliLoginFlow}
    → All (λ f. row_backed approvals f ≡ true) fs
    → flow_of flow_id fs ≡ some flow
    → (row_backed approvals flow ≡ true) × (flow.id ≡ flow_id)
flow_of-backed approvals flow_id [] p h = cc
flow_of-backed approvals flow_id (f ∷ fs) {flow} (p, ps) h =
    ground (arith, p, h, flow_of-backed approvals flow_id fs {flow = flow} ps)

user_of-id :
    (id : ℕ) (users : List User) {user : User} → user_of (some id) users ≡ some user → user.id ≡ id
user_of-id id [] h = cc
user_of-id id (u ∷ us) {user} h = ground (arith, h, user_of-id id us {user = user})

user_of-backed :
    (approvals : List Grant) (flow_id : ℕ) (id : Option ℕ) (users : List User) {user : User}
    → backed approvals flow_id id ≡ true
    → user_of id users ≡ some user
    → has (record { flow_id = flow_id; user_id = user.id }) approvals ≡ true
user_of-backed approvals flow_id none users p h = cc
user_of-backed approvals flow_id (some id) users p h = rw (user_of-id id users h) p

-- A request that may go on to exchange a flow has read a user who approved it.
pub exchange_read-has :
    (hash : ℕ → ℕ) (approvals : List Grant) (now flow_id : ℕ) (raw_secret : Option ℕ)
    (users : List User) (fs : List CliLoginFlow) {user : User}
    → All (λ f. row_backed approvals f ≡ true) fs
    → exchange_read hash now flow_id raw_secret users fs ≡ ok user
    → has (record { flow_id = flow_id; user_id = user.id }) approvals ≡ true
unfolding exchange_read
exchange_read-has hash approvals now flow_id raw_secret users fs {user} p h =
    elim (Option-cases (flow_of flow_id fs)) [
      | inl missing ↦ absurd (ground (arith, rw missing at h))
      | inr (flow, found) ↦
          let (b, same) = flow_of-backed approvals flow_id fs p found in
          let h' = rw found at h in
          let owner = user_of-backed approvals flow.id flow.user_id users {user = user} in
          rw (sym same) (owner (ground (arith, b, h')) (ground (arith, h')))
    ]

pub has-same :
    (g h : Grant) (gs : List Grant)
    → (h.flow_id == g.flow_id && h.user_id == g.user_id) ≡ true
    → has h gs ≡ true
    → has g gs ≡ true
has-same g h [] e p = cc
has-same g h (k ∷ gs) e p = ground (arith, e, p, has-same g h gs e)

-- The update finds one row: the live rows of that flow become one less.
pub one-consume :
    (other flow_id : ℕ) (fs : List CliLoginFlow)
    → (consume_cli_flow flow_id fs).0 ≡ true
    → live_of other (consume_cli_flow flow_id fs).1 + (if flow_id == other then 1 else 0)
      ≡ live_of other fs
unfolding consume_cli_flow
one-consume other flow_id fs h = ground (arith, h, live_of-consume other flow_id fs)
