-- ===== src/Identity/Cli/Race.antt =====
-- Requests on CLI login flows that overlap: each reads the flow in one step and writes it in another,
-- an update with its condition being one step of the database. A request that has read stays on its
-- list, so it may also write again, which the code does not do. Rows of flows are not deleted.
use treadstone.Prelude.{
  ℕ, ◌≡◌, Bool, true, false, Option, none, some, List, [], ◌∷◌, ◌&&◌, ◌||◌, ◌==◌, zero, suc, count,
  if◌then◌else◌,
}
use treadstone.Identity.Model.{User, CliLoginFlow, ok}
use treadstone.Identity.Cli.{
  new_flow, flow_of, exchange_read, consume_cli_flow, approve_read, approve_cli_flow,
  validate_cli_flow_pending, can_fail, fail_write,
}

abbrev pub get_elem? {ℓ} : {A : Type ℓ} → List A → ℕ → Option A
get_elem? [] i = none
get_elem? (x ∷ xs) zero = some x
get_elem? (x ∷ xs) (suc i) = get_elem? xs i

-- A flow and a user.
pub record Grant : Type 0 where
  pub flow_id : ℕ
  pub user_id : ℕ

-- The requests that have read and not yet written, and what the writes have done: which users
-- approved which flows, and which tokens were handed out.
pub record System : Type 0 where
  pub flows : List CliLoginFlow
  pub exchanging : List Grant
  pub approving : List Grant
  pub failing : List ℕ
  pub approvals : List Grant
  pub tokens : List Grant

abbrev pub start : System
start = record {
  flows = [];
  exchanging = [];
  approving = [];
  failing = [];
  approvals = [];
  tokens = [];
}

abbrev pub rows_of : ℕ → List CliLoginFlow → ℕ
rows_of flow_id = count (λ f. f.id == flow_id)

abbrev pub grants_of : ℕ → List Grant → ℕ
grants_of flow_id = count (λ g. g.flow_id == flow_id)

abbrev pub has : Grant → List Grant → Bool
has g [] = false
has g (h ∷ hs) = (h.flow_id == g.flow_id && h.user_id == g.user_id) || has g hs

unfoldable pub finish_exchange : Grant → System → System
unfolding consume_cli_flow
finish_exchange g s =
    let done = consume_cli_flow g.flow_id s.flows in
    if done.0 then record s { flows = done.1; tokens = g ∷ s.tokens } else s

unfoldable pub finish_approval : ℕ → ℕ → Grant → System → System
unfolding approve_cli_flow
finish_approval now provider g s =
    let done = approve_cli_flow now g.flow_id g.user_id provider s.flows in
    if done.0 then record s { flows = done.1; approvals = g ∷ s.approvals } else s

module _ (hash_flow_secret : ℕ → ℕ) where
  -- The id of a new flow is random, and its column a primary key. A user comes to approve by the
  -- password or the session, with the secret, or back from an OAuth provider, without it. Clocks
  -- may differ from step to step.
  pub data Step : System → System → Type 0 where
    create :
        (s : System) (now flow_id raw_secret : ℕ)
        → rows_of flow_id s.flows ≡ 0
        → Step s (record s { flows = new_flow hash_flow_secret now flow_id raw_secret ∷ s.flows })
    begin_exchange :
        (s : System) (now flow_id : ℕ) (raw_secret : Option ℕ) (users : List User) (user : User)
        → exchange_read hash_flow_secret now flow_id raw_secret users s.flows ≡ ok user
        → Step s (record s {
          exchanging = record { flow_id = flow_id; user_id = user.id } ∷ s.exchanging;
        })
    end_exchange :
        (s : System) (i : ℕ) (g : Grant)
        → get_elem? s.exchanging i ≡ some g
        → Step s (finish_exchange g s)
    begin_approval :
        (s : System) (now flow_id user : ℕ) (raw_secret : Option ℕ)
        → approve_read hash_flow_secret now flow_id raw_secret s.flows ≡ ok tt
        → Step s
            (record s { approving = record { flow_id = flow_id; user_id = user } ∷ s.approving })
    begin_oauth :
        (s : System) (now flow_id user : ℕ)
        → validate_cli_flow_pending hash_flow_secret now flow_id none s.flows ≡ ok tt
        → Step s
            (record s { approving = record { flow_id = flow_id; user_id = user } ∷ s.approving })
    end_approval :
        (s : System) (now provider i : ℕ) (g : Grant)
        → get_elem? s.approving i ≡ some g
        → Step s (finish_approval now provider g s)
    begin_failure :
        (s : System) (flow_id : ℕ)
        → can_fail (flow_of flow_id s.flows) ≡ true
        → Step s (record s { failing = flow_id ∷ s.failing })
    end_failure :
        (s : System) (now i flow_id : ℕ)
        → get_elem? s.failing i ≡ some flow_id
        → Step s (record s { flows = fail_write now flow_id s.flows })

  pub data Reach : System → Type 0 where
    here : Reach start
    next : {s t : System} → Reach s → Step s t → Reach t
