-- ===== src/Identity/Cli/Safety.antt =====
-- One token for a flow, and for the user who approved it, however the requests overlap.
use treadstone.Prelude.{
  ℕ, ◌+◌, ◌≤◌, ◌≡◌, refl, true, List, [], ◌∷◌, All, arith, Bool-cases, inl, inr, sym, ◌∙◌,
}
use treadstone.Identity.Cli.{new_flow, approve_cli_flow, consume_cli_flow}
use treadstone.Identity.Cli.Rows.{
  live_of, row_backed, rows_of-live, rows_of-consume, rows_of-approve, rows_of-fail,
  live_of-approve, live_of-fail, All-has-cons, All-get_elem?, rows-consume, rows-fail, rows-approve,
  exchange_read-has, has-same, one-consume,
}
use treadstone.Identity.Cli.Race.{
  Grant, System, rows_of, grants_of, has, finish_exchange, finish_approval, Step, create,
  begin_exchange, end_exchange, begin_approval, begin_oauth, end_approval, begin_failure,
  end_failure, Reach, here, next,
}

record Inv (s : System) : Type 0 where
  once : (flow_id : ℕ) → grants_of flow_id s.tokens + live_of flow_id s.flows ≤ 1
  known : (flow_id : ℕ) → rows_of flow_id s.flows ≡ 0 → grants_of flow_id s.tokens ≡ 0
  rows : All (λ f. row_backed s.approvals f ≡ true) s.flows
  reads : All (λ g. has g s.approvals ≡ true) s.exchanging
  given : All (λ g. has g s.approvals ≡ true) s.tokens

finish_exchange-Inv :
    (g : Grant) {s : System} → has g s.approvals ≡ true → Inv s → Inv (finish_exchange g s)
unfolding finish_exchange
finish_exchange-Inv g {s} p v = elim (Bool-cases (consume_cli_flow g.flow_id s.flows).0) [
  | inl h ↦ rw h (record {
    once = λ other. ground (arith, v.once other, one-consume other g.flow_id s.flows h);
    known = λ other n. ground (
      arith,
      n,
      v.known other,
      v.once other,
      rows_of-consume other g.flow_id s.flows,
      rows_of-live other s.flows,
      one-consume other g.flow_id s.flows h,
    );
    rows = rows-consume s.approvals g.flow_id s.flows v.rows;
    reads = v.reads;
    given = (p, v.given);
  })
  | inr h ↦ rw h v
]

finish_approval-Inv :
    (now provider : ℕ) (g : Grant) {s : System} → Inv s → Inv (finish_approval now provider g s)
unfolding finish_approval
finish_approval-Inv now provider g {s} v =
    elim (Bool-cases (approve_cli_flow now g.flow_id g.user_id provider s.flows).0) [
      | inl h ↦ rw h (record {
        once = λ other.
            rw (live_of-approve other now g.flow_id g.user_id provider s.flows) (v.once other);
        known = λ other n.
            v.known other
              (sym (rows_of-approve other now g.flow_id g.user_id provider s.flows) ∙ n);
        rows = rows-approve s.approvals now provider g s.flows v.rows;
        reads = All-has-cons g s.approvals s.exchanging v.reads;
        given = All-has-cons g s.approvals s.tokens v.given;
      })
      | inr h ↦ rw h v
    ]

module _ (hash_flow_secret : ℕ → ℕ) where
  Step-Inv : {s t : System} → Step hash_flow_secret s t → Inv s → Inv t
  unfolding new_flow
  Step-Inv (create s now flow_id raw_secret fresh) v = record {
    once = λ other. ground (arith, v.once other, v.known other, fresh, rows_of-live other s.flows);
    known = λ other n. ground (arith, v.known other, n);
    rows = (refl, v.rows);
    reads = v.reads;
    given = v.given;
  }
  Step-Inv (begin_exchange s now flow_id raw_secret users user read) v = record {
    once = v.once;
    known = v.known;
    rows = v.rows;
    reads = (
      exchange_read-has hash_flow_secret s.approvals now flow_id raw_secret users s.flows v.rows
          read,
      v.reads,
    );
    given = v.given;
  }
  Step-Inv (end_exchange s i g at) v =
      finish_exchange-Inv g
        (All-get_elem? (λ g. has g s.approvals ≡ true) s.exchanging i g v.reads at) v
  Step-Inv (begin_approval s now flow_id user raw_secret read) v = record {
    once = v.once;
    known = v.known;
    rows = v.rows;
    reads = v.reads;
    given = v.given;
  }
  Step-Inv (begin_oauth s now flow_id user read) v = record {
    once = v.once;
    known = v.known;
    rows = v.rows;
    reads = v.reads;
    given = v.given;
  }
  Step-Inv (end_approval s now provider i g at) v = finish_approval-Inv now provider g v
  Step-Inv (begin_failure s flow_id can) v = record {
    once = v.once;
    known = v.known;
    rows = v.rows;
    reads = v.reads;
    given = v.given;
  }
  Step-Inv (end_failure s now i flow_id at) v = record {
    once = λ other. ground (arith, v.once other, live_of-fail other now flow_id s.flows);
    known = λ other n. v.known other (sym (rows_of-fail other now flow_id s.flows) ∙ n);
    rows = rows-fail s.approvals now flow_id s.flows v.rows;
    reads = v.reads;
    given = v.given;
  }

  Reach-Inv : {s : System} → Reach hash_flow_secret s → Inv s
  Reach-Inv here = record {
    once = λ other. omega arith;
    known = λ other n. refl;
    rows = tt;
    reads = tt;
    given = tt;
  }
  Reach-Inv (next r st) = Step-Inv st (Reach-Inv r)

has-All :
    (g : Grant) (approvals gs : List Grant)
    → All (λ h. has h approvals ≡ true) gs
    → has g gs ≡ true
    → has g approvals ≡ true
has-All g approvals [] p h = cc
has-All g approvals (k ∷ gs) (p, ps) h = elim (Bool-cases (has g gs)) [
  | inl later ↦ has-All g approvals gs ps later
  | inr no_later ↦ has-same g k approvals (ground (arith, h, no_later)) p
]

-- A CLI login flow gives at most one session token, and only to a user who approved that flow, in
-- every state that requests can reach, however their reads and writes interleave: exchanges and
-- approvals by several clients, logins through a provider, and logins that fail.
pub one_token :
    (hash_flow_secret : ℕ → ℕ) (flow_id : ℕ) (g : Grant) {s : System}
    → Reach hash_flow_secret s
    → (grants_of flow_id s.tokens ≤ 1) × (has g s.tokens ≡ true → has g s.approvals ≡ true)
one_token hash_flow_secret flow_id g {s} r =
    let v = Reach-Inv hash_flow_secret r in
    (ground (arith, v.once flow_id), λ h. has-All g s.approvals s.tokens v.given h)
