-- ===== src/Identity/Tests.antt =====
-- Users, keys and sign-ins at concrete inputs.
pub mod Access
use treadstone.Prelude.{
  ℕ, ◌+◌, ◌*◌, ◌≤◌, ◌≡◌, ◌≢◌, refl, Bool, true, none, some, [], ◌∷◌, ◌==◌, count, arith,
  if◌then◌else◌,
}
use treadstone.Prelude.Text.{Text}
use treadstone.Sandbox.{Sandbox, ready}
use treadstone.Sync.Tests.{row}
use treadstone.Identity.Model.{
  Role, User, pending, used, expired, Accounts, ok, err, auth_required, bad_request, flow_used,
  FlowStatus,
}
use treadstone.Identity.Cli.{
  create_cli_flow, poll_cli_flow, approve_by_session, cli_login_submit, exchange_cli_flow,
  exchange_read, fail_cli_flow, new_flow,
}
use treadstone.Identity.Cli.Race.{
  Grant, System, start, has, grants_of, finish_exchange, finish_approval, create, begin_exchange,
  end_exchange, begin_approval, end_approval, Reach, here, next,
}
use treadstone.Identity.Cli.Safety.{one_token}
use treadstone.Identity.Cli.Exchange.{exchange-approve-create}

abbrev pub hash : ℕ → ℕ
hash n = n * 7

abbrev pub hash_text : Text → ℕ
hash_text [] = 1
hash_text (c ∷ s) = c + 2 * hash_text s

abbrev verify : ℕ → ℕ → Bool
verify password hashed = hash password == hashed

abbrev pub ada : User
ada = record {
  id = 1;
  email = 11;
  hashed_password = 70;
  has_local_password = true;
  is_active = true;
  is_verified = true;
  role = Role.admin;
}

abbrev bob : User
bob = record ada { id = 2; email = 12 }

abbrev pub sandbox : Sandbox
sandbox = record (row ready 1) { id = 5; owner_id = 1; gmt_deleted = none }

abbrev pub db : Accounts
db = record {
  users = ada ∷ bob ∷ [];
  api_keys = [];
  grants = [];
  flows = [];
  sandboxes = sandbox ∷ [];
  audit = [];
}

abbrev pub with_flow : Accounts
with_flow = (create_cli_flow hash 100 9 3 db).1

abbrev signed : Accounts
signed = (approve_by_session hash 200 (some ada) 9 (some 3) with_flow).1

poll_pending : poll_cli_flow hash 200 9 (some 3) with_flow ≡ ok pending
unfolding create_cli_flow poll_cli_flow
poll_pending = refl

poll_expired : poll_cli_flow hash 600000101 9 (some 3) with_flow ≡ ok expired
unfolding create_cli_flow poll_cli_flow
poll_expired = refl

poll_wrong_secret : poll_cli_flow hash 200 9 (some 4) with_flow ≡ err auth_required
unfolding create_cli_flow poll_cli_flow
poll_wrong_secret = refl

submit_wrong_password : (cli_login_submit hash verify 200 11 4 9 3 with_flow).0 ≡ err bad_request
unfolding create_cli_flow cli_login_submit
submit_wrong_password = refl

submit_signs_in :
    (exchange_cli_flow hash 300 9
      (some 3)
      (cli_login_submit hash verify 200 11 10 9 3 with_flow).1).0
    ≡ ok 1
unfolding create_cli_flow cli_login_submit exchange_cli_flow
submit_signs_in = refl

exchange_first : (exchange_cli_flow hash 300 9 (some 3) signed).0 ≡ ok 1
unfolding create_cli_flow approve_by_session exchange_cli_flow
exchange_first = refl

exchange_twice :
    (exchange_cli_flow hash 301 9 (some 3) (exchange_cli_flow hash 300 9 (some 3) signed).1).0
    ≡ err flow_used
unfolding create_cli_flow approve_by_session exchange_cli_flow
exchange_twice = refl

fail_pending :
    poll_cli_flow hash 200 9
      (some 3)
      (record with_flow { flows = fail_cli_flow 150 9 with_flow.flows })
    ≡ ok FlowStatus.failed
unfolding create_cli_flow poll_cli_flow fail_cli_flow
fail_pending = refl

exchange-approve-create_example :
    ((approve_by_session hash 200 (some ada) 9 (some 3) with_flow).0 ≡ ok tt)
    × ((exchange_cli_flow hash 300 9 (some 3) signed).0 ≡ ok 1)
unfolding create_cli_flow
exchange-approve-create_example =
    exchange-approve-create hash 100 200 300 9 3 ada db (λ e. absurd (omega (arith, e))) refl refl
      (omega arith)

-- A flow is created, two clients read that Ada has approved it, and both try to exchange it.
abbrev created : System
created = record start { flows = new_flow hash 100 9 3 ∷ [] }

abbrev grant : Grant
grant = record { flow_id = 9; user_id = 1 }

abbrev approving : System
approving = record created { approving = grant ∷ [] }

abbrev approved : System
approved = finish_approval 200 2 grant approving

abbrev one_reads : System
one_reads = record approved { exchanging = grant ∷ [] }

abbrev both_read : System
both_read = record one_reads { exchanging = grant ∷ grant ∷ [] }

abbrev one_done : System
one_done = finish_exchange grant both_read

abbrev both_done : System
both_done = finish_exchange grant one_done

raced : Reach hash both_done
unfolding new_flow finish_approval finish_exchange exchange_read
    treadstone.Identity.Cli.approve_read
raced =
    next
      (next
        (next
          (next
            (next
              (next (next here (create start 100 9 3 refl))
                (begin_approval created 150 9 1 (some 3) refl))
              (end_approval approving 200 2 0 grant refl))
            (begin_exchange approved 300 9 (some 3) (ada ∷ []) ada refl))
          (begin_exchange one_reads 301 9 (some 3) (ada ∷ []) ada refl))
        (end_exchange both_read 0 grant refl))
      (end_exchange one_done 1 grant refl)

one_token_example :
    (grants_of 9 both_done.tokens ≤ 1)
    × (has grant both_done.tokens ≡ true → has grant both_done.approvals ≡ true)
one_token_example = one_token hash 9 grant raced

-- One of the two has a token.
raced_token : grants_of 9 both_done.tokens ≡ 1
unfolding new_flow finish_approval finish_exchange
raced_token = refl
