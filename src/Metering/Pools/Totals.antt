-- ===== src/Metering/Pools/Totals.antt =====
-- The plan of a user in the table, and the queries that find it.
use treadstone.Prelude.{ℕ, ◌≡◌, ◌≢◌, refl, List, [], ◌∷◌, some, arith}
use treadstone.Prelude.Int.{ℤ}
use treadstone.Metering.Model.{UserPlan, ComputeGrant, Tables, Env, ok}
use treadstone.Metering.Plans.{
  plan_of, put_plan, get_user_plan, get_user_plan_for_update, ensure_user_plan,
}
use treadstone.Metering.Pools.{consume_from}

pub plan_of-user :
    (user : ℕ) (ps : List UserPlan) {p : UserPlan} → plan_of user ps ≡ some p → p.user_id ≡ user
plan_of-user user [] h = cc
plan_of-user user (q ∷ qs) {p} h = ground (arith, h, plan_of-user user qs {p = p})

pub plan_of-put_plan :
    (user : ℕ) (p : UserPlan) (ps : List UserPlan) {q : UserPlan}
    → p.user_id ≡ user
    → plan_of user ps ≡ some q
    → plan_of user (put_plan p ps) ≡ some p
plan_of-put_plan user p [] e h = cc
plan_of-put_plan user p (x ∷ xs) {q} e h =
    ground (arith, e, h, plan_of-put_plan user p xs {q = q} e)

pub plan_of-put_plan_ne :
    (user : ℕ) (p : UserPlan) (ps : List UserPlan)
    → p.user_id ≢ user
    → plan_of user (put_plan p ps) ≡ plan_of user ps
plan_of-put_plan_ne user p [] e = refl
plan_of-put_plan_ne user p (x ∷ xs) e = ground (arith, e, plan_of-put_plan_ne user p xs e)

pub consume_from-user :
    (env : Env) (plan : UserPlan) (grants : List ComputeGrant) (amount : ℤ)
    → (consume_from env plan grants amount).plan.user_id ≡ plan.user_id
unfolding consume_from
consume_from-user env plan grants amount = ground arith

pub get_user_plan_for_update_lem :
    (env : Env) (user : ℕ) (t : Tables) (plan : UserPlan)
    → plan_of user t.plans ≡ some plan
    → get_user_plan_for_update env user t ≡ (ok plan, t)
unfolding get_user_plan_for_update
get_user_plan_for_update_lem env user t plan found = ground (arith, found)

pub get_user_plan_lem :
    (env : Env) (user : ℕ) (t : Tables) (plan : UserPlan)
    → plan_of user t.plans ≡ some plan
    → get_user_plan env user t ≡ (ok plan, t)
unfolding get_user_plan ensure_user_plan
get_user_plan_lem env user t plan found = ground (arith, found)
