-- ===== src/Service/History.antt =====
-- The commits of a call, as steps of the row.
use treadstone.Prelude.{
  ℕ, ◌+◌, ◌≡◌, refl, Bool, true, false, ◌&&◌, ◌||◌, none, some, List, [], ◌∷◌, ◌⊎◌, inl, inr, arith,
  ◌==◌, ap, Option-cases, ◌∙◌,
}
use treadstone.Sandbox.{SandboxStatus, Sandbox, PendingOperation, same_status, is_valid_transition}
use treadstone.Metering.Model.{Tables, Env}
use treadstone.Cold.Parked.{is_parked}
use treadstone.Service.{
  sandbox_not_found, invalid_transition, Switches, Answers, refuse, find_owned, on_found,
}
use treadstone.Service.Start.{start_found, start, resume}
use treadstone.Service.Stop.{stop_found, stop, suspend, snapshot_found, snapshot}
use treadstone.Service.Delete.{delete_found, delete, delete_cold, delete_live}

-- One commit: the status stays or moves along `VALID_TRANSITIONS`, or as `escapes` says; the
-- version goes up by one, a pending operation stays with the status that it is for, and the row
-- keeps its id and its owner.
abbrev pub is_commit : (SandboxStatus → SandboxStatus → Bool) → Sandbox → Sandbox → Bool
is_commit escapes s s' =
    (same_status s.status s'.status
      || (is_valid_transition s.status s'.status || escapes s.status s'.status))
    && (s'.version == s.version + 1
        && (is_parked s'.pending_operation s'.status
            && (s'.id == s.id && s'.owner_id == s.owner_id)))

-- Each commit follows on the one before.
abbrev pub is_history : (SandboxStatus → SandboxStatus → Bool) → Sandbox → List Sandbox → Bool
is_history escapes s [] = true
is_history escapes s (s' ∷ ss) = is_commit escapes s s' && is_history escapes s' ss

abbrev pub never : SandboxStatus → SandboxStatus → Bool
never s s' = false

abbrev pub deleting_fails : SandboxStatus → SandboxStatus → Bool
deleting_fails SandboxStatus.deleting SandboxStatus.error = true
deleting_fails _ _ = false

start_found-history :
    (env : Env) (switches : Switches) (a : Answers) (rows : List Sandbox) (s : Sandbox) (t : Tables)
    → is_history never s (start_found env switches a rows s t).commits ≡ true
unfolding start_found resume is_valid_transition
start_found-history env switches a rows s t = ground arith

stop_found-history :
    (env : Env) (switches : Switches) (a : Answers) (s : Sandbox) (t : Tables)
    → is_history never s (stop_found env switches a s t).commits ≡ true
unfolding stop_found suspend is_valid_transition
stop_found-history env switches a s t = ground arith

snapshot_found-history :
    (env : Env) (switches : Switches) (a : Answers) (s : Sandbox) (t : Tables)
    → is_history never s (snapshot_found env switches a s t).commits ≡ true
unfolding snapshot_found stop_found suspend is_valid_transition
snapshot_found-history env switches a s t = ground arith

delete_found-history :
    (env : Env) (switches : Switches) (a : Answers) (s : Sandbox) (t : Tables)
    → is_history deleting_fails s (delete_found env switches a s t).commits ≡ true
unfolding delete_found delete_cold delete_live is_valid_transition
delete_found-history env switches a s t = ground arith

find_owned-found :
    (sandbox_id owner_id : ℕ) (rows : List Sandbox) (s : Sandbox)
    → find_owned sandbox_id owner_id rows ≡ some s
    → (s.id ≡ sandbox_id) × ((s.owner_id ≡ owner_id) × (s.gmt_deleted ≡ none))
unfolding find_owned
find_owned-found sandbox_id owner_id [] s h = ground (arith, h)
find_owned-found sandbox_id owner_id (x ∷ xs) s h =
    let rest = find_owned-found sandbox_id owner_id xs s in ground (arith, h, rest)

module _ (env : Env) (switches : Switches) (a : Answers) (sandbox_id owner_id : ℕ)
    (rows : List Sandbox) (t : Tables) (s : Sandbox)
    (found : find_owned sandbox_id owner_id rows ≡ some s) where
  start-found :
      start env switches a sandbox_id owner_id rows t ≡ start_found env switches a rows s t
  unfolding start
  start-found = ap (λ o. on_found o t (λ r. start_found env switches a rows r t)) found

  stop-found : stop env switches a sandbox_id owner_id rows t ≡ stop_found env switches a s t
  unfolding stop
  stop-found = ap (λ o. on_found o t (λ r. stop_found env switches a r t)) found

  snapshot-found :
      snapshot env switches a sandbox_id owner_id rows t ≡ snapshot_found env switches a s t
  unfolding snapshot
  snapshot-found = ap (λ o. on_found o t (λ r. snapshot_found env switches a r t)) found

  delete-found : delete env switches a sandbox_id owner_id rows t ≡ delete_found env switches a s t
  unfolding delete
  delete-found = ap (λ o. on_found o t (λ r. delete_found env switches a r t)) found

  -- Each call of the owner of a sandbox commits a history of its row, whatever the cluster
  -- answers: from commit to commit the id and the owner stay, the version goes up by one, the
  -- status stays or moves along `VALID_TRANSITIONS`, but that a failed deletion goes from
  -- `deleting` to `error`, and a pending operation stays with the status that it is for.
  pub calls-history :
      is_history never s (start env switches a sandbox_id owner_id rows t).commits ≡ true
      × (is_history never s (stop env switches a sandbox_id owner_id rows t).commits ≡ true
          × (is_history never s (snapshot env switches a sandbox_id owner_id rows t).commits ≡ true
              × (is_history deleting_fails s
                    (delete env switches a sandbox_id owner_id rows t).commits
                  ≡ true)))
  calls-history = (
    ap (λ c. is_history never s c.commits) start-found
        ∙ start_found-history env switches a rows s t,
    (
      ap (λ c. is_history never s c.commits) stop-found ∙ stop_found-history env switches a s t,
      (
        ap (λ c. is_history never s c.commits) snapshot-found
            ∙ snapshot_found-history env switches a s t,
        ap (λ c. is_history deleting_fails s c.commits) delete-found
            ∙ delete_found-history env switches a s t,
      ),
    ),
  )

  start_found-pending :
      (o : PendingOperation)
      → s.pending_operation ≡ some o
      → start_found env switches a rows s t ≡ refuse invalid_transition t
  unfolding start_found
  start_found-pending o h = rw h refl

  stop_found-pending :
      (o : PendingOperation)
      → s.pending_operation ≡ some o
      → stop_found env switches a s t ≡ refuse invalid_transition t
  unfolding stop_found
  stop_found-pending o h = rw h refl

  delete_found-pending :
      (o : PendingOperation)
      → s.pending_operation ≡ some o
      → delete_found env switches a s t ≡ refuse invalid_transition t
  unfolding delete_found
  delete_found-pending o h = rw h refl

  snapshot_found-pending :
      (o : PendingOperation)
      → s.pending_operation ≡ some o
      → s.persist && s.is_direct ≡ true
      → snapshot_found env switches a s t ≡ refuse invalid_transition t
  unfolding snapshot_found
  snapshot_found-pending o h d = rw (h, d) refl

  -- While an operation is pending on a persistent direct sandbox, every call of its owner is
  -- refused as an invalid transition and changes nothing.
  calls-pending :
      (o : PendingOperation)
      → s.pending_operation ≡ some o
      → s.persist && s.is_direct ≡ true
      → (start env switches a sandbox_id owner_id rows t ≡ refuse invalid_transition t)
        × ((stop env switches a sandbox_id owner_id rows t ≡ refuse invalid_transition t)
            × ((snapshot env switches a sandbox_id owner_id rows t ≡ refuse invalid_transition t)
                × (delete env switches a sandbox_id owner_id rows t ≡ refuse invalid_transition t)))
  calls-pending o h d = (
    start-found ∙ start_found-pending o h,
    (
      stop-found ∙ stop_found-pending o h,
      (snapshot-found ∙ snapshot_found-pending o h d, delete-found ∙ delete_found-pending o h),
    ),
  )

-- A call on the sandbox of somebody else, or on one that is deleted or not there, is refused and
-- changes nothing; the row that a call does find has the id and the owner that were asked for.
calls-owned :
    (env : Env) (switches : Switches) (a : Answers) (sandbox_id owner_id : ℕ) (rows : List Sandbox)
    (t : Tables)
    → ((s : Sandbox) × ((find_owned sandbox_id owner_id rows ≡ some s)
          × ((s.id ≡ sandbox_id) × (s.owner_id ≡ owner_id))))
      ⊎ ((start env switches a sandbox_id owner_id rows t ≡ refuse sandbox_not_found t)
          × ((stop env switches a sandbox_id owner_id rows t ≡ refuse sandbox_not_found t)
              × ((snapshot env switches a sandbox_id owner_id rows t ≡ refuse sandbox_not_found t)
                  × (delete env switches a sandbox_id owner_id rows t
                      ≡ refuse sandbox_not_found t))))
unfolding start stop snapshot delete
calls-owned env switches a sandbox_id owner_id rows t =
    elim (Option-cases (find_owned sandbox_id owner_id rows)) [
      | inl h ↦ inr (
        ap (λ o. on_found o t (λ r. start_found env switches a rows r t)) h,
        (
          ap (λ o. on_found o t (λ r. stop_found env switches a r t)) h,
          (
            ap (λ o. on_found o t (λ r. snapshot_found env switches a r t)) h,
            ap (λ o. on_found o t (λ r. delete_found env switches a r t)) h,
          ),
        ),
      )
      | inr (s, h) ↦
          let (i, (o, d)) = find_owned-found sandbox_id owner_id rows s h in inl (s, (h, (i, o)))
    ]
