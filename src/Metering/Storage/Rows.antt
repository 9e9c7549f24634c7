-- ===== src/Metering/Storage/Rows.antt =====
-- How the operations of the ledger change the active rows of every sandbox.
use treadstone.Prelude.{
  ℕ, ◌+◌, ◌-◌, ◌≤◌, ◌≡◌, ◌≢◌, refl, true, false, none, some, List, [], ◌∷◌, arith, ◌==◌, ==_iff,
  max, Bool-cases, Option-cases, inl, inr, if◌then◌else◌,
}
use treadstone.Metering.Model.{StorageLedger, Tables, Env, ok}
use treadstone.Sandbox.{StorageBackendMode}
use treadstone.Metering.Storage.{
  is_active, active_count, active_ledger, put_active, new_ledger, with_mode, set_mode,
  record_storage_allocation, record_storage_release, released, sum_active, get_current_storage_used,
}

pub active_ledger-some :
    (sandbox : ℕ) (xs : List StorageLedger) {l : StorageLedger}
    → active_ledger sandbox xs ≡ some l
    → (l.sandbox_id ≡ sandbox) × (is_active l.storage_state ≡ true) × (1 ≤ active_count sandbox xs)
active_ledger-some sandbox [] h = cc
active_ledger-some sandbox (x ∷ xs) {l} h = ground (arith, h, active_ledger-some sandbox xs {l = l})

active_ledger-none :
    (sandbox : ℕ) (xs : List StorageLedger)
    → active_ledger sandbox xs ≡ none
    → active_count sandbox xs ≡ 0
active_ledger-none sandbox [] h = refl
active_ledger-none sandbox (x ∷ xs) h = ground (arith, h, active_ledger-none sandbox xs)

-- A row put back in the place of the active one: its own count, the others', and the sums.
module _ (sandbox : ℕ) (l' : StorageLedger) where
  put_active-count :
      (other : ℕ) (xs : List StorageLedger)
      → l'.sandbox_id ≡ sandbox
      → is_active l'.storage_state ≡ true
      → active_count other (put_active sandbox l' xs) ≡ active_count other xs
  put_active-count other [] s a = refl
  put_active-count other (x ∷ xs) s a = ground (arith, s, a, put_active-count other xs s a)

  put_active-ended :
      (xs : List StorageLedger)
      → l'.sandbox_id ≡ sandbox
      → is_active l'.storage_state ≡ false
      → active_count sandbox (put_active sandbox l' xs) ≡ active_count sandbox xs - 1
  put_active-ended [] s a = refl
  put_active-ended (x ∷ xs) s a = ground (arith, s, a, put_active-ended xs s a)

  put_active-other :
      (other : ℕ) (xs : List StorageLedger)
      → l'.sandbox_id ≡ sandbox
      → other ≢ sandbox
      → active_count other (put_active sandbox l' xs) ≡ active_count other xs
  put_active-other other [] s n = refl
  put_active-other other (x ∷ xs) s n = ground (arith, s, n, put_active-other other xs s n)

  put_active-dropped :
      (other : ℕ) (xs : List StorageLedger)
      → l'.sandbox_id ≡ sandbox
      → is_active l'.storage_state ≡ false
      → active_count other (put_active sandbox l' xs)
        ≡ (if other == sandbox then active_count sandbox xs - 1 else active_count other xs)
  put_active-dropped other xs s a = elim (Bool-cases (other == sandbox)) [
    | inl h ↦ rw (h, (==_iff other sandbox).0 h) (put_active-ended xs s a)
    | inr h ↦ rw h (put_active-other other xs s (ground (arith, h)))
  ]

  put_active-sum :
      (user : ℕ) (xs : List StorageLedger) {l : StorageLedger}
      → active_ledger sandbox xs ≡ some l
      → is_active l'.storage_state ≡ false
      → sum_active user (put_active sandbox l' xs) + (if l.user_id == user then l.size_gib else 0)
        ≡ sum_active user xs
  put_active-sum user [] h a = cc
  put_active-sum user (x ∷ xs) {l} h a = ground (arith, h, a, put_active-sum user xs {l = l})

-- Recording an allocation leaves the sandbox with at least one active row, and creates one only
-- where it had none; no other sandbox's active rows change.
active_count-record_storage_allocation :
    (env : Env) (user sandbox size other : ℕ) (mode : StorageBackendMode) (t : Tables)
    → active_count other (record_storage_allocation env user sandbox size mode t).1.ledger ≡ (
        if other == sandbox
        then max (active_count sandbox t.ledger) 1
        else active_count other t.ledger)
unfolding record_storage_allocation set_mode
active_count-record_storage_allocation env user sandbox size other mode t =
    elim (Option-cases (active_ledger sandbox t.ledger)) [
      | inl missing ↦ rw missing (ground (arith, active_ledger-none sandbox t.ledger missing))
      | inr (l, found) ↦
          let (s, a, one) = active_ledger-some sandbox t.ledger found in
          let kept = put_active-count sandbox (with_mode env mode l) other t.ledger s a in
          rw found (ground (arith, one, kept))
    ]

-- Releasing ends one of the sandbox's active rows, and changes no other sandbox's.
active_count-record_storage_release :
    (env : Env) (sandbox other : ℕ) (t : Tables)
    → active_count other (record_storage_release env sandbox t).1.ledger ≡ (
        if other == sandbox then active_count sandbox t.ledger - 1 else active_count other t.ledger)
unfolding record_storage_release
active_count-record_storage_release env sandbox other t =
    elim (Option-cases (active_ledger sandbox t.ledger)) [
      | inl missing ↦ rw missing (ground (arith, active_ledger-none sandbox t.ledger missing))
      | inr (l, found) ↦
          let (s, a, one) = active_ledger-some sandbox t.ledger found in
          rw found (put_active-dropped sandbox (released env l) other t.ledger s refl)
    ]

-- What a user holds falls by the size of the released row where the row is the user's.
release-sum :
    (env : Env) (user sandbox : ℕ) (t : Tables) (l : StorageLedger)
    → active_ledger sandbox t.ledger ≡ some l
    → get_current_storage_used user (record_storage_release env sandbox t).1
        + (if l.user_id == user then l.size_gib else 0)
      ≡ get_current_storage_used user t
unfolding record_storage_release get_current_storage_used
release-sum env user sandbox t l found =
    rw found (put_active-sum sandbox (released env l) user t.ledger found refl)

-- Releasing undoes allocating: where the sandbox had no active row, the storage that any user holds
-- is the same after the pair of calls as before, and the released row has the size, the owner and
-- the mode that were asked for.
release-allocate :
    (env env' : Env) (user sandbox size holder : ℕ) (mode : StorageBackendMode) (t : Tables)
    → active_ledger sandbox t.ledger ≡ none
    → (get_current_storage_used holder
          (record_storage_release env' sandbox
            (record_storage_allocation env user sandbox size mode t).1).1
        ≡ get_current_storage_used holder t)
      × ((record_storage_release env' sandbox
            (record_storage_allocation env user sandbox size mode t).1).0
          ≡ ok (some (released env' (new_ledger env user sandbox size mode))))
unfolding record_storage_release record_storage_allocation get_current_storage_used
release-allocate env env' user sandbox size holder mode t missing =
    let here : (sandbox == sandbox) ≡ true = ground arith in
    rw missing (rw here (ground arith, refl))
