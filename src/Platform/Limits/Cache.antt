-- ===== src/Platform/Limits/Cache.antt =====
-- The snapshot that is kept belongs to the database that a request asks.
use treadstone.Prelude.{
  ℕ, ◌≡◌, refl, true, Option, none, some, List, [], ◌∷◌, subst, arith, Bool-cases, Option-cases,
  inl, inr,
}
use treadstone.Platform.Limits.{
  PlatformLimitsSnapshot, PlatformLimitsRuntime, new_runtime, same_token, refresh_from_session,
  ensure_snapshot, force_refresh, start_runtime, stop_runtime,
}

-- What happens to a runtime, each with what the databases hold at the time.
pub data Event : Type 0 where
  started : (Option ℕ → PlatformLimitsSnapshot) → ℕ → Event
  stopped : Event
  ensured : (Option ℕ → PlatformLimitsSnapshot) → Option ℕ → Event
  refreshed : (Option ℕ → PlatformLimitsSnapshot) → Option ℕ → Event
  ticked : (Option ℕ → PlatformLimitsSnapshot) → Event

pub after : Event → PlatformLimitsRuntime → PlatformLimitsRuntime
after (started read factory) r = start_runtime read factory r
after stopped r = stop_runtime r
after (ensured read token) r = (ensure_snapshot read token r).1
after (refreshed read token) r = (refresh_from_session read token r).1
after (ticked read) r = force_refresh read r

pub run : List Event → PlatformLimitsRuntime → PlatformLimitsRuntime
run [] r = r
run (e ∷ es) r = run es (after e r)

-- A claim about what is read of a database.
abbrev Reads :
    (Option ℕ → PlatformLimitsSnapshot → Type 0) → (Option ℕ → PlatformLimitsSnapshot) → Type 0
Reads P read = (token : Option ℕ) → P token (read token)

same_token-eq : (a b : Option ℕ) → same_token a b ≡ true → a ≡ b
same_token-eq none none h = refl
same_token-eq none (some b) h = cc
same_token-eq (some a) none h = cc
same_token-eq (some a) (some b) h = ground (arith, h)

module _ (P : Option ℕ → PlatformLimitsSnapshot → Type 0) where
  -- The databases keep to it whenever they are read.
  abbrev AllRead : Event → Type 0
  AllRead (started read factory) = Reads P read
  AllRead stopped = Unit
  AllRead (ensured read token) = Reads P read
  AllRead (refreshed read token) = Reads P read
  AllRead (ticked read) = Reads P read

  abbrev AllReads : List Event → Type 0
  AllReads [] = Unit
  AllReads (e ∷ es) = AllRead e × AllReads es

  abbrev HoldsOf : Option PlatformLimitsSnapshot → Option ℕ → Type 0
  HoldsOf none token = Unit
  HoldsOf (some s) token = P token s

  abbrev Holds : PlatformLimitsRuntime → Type 0
  Holds r = HoldsOf r.snapshot r.bind_token

  force_refresh-Holds :
      (read : Option ℕ → PlatformLimitsSnapshot) (r : PlatformLimitsRuntime)
      → Reads P read
      → Holds r
      → Holds (force_refresh read r)
  unfolding force_refresh
  force_refresh-Holds read r reads h = elim (Option-cases r.session_factory) [
    | inl unbound ↦ rw unbound h
    | inr (factory, bound) ↦ rw bound (reads (some factory))
  ]

  ensure_by :
      (read : Option ℕ → PlatformLimitsSnapshot) (token bind : Option ℕ)
      (kept : Option PlatformLimitsSnapshot) (r : PlatformLimitsRuntime)
      → r.snapshot ≡ kept
      → r.bind_token ≡ bind
      → Reads P read
      → HoldsOf kept bind
      → P token (ensure_snapshot read token r).0 × Holds (ensure_snapshot read token r).1
  unfolding ensure_snapshot
  ensure_by read token bind none r k b reads h = rw k (reads token, reads token)
  ensure_by read token bind (some s) r k b reads h = elim (Bool-cases (same_token bind token)) [
    | inl same ↦ rw (k, b, same) (subst (λ t. P t s) (same_token-eq bind token same) h, h)
    | inr other ↦ rw (k, b, other) (reads token, reads token)
  ]

  after-Holds : (e : Event) (r : PlatformLimitsRuntime) → AllRead e → Holds r → Holds (after e r)
  unfolding after start_runtime stop_runtime refresh_from_session
  after-Holds (started read factory) r reads h = reads (some factory)
  after-Holds stopped r reads h = tt
  after-Holds (ensured read token) r reads h =
      (ensure_by read token r.bind_token r.snapshot r refl refl reads h).1
  after-Holds (refreshed read token) r reads h = reads token
  after-Holds (ticked read) r reads h = force_refresh-Holds read r reads h

  run-Holds :
      (es : List Event) (r : PlatformLimitsRuntime) → AllReads es → Holds r → Holds (run es r)
  unfolding run
  run-Holds [] r reads h = h
  run-Holds (e ∷ es) r (reads, more) h = run-Holds es (after e r) more (after-Holds e r reads h)

  -- Whatever has happened to a runtime, the snapshot that a request is given is one that was read
  -- of the database that the request uses: it has each property that all that is ever read there has.
  ensure_snapshot-run :
      (es : List Event) (read : Option ℕ → PlatformLimitsSnapshot) (token : Option ℕ)
      → AllReads es
      → Reads P read
      → P token (ensure_snapshot read token (run es new_runtime)).0
  ensure_snapshot-run es read token more reads =
      let r = run es new_runtime in
      (ensure_by read token r.bind_token r.snapshot r refl refl reads
        (run-Holds es new_runtime more tt)).0
