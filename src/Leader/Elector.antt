-- ===== src/Leader/Elector.antt =====
-- `LeaderElector`: what an attempt decides from the lease that it read, what it then writes, and
-- what it concludes from the answer. The await points separate the parts, so that Race can put the
-- steps of other replicas between them.
use treadstone.Prelude.{
  ℕ, ◌+◌, ◌*◌, Option, none, some, Bool, true, false, ltb, leb, ◌==◌, ◌||◌, if◌then◌else◌,
}
use treadstone.Leader.Lease.{
  Lease, LeaseSpec, Manifest, Reply, stored, gone, conflict, failed, ReadReply, found, read_failed,
}
use treadstone.Leader.Api.{LeaseApi}

pub record Elector : Type 0 where
  pub holder_identity : ℕ
  pub lease_duration_seconds : ℕ
  pub renew_interval_seconds : ℕ
  pub retry_interval_seconds : ℕ

-- `__init__`: the two checks that raise `ValueError`.
unfoldable new_elector : ℕ → ℕ → ℕ → ℕ → Option Elector
new_elector identity duration renew retry =
    if leb duration renew || ltb renew retry
    then none
    else some (record {
      holder_identity = identity;
      lease_duration_seconds = duration;
      renew_interval_seconds = renew;
      retry_interval_seconds = retry;
    })

-- `LeadershipState`, with the exception that a call may end by.
pub data Outcome : Type 0 where
  leader follower raised : Outcome

abbrev or_else : Option ℕ → Option ℕ → Option ℕ
or_else none o = o
or_else (some t) o = some t

abbrev or_value : Option ℕ → ℕ → ℕ
or_value none d = d
or_value (some n) d = n

abbrev older_than : Option ℕ → ℕ → ℕ → Bool
older_than none now seconds = true
older_than (some t) now seconds = leb (t + seconds * 1000000) now

-- `now - effective_time >= timedelta(seconds=lease_duration_seconds)`
unfoldable pub lease_is_expired : Elector → LeaseSpec → ℕ → Bool
lease_is_expired e spec now =
    older_than (or_else spec.renew_time spec.acquire_time) now
      (or_value spec.lease_duration_seconds e.lease_duration_seconds)

abbrev build_manifest : Elector → ℕ → ℕ → ℕ → Option ℕ → ℕ → Manifest
build_manifest e now resource_version holder acquire_time transitions = record {
  resource_version = resource_version;
  spec = record {
    holder_identity = holder;
    lease_duration_seconds = some e.lease_duration_seconds;
    acquire_time = acquire_time;
    renew_time = some now;
    lease_transitions = transitions;
  };
}

-- The write that an attempt makes next, if any.
pub data Plan : Type 0 where
  follow : Plan
  create renew take_over : Manifest → Plan

-- `_create_new_lease`, `_renew_lease` and `_take_over_lease` up to their request.
abbrev pub creation : Elector → ℕ → Manifest
creation e now = build_manifest e now 0 e.holder_identity (some now) 0

abbrev pub renewal : Elector → ℕ → Lease → Manifest
renewal e now l =
    build_manifest e now l.resource_version e.holder_identity
      (or_else l.spec.acquire_time (some now)) l.spec.lease_transitions

abbrev pub takeover : Elector → ℕ → Lease → Manifest
takeover e now l =
    build_manifest e now l.resource_version e.holder_identity (some now)
      (l.spec.lease_transitions + 1)

-- `try_acquire_or_renew` from the lease that it read to its request.
unfoldable pub decide : Elector → ℕ → Option Lease → Plan
unfolding lease_is_expired
decide e now none = create (creation e now)
decide e now (some l) =
    if l.spec.holder_identity == e.holder_identity
    then renew (renewal e now l)
    else if l.spec.holder_identity == 0
    then take_over (takeover e now l)
    else if lease_is_expired e l.spec now
    then take_over (takeover e now l)
    else follow

abbrev pub after_create : Reply → Outcome
after_create stored = leader
after_create conflict = follower
after_create gone = raised
after_create failed = raised

abbrev pub after_replace : Reply → Outcome
after_replace stored = leader
after_replace conflict = follower
after_replace gone = follower
after_replace failed = raised

-- `_is_leader` after an attempt: an exception leaves it alone.
abbrev flag_after : Outcome → Bool → Bool
flag_after leader flag = true
flag_after follower flag = false
flag_after raised flag = flag

module _ {S : Type 0} (api : LeaseApi S) where
  -- The request of a plan, and the outcome that the answer gives.
  unfoldable pub write : Plan → S → Outcome × S
  write follow s = (follower, s)
  write (create m) s = let (r, s') = api.create_lease m s in (after_create r, s')
  write (renew m) s = let (r, s') = api.replace_lease m s in (after_replace r, s')
  write (take_over m) s = let (r, s') = api.replace_lease m s in (after_replace r, s')

  abbrev write_after : Elector → ℕ → ReadReply → S → Outcome × S
  write_after e now read_failed s = (raised, s)
  write_after e now (found o) s = write (decide e now o) s

  -- `try_acquire_or_renew` with nothing between its requests.
  unfoldable try_acquire_or_renew : Elector → ℕ → S → Outcome × S
  unfolding write decide
  try_acquire_or_renew e now s = write_after e now (api.get_lease s) s

-- `release_if_held`: the manifest that gives up the lease, if this replica holds it.
abbrev pub release : Elector → ℕ → Lease → Manifest
release e now l =
    build_manifest e now l.resource_version 0 l.spec.acquire_time l.spec.lease_transitions

unfoldable pub plan_release : Elector → ℕ → Option Lease → Option Manifest
plan_release e now none = none
plan_release e now (some l) =
    if l.spec.holder_identity == e.holder_identity then some (release e now l) else none

module _ {S : Type 0} (api : LeaseApi S) where
  abbrev send_release : Option Manifest → S → S
  send_release none s = s
  send_release (some m) s = (api.replace_lease m s).1

  abbrev release_after : Elector → ℕ → ReadReply → S → S
  release_after e now read_failed s = s
  release_after e now (found o) s = send_release (plan_release e now o) s

  unfoldable release_if_held : Elector → ℕ → S → S
  unfolding plan_release
  release_if_held e now s = release_after e now (api.get_lease s) s
