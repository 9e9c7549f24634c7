-- ===== src/Leader/Lease.antt =====
-- The Lease object and the requests that the elector sends. Times are microseconds: the RFC 3339
-- text that `format_lease_time` writes and `parse_lease_time` reads back keeps them exactly.
-- Identities and resource versions are only compared, so they are numbers; 0 is the empty text.
use treadstone.Prelude.{ℕ, Option}

pub record LeaseSpec : Type 0 where
  pub holder_identity : ℕ
  pub lease_duration_seconds : Option ℕ
  pub acquire_time : Option ℕ
  pub renew_time : Option ℕ
  pub lease_transitions : ℕ

pub record Lease : Type 0 where
  pub resource_version : ℕ
  pub spec : LeaseSpec

-- A manifest has the shape of a Lease; the version 0 means that the field is left out.
abbrev pub Manifest : Type 0
Manifest = Lease

-- How a create or replace request ends: 2xx, 404, 409, or another status from 400 on.
pub data Reply : Type 0 where
  stored gone conflict failed : Reply

pub data ReadReply : Type 0 where
  found : Option Lease → ReadReply
  read_failed : ReadReply
