-- ===== src/Session.antt =====
-- crates/ssh-core/src/session.rs: what a session is, and when it has lapsed. `Millis` is a number,
-- and each reading of the clock is an argument `now`.
pub mod Lapse
pub mod Store
use mcp_ssh_rs.Prelude.{
  ℕ, ◌+◌, ◌-◌, ◌<◌, ◌≤◌, Bool, ◌&&◌, not, Option, none, some, leb, ltb, nat_beq, if◌then◌else◌, all,
  min, Result, ok, err, ◌>>=◌, ◌>>◌, guard, true, false,
}
use mcp_ssh_rs.Text.{Text, bytes, is_whitespace, is_lower_hex}
use mcp_ssh_rs.Clock.{saturating_add, u64_max}
use mcp_ssh_rs.Ids.{AccessClass}

abbrev pub id_chars : ℕ
id_chars = 32

pub data MalformedId : Type 0 where
  malformed_id : MalformedId

-- `SessionId::parse`, and word for word `RequestId::parse` and `AgreementId::parse`. The bytes of a
-- text that are hex digits are its characters: a longer character has no byte below 128.
unfoldable pub parse_id : Text → Result MalformedId Text
parse_id raw = do guard (nat_beq (bytes raw) id_chars && all is_lower_hex raw) malformed_id; ok raw

abbrev pub purpose_max : ℕ
purpose_max = 512

pub data PurposeError : Type 0 where
  blank : PurposeError
  too_long : ℕ → PurposeError

-- `Purpose::parse`; a purpose is the text that it wraps.
unfoldable pub parse_purpose : Text → Result PurposeError Text
parse_purpose raw = do
  guard (not (all is_whitespace raw)) blank
  guard (not (ltb purpose_max (bytes raw))) (too_long purpose_max)
  ok raw

pub record Lifetime : Type 0 where
  pub idle : ℕ
  pub max : ℕ
  pub grace : ℕ

pub record Session : Type 0 where
  pub id : Text
  pub principal : Text
  pub host : Text
  pub role : Text
  pub purpose : Text
  pub access_class : AccessClass
  pub opened_at : ℕ
  pub last_used : ℕ
  pub lifetime : Lifetime

pub data Expiry : Type 0 where
  idle max_lifetime : Expiry

unfoldable pub expiry : Session → ℕ → Option Expiry
expiry s now =
    if leb s.lifetime.max (now - s.opened_at)
    then some max_lifetime
    else (if leb s.lifetime.idle (now - s.last_used) then some idle else none)

unfoldable pub lapsed_at : Session → ℕ
lapsed_at s =
    min (saturating_add s.opened_at s.lifetime.max) (saturating_add s.last_used s.lifetime.idle)

abbrev pub is_some : {A : Type 0} → Option A → Bool
is_some none = false
is_some (some a) = true

unfoldable pub is_forgettable : Session → ℕ → Bool
unfolding expiry lapsed_at
is_forgettable s now =
    is_some (expiry s now) && leb (saturating_add (lapsed_at s) s.lifetime.grace) now

pub data SessionStatus : Type 0 where
  live : SessionStatus
  lapsed : Expiry → SessionStatus

pub record SessionSnapshot : Type 0 where
  pub session : Session
  pub status : SessionStatus
  pub opened_at : ℕ
  pub last_used : ℕ
  pub idle_by : ℕ
  pub ends_by : ℕ
  pub observed_at : ℕ

pub record LapsedContext : Type 0 where
  pub host : Text
  pub role : Text
  pub purpose : Text
  pub access_class : AccessClass

pub data SessionError : Type 0 where
  unknown : SessionError
  expired : Expiry → LapsedContext → SessionError

pub data TooManySessions : Type 0 where
  too_many_sessions : ℕ → TooManySessions

abbrev pub context_of : Session → LapsedContext
context_of s = record {
  host = s.host;
  role = s.role;
  purpose = s.purpose;
  access_class = s.access_class;
}

abbrev status_of : Option Expiry → SessionStatus
status_of none = live
status_of (some why) = lapsed why

-- The view that `snapshot` and `filtered_snapshots` build of a held session.
unfoldable pub snapshot_of : Session → ℕ → SessionSnapshot
snapshot_of held now = record {
  session = held;
  status = status_of (expiry held now);
  opened_at = held.opened_at;
  last_used = held.last_used;
  idle_by = saturating_add held.last_used held.lifetime.idle;
  ends_by = saturating_add held.opened_at held.lifetime.max;
  observed_at = now;
}
