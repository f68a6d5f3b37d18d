-- ===== src/Connect.antt =====
-- The one open request to connect, and what became of recent ones (src/http/connect/broker.rs).
-- An instant is a count of microseconds of the monotonic clock; a difference stops at 0, as
-- `duration_since` does. The id of a request and a token are what their generators give.
pub mod Tokens
pub mod Limits
pub mod Race
pub mod Devices
pub mod Routes
use linggen_memory.Prelude.{
  ℕ, ◌+◌, ◌-◌, ◌*◌, ◌/◌, String, ◌==◌, Bool, true, false, ◌&&◌, Option, none, some, List, [], ◌∷◌,
  ◌++◌, ltb, leb, if◌then◌else◌, Assoc, lookup, insert, retain, filter, keep, length, or_else,
  is_some,
}
use linggen_memory.Types.{Instant}
use linggen_memory.Local.{IpAddr}
use linggen_memory.Replica.{Reply}

abbrev pub second : ℕ
second = 1000000

abbrev pub ttl : ℕ
ttl = 120 * second

abbrev pub keep_outcome : ℕ
keep_outcome = 600 * second

abbrev pub rate_max : ℕ
rate_max = 6

abbrev pub rate_window : ℕ
rate_window = 60 * second

pub record Pending : Type 0 where
  pub id : String
  pub device_name : String
  pub device_id : String
  pub ip : IpAddr
  pub at : Instant

pub data Status : Type 0 where
  waiting denied expired : Status
  allowed : Option String → Status

pub data Outcome : Type 0 where
  allowed : Option String → Outcome
  denied : Outcome

pub record Broker : Type 0 where
  pub pending : Option Pending
  pub outcomes : Assoc (Outcome × Instant)
  pub hits : Assoc (List Instant)

unfoldable pub is_live : Pending → Instant → Bool
is_live p now = ltb (now - p.at) ttl

abbrev pub expires_in : Pending → Instant → ℕ
expires_in p now = (ttl - (now - p.at)) / second

abbrev pub recent : Instant → List Instant → List Instant
recent now hits = keep (λ t. ltb (now - t) rate_window) hits

abbrev pub hits_of : IpAddr → Broker → List Instant
hits_of ip b = or_else (lookup ip b.hits) []

unfoldable pub admit : IpAddr → Instant → Broker → Bool × Broker
admit ip now b =
    let hits = recent now (hits_of ip b) in
    if leb rate_max (length hits)
    then (false, record b { hits = insert ip hits b.hits })
    else (true, record b { hits = insert ip (hits ++ now ∷ []) b.hits })

abbrev pub is_kept : Instant → Outcome × Instant → Bool
is_kept now (o, at) = ltb (now - at) keep_outcome

unfoldable pub open_request :
    String → String → String → IpAddr → Instant → Broker → Pending × Broker
open_request id device_name device_id ip now b =
    let p : Pending = record {
      id = id;
      device_name = device_name;
      device_id = device_id;
      ip = ip;
      at = now;
    } in
    (p, record b { outcomes = retain (is_kept now) b.outcomes; pending = some p })

unfoldable pub pending : Instant → Broker → Option Pending
pending now b = filter (λ p. is_live p now) b.pending

abbrev pub is_the : String → Instant → Pending → Bool
is_the id now p = (p.id == id) && is_live p now

abbrev pub take_on : Option Pending → Broker → Option Pending × Broker
take_on none b = (none, b)
take_on (some p) b = (some p, record b { pending = none })

unfoldable pub take : String → Instant → Broker → Option Pending × Broker
take id now b = take_on (filter (is_the id now) b.pending) b

unfoldable pub allow : String → String → Instant → Broker → Broker
allow id token now b = record b {
  outcomes = insert id (Outcome.allowed (some token), now) b.outcomes;
}

unfoldable pub deny : String → Instant → Broker → Broker
deny id now b = record b { outcomes = insert id (Outcome.denied, now) b.outcomes }

abbrev pub status_on : Option (Outcome × Instant) → String → Instant → Broker → Status × Broker
status_on (some (Outcome.allowed token, at)) id now b =
    (Status.allowed token, record b { outcomes = insert id (Outcome.allowed none, at) b.outcomes })
status_on (some (Outcome.denied, at)) id now b = (Status.denied, b)
status_on none id now b =
    (if is_some (filter (is_the id now) b.pending) then waiting else expired, b)

unfoldable pub status : String → Instant → Broker → Status × Broker
status id now b = status_on (lookup id b.outcomes) id now b

-- The body of the status route, as far as the asking machine reads it.
abbrev pub status_json : Status → Reply
status_json waiting = record { state = some "pending"; device_token = none }
status_json Status.denied = record { state = some "denied"; device_token = none }
status_json expired = record { state = some "expired"; device_token = none }
status_json (Status.allowed token) = record { state = some "allowed"; device_token = token }
