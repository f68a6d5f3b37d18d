-- ===== src/Replica.antt =====
-- A replica's own state: src/replica/state.rs, and src/replica/link.rs where it changes that state.
-- The file's save is not modelled; what `update` does to the file's contents is.
pub mod Link
use linggen_memory.Prelude.{
  ℕ, String, ◌==◌, Bool, true, false, Option, none, some, if◌then◌else◌, is_some, not,
}
use linggen_memory.Types.{Instant}
use Prim.Native.String

pub data Role : Type 0 where
  primary replica : Role

pub record ReplicaFile : Type 0 where
  pub primary : Option String
  pub token : Option String
  pub device_id : Option String
  pub cursor : ℕ
  pub last_sync : Option Instant
  pub online : Bool
  pub error : Option String
  pub request_id : Option String

unfoldable pub default : ReplicaFile
default = record {
  primary = none;
  token = none;
  device_id = none;
  cursor = 0;
  last_sync = none;
  online = false;
  error = none;
  request_id = none;
}

unfoldable pub role : ReplicaFile → Role
role f = if is_some f.primary then replica else primary

abbrev pub http_url : String → String
http_url p = String.◌++◌ "http://" p

abbrev pub map_url : Option String → Option String
map_url none = none
map_url (some p) = some (http_url p)

unfoldable pub upstream_url : ReplicaFile → Option String
upstream_url f = map_url f.primary

abbrev pub pair_of : Option String → Option String → Option (String × String)
pair_of none t = none
pair_of (some u) none = none
pair_of (some u) (some t) = some (u, t)

-- `Replica::upstream`: the base URL and the token, of a working replica.
unfoldable pub upstream : ReplicaFile → Option (String × String)
unfolding upstream_url
upstream f = pair_of (upstream_url f) f.token

-- What the console shows: no field holds the token.
pub record View : Type 0 where
  pub role : Role
  pub upstream : Option String
  pub approved : Bool
  pub waiting_for_approval : Bool
  pub online : Bool
  pub last_sync : Option Instant
  pub queued : ℕ
  pub error : Option String

unfoldable pub view : ReplicaFile → ℕ → View
unfolding role
view f queued = record {
  role = role f;
  upstream = f.primary;
  approved = is_some f.token;
  waiting_for_approval = is_some f.request_id;
  online = f.online;
  last_sync = f.last_sync;
  queued = queued;
  error = f.error;
}

-- Link: becoming a replica and going back.
unfoldable pub become_primary : ReplicaFile → ReplicaFile
become_primary f = record f {
  primary = none;
  token = none;
  request_id = none;
  cursor = 0;
  online = false;
  error = none;
}

-- `ask`, once the primary has opened the request `rid`.
unfoldable pub asked : String → String → ReplicaFile → ReplicaFile
asked address rid f = record f {
  primary = some address;
  token = none;
  cursor = 0;
  request_id = some rid;
  online = true;
  error = none;
}

-- `device_id`: the machine's id, made the first time.
unfoldable pub named : String → ReplicaFile → ReplicaFile
named new_id f = if is_some f.device_id then f else record f { device_id = some new_id }

-- The reply is the id of the request that the primary opened, `none` for a refusal or no answer.
unfoldable pub ask : (new_id address : String) → Option String → ReplicaFile → ReplicaFile
ask new_id address none f = named new_id f
ask new_id address (some rid) f = asked address rid (named new_id f)

abbrev pub is_text : Option String → String → Bool
is_text none s = false
is_text (some t) s = t == s

unfoldable pub finish : String → Option String → Option String → ReplicaFile → ReplicaFile
finish rid token error f =
    if is_text f.request_id rid
    then record f {
      request_id = none;
      error = error;
      token = if is_some token then token else f.token;
    }
    else f

-- What the primary says of a request: the `state` field, and the token with it.
pub record Reply : Type 0 where
  pub state : Option String
  pub device_token : Option String

abbrev pub taken_error : Option String → Option String
taken_error none = some "approved, but the token was already taken"
taken_error (some t) = none

unfoldable pub settle : String → Reply → ReplicaFile → ReplicaFile × Bool
unfolding finish
settle rid reply f =
    if is_text reply.state "allowed"
    then (finish rid reply.device_token (taken_error reply.device_token) f, true)
    else if is_text reply.state "denied"
    then (finish rid none (some "denied on the primary") f, true)
    else if is_text reply.state "expired"
    then (finish rid none (some "the request expired") f, true)
    else (f, false)
