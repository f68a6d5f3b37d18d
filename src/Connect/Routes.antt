-- ===== src/Connect/Routes.antt =====
-- The routes of src/http/connect/mod.rs behind the gate (`lan_gate` of src/http/gate.rs). A call
-- carries what the request and the world give it: the caller's address and headers, the clock, what
-- the generators of ids and secrets answer, and whether each write of a file succeeds.
pub mod Closed
pub mod Pairing
use Prim.Native.Char.{code}
use Prim.Native.String
use linggen_memory.Prelude.{
  ℕ, ◌-◌, String, ◌==◌, Bool, true, false, not, ◌&&◌, ◌||◌, Option, none, some, List, [], ◌∷◌, map,
  keep, length, leb, eqb, ltb, lookup, if◌then◌else◌,
}
use linggen_memory.Text.{between, trim, is_empty}
use linggen_memory.Text.Words.{take_chars, char_count}
use linggen_memory.Types.{Instant}
use linggen_memory.Local.{IpAddr, HeaderMap, require_local}
use linggen_memory.Replica.{Reply}
use linggen_memory.Connect.{Broker, Pending, status_json, expires_in}
use linggen_memory.Connect.Devices.{
  Allowed, Denied, Files, allow_device, deny_device, is_denied, is_known, list_allowed, read_list,
}
use linggen_memory.Gate.{
  Admit, from_here, open_to_all, refused, paired, Seen, Presence, stamp, is_online, is_replica,
  age_secs,
}
use linggen_memory.Connect
use linggen_memory.Connect.Devices
use linggen_memory.Gate

-- `char::is_control`.
abbrev pub is_control : ℕ → Bool
is_control c = between 0 31 c || between 127 159 c

abbrev pub printable : String → String
printable String.[] = ""
printable (String.◌∷◌ c s) = if is_control (code c) then printable s else String.◌∷◌ c (printable s)

abbrev pub if_full : String → Option String
if_full s = if is_empty s then none else some s

unfoldable pub clean_name : String → Option String
unfolding trim take_chars
clean_name raw = if_full (trim (take_chars 64 (printable raw)))

-- A letter, a digit, or one of `.`, `_`, `:`, `-`.
abbrev pub is_id_char : ℕ → Bool
is_id_char c =
    between b'a' b'z' c
    || between b'A' b'Z' c
    || between b'0' b'9' c
    || eqb c b'.'
    || eqb c b'_'
    || eqb c b':'
    || eqb c b'-'

abbrev pub all_chars : (ℕ → Bool) → String → Bool
all_chars p String.[] = true
all_chars p (String.◌∷◌ c s) = p (code c) && all_chars p s

-- A text of these characters has as many bytes as characters.
unfoldable pub valid_device_id : String → Bool
valid_device_id id = between 8 128 (char_count id) && all_chars is_id_char id

pub data Call : Type 0 where
  request : (device_name device_id : String) → Call
  status : String → Call
  pending : Call
  allow : String → Call
  deny : String → Call
  list_devices : Call
  revoke : String → Call
  list_denied : Call
  undeny : String → Call

pub record World : Type 0 where
  pub peer : IpAddr
  pub headers : HeaderMap
  pub token : String
  pub now : Instant
  pub wall : ℕ
  pub new_id : String
  pub new_secret : String
  pub new_fields : String
  pub saved : Bool
  pub saved_next : Bool

pub record Daemon : Type 0 where
  pub broker : Broker
  pub files : Files
  pub presence : Presence
  pub port : ℕ

pub data ApiError : Type 0 where
  too_many bad_request forbidden not_found internal unauthorized : ApiError

-- The time last seen is the wall clock and the seconds to take from it.
pub record Device : Type 0 where
  pub id : String
  pub name : String
  pub ip : IpAddr
  pub allowed_at : ℕ
  pub replica : Bool
  pub last_seen : Option (ℕ × ℕ)
  pub online : Bool

pub data Answer : Type 0 where
  opened : (id : String) → ℕ → Answer
  state : Reply → Answer
  asking : Option (Pending × ℕ × Bool) → Answer
  allowed : String → Answer
  denied : String → Answer
  devices : List Device → (connected total : ℕ) → Answer
  revoked : String → Answer
  denied_list : List Denied → Answer
  undenied : String → Answer
  error : ApiError → Answer

abbrev seen_ip : Option Seen → IpAddr → IpAddr
seen_ip none ip = ip
seen_ip (some s) ip = s.ip

abbrev seen_age : Option Seen → World → Option (ℕ × ℕ)
seen_age none w = none
seen_age (some s) w = some (w.wall, age_secs s w.now)

abbrev seen_test : (Seen → Bool) → Option Seen → Bool
seen_test p none = false
seen_test p (some s) = p s

unfoldable pub device_json : World → Allowed → Option Seen → Device
device_json w a seen = record {
  id = a.id;
  name = a.name;
  ip = seen_ip seen a.ip;
  allowed_at = a.allowed_at;
  replica = seen_test is_replica seen;
  last_seen = seen_age seen w;
  online = seen_test (λ s. is_online s w.now) seen;
}

unfoldable pub devices_json : World → Presence → List Allowed → Answer
unfolding device_json
devices_json w presence rows =
    let list = map (λ (a : Allowed). device_json w a (lookup a.id presence)) rows in
    devices list (length (keep (λ (d : Device). d.online) list)) (length rows)

abbrev pending_json : World → Daemon → Option Pending → Option (Pending × ℕ × Bool)
pending_json w d none = none
pending_json w d (some p) = some (p, expires_in p w.now, is_known d.files p.device_id)

abbrev open_as : World → Option String → String → Daemon → Answer × Daemon
open_as w none device_id d = (error bad_request, d)
open_as w (some name) device_id d =
    let (p, broker) = Connect.open_request w.new_id name device_id w.peer w.now d.broker in
    if not (valid_device_id device_id)
    then (error bad_request, d)
    else if is_denied d.files device_id
    then (error forbidden, d)
    else (opened p.id (expires_in p w.now), record d { broker = broker })

-- `request`: it is counted before it is looked at.
unfoldable pub request_open : World → String → String → Daemon → Answer × Daemon
unfolding clean_name valid_device_id
request_open w device_name device_id d =
    let (admitted, broker) = Connect.admit w.peer w.now d.broker in
    let counted : Daemon = record d { broker = broker } in
    if admitted
    then open_as w (clean_name device_name) device_id counted
    else (error too_many, counted)

abbrev pub allow_on : World → Option String → Pending → Daemon → Files → Answer × Daemon
allow_on w none p d files = (error internal, record d { files = files })
allow_on w (some token) p d files = (
  allowed p.device_name,
  record d { files = files; broker = Connect.allow p.id token w.now d.broker },
)

abbrev pub allow_taken : World → Option Pending → Daemon → Answer × Daemon
allow_taken w none d = (error not_found, d)
allow_taken w (some p) d =
    let (token, files) =
      allow_device w.saved w.saved_next w.new_id w.new_secret w.new_fields w.wall p.device_id
        p.device_name p.ip d.files in
    allow_on w token p d files

abbrev pub deny_taken : World → Option Pending → Daemon → Answer × Daemon
deny_taken w none d = (error not_found, d)
deny_taken w (some p) d =
    let (ok, files) = deny_device w.saved w.wall p.device_id p.device_name p.ip d.files in
    if ok
    then (
      denied p.device_name,
      record d { files = files; broker = Connect.deny p.id w.now d.broker },
    )
    else (error internal, record d { files = files })

abbrev pub found_or : Answer → Option Bool → Answer
found_or a none = error internal
found_or a (some false) = error not_found
found_or a (some true) = a

abbrev pub list_or : World → Presence → Option (List Allowed) → Answer
list_or w presence none = error internal
list_or w presence (some rows) = devices_json w presence rows

abbrev pub denied_or : Option (List Denied) → Answer
denied_or none = error internal
denied_or (some rows) = denied_list rows

-- A handler of this machine's alone.
abbrev pub locally : World → Daemon → Answer × Daemon → Answer × Daemon
locally w d result = if require_local w.peer w.headers d.port then result else (error forbidden, d)

unfoldable pub handle : World → Call → Daemon → Answer × Daemon
unfolding request_open devices_json
handle w (Call.request name device_id) d = request_open w name device_id d
handle w (Call.status id) d =
    let (said, broker) = Connect.status id w.now d.broker in
    (state (status_json said), record d { broker = broker })
handle w Call.pending d =
    locally w d (asking (pending_json w d (Connect.pending w.now d.broker)), d)
handle w (Call.allow id) d =
    let (p, broker) = Connect.take id w.now d.broker in
    locally w d (allow_taken w p (record d { broker = broker }))
handle w (Call.deny id) d =
    let (p, broker) = Connect.take id w.now d.broker in
    locally w d (deny_taken w p (record d { broker = broker }))
handle w Call.list_devices d = locally w d (list_or w d.presence (list_allowed d.files), d)
handle w (Call.revoke id) d =
    let (done, files) = Devices.revoke w.saved w.saved_next id d.files in
    locally w d (found_or (revoked id) done, record d { files = files })
handle w Call.list_denied d = locally w d (denied_or (read_list d.files.denied), d)
handle w (Call.undeny device_id) d =
    let (done, files) = Devices.undeny w.saved device_id d.files in
    locally w d (found_or (undenied device_id) done, record d { files = files })

abbrev pub path_of : Call → String
path_of (Call.request name device_id) = "/api/connect/request"
path_of (Call.status id) = String.◌++◌ "/api/connect/status/" id
path_of Call.pending = "/api/connect/pending"
path_of (Call.allow id) = String.◌++◌ (String.◌++◌ "/api/connect/" id) "/allow"
path_of (Call.deny id) = String.◌++◌ (String.◌++◌ "/api/connect/" id) "/deny"
path_of Call.list_devices = "/api/connect/devices"
path_of (Call.revoke id) = String.◌++◌ "/api/connect/devices/" id
path_of Call.list_denied = "/api/connect/denied"
path_of (Call.undeny device_id) = String.◌++◌ "/api/connect/denied/" device_id

abbrev pub gate_on : Admit → World → Call → Daemon → Answer × Daemon
gate_on refused w c d = (error unauthorized, d)
gate_on (paired id) w c d =
    handle w c (record d { presence = stamp id w.peer (path_of c) w.now d.presence })
gate_on from_here w c d = handle w c d
gate_on open_to_all w c d = handle w c d

-- `lan_gate`, and the route behind it.
unfoldable pub lan_gate : World → Call → Daemon → Answer × Daemon
unfolding handle
lan_gate w c d = gate_on (Gate.admit w.peer (path_of c) w.token d.files.paired) w c d

unfoldable pub serve : List (World × Call) → Daemon → List Answer × Daemon
unfolding lan_gate
serve [] d = ([], d)
serve ((w, c) ∷ calls) d =
    let (answers, d') = serve calls (lan_gate w c d).1 in ((lan_gate w c d).0 ∷ answers, d')
