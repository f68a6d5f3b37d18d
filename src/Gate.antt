-- ===== src/Gate.antt =====
-- Who is let in from other machines (src/http/gate.rs), and the record of who was
-- (src/http/presence.rs). The shared file is read at each request; the ids and secrets of its rows
-- are texts or absent.
pub mod Decisions
use Prim.Native.String
use linggen_memory.Prelude.{
  ℕ, ◌-◌, ◌*◌, ◌/◌, String, ◌==◌, Bool, true, false, ◌||◌, Option, none, some, List, [], ◌∷◌, find,
  leb, if◌then◌else◌, is_some, or_else, Assoc, lookup, insert,
}
use linggen_memory.Text.{is_empty, strip_text}
use linggen_memory.Types.{Instant}
use linggen_memory.Local.{IpAddr, is_loopback}
use linggen_memory.Connect.{second}
use linggen_memory.Connect.Devices.{Row, FileOf}
use linggen_memory.Connect.Devices.Kept.{rows_of}

-- A row with no secret has an empty one, and a row with no id an empty id.
abbrev pub has_secret : String → Row → Bool
has_secret token row = or_else row.secret "" == token

abbrev pub id_of : Option Row → Option String
id_of none = none
id_of (some row) = some (or_else row.id "")

unfoldable pub paired_device_id : FileOf Row → String → Option String
paired_device_id file token =
    if is_empty token then none else id_of (find (has_secret token) (rows_of file))

pub data Admit : Type 0 where
  from_here open_to_all refused : Admit
  paired : String → Admit

-- `connect::is_open_path`.
abbrev pub is_connect_path : String → Bool
is_connect_path path =
    (path == "/api/connect/request") || is_some (strip_text "/api/connect/status/" path)

unfoldable pub is_open_path : String → Bool
is_open_path path = (path == "/api/health") || is_connect_path path

abbrev pub paired_or_refused : Option String → Admit
paired_or_refused none = refused
paired_or_refused (some id) = paired id

unfoldable pub admit : IpAddr → String → String → FileOf Row → Admit
admit peer path token file =
    if is_loopback peer
    then from_here
    else if is_open_path path
    then open_to_all
    else paired_or_refused (paired_device_id file token)

abbrev pub online_window : ℕ
online_window = 120 * second

abbrev pub replica_window : ℕ
replica_window = 600 * second

pub record Seen : Type 0 where
  pub at : Instant
  pub ip : IpAddr
  pub sync_at : Option Instant

abbrev pub is_online : Seen → Instant → Bool
is_online s now = leb (now - s.at) online_window

abbrev pub within_of : Option Instant → Instant → Bool
within_of none at = false
within_of (some sync) at = leb (at - sync) replica_window

abbrev pub is_replica : Seen → Bool
is_replica s = within_of s.sync_at s.at

abbrev pub age_secs : Seen → Instant → ℕ
age_secs s now = (now - s.at) / second

abbrev pub is_sync_path : String → Bool
is_sync_path path = is_some (strip_text "/api/sync/" path)

abbrev pub Presence : Type 0
Presence = Assoc Seen

abbrev pub prior_sync : Option Seen → Option Instant
prior_sync none = none
prior_sync (some s) = s.sync_at

unfoldable pub stamp : String → IpAddr → String → Instant → Presence → Presence
stamp id ip path now seen =
    insert id
      (record {
        at = now;
        ip = ip;
        sync_at = if is_sync_path path then some now else prior_sync (lookup id seen);
      })
      seen
