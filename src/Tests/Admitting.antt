-- ===== src/Tests/Admitting.antt =====
-- The properties of the gate and of the connect routes at concrete inputs.
use linggen_memory.Prelude.{
  ℕ, ◌-◌, ◌<◌, String, ◌≡◌, ◌≢◌, refl, ◌⊎◌, Bool, true, false, Option, none, some, List, [], ◌∷◌,
  All, arith,
}
use linggen_memory.Local.{HeaderMap, is_loopback, require_local}
use linggen_memory.Connect.Devices.{Row, Files, Allowed, missing, holds, revoke}
use linggen_memory.Connect.Routes.{
  World, Call, Daemon, opened, allowed, state, serve, handle, request_open,
}
use linggen_memory.Connect.Routes.Closed
use linggen_memory.Connect.Routes.Closed.{is_public}
use linggen_memory.Connect.Routes.Pairing
use linggen_memory.Gate
use linggen_memory.Gate.{paired, paired_device_id}
use linggen_memory.Gate.Decisions

abbrev phone : Row
phone = record { id = some "p1"; device_id = none; secret = some "aa"; other_fields = "{}" }

abbrev tablet : Row
tablet = record { id = some "t1"; device_id = none; secret = some "bb"; other_fields = "{}" }

abbrev tablet_allowed : Allowed
tablet_allowed = record {
  id = "t1";
  device_id = "dev-0002";
  name = "tablet";
  ip = "10.0.0.3";
  allowed_at = 1;
}

abbrev files : Files
files = record {
  paired = holds (phone ∷ tablet ∷ []);
  allowed = holds (tablet_allowed ∷ []);
  denied = missing;
}

revoke-paired_device_id_example :
    (paired_device_id (revoke true true "t1" files).1.paired "aa" ≢ some "t1")
    × ((j : String)
        → paired_device_id files.paired "aa" ≡ some j
        → (j ≡ "t1") ⊎ (paired_device_id (revoke true true "t1" files).1.paired "aa" ≡ some j))
unfolding revoke linggen_memory.Connect.Devices.read_list linggen_memory.Connect.Devices.modify
revoke-paired_device_id_example =
    Decisions.revoke-paired_device_id true true "t1" files refl (λ e. absurd (cc)) "aa"

abbrev daemon : Daemon
daemon = record {
  broker = record { pending = none; outcomes = []; hits = [] };
  files = files;
  presence = [];
  port = 9528;
}

abbrev far_world : World
far_world = record {
  peer = "10.0.0.2";
  headers = record { host = some "10.0.0.1:9528"; origin = none };
  token = "aa";
  now = 5;
  wall = 100;
  new_id = "r1";
  new_secret = "cafe";
  new_fields = "{}";
  saved = true;
  saved_next = true;
}

abbrev here : World
here = record far_world {
  peer = "127.0.0.1";
  headers = record { host = some "localhost:9528"; origin = none };
  now = 9;
  new_id = "d1";
}

abbrev calls : List (World × Call)
calls =
    (far_world, Call.request "DS242" "dev-0001")
    ∷ (far_world, Call.allow "r1")
    ∷ (far_world, Call.revoke "p1")
    ∷ []

far_is_refused : require_local far_world.peer far_world.headers daemon.port ≡ false
unfolding require_local is_loopback linggen_memory.Text.strip_text
far_is_refused = refl

here_passes : require_local here.peer here.headers daemon.port ≡ true
unfolding require_local is_loopback linggen_memory.Local.is_loopback_host
    linggen_memory.Local.decimal linggen_memory.Text.strip_text
here_passes = refl

request_opens : (request_open far_world "DS242" "dev-0001" daemon).0 ≡ opened "r1" 120
unfolding request_open linggen_memory.Connect.admit linggen_memory.Connect.open_request
    linggen_memory.Connect.Devices.is_denied linggen_memory.Connect.Devices.read_list
    linggen_memory.Prelude.lookup linggen_memory.Text.Words.char_count
request_opens = refl

allow_allows :
    (handle here (Call.allow "r1") (request_open far_world "DS242" "dev-0001" daemon).1).0
    ≡ allowed "DS242"
unfolding handle request_open linggen_memory.Connect.admit linggen_memory.Connect.open_request
    linggen_memory.Connect.Devices.is_denied linggen_memory.Connect.Devices.read_list
    linggen_memory.Prelude.lookup linggen_memory.Text.Words.char_count linggen_memory.Connect.take
    linggen_memory.Connect.is_live linggen_memory.Connect.Devices.allow_device
    linggen_memory.Connect.Devices.modify require_local is_loopback
    linggen_memory.Local.is_loopback_host linggen_memory.Local.decimal
    linggen_memory.Text.strip_text
allow_allows = refl

serve-files_example :
    ((serve calls daemon).1.files ≡ daemon.files)
    × All (λ a. is_public a ≡ true) (serve calls daemon).0
serve-files_example =
    Closed.serve-files calls daemon (far_is_refused, (far_is_refused, (far_is_refused, tt)))

handle-admit_example :
    let after =
      (handle here (Call.allow "r1") (request_open far_world "DS242" "dev-0001" daemon).1).1 in
    ((handle far_world (Call.status "r1") after).0
      ≡ state (record { state = some "allowed"; device_token = some "cafe" }))
    × (Gate.admit "10.0.0.2" "/api/memory/add" "cafe" after.files.paired ≡ paired "d1")
unfolding is_loopback linggen_memory.Text.strip_text Gate.is_open_path
handle-admit_example =
    Pairing.handle-admit far_world here far_world "DS242" "dev-0001" "DS242" daemon 120 "10.0.0.2"
      "/api/memory/add" request_opens here_passes (omega arith) allow_allows refl refl refl refl
