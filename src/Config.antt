-- ===== src/Config.antt =====
-- The settings of the daemon (src/http/config.rs) and how it listens (src/http/network.rs). The file
-- is what it parses to, `none` when it is missing or does not parse; whether a save succeeds is an
-- argument.
pub mod Listening
use linggen_memory.Prelude.{
  ℕ, Bool, true, false, not, ◌&&◌, Option, none, some, or_else, ltb, if◌then◌else◌, String, ◌==◌,
}
use linggen_memory.Types.{Float}
use linggen_memory.Local.{IpAddr, HeaderMap, require_local}
use linggen_memory.Hybrid.{float_le, one}

pub data Network : Type 0 where
  lan local : Network

-- `Network::host`.
abbrev pub host : Network → IpAddr
host lan = "0.0.0.0"
host local = "127.0.0.1"

abbrev pub resolve_bind : Option IpAddr → Network → IpAddr
resolve_bind flag setting = or_else flag (host setting)

pub record Config : Type 0 where
  pub episodic_ttl_days : ℕ
  pub recall_min_score : Float
  pub network : Network

abbrev pub default_recall_min_score : Float
default_recall_min_score = 0x3F33_3333

abbrev pub default_config : Config
default_config = record {
  episodic_ttl_days = 7;
  recall_min_score = default_recall_min_score;
  network = lan;
}

abbrev pub load : Option Config → Config
load file = or_else file default_config

-- `view`: the choice, the address that is bound, and whether they agree.
pub record NetworkView : Type 0 where
  pub network : Network
  pub bound : IpAddr
  pub applied : Bool

abbrev pub view : Network → IpAddr → NetworkView
view saved bound = record { network = saved; bound = bound; applied = bound == host saved }

pub data ConfigReply : Type 0 where
  config : Config → ConfigReply
  network : NetworkView → ConfigReply
  bad_request forbidden internal : ConfigReply

abbrev pub is_in_range : Float → Bool
is_in_range x = float_le 0 x && float_le x one

abbrev pub saved_as : Bool → ConfigReply → Config → Option Config → ConfigReply × Option Config
saved_as true reply cfg file = (reply, some cfg)
saved_as false reply cfg file = (internal, file)

-- The network that was sent is not taken.
unfoldable pub put_config : Bool → Config → Option Config → ConfigReply × Option Config
put_config saved sent file =
    let cfg : Config = record sent { network = (load file).network } in
    if ltb 3650 cfg.episodic_ttl_days
    then (bad_request, file)
    else if not (is_in_range cfg.recall_min_score)
    then (bad_request, file)
    else saved_as saved (config cfg) cfg file

unfoldable pub put_network :
    Bool
    → (peer : IpAddr) → HeaderMap
    → (port : ℕ) → (bound : IpAddr) → Network
    → Option Config
    → ConfigReply × Option Config
put_network saved peer headers port bound choice file =
    let cfg : Config = record (load file) { network = choice } in
    if require_local peer headers port
    then saved_as saved (network (view choice bound)) cfg file
    else (forbidden, file)

abbrev pub get_config : Option Config → ConfigReply
get_config file = config (load file)

abbrev pub get_network : IpAddr → Option Config → ConfigReply
get_network bound file = network (view (load file).network bound)
