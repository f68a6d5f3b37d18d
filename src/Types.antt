-- ===== src/Types.antt =====
-- The rows of the store and their vocabularies (src/memory/types.rs). An instant is a count of
-- microseconds; a float is its bit pattern, since a row only carries it.
use linggen_memory.Prelude.{ℕ, String, Bool, Option, none, List, false, or_else}

abbrev pub Instant : Type 0
Instant = ℕ

abbrev pub Float : Type 0
Float = ℕ

pub data MemoryType : Type 0 where
  fact preference decision tried fixed learned built : MemoryType

abbrev pub type_str : MemoryType → String
type_str fact = "fact"
type_str preference = "preference"
type_str decision = "decision"
type_str tried = "tried"
type_str fixed = "fixed"
type_str learned = "learned"
type_str built = "built"

pub data Outcome : Type 0 where
  positive negative neutral : Outcome

pub data Origin : Type 0 where
  user agent derived : Origin

pub data Tier : Type 0 where
  core semantic episodic : Tier

pub record Memory : Type 0 where
  pub id : String
  pub content : String
  pub vector : Option (List Float)
  pub type : MemoryType
  pub tier : Tier
  pub outcome : Option Outcome
  pub origin : Origin
  pub scope : Option String
  pub summary : Option String
  pub indexed : Bool
  pub created_at : Instant
  pub updated_at : Option Instant
  pub occurred_at : Option Instant
  pub source_session : Option String
  pub host : Option String
  pub expired_at : Option Instant
  pub superseded_by : Option String
  pub account_id : Option String
  pub account_name : Option String

-- `id` and `now` are what the generator and the clock give.
unfoldable pub new : String → Instant → String → MemoryType → Origin → Memory
new id now content type origin = record {
  id = id;
  content = content;
  vector = none;
  type = type;
  tier = semantic;
  outcome = none;
  origin = origin;
  scope = none;
  summary = none;
  indexed = false;
  created_at = now;
  updated_at = none;
  occurred_at = none;
  source_session = none;
  host = none;
  expired_at = none;
  superseded_by = none;
  account_id = none;
  account_name = none;
}

abbrev pub effective_timestamp : Memory → Instant
effective_timestamp m = or_else m.occurred_at m.created_at

abbrev pub activity_timestamp : Memory → Instant
activity_timestamp m = or_else m.updated_at m.created_at
