-- ===== src/Days.antt =====
-- The calendar of the dream: its state file, the rollup per day, the stamps and the sweep
-- (src/http/days.rs). The file is what it parses to, `none` when it is missing or does not parse.
-- Dates are those of a calendar library and of the machine's time zone, an interface here.
pub mod Judged
pub mod Sweeping
pub mod Worklist
use linggen_memory.Prelude.{
  ℕ, zero, suc, ◌+◌, ◌-◌, ◌*◌, ◌^◌, ◌%◌, min, String, ◌==◌, Bool, true, false, not, ◌&&◌, ◌||◌,
  Option, none, some, List, [], ◌∷◌, ◌++◌, map, is_some, or_else, any, keep, eqb, ltb, sort_by,
  if◌then◌else◌, Assoc, lookup, insert,
}
use linggen_memory.Paths.{FilePath}
use linggen_memory.Text.Order.{text_le}
use linggen_memory.Types.{Memory, Instant, effective_timestamp}
use linggen_memory.Tables.{TableApi}
use linggen_memory.Lease.{Lease, Leases, held_by_other}
use linggen_memory.Store.{Io, Node, TableName, semantic, episodic, delete}
use linggen_memory.Store.Filters.{default}
use linggen_memory.Store.Queries.{usize_max, oldest, list}

pub record Calendar : Type 1 where
  pub Date : Type 0
  pub local_day : Instant → String
  pub parse_day : String → Option Date
  pub format : Date → String
  pub is_before : Date → Date → Bool

pub record DayRecord : Type 0 where
  pub harvested_at : Option Instant
  pub remembered_at : Option Instant
  pub judged : ℕ
  pub promoted : ℕ
  pub forgotten : ℕ

abbrev pub no_record : DayRecord
no_record = record {
  harvested_at = none;
  remembered_at = none;
  judged = 0;
  promoted = 0;
  forgotten = 0;
}

abbrev pub DaysState : Type 0
DaysState = Assoc DayRecord

abbrev pub load : Option DaysState → DaysState
load file = or_else file []

-- `u32::saturating_add`.
abbrev pub saturating_add : ℕ → ℕ → ℕ
saturating_add a b = min (a + b) (2 ^ 32 - 1)

-- `*map.entry(key).or_default() += 1`, on a `u32`.
abbrev pub bump : String → Assoc ℕ → Assoc ℕ
bump key m = insert key ((or_else (lookup key m) 0 + 1) % 2 ^ 32) m

pub record DayLive : Type 0 where
  pub rows : ℕ
  pub unjudged : ℕ
  pub past_ttl : ℕ

abbrev pub no_rows : DayLive
no_rows = record { rows = 0; unjudged = 0; past_ttl = 0 }

abbrev pub stamp_of : DaysState → String → Option Instant
stamp_of state day = elim (lookup day state) [ none ↦ none | some r ↦ r.remembered_at ]

abbrev pub is_stamped : Instant → Option Instant → Bool
is_stamped created none = false
is_stamped created (some ra) = ltb created ra

abbrev pub ttl_cutoff : Instant → ℕ → Instant
ttl_cutoff now ttl_days = now - ttl_days * 86400000000

abbrev pub live_at : Assoc DayLive → String → DayLive
live_at live day = or_else (lookup day live) no_rows

-- The flags of a day: scanned, and dreamed.
abbrev pub day_flags : DayLive → Option DayRecord → Bool × Bool
day_flags live none = (false, false)
day_flags live (some r) = (is_some r.harvested_at, is_some r.remembered_at && eqb live.unjudged 0)

-- The order of texts, strictly.
abbrev pub text_lt : String → String → Bool
text_lt s t = not (text_le t s)

abbrev pub undreamed : String → String → DayLive → Bool
undreamed date today live = text_lt date today && ltb 0 live.unjudged

abbrev pub keys {ℓ} : {A : Type ℓ} → Assoc A → List String
keys [] = []
keys ((k, x) ∷ m) = k ∷ keys m

abbrev pub dedup : List String → List String
dedup [] = []
dedup (x ∷ xs) =
    let rest = dedup xs in elim xs [ [] ↦ x ∷ [] | ◌∷◌ y ys ↦ if x == y then rest else x ∷ rest ]

pub record Summary : Type 0 where
  pub first_unscanned : Option String
  pub first_undreamed : Option String
  pub total_days : ℕ
  pub scanned_days : ℕ
  pub dreamed_days : ℕ

abbrev pub no_summary : Summary
no_summary = record {
  first_unscanned = none;
  first_undreamed = none;
  total_days = 0;
  scanned_days = 0;
  dreamed_days = 0;
}

-- `if cond && first.is_none() { first = Some(date) }`.
abbrev pub first_if : Bool → String → Option String → Option String
first_if b date (some d) = some d
first_if b date none = if b then some date else none

abbrev count_if : Bool → ℕ → ℕ
count_if b n = if b then (n + 1) % 2 ^ 32 else n

-- A past day, in the summary.
abbrev pub counted : String → String → DayLive → Option DayRecord → Summary → Summary
counted date today live rec s =
    let (scanned, dreamed) = day_flags live rec in
    if text_lt date today
    then record {
      first_unscanned = first_if (not scanned) date s.first_unscanned;
      first_undreamed = first_if (undreamed date today live) date s.first_undreamed;
      total_days = count_if true s.total_days;
      scanned_days = count_if scanned s.scanned_days;
      dreamed_days = count_if dreamed s.dreamed_days;
    }
    else s

pub record DayView : Type 0 where
  pub date : String
  pub scanned : Bool
  pub dreamed : Bool
  pub live : DayLive
  pub rec : Option DayRecord

pub record DaysRequest : Type 0 where
  pub undreamed_only : Bool
  pub from : Option String
  pub to : Option String

pub record DaysReply : Type 0 where
  pub summary : Summary
  pub row_days : Assoc ℕ
  pub days : List DayView

pub record RememberDayRequest : Type 0 where
  pub date : String
  pub judged : ℕ
  pub promoted : ℕ
  pub harvested : Bool
  pub holder : Option String

pub data StampReply : Type 0 where
  recorded : String → DayRecord → StampReply
  busy : Lease → StampReply
  bad_request internal : StampReply

-- `save(..)?`, then the reply.
abbrev pub saved_as : Bool → String → DayRecord → Option DaysState → StampReply × Option DaysState
saved_as true key rec file = (recorded key rec, some (insert key rec (load file)))
saved_as false key rec file = (internal, file)

abbrev pub record_of : Option DaysState → String → DayRecord
record_of file key = or_else (lookup key (load file)) no_record

-- The part of `remember_day` after its checks.
abbrev pub stamp_remembered :
    Bool → String → Instant → RememberDayRequest → Option DaysState → StampReply × Option DaysState
stamp_remembered saved key now req file =
    let r = record_of file key in
    let r' : DayRecord = record {
      harvested_at = if req.harvested then some now else r.harvested_at;
      remembered_at = some now;
      judged = saturating_add r.judged req.judged;
      promoted = saturating_add r.promoted req.promoted;
      forgotten = r.forgotten;
    } in
    saved_as saved key r' file

-- `remember_day` after the look-up of another holder's lease.
abbrev pub remember_free :
    Option Lease
    → Bool
    → String
    → Instant
    → RememberDayRequest
    → Option DaysState
    → StampReply × Option DaysState
remember_free (some l) saved key now req file = (busy l, file)
remember_free none saved key now req file = stamp_remembered saved key now req file

module _ (cal : Calendar) where
  abbrev pub day_of : Memory → String
  day_of m = cal.local_day (effective_timestamp m)

  abbrev pub is_judged : DaysState → Memory → Bool
  is_judged state m = is_stamped m.created_at (stamp_of state (day_of m))

  abbrev pub added : DaysState → Instant → Memory → DayLive → DayLive
  added state cutoff m l = record {
    rows = l.rows + 1;
    unjudged = if is_judged state m then l.unjudged else l.unjudged + 1;
    past_ttl = if ltb (effective_timestamp m) cutoff then l.past_ttl + 1 else l.past_ttl;
  }

  -- The staged rows of each day.
  abbrev pub live_from : DaysState → Instant → List Memory → Assoc DayLive → Assoc DayLive
  live_from state cutoff [] live = live
  live_from state cutoff (m ∷ ms) live =
      let bucket = added state cutoff m (live_at live (day_of m)) in
      live_from state cutoff ms (insert (day_of m) bucket live)

  abbrev pub row_days_from : List Memory → Assoc ℕ → Assoc ℕ
  row_days_from [] m = m
  row_days_from (r ∷ rs) m = row_days_from rs (bump (day_of r) m)

  -- Whether the bounds of a request leave a day out; a stored date that does not parse stays in.
  abbrev is_left_out : Option cal.Date → Option cal.Date → Option cal.Date → Bool
  is_left_out from to none = false
  is_left_out from to (some d) =
      elim from [ none ↦ false | some f ↦ cal.is_before d f ]
      || elim to [ none ↦ false | some t ↦ cal.is_before t d ]

  abbrev pub view_of : DaysState → Assoc DayLive → String → DayView
  view_of state live date =
      let flags = day_flags (live_at live date) (lookup date state) in
      record {
        date = date;
        scanned = flags.0;
        dreamed = flags.1;
        live = live_at live date;
        rec = lookup date state;
      }

  abbrev pub is_listed :
      Bool → Option cal.Date → Option cal.Date → String → Assoc DayLive → String → Bool
  is_listed undreamed_only from to today live date =
      not (is_left_out from to (cal.parse_day date))
      && (not undreamed_only || undreamed date today (live_at live date))

  -- The loop over the dates: the summary of all, and the days listed.
  unfoldable pub walk_days :
      (String → Bool)
      → String
      → DaysState
      → Assoc DayLive
      → List String
      → Summary
      → Summary × List DayView
  walk_days p today state live [] s = (s, [])
  walk_days p today state live (date ∷ dates) s =
      let s' = counted date today (live_at live date) (lookup date state) s in
      let (done, views) = walk_days p today state live dates s' in
      (done, if p date then view_of state live date ∷ views else views)

  abbrev pub dates_of : DaysState → Assoc DayLive → List String
  dates_of state live = dedup (sort_by text_le (keys live ++ keys state))

  -- `Some(Err)` is a bound that does not parse.
  abbrev pub parsed : Option String → Option (Option cal.Date)
  parsed none = some none
  parsed (some s) = elim (cal.parse_day s) [ none ↦ none | some d ↦ some (some d) ]

  -- `rows` and `staged` are what the two tables list.
  abbrev pub rollup :
      Option cal.Date
      → Option cal.Date
      → Bool
      → Instant
      → ℕ
      → Option DaysState
      → (rows staged : List Memory) → DaysReply
  rollup from to undreamed_only now ttl_days file rows staged =
      let state = load file in
      let live = live_from state (ttl_cutoff now ttl_days) staged [] in
      let today = cal.local_day now in
      let r =
        walk_days (is_listed undreamed_only from to today live) today state live
          (dates_of state live) no_summary in
      record { summary = r.0; row_days = row_days_from staged (row_days_from rows []); days = r.1 }

  unfoldable pub days :
      DaysRequest → Instant → ℕ → Option DaysState → (rows staged : List Memory) → Option DaysReply
  unfolding walk_days
  days req now ttl_days file rows staged = elim (parsed req.from) [
    | none ↦ none
    | some from ↦ elim (parsed req.to) [
      | none ↦ none
      | some to ↦ some (rollup from to req.undreamed_only now ttl_days file rows staged)
    ]
  ]

  -- `remember_day` of a day that parses.
  abbrev pub remember_on :
      Bool
      → String
      → RememberDayRequest
      → Instant
      → Option Leases
      → Option DaysState
      → StampReply × Option DaysState
  remember_on saved key req now leases file =
      if text_le (cal.local_day now) key
      then (bad_request, file)
      else remember_free (held_by_other leases key (or_else req.holder "") now) saved key now req
          file

  abbrev pub remember_date :
      Option cal.Date
      → Bool
      → RememberDayRequest
      → Instant
      → Option Leases
      → Option DaysState
      → StampReply × Option DaysState
  remember_date none saved req now leases file = (bad_request, file)
  remember_date (some date) saved req now leases file =
      remember_on saved (cal.format date) req now leases file

  unfoldable pub remember_day :
      Bool
      → RememberDayRequest
      → Instant
      → Option Leases
      → Option DaysState
      → StampReply × Option DaysState
  remember_day saved req now leases file =
      remember_date (cal.parse_day req.date) saved req now leases file

  unfoldable pub harvest_day :
      Bool → String → Instant → Option DaysState → StampReply × Option DaysState
  harvest_day saved date now file = elim (cal.parse_day date) [
    | none ↦ (bad_request, file)
    | some date ↦
        let key = cal.format date in
        if text_le (cal.local_day now) key
        then (bad_request, file)
        else saved_as saved key (record (record_of file key) { harvested_at = some now }) file
  ]

  -- A row may go when it is past its time and a pass has judged it.
  abbrev pub is_evictable : DaysState → Instant → Memory → Bool
  is_evictable state cutoff m = ltb (effective_timestamp m) cutoff && is_judged state m

  abbrev pub victims_of : DaysState → Instant → List Memory → List (String × String)
  victims_of state cutoff [] = []
  victims_of state cutoff (m ∷ ms) =
      let rest = victims_of state cutoff ms in
      if is_evictable state cutoff m then (m.id, day_of m) ∷ rest else rest

-- What the forget pass counts.
pub record Swept : Type 0 where
  pub removed : ℕ
  pub per_day : Assoc ℕ

abbrev forgotten_more : List (String × ℕ) → DaysState → DaysState
forgotten_more [] state = state
forgotten_more ((day, n) ∷ per_day) state =
    let r = or_else (lookup day state) no_record in
    forgotten_more per_day
      (insert day (record r { forgotten = saturating_add r.forgotten n }) state)

-- The counts kept, when rows have gone; `none` is an error of the save.
abbrev pub kept_counts : Bool → Bool → Swept → Option DaysState → Option Swept × Option DaysState
kept_counts saved dry_run s file =
    if not dry_run && ltb 0 s.removed
    then (
      if saved then some s else none,
      if saved then some (forgotten_more s.per_day (load file)) else file,
    )
    else (some s, file)

module _ (cal : Calendar) (db : TableApi) where
  -- A row that has gone already is not counted.
  unfoldable pub evict_rows :
      (String → Io) → Bool → List (String × String) → Swept → Node db → Node db × Swept
  evict_rows io dry_run [] s n = (n, s)
  evict_rows io dry_run ((id, day) ∷ vs) s n =
      let (gone, was) = delete db (io id) episodic id n in
      evict_rows io dry_run vs
        (if dry_run || was
          then record { removed = s.removed + 1; per_day = bump day s.per_day }
          else s)
        (if dry_run then n else gone)

  module _ (home tmp : FilePath) (like : String → String → Bool) where
    abbrev pub all_episodic : Node db → List Memory
    all_episodic n = list db home tmp like episodic default oldest usize_max 0 n

    unfoldable pub sweep :
        (String → Io)
        → Bool
        → Bool
        → Instant
        → ℕ
        → Option DaysState
        → Node db
        → (Option Swept × Option DaysState) × Node db
    unfolding evict_rows
    sweep io saved dry_run now ttl_days file n =
        let victims = victims_of cal (load file) (ttl_cutoff now ttl_days) (all_episodic n) in
        let (after, s) = evict_rows io dry_run victims (record { removed = 0; per_day = [] }) n in
        (kept_counts saved dry_run s file, after)
