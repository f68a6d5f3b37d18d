-- ===== src/Tests/Dreaming.antt =====
-- The properties of the calendar at two days.
use linggen_memory.Prelude.{
  arith, ℕ, String, ◌==◌, ◌≡◌, ◌↔◌, refl, Bool, true, false, not, ◌&&◌, ◌||◌, none, some, Option,
  List, [], ◌∷◌, ◌+◌, ◌*◌, All, IsSorted, any, keep, length, ltb, if◌then◌else◌,
}
use linggen_memory.Text.Order.{text_le}
use linggen_memory.Types.{Memory, Instant, effective_timestamp, new, fact, derived}
use linggen_memory.Tables.{row_tables}
use linggen_memory.Paths.{FilePath, root_dir, normal}
use linggen_memory.Store.{Node, Io, episodic, get_row}
use linggen_memory.Store.Reads.{same_table}
use linggen_memory.Store.Sweeps.{passes}
use linggen_memory.Store.Filters.{default, matches}
use linggen_memory.Days.{
  is_judged, day_of, Calendar, DaysState, DayRecord, DaysReply, RememberDayRequest, no_record, load,
  ttl_cutoff, is_stamped, stamp_of, day_of, sweep, remember_day, days, live_at, live_from, rollup,
}
use linggen_memory.Days.Sweeping
use linggen_memory.Days.Judged
use linggen_memory.Days.Judged.{is_left}
use linggen_memory.Days.Worklist
use linggen_memory.Days.Worklist.{dates, first_of, worklist}

abbrev midnight : ℕ
midnight = 86400000000

-- Two days, written as they are.
abbrev two_days : Calendar
two_days = record {
  Date = Bool;
  local_day = λ t. if ltb t midnight then "1970-01-01" else "1970-01-02";
  parse_day =
      λ s. if s == "1970-01-01" then some false else if s == "1970-01-02" then some true else none;
  format = λ d. if d then "1970-01-02" else "1970-01-01";
  is_before = λ a b. not a && b;
}

abbrev staged : List Memory
staged = new "a" 10 "tabs" fact derived ∷ new "b" 90 "spaces" fact derived ∷ []

abbrev evening : Instant
evening = midnight + 50

abbrev request : RememberDayRequest
request = record { date = "1970-01-01"; judged = 1; promoted = 0; harvested = false; holder = none }

abbrev first_record : DayRecord
first_record = record no_record { remembered_at = some evening; judged = 1 }

abbrev file : Option DaysState
file = some (("1970-01-01", first_record) ∷ [])

remember_day-unjudged_example :
    (live_at (live_from two_days (load file) 0 staged []) "1970-01-01").unjudged
    ≡ length (keep (is_left two_days [] "1970-01-01" evening "1970-01-01") staged)
unfolding remember_day linggen_memory.Lease.held_by_other linggen_memory.Prelude.lookup
    linggen_memory.Prelude.insert text_le
remember_day-unjudged_example =
    Judged.remember_day-unjudged two_days true request evening none none "1970-01-01" first_record
      file refl 0 "1970-01-01" staged

abbrev reply : DaysReply
reply = rollup two_days none none true evening 7 none [] staged

days-worklist_example :
    IsSorted text_le (dates reply.days)
    × ((d : String)
        → any (λ e. e == d) (dates reply.days) ≡ (
            not (text_le (two_days.local_day evening) d)
            && any (λ m. (day_of two_days m == d) && not (is_judged two_days [] m)) staged))
    × (reply.summary.first_undreamed ≡ first_of (dates reply.days))
unfolding days
days-worklist_example = Worklist.days-worklist two_days evening 7 none [] staged reply refl

abbrev home : FilePath
home = root_dir ∷ normal "h" ∷ []

abbrev tmp : FilePath
tmp = root_dir ∷ normal "tmp" ∷ []

abbrev like : String → String → Bool
like s pattern = true

abbrev disk : Io
disk = record { appended = true; rewritten = true }

abbrev node : Node row_tables
node = record {
  semantic = [];
  episodic = staged;
  log = record { entries = []; next_seq = 1; file = linggen_memory.Changes.no_lines; fresh = true };
}

sweep-get_row_example :
    let r =
      sweep two_days row_tables home tmp like (λ k. disk) true false (9 * midnight) 7 file node in
    (get_row row_tables episodic "a" r.1 ≡ (
      if not false
        && (same_table episodic episodic
            && passes row_tables
                (λ m.
                  matches home tmp like default m
                  && (ltb (effective_timestamp m) (ttl_cutoff (9 * midnight) 7)
                      && is_stamped m.created_at (stamp_of (load file) (day_of two_days m))))
                (get_row row_tables episodic "a" node))
      then none
      else get_row row_tables episodic "a" node))
    × (false ≡ true → r.0.1 ≡ file)
unfolding linggen_memory.Tables.row_ids
sweep-get_row_example =
    Sweeping.sweep-get_row two_days row_tables home tmp like (λ k. disk) true false (9 * midnight) 7
      file episodic "a" node (omega arith)
