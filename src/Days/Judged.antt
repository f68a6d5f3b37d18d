-- ===== src/Days/Judged.antt =====
-- A remember pass stamps its day: what the rollup and the forget pass see of it afterwards
-- (src/http/days.rs).
use linggen_memory.Prelude.{
  ◌+◌, String, ◌==◌, eq_iff, ◌≡◌, ◌∙◌, refl, ap, inl, inr, Bool, true, false, not, ◌&&◌, Option,
  Bool-cases, none, some, List, [], ◌∷◌, arith, length, keep, ltb, or_else, if◌then◌else◌, insert,
  lookup, lookup-insert, Assoc,
}
use linggen_memory.Text.Order.{text_le}
use linggen_memory.Types.{Memory, Instant}
use linggen_memory.Lease.{Lease, Leases, held_by_other}
use linggen_memory.Days.{
  Calendar, DaysState, DayRecord, DayLive, RememberDayRequest, StampReply, recorded, load,
  remember_day, stamp_of, is_judged, is_stamped, day_of, live_from, live_at, added,
  stamp_remembered, remember_date, remember_free, bad_request,
}

stamp_of-insert :
    (key d : String) (r : DayRecord) (state : DaysState)
    → stamp_of (insert key r state) d ≡ (if key == d then r.remembered_at else stamp_of state d)
stamp_of-insert key d r state = ground (arith, lookup-insert key d r state)

module _ (cal : Calendar) where
  -- The rows of a day that no pass has judged.
  abbrev pub is_waiting : DaysState → String → Memory → Bool
  is_waiting state d m = (day_of cal m == d) && not (is_judged cal state m)

  pub unjudged-live_from :
      (state : DaysState) (cutoff : Instant) (d : String) (ms : List Memory) (live : Assoc DayLive)
      → (live_at (live_from cal state cutoff ms live) d).unjudged
        ≡ (live_at live d).unjudged + length (keep (is_waiting state d) ms)
  unjudged-live_from state cutoff d [] live = omega arith
  unjudged-live_from state cutoff d (m ∷ ms) live =
      let bucket = added cal state cutoff m (live_at live (day_of cal m)) in
      ground (
        arith,
        unjudged-live_from state cutoff d ms (insert (day_of cal m) bucket live),
        lookup-insert (day_of cal m) d bucket live,
        eq_iff (day_of cal m) d,
      )

  -- What a reply that records says of the file.
  abbrev Records : String → DayRecord → Instant → Option DaysState → Option DaysState → Type 0
  Records key r now file file' =
      (file' ≡ some (insert key r (load file))) × (r.remembered_at ≡ some now)

  stamp_remembered-Records :
      (saved : Bool) (k : String) (now : Instant) (req : RememberDayRequest)
      (file : Option DaysState) (key : String) (r : DayRecord) (file' : Option DaysState)
      → stamp_remembered saved k now req file ≡ (recorded key r, file')
      → Records key r now file file'
  stamp_remembered-Records true k now req file key r file' h = (cc, cc)
  stamp_remembered-Records false k now req file key r file' h = absurd (cc)

  remember_free-Records :
      (l : Option Lease) (saved : Bool) (k : String) (now : Instant) (req : RememberDayRequest)
      (file : Option DaysState) (key : String) (r : DayRecord) (file' : Option DaysState)
      → remember_free l saved k now req file ≡ (recorded key r, file')
      → Records key r now file file'
  remember_free-Records (some l) saved k now req file key r file' h = absurd (cc)
  remember_free-Records none saved k now req file key r file' h =
      stamp_remembered-Records saved k now req file key r file' h

  past_only :
      (b : Bool) (file : Option DaysState) (x : StampReply × Option DaysState) (key : String)
      (r : DayRecord) (file' : Option DaysState)
      → (if b then (bad_request, file) else x) ≡ (recorded key r, file')
      → x ≡ (recorded key r, file')
  past_only true file x key r file' h = absurd (cc)
  past_only false file x key r file' h = h

  remember_date-Records :
      (d : Option cal.Date) (saved : Bool) (req : RememberDayRequest) (now : Instant)
      (leases : Option Leases) (file : Option DaysState) (key : String) (r : DayRecord)
      (file' : Option DaysState)
      → remember_date cal d saved req now leases file ≡ (recorded key r, file')
      → Records key r now file file'
  remember_date-Records none saved req now leases file key r file' h = absurd (cc)
  remember_date-Records (some date) saved req now leases file key r file' h =
      let k = cal.format date in
      let l = held_by_other leases k (or_else req.holder "") now in
      remember_free-Records l saved k now req file key r file' (
        past_only (text_le (cal.local_day now) k) file (remember_free l saved k now req file) key r
          file' h)

  -- The rows of a day that are unjudged once another has been stamped at `now`.
  abbrev pub is_left : DaysState → String → Instant → String → Memory → Bool
  is_left state key now d m =
      (day_of cal m == d) && not (if key == d then ltb m.created_at now else is_judged cal state m)

  judged_after :
      (state : DaysState) (key : String) (r : DayRecord) (now : Instant)
      → r.remembered_at ≡ some now
      → (m : Memory)
      → is_judged cal (insert key r state) m
        ≡ (if key == day_of cal m then ltb m.created_at now else is_judged cal state m)
  judged_after state key r now stamped m =
      ap (is_stamped m.created_at) (stamp_of-insert key (day_of cal m) r state)
      ∙ (elim (Bool-cases (key == day_of cal m)) [
        | inl e ↦ rw e (rw stamped refl)
        | inr e ↦ rw e refl
      ])

  waiting_left :
      (state : DaysState) (key : String) (r : DayRecord) (now : Instant) (d : String)
      → r.remembered_at ≡ some now
      → (m : Memory) → is_waiting (insert key r state) d m ≡ is_left state key now d m
  waiting_left state key r now d stamped m = ground (
    arith,
    judged_after state key r now stamped m,
    eq_iff (day_of cal m) d,
    eq_iff key d,
    eq_iff key (day_of cal m),
  )

  left_same :
      (state : DaysState) (key : String) (r : DayRecord) (now : Instant) (d : String)
      → r.remembered_at ≡ some now
      → (ms : List Memory)
      → length (keep (is_waiting (insert key r state) d) ms)
        ≡ length (keep (is_left state key now d) ms)
  left_same state key r now d stamped [] = refl
  left_same state key r now d stamped (m ∷ ms) =
      ground
        (arith, waiting_left state key r now d stamped m, left_same state key r now d stamped ms)

  -- After a remember pass is recorded, the rollup counts as unjudged, of the stamped day, exactly
  -- the staged rows created at its stamp or later, and of every other day those of before.
  pub remember_day-unjudged :
      (saved : Bool) (req : RememberDayRequest) (now : Instant) (leases : Option Leases)
      (file : Option DaysState) (key : String) (r : DayRecord) (file' : Option DaysState)
      → remember_day cal saved req now leases file ≡ (recorded key r, file')
      → (cutoff : Instant) (d : String) (staged : List Memory)
      → (live_at (live_from cal (load file') cutoff staged []) d).unjudged
        ≡ length (keep (is_left (load file) key now d) staged)
  unfolding remember_day lookup
  remember_day-unjudged saved req now leases file key r file' h cutoff d staged =
      let (e, stamped) =
        remember_date-Records (cal.parse_day req.date) saved req now leases file key r file' h in
      omega (
        arith,
        unjudged-live_from (load file') cutoff d staged [],
        ap (λ f. length (keep (is_waiting (load f) d) staged)) e,
        left_same (load file) key r now d stamped staged,
      )
