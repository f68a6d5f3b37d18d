-- ===== src/Days/Worklist.antt =====
-- The worklist of the dream: the days that wait, oldest first (src/http/days.rs).
use linggen_memory.Prelude.{
  ℕ, String, ◌==◌, ◌≡◌, ◌∙◌, refl, sym, ap, subst, Option-cases, inl, inr, Bool, true, false,
  Bool-cases, Option, none, some, List, [], ◌∷◌, ◌++◌, arith, any, any-sort_by, eq_iff, ◌&&◌, ◌||◌,
  not, ltb, length, keep, sort_by, All, All-keep, lookup, Assoc, sort_by-IsSorted, IsSorted,
}
use linggen_memory.Text.Order.{text_le, text_le_total, text_le_trans}
use linggen_memory.Types.{Memory, Instant}
use linggen_memory.Days.{
  DayRecord, Calendar, DaysState, DayLive, DayView, DaysRequest, DaysReply, Summary, no_summary,
  load, days, rollup, dates_of, walk_days, undreamed, live_at, live_from, ttl_cutoff, counted,
  dedup, keys, first_if, text_lt, is_listed, day_of, is_judged,
}
use linggen_memory.Days.Judged.{is_waiting, unjudged-live_from}

abbrev pub dates : List DayView → List String
dates [] = []
dates (v ∷ vs) = v.date ∷ dates vs

abbrev pub first_of : List String → Option String
first_of [] = none
first_of (d ∷ ds) = some d

All-dedup : (P : String → Type 0) (xs : List String) → All P xs → All P (dedup xs)
All-dedup P [] h = tt
All-dedup P (x ∷ []) h = h
All-dedup P (x ∷ y ∷ ys) h = elim (Bool-cases (x == y)) [
  | inl e ↦ rw e (All-dedup P (y ∷ ys) h.1)
  | inr e ↦ rw e (h.0, All-dedup P (y ∷ ys) h.1)
]

dedup-IsSorted : (xs : List String) → IsSorted text_le xs → IsSorted text_le (dedup xs)
dedup-IsSorted [] h = tt
dedup-IsSorted (x ∷ []) h = h
dedup-IsSorted (x ∷ y ∷ ys) h = elim (Bool-cases (x == y)) [
  | inl e ↦ rw e (dedup-IsSorted (y ∷ ys) h.1)
  | inr e ↦ rw e (All-dedup (λ z. text_le x z ≡ true) (y ∷ ys) h.0, dedup-IsSorted (y ∷ ys) h.1)
]

keep-IsSorted :
    (p : String → Bool) (xs : List String) → IsSorted text_le xs → IsSorted text_le (keep p xs)
keep-IsSorted p [] h = tt
keep-IsSorted p (x ∷ xs) h = elim (Bool-cases (p x)) [
  | inl e ↦ rw e (All-keep (λ z. text_le x z ≡ true) p xs h.0, keep-IsSorted p xs h.1)
  | inr e ↦ rw e (keep-IsSorted p xs h.1)
]

any-dedup : (d : String) (xs : List String) → any (λ e. e == d) (dedup xs) ≡ any (λ e. e == d) xs
any-dedup d [] = refl
any-dedup d (x ∷ []) = refl
any-dedup d (x ∷ y ∷ ys) = elim (Bool-cases (x == y)) [
  | inl e ↦ rw e (ground (arith, any-dedup d (y ∷ ys), e, eq_iff x y, eq_iff x d, eq_iff y d))
  | inr e ↦ rw e (ap (λ b. (x == d) || b) (any-dedup d (y ∷ ys)))
]

any_at :
    (p : String → Bool) (d : String) (xs : List String)
    → any (λ e. e == d) (keep p xs) ≡ (p d && any (λ e. e == d) xs)
any_at p d [] = ground arith
any_at p d (x ∷ xs) = elim (Bool-cases (x == d)) [
  | inl e ↦ rw ((eq_iff x d).0 e) (ground (arith, any_at p d xs, eq_iff d d))
  | inr e ↦ ground (arith, e, any_at p d xs)
]

any-append_keys :
    (d : String) (live : Assoc DayLive) (ks : List String)
    → any (λ e. e == d) (keys live ++ ks) ≡ (any (λ e. e == d) (keys live) || any (λ e. e == d) ks)
any-append_keys d [] ks = refl
any-append_keys d ((k, x) ∷ m) ks = ground (arith, any-append_keys d m ks)

lookup-keys :
    (d : String) (live : Assoc DayLive)
    → any (λ e. e == d) (keys live) ≡ false
    → lookup d live ≡ none
unfolding lookup
lookup-keys d [] h = refl
lookup-keys d ((k, x) ∷ m) h = ground (arith, h, lookup-keys d m)

any-length-keep : (p : Memory → Bool) (ms : List Memory) → ltb 0 (length (keep p ms)) ≡ any p ms
any-length-keep p [] = refl
any-length-keep p (m ∷ ms) = ground (arith, any-length-keep p ms)

module _ (cal : Calendar) where
  walk_days-dates :
      (p : String → Bool) (today : String) (state : DaysState) (live : Assoc DayLive)
      (ds : List String) (s : Summary)
      → dates (walk_days cal p today state live ds s).1 ≡ keep p ds
  unfolding walk_days
  walk_days-dates p today state live [] s = refl
  walk_days-dates p today state live (d ∷ ds) s =
      let rest =
        walk_days-dates p today state live ds
          (counted d today (live_at live d) (lookup d state) s) in
      elim (Bool-cases (p d)) [ inl e ↦ rw e (ap (λ l. d ∷ l) rest) | inr e ↦ rw e rest ]

  abbrev or_first : Option String → Option String → Option String
  or_first (some d) later = some d
  or_first none later = later

  no_first : (d : String) (o : Option String) → o ≡ first_if false d o
  no_first d none = refl
  no_first d (some e) = refl

  counted-first :
      (d today : String) (live : DayLive) (rec : Option DayRecord) (s : Summary)
      → (counted d today live rec s).first_undreamed
        ≡ first_if (undreamed d today live) d s.first_undreamed
  counted-first d today live rec s = elim (Bool-cases (text_lt d today)) [
    | inl e ↦ rw e refl
    | inr e ↦ rw e (no_first d s.first_undreamed)
  ]

  first_of-keep :
      (p : String → Bool) (d : String) (ds : List String) (o : Option String)
      → or_first (first_if (p d) d o) (first_of (keep p ds))
        ≡ or_first o (first_of (keep p (d ∷ ds)))
  first_of-keep p d ds (some e) = refl
  first_of-keep p d ds none = elim (Bool-cases (p d)) [ inl e ↦ rw e refl | inr e ↦ rw e refl ]

  walk_days-first :
      (p : String → Bool) (today : String) (state : DaysState) (live : Assoc DayLive)
      (ds : List String) (s : Summary)
      → (walk_days cal p today state live ds s).0.first_undreamed
        ≡ or_first s.first_undreamed (first_of (keep (λ d. undreamed d today (live_at live d)) ds))
  unfolding walk_days
  walk_days-first p today state live [] s = ground arith
  walk_days-first p today state live (d ∷ ds) s =
      let s' = counted d today (live_at live d) (lookup d state) s in
      let waits = λ (e : String). undreamed e today (live_at live e) in
      walk_days-first p today state live ds s'
      ∙ ap (λ o. or_first o (first_of (keep waits ds)))
          (counted-first d today (live_at live d) (lookup d state) s)
      ∙ first_of-keep waits d ds s.first_undreamed

  abbrev pub worklist : DaysRequest
  worklist = record { undreamed_only = true; from = none; to = none }

  keep_same :
      (p q : String → Bool)
      → ((x : String) → p x ≡ q x)
      → (xs : List String) → keep p xs ≡ keep q xs
  keep_same p q h [] = refl
  keep_same p q h (x ∷ xs) = ground (arith, h x, keep_same p q h xs)

  unbounded :
      (today : String) (live : Assoc DayLive) (d : String)
      → is_listed cal true none none today live d ≡ undreamed d today (live_at live d)
  unbounded today live d = elim (Option-cases (cal.parse_day d)) [
    | inl e ↦ rw e refl
    | inr (date, e) ↦ rw e refl
  ]

  abbrev IsWorklist : Instant → ℕ → Option DaysState → List Memory → DaysReply → Type 0
  IsWorklist now ttl_days file staged reply =
      let live = live_from cal (load file) (ttl_cutoff now ttl_days) staged [] in
      IsSorted text_le (dates reply.days)
      × (dates reply.days
          ≡ keep (λ d. undreamed d (cal.local_day now) (live_at live d))
              (dates_of cal (load file) live))
      × (reply.summary.first_undreamed ≡ first_of (dates reply.days))

  rollup-IsWorklist :
      (now : Instant) (ttl_days : ℕ) (file : Option DaysState) (rows staged : List Memory)
      → IsWorklist now ttl_days file staged
          (rollup cal none none true now ttl_days file rows staged)
  rollup-IsWorklist now ttl_days file rows staged =
      let state = load file in
      let today = cal.local_day now in
      let live = live_from cal state (ttl_cutoff now ttl_days) staged [] in
      let waits = λ (d : String). undreamed d today (live_at live d) in
      let listed = is_listed cal true none none today live in
      let ds = dates_of cal state live in
      let all =
        walk_days-dates listed today state live ds no_summary
        ∙ keep_same listed waits (unbounded today live) ds in
      let sorted =
        dedup-IsSorted (sort_by text_le (keys live ++ keys state))
          (sort_by-IsSorted text_le text_le_trans text_le_total (keys live ++ keys state)) in
      (
        subst (IsSorted text_le) (sym all) (keep-IsSorted waits ds sorted),
        all,
        walk_days-first listed today state live ds no_summary ∙ ap first_of (sym all),
      )

  -- The days that wait are listed whether or not they have a record.
  waiting_days :
      (today : String) (state : DaysState) (live : Assoc DayLive) (d : String)
      → any (λ e. e == d) (keep (λ e. undreamed e today (live_at live e)) (dates_of cal state live))
        ≡ undreamed d today (live_at live d)
  waiting_days today state live d =
      let waits = λ (e : String). undreamed e today (live_at live e) in
      let all = keys live ++ keys state in
      let listed : any (λ e. e == d) (dates_of cal state live) ≡ any (λ e. e == d) all =
        any-dedup d (sort_by text_le all) ∙ any-sort_by text_le (λ e. e == d) all in
      any_at waits d (dates_of cal state live)
      ∙ ground (arith, listed, any-append_keys d live (keys state), lookup-keys d live)

  -- The worklist of the dream, asked for without bounds: its days stand oldest first, they are
  -- exactly the days before today of which a staged row is not judged, whether or not the day has a
  -- record, and the summary's first undreamed day is the first of them.
  pub days-worklist :
      (now : Instant) (ttl_days : ℕ) (file : Option DaysState) (rows staged : List Memory)
      (reply : DaysReply)
      → days cal worklist now ttl_days file rows staged ≡ some reply
      → IsSorted text_le (dates reply.days)
        × ((d : String)
            → any (λ e. e == d) (dates reply.days) ≡ (
                not (text_le (cal.local_day now) d)
                && any (λ m. (day_of cal m == d) && not (is_judged cal (load file) m)) staged))
        × (reply.summary.first_undreamed ≡ first_of (dates reply.days))
  unfolding days lookup
  days-worklist now ttl_days file rows staged reply h =
      let live = live_from cal (load file) (ttl_cutoff now ttl_days) staged [] in
      let (sorted, all, first) =
        subst (IsWorklist now ttl_days file staged)
          {x = rollup cal none none true now ttl_days file rows staged} {y = reply} (cc)
          (rollup-IsWorklist now ttl_days file rows staged) in
      let count : (d : String)
          → (live_at live d).unjudged ≡ length (keep (is_waiting cal (load file) d) staged) =
        λ d.
          omega (arith, unjudged-live_from cal (load file) (ttl_cutoff now ttl_days) d staged []) in
      (
        sorted,
        λ d.
            ap (any (λ e. e == d)) all
            ∙ waiting_days (cal.local_day now) (load file) live d
            ∙ ap (λ n. text_lt d (cal.local_day now) && ltb 0 n) (count d)
            ∙ ap (λ b. text_lt d (cal.local_day now) && b)
                (any-length-keep (is_waiting cal (load file) d) staged),
        first,
      )
