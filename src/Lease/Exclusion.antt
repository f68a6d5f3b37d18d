-- ===== src/Lease/Exclusion.antt =====
-- What a lease promises: while it runs, no other holder gets its day.
use linggen_memory.Prelude.{
  ◌≤◌, ◌<◌, String, ◌==◌, eq_iff, ◌≡◌, ◌∙◌, refl, sym, ap, ◌⊎◌, inl, inr, subst, Bool, Bool-cases,
  true, false, Option, none, some, List, [], ◌∷◌, arith, if◌then◌else◌, All, lookup, insert, remove,
  retain, filter, IsMap, lookup-insert, lookup-remove, lookup-retain, retain-IsMap, insert-IsMap,
  remove-IsMap,
}
use linggen_memory.Types.{Instant}
use linggen_memory.Lease.{
  Lease, Leases, load, Verdict, granted, held, released, is_after, is_other, decide, decide_on,
  decide_free, kept_as, new_lease,
}

-- The lease on a day as it is at a time: what another reader of the file counts.
abbrev pub live_at : Instant → String → Option Leases → Option Lease
live_at t day file = filter (is_after t) (lookup day (load file))

-- What the verdict makes of the day's own lease.
abbrev pub shown : Option Verdict → Option Lease → Option Lease
shown none old = old
shown (some (held l)) old = old
shown (some (granted l)) old = some l
shown (some released) old = none

filter_later :
    (now t : Instant) (o : Option Lease)
    → now ≤ t
    → filter (is_after t) (filter (is_after now) o) ≡ filter (is_after t) o
filter_later now t none le = refl
filter_later now t (some l) le = ground arith

-- The branch where the request goes through, by action and by whether the save succeeds.
decide_free-shown :
    (saved : Bool) (day holder action : String) (now : Instant) (leases : Leases)
    (file : Option Leases) (t : Instant) (k : String)
    → filter (is_after now) (lookup k (load file)) ≡ lookup k leases
    → let (v, file') = decide_free saved day holder action now leases file in
      now ≤ t
      → live_at t k file'
        ≡ filter
            (is_after t)
            (if day == k then shown v (live_at now k file) else live_at now k file)
decide_free-shown saved day holder action now leases file t k e le =
    elim (Bool-cases (action == "release")) [
      | inl a ↦ rw a (by_save saved released (remove day leases) (lookup-remove day k leases))
      | inr a ↦ rw a (
          by_save saved (granted (new_lease holder now)) (insert day (new_lease holder now) leases)
            (lookup-insert day k (new_lease holder now) leases))
    ]
  where
    by_save :
        (saved : Bool) (v : Verdict) (after : Leases)
        → lookup k after ≡ (if day == k then shown (some v) (lookup k leases) else lookup k leases)
        → live_at t k (kept_as saved after v file).1
          ≡ filter (is_after t) (
              if day == k
              then shown (kept_as saved after v file).0 (live_at now k file)
              else live_at now k file)
    by_save true v after h =
        subst
          (λ o.
            filter (is_after t) (lookup k after)
            ≡ filter (is_after t) (if day == k then shown (some v) o else o))
          (sym e) (ap (filter (is_after t)) h)
    by_save false v after h = ground (arith, filter_later now t (lookup k (load file)) le)

-- In a file that holds each day once, whatever the request and whether or not its save succeeds: at
-- every time from the request on each day shows the lease that it showed at the request, but for
-- the request's own day, which shows the lease granted, or none when it was released.
pub decide-shown :
    (saved : Bool) (day holder action : String) (now : Instant) (file : Option Leases)
    → IsMap (load file)
    → (t : Instant) → now ≤ t
    → (k : String)
    → live_at t k (decide saved day holder action now file).1
      ≡ filter (is_after t) (
          if day == k
          then shown (decide saved day holder action now file).0 (live_at now k file)
          else live_at now k file)
unfolding decide
decide-shown saved day holder action now file m t le k =
    by_other (filter (is_other holder) (lookup day (retain (is_after now) (load file))))
  where
    by_other :
        (o : Option Lease)
        → let (v, file') =
            decide_on o saved day holder action now (retain (is_after now) (load file)) file in
          live_at t k file'
          ≡ filter
              (is_after t)
              (if day == k then shown v (live_at now k file) else live_at now k file)
    by_other (some l) = ground (arith, filter_later now t (lookup k (load file)) le)
    by_other none =
        decide_free-shown saved day holder action now (retain (is_after now) (load file)) file t k
          (sym (lookup-retain (is_after now) k (load file) m)) le

-- Another holder's running lease refuses every request and leaves the file as it is.
decide_refused :
    (saved : Bool) (day holder action : String) (now : Instant) (file : Option Leases) (l : Lease)
    → IsMap (load file)
    → lookup day (load file) ≡ some l
    → now < l.expires_at
    → (l.holder == holder) ≡ false
    → decide saved day holder action now file ≡ (some (held l), file)
unfolding decide
decide_refused saved day holder action now file l m found lasts other =
    ap (λ o. decide_on o saved day holder action now (retain (is_after now) (load file)) file)
      (ap (filter (is_other holder))
          (lookup-retain (is_after now) day (load file) m ∙ ap (filter (is_after now)) found)
        ∙ passes)
  where
    passes : filter (is_other holder) (filter (is_after now) (some l)) ≡ some l
    passes = ground (arith, lasts, other)

decide-IsMap :
    (saved : Bool) (day holder action : String) (now : Instant) (file : Option Leases)
    → IsMap (load file)
    → IsMap (load (decide saved day holder action now file).1)
unfolding decide
decide-IsMap saved day holder action now file m =
    by_other (filter (is_other holder) (lookup day (retain (is_after now) (load file))))
  where
    live : Leases
    live = retain (is_after now) (load file)

    by_save :
        (saved : Bool) (v : Verdict) (after : Leases)
        → IsMap after
        → IsMap (load (kept_as saved after v file).1)
    by_save true v after h = h
    by_save false v after h = m

    by_other :
        (o : Option Lease) → IsMap (load (decide_on o saved day holder action now live file).1)
    by_other (some l) = m
    by_other none = elim (Bool-cases (action == "release")) [
      | inl a ↦ rw a (
          by_save saved released (remove day live)
            (remove-IsMap day live (retain-IsMap (is_after now) (load file) m)))
      | inr a ↦ rw a (
          by_save saved (granted (new_lease holder now)) (insert day (new_lease holder now) live) (
            insert-IsMap day (new_lease holder now) live
              (retain-IsMap (is_after now) (load file) m)))
    ]

-- A request for another day leaves a running lease where it is.
decide_elsewhere :
    (saved : Bool) (day holder action : String) (now : Instant) (file : Option Leases) (k : String)
    (l : Lease)
    → IsMap (load file)
    → (day == k) ≡ false
    → lookup k (load file) ≡ some l
    → now < l.expires_at
    → lookup k (load (decide saved day holder action now file).1) ≡ some l
unfolding decide
decide_elsewhere saved day holder action now file k l m away found lasts =
    by_other (filter (is_other holder) (lookup day (retain (is_after now) (load file))))
  where
    live : Leases
    live = retain (is_after now) (load file)

    stays : lookup k live ≡ some l
    stays =
        lookup-retain (is_after now) k (load file) m
        ∙ ap (filter (is_after now)) found
        ∙ ground (arith, lasts)

    by_save :
        (saved : Bool) (v : Verdict) (after : Leases)
        → lookup k after ≡ some l
        → lookup k (load (kept_as saved after v file).1) ≡ some l
    by_save true v after h = h
    by_save false v after h = found

    by_other :
        (o : Option Lease)
        → lookup k (load (decide_on o saved day holder action now live file).1) ≡ some l
    by_other (some other) = found
    by_other none = elim (Bool-cases (action == "release")) [
      | inl a ↦ rw a (
          by_save saved released (remove day live)
            (lookup-remove day k live ∙ ground (arith, away, stays)))
      | inr a ↦ rw a (
          by_save saved (granted (new_lease holder now)) (insert day (new_lease holder now) live)
            (lookup-insert day k (new_lease holder now) live ∙ ground (arith, away, stays)))
    ]

-- One request at the lease file, as the lock serialises them.
pub record Asked : Type 0 where
  pub saved : Bool
  pub day : String
  pub holder : String
  pub action : String
  pub now : Instant

abbrev pub answer : Asked → Option Leases → Option Verdict × Option Leases
answer r file = decide r.saved r.day r.holder r.action r.now file

unfoldable pub answers : List Asked → Option Leases → List (Asked × Option Verdict) × Option Leases
answers [] file = ([], file)
answers (r ∷ rs) file =
    let (rest, file') = answers rs (answer r file).1 in ((r, (answer r file).0) ∷ rest, file')

-- A request by another holder while the lease `l` runs.
abbrev pub IsRival : Lease → Asked → Type 0
IsRival l r = (r.now < l.expires_at) × ((l.holder == r.holder) ≡ false)

-- In a file that holds each day once, while a lease on a day runs, and whatever requests other
-- holders make for this day and for others: each request of theirs for this day is refused and
-- shown the lease, and at the end the lease stands as it was.
pub answers_exclude :
    (rs : List Asked) (file : Option Leases) (day : String) (l : Lease)
    → IsMap (load file)
    → lookup day (load file) ≡ some l
    → All (IsRival l) rs
    → (lookup day (load (answers rs file).1) ≡ some l)
      × All (λ a. ((a.0.day == day) ≡ false) ⊎ (a.1 ≡ some (held l))) (answers rs file).0
unfolding answers
answers_exclude [] file day l m found rivals = (found, tt)
answers_exclude (r ∷ rs) file day l m found rivals =
    let next =
      answers_exclude rs (answer r file).1 day l
        (decide-IsMap r.saved r.day r.holder r.action r.now file m) in
    elim (Bool-cases (r.day == day)) [
      | inl here ↦
          let refused =
            decide_refused r.saved r.day r.holder r.action r.now file l m
              (ap (λ d. lookup d (load file)) ((eq_iff r.day day).0 here) ∙ found) rivals.0.0
              rivals.0.1 in
          let (last, rest) = next (ap (λ a. lookup day (load a.1)) refused ∙ found) rivals.1 in
          (last, (inr (ap (λ a. a.0) refused), rest))
      | inr away ↦
          let (last, rest) =
            next
              (decide_elsewhere r.saved r.day r.holder r.action r.now file day l m away found
                rivals.0.0)
              rivals.1 in
          (last, (inl away, rest))
    ]
