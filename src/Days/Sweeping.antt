-- ===== src/Days/Sweeping.antt =====
-- What the forget pass leaves to read (src/http/days.rs).
use linggen_memory.Prelude.{
  ℕ, ◌≤◌, ◌+◌, String, ◌==◌, ◌≡◌, ◌∙◌, refl, sym, ap, Bool, true, false, not, ◌&&◌, ◌||◌, Option,
  none, List, [], ◌∷◌, arith, any, ltb, length, keep, if◌then◌else◌, any-sort_by, sort_by, any-keep,
  Bool-cases, inl, inr,
}
use linggen_memory.Paths.{FilePath}
use linggen_memory.Types.{Memory, Instant, effective_timestamp}
use linggen_memory.Tables.{TableApi}
use linggen_memory.Store.{TableName, episodic, Io, Node, get_row, delete}
use linggen_memory.Store.Filters.{default, matches, of_origin}
use linggen_memory.Store.Reads.{same_table}
use linggen_memory.Store.Sweeps.{passes}
use linggen_memory.Store.Queries.{usize_max, oldest, comes_first, rows_where}
use linggen_memory.Store.Forgetting.{names, get_row-delete, names_of_table, list_whole}
use linggen_memory.Days.{
  Calendar, DaysState, Swept, load, ttl_cutoff, is_evictable, is_stamped, stamp_of, day_of,
  victims_of, evict_rows, all_episodic, sweep, bump,
}

module _ (cal : Calendar) (db : TableApi) where
  open db use {get, ids}

  abbrev goes : String → List (String × String) → Bool
  goes k vs = any (λ (v : String × String). v.0 == k) vs

  goes-victims_of :
      (state : DaysState) (cutoff : Instant) (k : String) (ms : List Memory)
      → goes k (victims_of cal state cutoff ms) ≡ names k (keep (is_evictable cal state cutoff) ms)
  goes-victims_of state cutoff k [] = refl
  goes-victims_of state cutoff k (m ∷ ms) = elim (Bool-cases (is_evictable cal state cutoff m)) [
    | inl e ↦ rw e (ap (λ b. (m.id == k) || b) (goes-victims_of state cutoff k ms))
    | inr e ↦ rw e (goes-victims_of state cutoff k ms)
  ]

  get_row-evict_rows :
      (io : String → Io) (dry : Bool) (v : TableName) (k : String) (vs : List (String × String))
      (s : Swept) (n : Node db)
      → get_row db v k (evict_rows cal db io dry vs s n).0
        ≡ (if not dry && (same_table episodic v && goes k vs) then none else get_row db v k n)
  unfolding evict_rows
  get_row-evict_rows io dry v k [] s n = ground arith
  get_row-evict_rows io true v k ((id, day) ∷ vs) s n =
      get_row-evict_rows io true v k vs
        (record { removed = s.removed + 1; per_day = bump day s.per_day }) n
  get_row-evict_rows io false v k ((id, day) ∷ vs) s n =
      let (gone, was) = delete db (io id) episodic id n in
      let s' : Swept =
        if was then record { removed = s.removed + 1; per_day = bump day s.per_day } else s in
      ground (
        arith,
        get_row-evict_rows io false v k vs s' gone,
        get_row-delete db (io id) episodic v id k n,
      )

  module _ (home tmp : FilePath) (like : String → String → Bool) where
    names-evictable :
        (state : DaysState) (cutoff : Instant) (k : String) (n : Node db)
        → length (ids n.episodic) ≤ usize_max
        → names k (keep (is_evictable cal state cutoff) (all_episodic cal db home tmp like n))
          ≡ passes db
              (λ m. matches home tmp like default m && is_evictable cal state cutoff m)
              (get n.episodic k)
    names-evictable state cutoff k n fits =
        let q = is_evictable cal state cutoff in
        let rows = rows_where db (ids n.episodic) (matches home tmp like default) n.episodic in
        ap (λ l. names k (keep q l)) (list_whole db home tmp like episodic default oldest n fits)
        ∙ any-keep (λ m. m.id == k) q (sort_by (comes_first oldest) (keep (of_origin none) rows))
        ∙ any-sort_by (comes_first oldest) (λ m. q m && (m.id == k)) (keep (of_origin none) rows)
        ∙ any-keep (λ m. q m && (m.id == k)) (of_origin none) rows
        ∙ sym (any-keep (λ m. m.id == k) q rows)
        ∙ names_of_table db (matches home tmp like default) q n.episodic k

    -- The forget pass takes from the staging table exactly the rows that a list of it shows, that
    -- are past their time, and that a remember pass of their day has judged; every other row of both
    -- tables is read as before, whether or not the counts can be saved. A dry run takes none and
    -- leaves the file.
    pub sweep-get_row :
        (io : String → Io) (saved dry_run : Bool) (now : Instant) (ttl_days : ℕ)
        (file : Option DaysState) (v : TableName) (k : String) (n : Node db)
        → length (ids n.episodic) ≤ usize_max
        → let r = sweep cal db home tmp like io saved dry_run now ttl_days file n in
          (get_row db v k r.1 ≡ (
            if not dry_run
              && (same_table episodic v
                  && passes db
                      (λ m.
                        matches home tmp like default m
                        && (ltb (effective_timestamp m) (ttl_cutoff now ttl_days)
                            && is_stamped m.created_at (stamp_of (load file) (day_of cal m))))
                      (get_row db episodic k n))
            then none
            else get_row db v k n))
          × (dry_run ≡ true → r.0.1 ≡ file)
    unfolding sweep get_row
    sweep-get_row io saved dry_run now ttl_days file v k n fits =
        let cutoff = ttl_cutoff now ttl_days in
        let rows = all_episodic cal db home tmp like n in
        (
          get_row-evict_rows io dry_run v k (victims_of cal (load file) cutoff rows) _ n
              ∙ ap
                  (λ b.
                    if not dry_run && (same_table episodic v && b) then none else get_row db v k n)
                  (goes-victims_of (load file) cutoff k rows
                    ∙ names-evictable (load file) cutoff k n fits),
          λ dry. rw dry refl,
        )
