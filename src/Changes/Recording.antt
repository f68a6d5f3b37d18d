-- ===== src/Changes/Recording.antt =====
-- The log's invariant, and what `record_ids` and a reopening do to it.
use linggen_memory.Prelude.{
  ℕ, ◌+◌, ◌%◌, ◌^◌, ◌≤◌, ◌<◌, String, ◌≡◌, ◌∙◌, refl, sym, ap, ◌⊎◌, inl, Bool, true, false, some,
  List, [], ◌∷◌, ◌++◌, arith, length, map, last?, last?-append,
}
use linggen_memory.Changes.{
  Op, Entry, LogFile, append, ChangeLog, numbered, seq_past, seq_after, parse, open_log, head,
  latest_per_id, maybe_compact, record_ids,
}
use linggen_memory.Changes.Latest.{latest_per_id-eq-newest}
use linggen_memory.Changes.Order.{
  Ascends, Ascends-append, Ascends-newest, Ascends-numbered, head_lem, seq_past_lem, parse_lem,
  last?-newest,
}

pub record IsValid (log : ChangeLog) : Type 0 where
  pub positive : 1 ≤ log.next_seq
  pub ascending : Ascends 1 log.entries log.next_seq

-- The file holds the log and ends in a whole line, and the next number follows the newest entry.
pub record IsSynced (log : ChangeLog) : Type 0 where
  pub valid : IsValid log
  pub saved : log.file ≡ record { lines = log.entries; torn = false }
  pub follows : log.next_seq ≡ seq_after (last? log.entries)

maybe_compact-IsValid : (w : Bool) (log : ChangeLog) → IsValid log → IsValid (maybe_compact w log)
unfolding maybe_compact
maybe_compact-IsValid w log v = ground (
  arith,
  Ascends-newest 1 log.next_seq log.entries v.ascending,
  latest_per_id-eq-newest log.entries,
)

next_seq-maybe_compact :
    (w : Bool) (log : ChangeLog) → (maybe_compact w log).next_seq ≡ log.next_seq
unfolding maybe_compact
next_seq-maybe_compact w log = ground arith

pub entries-maybe_compact :
    (w : Bool) (log : ChangeLog)
    → ((maybe_compact w log).entries ≡ log.entries)
      ⊎ ((maybe_compact w log).entries ≡ latest_per_id log.entries)
unfolding maybe_compact
entries-maybe_compact w log = ground arith

-- The log with the new entries, before any compaction.
abbrev pub grown : LogFile → String → Op → List String → ChangeLog → ChangeLog
grown file table op ids log = record log {
  entries = log.entries ++ numbered table op ids log.next_seq;
  next_seq = seq_past ids log.next_seq;
  file = file;
}

pub grown-IsValid :
    (file : LogFile) (table : String) (op : Op) (ids : List String) (log : ChangeLog)
    → IsValid log
    → log.next_seq + length ids < 2 ^ 64
    → IsValid (grown file table op ids log)
grown-IsValid file table op ids log v fits =
    let past = seq_past_lem ids log.next_seq fits in
    record {
      positive = omega (arith, v.positive, past);
      ascending = rw past (
          Ascends-append 1 log.next_seq (log.next_seq + length ids) log.entries
            (numbered table op ids log.next_seq) v.ascending
            (Ascends-numbered table op ids log.next_seq fits));
    }

pub next_seq-record_ids :
    (a w : Bool) (table : String) (op : Op) (ids : List String) (log : ChangeLog)
    → log.next_seq + length ids < 2 ^ 64
    → (record_ids a w table op ids log).next_seq ≡ log.next_seq + length ids
unfolding record_ids
next_seq-record_ids a w table op [] log fits = omega arith
next_seq-record_ids a w table op (id ∷ ids) log fits = omega (
  arith,
  next_seq-maybe_compact w (grown _ table op (id ∷ ids) log),
  seq_past_lem (id ∷ ids) log.next_seq fits,
)

pub record_ids-IsValid :
    (a w : Bool) (table : String) (op : Op) (ids : List String) (log : ChangeLog)
    → IsValid log
    → log.next_seq + length ids < 2 ^ 64
    → IsValid (record_ids a w table op ids log)
      × (head (record_ids a w table op ids log) ≡ head log + length ids)
unfolding record_ids
record_ids-IsValid a w table op [] log v fits = (v, omega arith)
record_ids-IsValid a w table op (id ∷ ids) log v fits = (
  maybe_compact-IsValid w _ (grown-IsValid _ table op (id ∷ ids) log v fits),
  omega (
    arith,
    v.positive,
    head_lem log v.positive,
    head_lem (record_ids a w table op (id ∷ ids) log)
        (maybe_compact-IsValid w _ (grown-IsValid _ table op (id ∷ ids) log v fits)).positive,
    next_seq-maybe_compact w (grown _ table op (id ∷ ids) log),
    seq_past_lem (id ∷ ids) log.next_seq fits,
  ),
)

-- The entries are of one table and one operation, and numbered one by one from `n`.
abbrev pub IsCounted : ℕ → String → Op → List Entry → Type 0
IsCounted n table op [] = Unit
IsCounted n table op (e ∷ es) =
    (e.seq ≡ n) × (e.table ≡ table) × (e.op ≡ op) × IsCounted (n + 1) table op es

numbered-IsCounted :
    (table : String) (op : Op) (ids : List String) (n : ℕ)
    → n + length ids < 2 ^ 64
    → IsCounted n table op (numbered table op ids n)
numbered-IsCounted table op [] n fits = tt
numbered-IsCounted table op (id ∷ ids) n fits =
    let step : (n + 1) % 2 ^ 64 ≡ n + 1 = omega arith in
    (refl, refl, refl, rw step (numbered-IsCounted table op ids (n + 1) (omega arith)))

map-numbered :
    (table : String) (op : Op) (ids : List String) (n : ℕ)
    → map (λ (e : Entry). e.id) (numbered table op ids n) ≡ ids
map-numbered table op [] n = refl
map-numbered table op (id ∷ ids) n = ap (λ l. id ∷ l) (map-numbered table op ids ((n + 1) % 2 ^ 64))

append_none : (es : List Entry) → es ≡ es ++ []
append_none [] = refl
append_none (e ∷ es) = ap (λ l. e ∷ l) (append_none es)

entries-record_ids :
    (a w : Bool) (table : String) (op : Op) (ids : List String) (log : ChangeLog)
    → let all = log.entries ++ numbered table op ids log.next_seq in
      ((record_ids a w table op ids log).entries ≡ all)
      ⊎ ((record_ids a w table op ids log).entries ≡ latest_per_id all)
unfolding record_ids
entries-record_ids a w table op [] log = inl (append_none log.entries)
entries-record_ids a w table op (id ∷ ids) log = entries-maybe_compact w _

-- On a valid log with room for the ids below 2 ^ 64, whether or not the file writes succeed,
-- recording puts behind the entries one for each id, in order, with that id, the table and the
-- operation, numbered one by one from the next number; then it may leave of all of them the latest
-- for each id. The log stays ascending, and its head grows by the count of ids.
pub record_ids_lem :
    (a w : Bool) (table : String) (op : Op) (ids : List String) (log : ChangeLog)
    → IsValid log
    → log.next_seq + length ids < 2 ^ 64
    → let after = record_ids a w table op ids log in
      ((new : List Entry) × (map (λ (e : Entry). e.id) new ≡ ids)
        × IsCounted log.next_seq table op new
        × ((after.entries ≡ log.entries ++ new)
            ⊎ (after.entries ≡ latest_per_id (log.entries ++ new))))
      × IsValid after
      × (head after ≡ head log + length ids)
record_ids_lem a w table op ids log v fits = (
  (
    numbered table op ids log.next_seq,
    map-numbered table op ids log.next_seq,
    numbered-IsCounted table op ids log.next_seq fits,
    entries-record_ids a w table op ids log,
  ),
  (record_ids-IsValid a w table op ids log v fits).0,
  (record_ids-IsValid a w table op ids log v fits).1,
)

last-numbered :
    (table : String) (op : Op) (id : String) (ids : List String) (n : ℕ)
    → seq_after (last? (numbered table op (id ∷ ids) n)) ≡ seq_past (id ∷ ids) n
last-numbered table op id [] n = refl
last-numbered table op id (j ∷ ids) n = last-numbered table op j ids ((n + 1) % 2 ^ 64)

maybe_compact-IsSynced :
    (w : Bool) (log : ChangeLog) → IsSynced log → IsSynced (maybe_compact w log)
unfolding maybe_compact
maybe_compact-IsSynced w log s = record {
  valid = maybe_compact-IsValid w log s.valid;
  saved = ground (arith, s.saved);
  follows =
      ground (arith, s.follows, last?-newest log.entries, latest_per_id-eq-newest log.entries);
}

record_ids-IsSynced :
    (w : Bool) (table : String) (op : Op) (ids : List String) (log : ChangeLog)
    → IsSynced log
    → log.next_seq + length ids < 2 ^ 64
    → IsSynced (record_ids true w table op ids log)
unfolding record_ids append
record_ids-IsSynced w table op [] log s fits = s
record_ids-IsSynced w table op (id ∷ ids) log s fits =
    let new = numbered table op (id ∷ ids) log.next_seq in
    maybe_compact-IsSynced w _ (record {
      valid = grown-IsValid _ table op (id ∷ ids) log s.valid fits;
      saved = ap (append new) s.saved;
      follows = sym (
          ap seq_after (last?-append log.entries _ _) ∙ last-numbered table op id ids log.next_seq);
    })

open_log_of_IsSynced :
    (log : ChangeLog)
    → IsSynced log
    → ((open_log (some log.file)).entries ≡ log.entries)
      × ((open_log (some log.file)).next_seq ≡ log.next_seq)
unfolding open_log
open_log_of_IsSynced log s =
    let sorted = parse_lem 1 log.next_seq log.entries s.valid.ascending in
    (rw s.saved sorted, rw (s.saved, sorted) (sym s.follows))

-- Whatever is recorded into a log that its file holds, the file ending in a whole line,
-- with room below 2 ^ 64 and as long as the
-- append succeeds (compacted or not): a reopening of the file finds the same entries and the same
-- next sequence number.
pub open_log-record_ids :
    (w : Bool) (table : String) (op : Op) (ids : List String) (log : ChangeLog)
    → IsSynced log
    → log.next_seq + length ids < 2 ^ 64
    → let after = record_ids true w table op ids log in
      ((open_log (some after.file)).entries ≡ after.entries)
      × ((open_log (some after.file)).next_seq ≡ after.next_seq)
open_log-record_ids w table op ids log s fits =
    open_log_of_IsSynced _ (record_ids-IsSynced w table op ids log s fits)

-- An append after a torn line: if the file holds the log and ends in a line that was left
-- unfinished, and one id is recorded with no rewrite of the file, then a reopening does not find the
-- new entry though the append succeeded, and its head stands below the head that a replica may have
-- been given.
pub open_log-record_ids_torn :
    (table : String) (op : Op) (id : String) (log : ChangeLog)
    → IsValid log
    → log.file ≡ record { lines = log.entries; torn = true }
    → log.next_seq ≡ seq_after (last? log.entries)
    → log.next_seq + 1 < 2 ^ 64
    → let after = record_ids true false table op (id ∷ []) log in
      ((open_log (some after.file)).entries ≡ log.entries)
      × (head (open_log (some after.file)) < head after)
unfolding record_ids maybe_compact head open_log append
open_log-record_ids_torn table op id log v saved follows fits =
    let sorted = parse_lem 1 log.next_seq log.entries v.ascending in
    let held : parse (log.entries ++ []) ≡ log.entries =
      rw (sym (append_none log.entries)) sorted in
    (ground (arith, saved, held), ground (arith, saved, held, follows, v.positive))

-- A record whose append fails is in memory alone: if the file held the log before, and with no
-- rewrite, a reopening finds the log as it was before, and its head stands below the head that a
-- replica may have been given.
pub head-open_log_failed :
    (table : String) (op : Op) (id : String) (ids : List String) (log : ChangeLog)
    → IsSynced log
    → log.next_seq + length (id ∷ ids) < 2 ^ 64
    → let after = record_ids false false table op (id ∷ ids) log in
      ((open_log (some after.file)).entries ≡ log.entries)
      × (head (open_log (some after.file)) < head after)
unfolding record_ids maybe_compact head
head-open_log_failed table op id ids log s fits =
    let (same, next) = open_log_of_IsSynced log s in
    let past = seq_past_lem (id ∷ ids) log.next_seq fits in
    (ground (arith, same), ground (arith, next, past, s.valid.positive))
