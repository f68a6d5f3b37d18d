-- ===== src/Changes.antt =====
-- The store's change log (src/memory/changes.rs). The file is the list of the entries that its
-- lines parse to, and whether a line that does not parse is left unfinished at its end; whether a write to the file succeeds is an argument, and one that fails leaves the file as it was. A sequence number is a
-- `u64`, and its increment wraps.
pub mod Latest
pub mod Order
pub mod Pages
pub mod Recording
use linggen_memory.Prelude.{
  ℕ, suc, ◌+◌, ◌-◌, ◌*◌, ◌%◌, ◌^◌, max, min, String, ◌==◌, Bool, true, false, Option, none, some,
  List, [], ◌∷◌, ◌++◌, ltb, leb, eqb, if◌then◌else◌, length, take, drop, last?, drop_while, Assoc,
  lookup, insert,
}

pub data Op : Type 0 where
  upsert delete : Op

pub record Entry : Type 0 where
  pub seq : ℕ
  pub id : String
  pub table : String
  pub op : Op

abbrev pub compact_ratio : ℕ
compact_ratio = 4

abbrev pub compact_min : ℕ
compact_min = 20000

abbrev pub u64 : ℕ → ℕ
u64 n = n % 2 ^ 64

-- What the path holds: the entries of the lines that parse, and whether after them stands a line
-- that was never finished and does not parse.
pub record LogFile : Type 0 where
  pub lines : List Entry
  pub torn : Bool

abbrev pub no_lines : LogFile
no_lines = record { lines = []; torn = false }

-- The new lines are written where the file ends: a line that was left unfinished takes in the first
-- of them, and neither parses then.
unfoldable pub append : List Entry → LogFile → LogFile
append new f = record { lines = f.lines ++ (if f.torn then drop 1 new else new); torn = false }

abbrev rewrite : List Entry → LogFile
rewrite entries = record { lines = entries; torn = false }

-- `file` is what the path holds, `fresh` whether the path was missing when the log was opened.
pub record ChangeLog : Type 0 where
  pub file : LogFile
  pub entries : List Entry
  pub next_seq : ℕ
  pub fresh : Bool

-- The index of the newest entry for each id: the loop that fills `last`.
abbrev pub fill : ℕ → List Entry → Assoc ℕ → Assoc ℕ
fill i [] last = last
fill i (e ∷ es) last = fill (suc i) es (insert e.id i last)

abbrev pub is_at : Option ℕ → ℕ → Bool
is_at none i = false
is_at (some j) i = eqb j i

-- The second pass keeps each entry whose index the map holds.
abbrev pub kept_at : Assoc ℕ → ℕ → List Entry → List Entry
kept_at last i [] = []
kept_at last i (e ∷ es) =
    let rest = kept_at last (suc i) es in if is_at (lookup e.id last) i then e ∷ rest else rest

unfoldable pub latest_per_id : List Entry → List Entry
latest_per_id entries = kept_at (fill 0 entries []) 0 entries

-- `entries.sort_by_key(|e| e.seq)`, a stable sort.
abbrev pub place : Entry → List Entry → List Entry
place e [] = e ∷ []
place e (x ∷ xs) = let rest = place e xs in if leb e.seq x.seq then e ∷ x ∷ xs else x ∷ rest

abbrev pub parse : List Entry → List Entry
parse [] = []
parse (e ∷ es) = place e (parse es)

abbrev pub seq_after : Option Entry → ℕ
seq_after none = 1
seq_after (some e) = u64 (e.seq + 1)

-- `none` is a file that does not exist. A read error that is not "not found" is returned before
-- the log exists, and is left out.
unfoldable pub open_log : Option LogFile → ChangeLog
open_log none = record { file = no_lines; entries = []; next_seq = 1; fresh = true }
open_log (some f) = record {
  file = f;
  entries = parse f.lines;
  next_seq = seq_after (last? (parse f.lines));
  fresh = false;
}

abbrev is_nil : List Entry → Bool
is_nil [] = true
is_nil (e ∷ es) = false

unfoldable pub needs_seed : ChangeLog → Bool
needs_seed log = if log.fresh then is_nil log.entries else false

-- A `u64`, whose subtraction wraps.
unfoldable pub head : ChangeLog → ℕ
head log = if eqb log.next_seq 0 then 2 ^ 64 - 1 else log.next_seq - 1

-- The entries that one call of `record` makes, and the sequence number after them.
abbrev pub numbered : String → Op → List String → ℕ → List Entry
numbered table op [] n = []
numbered table op (id ∷ ids) n =
    record { seq = n; id = id; table = table; op = op } ∷ numbered table op ids (u64 (n + 1))

abbrev pub seq_past : List String → ℕ → ℕ
seq_past [] n = n
seq_past (id ∷ ids) n = seq_past ids (u64 (n + 1))

unfoldable pub maybe_compact : Bool → ChangeLog → ChangeLog
maybe_compact rewritten log =
    let n = length log.entries in
    let kept = latest_per_id log.entries in
    if ltb n compact_min
    then log
    else if ltb n (length kept * compact_ratio)
    then log
    else if rewritten
    then record log { entries = kept; file = rewrite kept }
    else log

-- `appended` and `rewritten` say whether the two writes to the file succeed.
unfoldable pub record_ids :
    (appended rewritten : Bool) → String → Op → List String → ChangeLog → ChangeLog
unfolding append
record_ids appended rewritten table op [] log = log
record_ids appended rewritten table op (id ∷ ids) log =
    let new = numbered table op (id ∷ ids) log.next_seq in
    maybe_compact rewritten (record log {
      entries = log.entries ++ new;
      next_seq = seq_past (id ∷ ids) log.next_seq;
      file = if appended then append new log.file else log.file;
    })

abbrev pub seq_or : Option Entry → ℕ → ℕ
seq_or none cursor = cursor
seq_or (some e) cursor = e.seq

-- `partition_point` on entries in sequence order is the length of the prefix that passes.
abbrev pub page_after : ℕ → List Entry → List Entry
page_after cursor entries = drop_while (λ (e : Entry). leb e.seq cursor) entries

abbrev pub page_taken : ℕ → List Entry → List Entry
page_taken limit page = take (min (length page) (max limit 1)) page

unfoldable pub since : ChangeLog → ℕ → ℕ → List Entry × ℕ × Bool
since log cursor limit =
    let page = page_after cursor log.entries in
    let taken = page_taken limit page in
    (latest_per_id taken, seq_or (last? taken) cursor, ltb (length taken) (length page))
