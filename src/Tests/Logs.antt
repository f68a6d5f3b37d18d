-- ===== src/Tests/Logs.antt =====
-- The change log's properties at a small log.
use linggen_memory.Prelude.{
  ℕ, ◌+◌, ◌<◌, ◌↔◌, ◌||◌, ◌++◌, ◌⊎◌, map, String, ◌≡◌, refl, true, false, some, List, [], ◌∷◌,
  arith,
}
use linggen_memory.Changes.{
  Op, Entry, ChangeLog, open_log, record_ids, since, head, latest_per_id, page_after,
}
use linggen_memory.Changes.Latest
use linggen_memory.Changes.Order.{Ascends}
use linggen_memory.Changes.Pages
use linggen_memory.Changes.Recording
use linggen_memory.Changes.Recording.{IsValid, IsSynced}

abbrev entry : ℕ → String → Entry
entry n k = record { seq = n; id = k; table = "semantic"; op = Op.upsert }

abbrev three : List Entry
three = entry 1 "a" ∷ entry 2 "b" ∷ entry 5 "a" ∷ []

abbrev log3 : ChangeLog
log3 = record {
  file = record { lines = three; torn = false };
  entries = three;
  next_seq = 6;
  fresh = false;
}

three-Ascends : Ascends 1 three 6
three-Ascends = (omega arith, (omega arith, (omega arith, omega arith)))

log3-IsValid : IsValid log3
log3-IsValid = record { positive = omega arith; ascending = three-Ascends }

log3-IsSynced : IsSynced log3
log3-IsSynced = record { valid = log3-IsValid; saved = refl; follows = refl }

since_covers_example :
    ((k : String)
      → Latest.occurs k (page_after 1 log3.entries) ≡ (
          Latest.occurs k (since log3 1 1).0
          || Latest.occurs k (page_after (since log3 1 1).1 log3.entries)))
    × (((since log3 1 1).2 ≡ false) ↔ (page_after (since log3 1 1).1 log3.entries ≡ []))
since_covers_example = Pages.since_covers log3 1 1 three-Ascends

latest_per_id-exact_example :
    Latest.HasDistinctIds (latest_per_id three)
    × ((k : String) → Latest.last_for k (latest_per_id three) ≡ Latest.last_for k three)
latest_per_id-exact_example = Latest.latest_per_id-exact three

record_ids_lem_example :
    let after = record_ids false true "episodic" Op.delete ("b" ∷ "c" ∷ []) log3 in
    ((new : List Entry) × (map (λ (e : Entry). e.id) new ≡ "b" ∷ "c" ∷ [])
      × Recording.IsCounted log3.next_seq "episodic" Op.delete new
      × ((after.entries ≡ log3.entries ++ new)
          ⊎ (after.entries ≡ latest_per_id (log3.entries ++ new))))
    × IsValid after
    × (head after ≡ head log3 + 2)
record_ids_lem_example =
    Recording.record_ids_lem false true "episodic" Op.delete ("b" ∷ "c" ∷ []) log3 log3-IsValid
      (omega arith)

open_log-record_ids_example :
    let after = record_ids true false "episodic" Op.delete ("b" ∷ []) log3 in
    ((open_log (some after.file)).entries ≡ after.entries)
    × ((open_log (some after.file)).next_seq ≡ after.next_seq)
open_log-record_ids_example =
    Recording.open_log-record_ids false "episodic" Op.delete ("b" ∷ []) log3 log3-IsSynced
      (omega arith)

head-open_log_failed_example :
    let after = record_ids false false "episodic" Op.delete ("b" ∷ []) log3 in
    ((open_log (some after.file)).entries ≡ log3.entries)
    × (head (open_log (some after.file)) < head after)
head-open_log_failed_example =
    Recording.head-open_log_failed "episodic" Op.delete "b" [] log3 log3-IsSynced (omega arith)
