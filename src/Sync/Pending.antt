-- ===== src/Sync/Pending.antt =====
-- Which ids a replica at a cursor still has to be told of, and how the log's writes change that.
use linggen_memory.Prelude.{
  ℕ, suc, ◌+◌, ◌%◌, ◌^◌, ◌<◌, String, ◌==◌, ◌≡◌, ◌∙◌, refl, ap, Bool, inl, inr, List, [], ◌∷◌, ◌++◌,
  ◌||◌, arith, any, length,
}
use linggen_memory.Changes.{
  Op, Entry, ChangeLog, page_after, numbered, maybe_compact, record_ids, latest_per_id,
}
use linggen_memory.Changes.Latest.{occurs, occurs-append, occurs-newest, latest_per_id-eq-newest}
use linggen_memory.Changes.Order.{Ascends, Ascends-numbered, page_after-newest, page_after_all}
use linggen_memory.Changes.Recording.{IsValid, grown-IsValid, entries-maybe_compact}

-- The ids changed after the cursor.
abbrev pub is_pending : ChangeLog → ℕ → String → Bool
is_pending log cursor k = occurs k (page_after cursor log.entries)

abbrev pub is_listed : List String → String → Bool
is_listed ids k = any (λ j. j == k) ids

occurs-page_after-append :
    (c lo mid hi : ℕ) (k : String) (xs ys : List Entry)
    → c < mid
    → Ascends lo xs mid
    → Ascends mid ys hi
    → occurs k (page_after c (xs ++ ys)) ≡ (occurs k (page_after c xs) || occurs k ys)
occurs-page_after-append c lo mid hi k [] ys lt h a =
    ap (occurs k) (page_after_all c mid hi ys lt a)
occurs-page_after-append c lo mid hi k (e ∷ xs) ys lt h a =
    ground
      (arith, occurs-page_after-append c (suc e.seq) mid hi k xs ys lt h.1 a, occurs-append k xs ys)

occurs-numbered :
    (table : String) (op : Op) (ids : List String) (n : ℕ) (k : String)
    → occurs k (numbered table op ids n) ≡ is_listed ids k
occurs-numbered table op [] n k = refl
occurs-numbered table op (id ∷ ids) n k =
    ground (arith, occurs-numbered table op ids ((n + 1) % 2 ^ 64) k)

is_pending-maybe_compact :
    (w : Bool) (log : ChangeLog) (c : ℕ) (k : String)
    → IsValid log
    → is_pending (maybe_compact w log) c k ≡ is_pending log c k
is_pending-maybe_compact w log c k v =
    let kept : occurs k (page_after c (latest_per_id log.entries)) ≡ is_pending log c k =
      rw (latest_per_id-eq-newest, page_after-newest c 1 log.next_seq log.entries v.ascending)
        (occurs-newest k _) in
    elim (entries-maybe_compact w log) [
      | inl same ↦ ap (λ es. occurs k (page_after c es)) same
      | inr fewer ↦ ap (λ es. occurs k (page_after c es)) fewer ∙ kept
    ]

-- On a valid log with room below 2 ^ 64, recording ids adds exactly those to the pending ones, at
-- every cursor that the log has given out.
pub is_pending-record_ids :
    (a w : Bool) (table : String) (op : Op) (ids : List String) (log : ChangeLog) (c : ℕ)
    (k : String)
    → IsValid log
    → c < log.next_seq
    → log.next_seq + length ids < 2 ^ 64
    → is_pending (record_ids a w table op ids log) c k ≡ (is_pending log c k || is_listed ids k)
unfolding record_ids
is_pending-record_ids a w table op [] log c k v lt fits = ground arith
is_pending-record_ids a w table op (id ∷ ids) log c k v lt fits =
    let new = numbered table op (id ∷ ids) log.next_seq in
    is_pending-maybe_compact w _ c k (grown-IsValid _ table op (id ∷ ids) log v fits)
    ∙ occurs-page_after-append c 1 log.next_seq (log.next_seq + length (id ∷ ids)) k log.entries new
        lt v.ascending (Ascends-numbered table op (id ∷ ids) log.next_seq fits)
    ∙ ap (λ b. is_pending log c k || b) (occurs-numbered table op (id ∷ ids) log.next_seq k)
