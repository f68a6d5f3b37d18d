-- ===== src/Changes/Pages.antt =====
-- Paging through the log by a cursor: no change is lost, and the pages come to an end.
use linggen_memory.Prelude.{
  ℕ, zero, suc, ◌+◌, ◌-◌, ◌≤◌, ◌<◌, String, ◌≡◌, ◌∙◌, refl, sym, ap, subst, Bool-cases, inl, inr,
  ◌↔◌, true, false, List, [], ◌∷◌, ◌++◌, ◌||◌, arith, leb, ltb, length, last?, take, drop, min, max,
  le→leb, take-append-drop, length-take,
}
use linggen_memory.Changes.{
  Entry, ChangeLog, head, seq_or, page_after, page_taken, since, latest_per_id,
}
use linggen_memory.Changes.Latest.{
  occurs, occurs-append, occurs-newest, newest_idem, latest_per_id-eq-newest, newest,
}
use linggen_memory.Changes.Order.{
  Ascends, Ascends-weaken, Ascends-bound, head_lem, page_after_all, page_after-newest,
}

page_after_le :
    (c c' : ℕ) (es : List Entry) → c ≤ c' → page_after c' (page_after c es) ≡ page_after c' es
page_after_le c c' [] le = refl
page_after_le c c' (e ∷ es) le = ground (arith, page_after_le c c' es le)

-- What passes the cursor ascends from just after it.
pub Ascends-page_after :
    (c lo hi : ℕ) (es : List Entry) → Ascends lo es hi → Ascends lo (page_after c es) hi
Ascends-page_after c lo hi [] h = h
Ascends-page_after c lo hi (e ∷ es) h = elim (Bool-cases (leb e.seq c)) [
  | inl seen ↦ rw seen (
      Ascends-weaken (suc e.seq) lo hi _ (omega arith) (Ascends-page_after c (suc e.seq) hi es h.1))
  | inr new ↦ rw new h
]

page_after_past :
    (c : ℕ) (es : List Entry) (e : Entry) (l : List Entry) → page_after c es ≡ e ∷ l → c < e.seq
page_after_past c [] e l h = cc
page_after_past c (x ∷ es) e l h = ground (arith, page_after_past c es e l)

le-last :
    (lo hi c : ℕ) (e : Entry) (l m : List Entry)
    → Ascends lo (e ∷ (l ++ m)) hi
    → e.seq ≤ seq_or (last? (e ∷ l)) c
le-last lo hi c e [] m h = omega arith
le-last lo hi c e (x ∷ l) m h = omega (arith, le-last (suc e.seq) hi c x l m h.1)

page_after_taken :
    (lo hi c : ℕ) (e : Entry) (l m : List Entry)
    → Ascends lo (e ∷ (l ++ m)) hi
    → page_after (seq_or (last? (e ∷ l)) c) (e ∷ (l ++ m)) ≡ m
page_after_taken lo hi c e [] m h =
    rw (le→leb e.seq e.seq (omega arith)) (page_after_all e.seq (suc e.seq) hi m (omega arith) h.1)
page_after_taken lo hi c e (x ∷ l) m h =
    rw (le→leb e.seq (seq_or (last? (x ∷ l)) c) (le-last lo hi c e (x ∷ l) m h))
      (page_after_taken (suc e.seq) hi c x l m h.1)

abbrev no_entries : List Entry
no_entries = []

take-nil : (n : ℕ) → take n no_entries ≡ []
take-nil zero = refl
take-nil (suc n) = refl

drop-nil : (n : ℕ) → drop n no_entries ≡ []
drop-nil zero = refl
drop-nil (suc n) = refl

-- The count of entries that a page takes: none of an empty page, else at least one.
abbrev count_taken : ℕ → List Entry → ℕ
count_taken limit page = min (length page) (max limit 1)

-- `none_left` and `some_left` are the two forms of the page that `since` cuts.
next_of_nil :
    (c limit : ℕ) (es : List Entry)
    → page_after c es ≡ []
    → page_after (seq_or (last? (page_taken limit [])) c) es ≡ drop (count_taken limit []) []
next_of_nil c limit es none_left = rw (take-nil, drop-nil) none_left

next_of_cons :
    (lo hi c limit : ℕ) (es : List Entry) (e : Entry) (l : List Entry)
    → Ascends lo es hi
    → page_after c es ≡ e ∷ l
    → page_after (seq_or (last? (page_taken limit (e ∷ l))) c) es
      ≡ drop (count_taken limit (e ∷ l)) (e ∷ l)
next_of_cons lo hi c limit es e l h some_left =
    let m = count_taken limit (e ∷ l) - 1 in
    let size : count_taken limit (e ∷ l) ≡ suc m = omega arith in
    let asc : Ascends lo (e ∷ (take m l ++ drop m l)) hi =
      rw (take-append-drop m l)
        (subst (λ p. Ascends lo p hi) some_left (Ascends-page_after c lo hi es h)) in
    let next = seq_or (last? (e ∷ take m l)) c in
    let past : c ≤ next =
      omega
        (arith, page_after_past c es e l some_left, le-last lo hi c e (take m l) (drop m l) asc) in
    rw size (
      sym (page_after_le c next es past)
      ∙ ap (page_after next) some_left
      ∙ ap (λ t. page_after next (e ∷ t)) (sym (take-append-drop m l))
      ∙ page_after_taken lo hi c e (take m l) (drop m l) asc)

-- After a page, what is left to send is what the page did not take.
pub page_after-next :
    (lo hi c limit : ℕ) (es : List Entry)
    → Ascends lo es hi
    → page_after (seq_or (last? (page_taken limit (page_after c es))) c) es
      ≡ drop (count_taken limit (page_after c es)) (page_after c es)
page_after-next lo hi c limit es h = split (page_after c es) refl
  where
    split :
        (page : List Entry)
        → page_after c es ≡ page
        → page_after (seq_or (last? (page_taken limit page)) c) es
          ≡ drop (count_taken limit page) page
    split [] none_left = next_of_nil c limit es none_left
    split (e ∷ l) some_left = next_of_cons lo hi c limit es e l h some_left

length-taken : (n : ℕ) (es : List Entry) → n ≤ length es → length (take n es) ≡ n
length-taken n es h = omega (arith, length-take n es)

drop_all : (n : ℕ) (es : List Entry) → length es ≤ n → drop n es ≡ []
drop_all zero [] h = refl
drop_all zero (e ∷ es) h = absurd (omega arith)
drop_all (suc n) [] h = refl
drop_all (suc n) (e ∷ es) h = drop_all n es (omega arith)

length-drop : (n : ℕ) (es : List Entry) → length (drop n es) + min n (length es) ≡ length es
length-drop zero es = omega arith
length-drop (suc n) [] = omega arith
length-drop (suc n) (e ∷ es) = omega (arith, length-drop n es)

more_iff :
    (limit : ℕ) (page : List Entry)
    → let n = count_taken limit page in
      (ltb (length (take n page)) (length page) ≡ false) ↔ (drop n page ≡ [])
more_iff limit page =
    let n = count_taken limit page in
    let taken = length-taken n page (omega arith) in
    (
      λ done. drop_all n page (ground (arith, done, taken)),
      λ nothing. ground (arith, taken, length-drop n page, ap length nothing),
    )

drop_shrinks :
    (limit : ℕ) (page : List Entry)
    → let n = count_taken limit page in
      ltb (length (take n page)) (length page) ≡ true → length (drop n page) < length page
drop_shrinks limit page more =
    let n = count_taken limit page in
    ground (arith, more, length-taken n page (omega arith), length-drop n page)

-- What passes the cursor ascends from just after it.
Ascends-page_past :
    (c lo hi : ℕ) (es : List Entry)
    → c < hi
    → Ascends lo es hi
    → Ascends (suc c) (page_after c es) hi
Ascends-page_past c lo hi [] lt h = lt
Ascends-page_past c lo hi (e ∷ es) lt h = elim (Bool-cases (leb e.seq c)) [
  | inl seen ↦ rw seen (Ascends-page_past c (suc e.seq) hi es lt h.1)
  | inr new ↦ rw new (ground arith, h.1)
]

Ascends-take : (n lo hi : ℕ) (es : List Entry) → Ascends lo es hi → Ascends lo (take n es) hi
Ascends-take zero lo hi es h = Ascends-bound lo hi es h
Ascends-take (suc n) lo hi [] h = h
Ascends-take (suc n) lo hi (e ∷ es) h = (h.0, Ascends-take n (suc e.seq) hi es h.1)

last_bounds :
    (c hi : ℕ) (es : List Entry)
    → Ascends (suc c) es hi
    → (c ≤ seq_or (last? es) c) × (seq_or (last? es) c < hi)
last_bounds c hi [] h = (omega arith, h)
last_bounds c hi (e ∷ []) h = (omega arith, h.1)
last_bounds c hi (e ∷ x ∷ es) h =
    last_bounds c hi (x ∷ es) (Ascends-weaken (suc e.seq) (suc c) hi (x ∷ es) (omega arith) h.1)

module _ (log : ChangeLog) (cursor limit : ℕ) (h : Ascends 1 log.entries log.next_seq) where
  -- On a log in order, every id changed after the cursor is on the page or is still to come after the
  -- page's `next`, and `more` is false exactly when nothing is left to come.
  pub since_covers :
      ((k : String)
        → occurs k (page_after cursor log.entries) ≡ (
            occurs k (since log cursor limit).0
            || occurs k (page_after (since log cursor limit).1 log.entries)))
      × (((since log cursor limit).2 ≡ false)
          ↔ (page_after (since log cursor limit).1 log.entries ≡ []))
  unfolding since
  since_covers =
      let page = page_after cursor log.entries in
      let n = count_taken limit page in
      let left = page_after-next 1 log.next_seq cursor limit log.entries h in
      (
        λ k.
            rw (left, latest_per_id-eq-newest (take n page), occurs-newest k (take n page))
              (ap (occurs k) (sym (take-append-drop n page))
                ∙ occurs-append k (take n page) (drop n page)),
        rw left (more_iff limit page),
      )

  -- A page that has more to come leaves strictly less.
  pub since_shrinks :
      (since log cursor limit).2 ≡ true
      → length (page_after (since log cursor limit).1 log.entries)
        < length (page_after cursor log.entries)
  unfolding since
  since_shrinks more =
      rw (page_after-next 1 log.next_seq cursor limit log.entries h)
        (drop_shrinks limit (page_after cursor log.entries) more)

  -- Asked from a cursor up to the head of a log in order, the next cursor is no lower, and not past
  -- the head.
  pub since_bounds :
      cursor ≤ head log
      → (cursor ≤ (since log cursor limit).1) × ((since log cursor limit).1 ≤ head log)
  unfolding since
  since_bounds fits =
      let room = Ascends-bound 1 log.next_seq log.entries h in
      let top = head_lem log room in
      let (up, below) =
        last_bounds cursor log.next_seq (page_taken limit (page_after cursor log.entries)) (
          Ascends-take _ (suc cursor) log.next_seq _
            (Ascends-page_past cursor 1 log.next_seq log.entries (omega arith) h)) in
      (up, omega (arith, top, below))

-- Asked from any cursor, a compacted log names the same entries as the whole log.
pub page_after-compacted :
    (cursor lo hi : ℕ) (es : List Entry)
    → Ascends lo es hi
    → latest_per_id (page_after cursor (latest_per_id es)) ≡ latest_per_id (page_after cursor es)
page_after-compacted cursor lo hi es h =
    rw
      (
        latest_per_id-eq-newest es,
        latest_per_id-eq-newest (page_after cursor (newest es)),
        latest_per_id-eq-newest (page_after cursor es),
      )
      (rw (page_after-newest cursor lo hi es h) (newest_idem (page_after cursor es)))
