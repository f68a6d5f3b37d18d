-- ===== src/Changes/Order.antt =====
-- Sequence numbers of the log ascend, whatever is recorded, compacted or read again.
use linggen_memory.Prelude.{
  ℕ, suc, ◌+◌, ◌-◌, ◌%◌, ◌^◌, ◌≤◌, ◌<◌, String, ◌≡◌, refl, ◌∙◌, subst, Bool-cases, inl, inr, some,
  List, [], ◌∷◌, ◌++◌, arith, leb, length, last?,
}
use linggen_memory.Changes.{
  Op, Entry, ChangeLog, head, place, parse, numbered, seq_past, page_after,
}
use linggen_memory.Changes.Latest.{newest, occurs}

-- The entries stand in `[lo, hi)`, each after the one before it.
abbrev pub Ascends : ℕ → List Entry → ℕ → Type 0
Ascends lo [] hi = lo ≤ hi
Ascends lo (e ∷ es) hi = (lo ≤ e.seq) × Ascends (suc e.seq) es hi

pub Ascends-weaken :
    (lo lo' hi : ℕ) (es : List Entry) → lo' ≤ lo → Ascends lo es hi → Ascends lo' es hi
Ascends-weaken lo lo' hi [] le h = omega arith
Ascends-weaken lo lo' hi (e ∷ es) le h = (omega arith, h.1)

pub Ascends-bound : (lo hi : ℕ) (es : List Entry) → Ascends lo es hi → lo ≤ hi
Ascends-bound lo hi [] h = h
Ascends-bound lo hi (e ∷ es) h = omega (arith, Ascends-bound (suc e.seq) hi es h.1)

pub Ascends-append :
    (lo mid hi : ℕ) (xs ys : List Entry)
    → Ascends lo xs mid
    → Ascends mid ys hi
    → Ascends lo (xs ++ ys) hi
Ascends-append lo mid hi [] ys h k = Ascends-weaken mid lo hi ys h k
Ascends-append lo mid hi (e ∷ xs) ys h k = (h.0, Ascends-append (suc e.seq) mid hi xs ys h.1 k)

pub Ascends-newest : (lo hi : ℕ) (es : List Entry) → Ascends lo es hi → Ascends lo (newest es) hi
unfolding newest
Ascends-newest lo hi [] h = h
Ascends-newest lo hi (e ∷ es) h = elim (Bool-cases (occurs e.id es)) [
  | inl later ↦ rw later (
      Ascends-weaken (suc e.seq) lo hi (newest es) (omega arith)
        (Ascends-newest (suc e.seq) hi es h.1))
  | inr gone ↦ rw gone (h.0, Ascends-newest (suc e.seq) hi es h.1)
]

pub seq_past_lem :
    (ids : List String) (n : ℕ) → n + length ids < 2 ^ 64 → seq_past ids n ≡ n + length ids
seq_past_lem [] n h = omega arith
seq_past_lem (id ∷ ids) n h =
    let step : (n + 1) % 2 ^ 64 ≡ n + 1 = omega arith in
    rw step (omega (arith, seq_past_lem ids (n + 1) (omega arith)))

pub Ascends-numbered :
    (table : String) (op : Op) (ids : List String) (n : ℕ)
    → n + length ids < 2 ^ 64
    → Ascends n (numbered table op ids n) (n + length ids)
Ascends-numbered table op [] n h = omega arith
Ascends-numbered table op (id ∷ ids) n h =
    let step : (n + 1) % 2 ^ 64 ≡ suc n = omega arith in
    (
      omega arith,
      rw step (
          subst (λ m. Ascends (suc n) (numbered table op ids (suc n)) m) (omega arith)
            (Ascends-numbered table op ids (suc n) (omega arith))),
    )

place_lem : (e : Entry) (hi : ℕ) (es : List Entry) → Ascends (suc e.seq) es hi → place e es ≡ e ∷ es
place_lem e hi [] h = refl
place_lem e hi (x ∷ es) h = ground arith

pub head_lem : (log : ChangeLog) → 1 ≤ log.next_seq → head log ≡ log.next_seq - 1
unfolding head
head_lem log h = ground (arith, h)

-- Sorting entries that ascend changes nothing.
pub parse_lem : (lo hi : ℕ) (es : List Entry) → Ascends lo es hi → parse es ≡ es
parse_lem lo hi [] h = refl
parse_lem lo hi (e ∷ es) h = rw (parse_lem (suc e.seq) hi es h.1) (place_lem e hi es h.1)

last?-cons : (e : Entry) (l : List Entry) {y : Entry} → last? l ≡ some y → last? (e ∷ l) ≡ some y
last?-cons e [] h = cc
last?-cons e (x ∷ l) h = h

last?-exists : (x : Entry) (es : List Entry) → (y : Entry) × (last? (x ∷ es) ≡ some y)
last?-exists x [] = (x, refl)
last?-exists x (y ∷ es) = last?-exists y es

-- Compaction keeps the newest entry, by which the next sequence number is found.
pub last?-newest : (es : List Entry) → last? (newest es) ≡ last? es
unfolding newest
last?-newest [] = refl
last?-newest (e ∷ []) = refl
last?-newest (e ∷ x ∷ es) = elim (Bool-cases (occurs e.id (x ∷ es))) [
  | inl later ↦ rw later (last?-newest (x ∷ es))
  | inr gone ↦
      let (y, found) = last?-exists x es in
      rw (gone, found) (last?-cons e (newest (x ∷ es)) (last?-newest (x ∷ es) ∙ found))
]

-- Nothing is dropped where every entry is past the cursor.
pub page_after_all :
    (cursor lo hi : ℕ) (es : List Entry)
    → cursor < lo
    → Ascends lo es hi
    → page_after cursor es ≡ es
page_after_all cursor lo hi [] lt h = refl
page_after_all cursor lo hi (e ∷ es) lt h = ground arith

-- In ascending order, a page after a cursor does not depend on what was compacted away.
pub page_after-newest :
    (cursor lo hi : ℕ) (es : List Entry)
    → Ascends lo es hi
    → page_after cursor (newest es) ≡ newest (page_after cursor es)
unfolding newest
page_after-newest cursor lo hi [] h = refl
page_after-newest cursor lo hi (e ∷ es) h = elim (Bool-cases (leb e.seq cursor)) [
  | inl seen ↦ rw seen (ground (arith, seen, page_after-newest cursor (suc e.seq) hi es h.1))
  | inr new ↦ rw new (
      page_after_all cursor (suc cursor) hi (newest (e ∷ es)) (omega arith)
        (Ascends-newest (suc cursor) hi (e ∷ es) (ground arith, h.1)))
]
