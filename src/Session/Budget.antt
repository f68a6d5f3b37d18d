-- ===== src/Session/Budget.antt =====
-- The index of a session keeps to its budget of characters, and loses count of no row.
use Prim.Native.String
use linggen_memory.Prelude.{
  ℕ, ◌+◌, ◌-◌, ◌≤◌, String, ◌==◌, ◌≡◌, ◌∙◌, refl, sym, subst, Bool, true, false, not, Option, none,
  some, List, [], ◌∷◌, ◌++◌, arith, length, length-append, All, All-append, All-map, All-sort_by,
  sort_by, keep, keep_sound, eqb, ltb, or_else, any, if◌then◌else◌, inl, inr, Bool-cases,
}
use linggen_memory.Text.Words.{char_count, char_count-append, char_count-decimal_mono, decimal}
use linggen_memory.Types.{Memory}
use linggen_memory.Paths.{FilePath}
use linggen_memory.Scope.{to_str}
use linggen_memory.Scope.Naming.{concat}
use linggen_memory.Store.Queries.{usize_max}
use linggen_memory.Session.{
  Place, Rendered, start, index_budget_chars, index_footer, skipped_note, heading_of, heading_cost,
  headed, index_line, show_row, show_rows, closed_on, budget_for, ordered, render_index, depth,
  depth_of, position_from, is_before, dedup, dedup_after,
}

-- What has been written costs at most what was counted, which is within the budget.
record Fits (budget tried : ℕ) (r : Rendered) : Type 0 where
  written : char_count r.out ≤ r.used
  within : r.used ≤ budget
  paid : length r.shown ≤ r.used
  counted : length r.shown + r.skipped ≡ tried

char_count-headed :
    (h : Option String) (dir entry : String) (r : Rendered)
    → char_count (headed h dir entry r).out ≤ char_count r.out + (heading_cost h + char_count entry)
unfolding char_count
char_count-headed none dir entry r = omega (arith, char_count-append r.out entry)
char_count-headed (some h) dir entry r = ground (
  arith,
  char_count-append h entry,
  char_count-append r.out (String.◌++◌ "\n" (String.◌++◌ h entry)),
  char_count-append "\n" (String.◌++◌ h entry),
)

skipped-headed :
    (h : Option String) (dir entry : String) (r : Rendered)
    → (headed h dir entry r).skipped ≡ r.skipped
skipped-headed none dir entry r = refl
skipped-headed (some h) dir entry r = refl

one_line : (s : String) → char_count (String.◌++◌ s "\n") ≡ char_count s + 1
unfolding char_count
one_line s = char_count-append s "\n"

show_row-Fits :
    (p : Place) (budget tried : ℕ) (row : Memory) (r : Rendered)
    → Fits budget tried r
    → Fits budget (tried + 1) (show_row p budget row r)
unfolding show_row
show_row-Fits p budget tried row r f =
    let dir = or_else row.scope "" in
    let heading = heading_of p r dir in
    let entry = String.◌++◌ (index_line row) "\n" in
    elim (Bool-cases (ltb budget (r.used + (heading_cost heading + char_count entry)))) [
      | inl over ↦ rw over (record {
        written = f.written;
        within = f.within;
        paid = f.paid;
        counted = omega (arith, f.counted);
      })
      | inr under ↦ rw under (record {
        written = omega (arith, char_count-headed heading dir entry r, f.written);
        within = ground (arith, under);
        paid = omega (arith, f.paid, length-append r.shown (row ∷ []), one_line (index_line row));
        counted = omega (
          arith,
          f.counted,
          length-append r.shown (row ∷ []),
          skipped-headed heading dir entry r,
        );
      })
    ]

show_rows-Fits :
    (p : Place) (budget tried : ℕ) (rows : List Memory) (r : Rendered)
    → Fits budget tried r
    → Fits budget (tried + length rows) (show_rows p budget rows r)
unfolding show_rows
show_rows-Fits p budget tried [] r f = record {
  written = f.written;
  within = f.within;
  paid = f.paid;
  counted = omega (arith, f.counted);
}
show_rows-Fits p budget tried (row ∷ rows) r f =
    let g = show_rows-Fits p budget (tried + 1) rows _ (show_row-Fits p budget tried row r f) in
    record {
      written = g.written;
      within = g.within;
      paid = g.paid;
      counted = omega (arith, g.counted);
    }

char_count-concat :
    (s t : String) (ss : List String)
    → char_count (concat (s ∷ t ∷ ss)) ≡ char_count s + char_count t + char_count (concat ss)
char_count-concat s t ss =
    omega (arith, char_count-append s (concat (t ∷ ss)), char_count-append t (concat ss))

char_count-skipped_note_mono :
    (n m : ℕ) → n ≤ m → char_count (skipped_note n) ≤ char_count (skipped_note m)
unfolding skipped_note
char_count-skipped_note_mono n m le = omega (
  arith,
  char_count-concat "\n(" (decimal n)
      (" more indexed row(s) over the " ∷ decimal index_budget_chars ∷ _ ∷ []),
  char_count-concat "\n(" (decimal m)
      (" more indexed row(s) over the " ∷ decimal index_budget_chars ∷ _ ∷ []),
  char_count-decimal_mono n m le,
)

note_short :
    (skipped k : ℕ)
    → skipped ≤ k
    → char_count (if ltb 0 skipped then skipped_note skipped else "") ≤ char_count (skipped_note k)
unfolding char_count
note_short skipped k fewer = elim (Bool-cases (ltb 0 skipped)) [
  | inl some_skipped ↦ rw some_skipped (char_count-skipped_note_mono skipped k fewer)
  | inr none_skipped ↦ rw none_skipped (omega arith)
]

start-Fits : (budget : ℕ) → Fits budget 0 start
unfolding char_count
start-Fits budget = record {
  written = omega arith;
  within = omega arith;
  paid = omega arith;
  counted = refl;
}

char_count-closed_on :
    (shown : List Memory) (out : String) (skipped used k : ℕ)
    → char_count out ≤ used
    → used ≤ index_budget_chars - (char_count index_footer + char_count (skipped_note k))
    → length shown ≤ used
    → skipped ≤ k
    → char_count (closed_on shown out skipped) ≤ index_budget_chars
unfolding char_count
char_count-closed_on [] out skipped used k written within paid fewer = omega arith
char_count-closed_on (m ∷ ms) out skipped used k written within paid fewer =
    let note = if ltb 0 skipped then skipped_note skipped else "" in
    let short : char_count note ≤ char_count (skipped_note k) = note_short skipped k fewer in
    omega (
      arith,
      char_count-append out (String.◌++◌ index_footer note),
      char_count-append index_footer note,
      short,
    )

module _ {κ} (P : Memory → Type κ) where
  All-dedup_after : (m : Memory) (ms : List Memory) → All P ms → All P (dedup_after m ms)
  unfolding dedup_after
  All-dedup_after m [] h = tt
  All-dedup_after m (x ∷ ms) h = elim (Bool-cases (x.id == m.id)) [
    | inl same ↦ rw same (All-dedup_after m ms h.1)
    | inr fresh ↦ rw fresh (h.0, All-dedup_after x ms h.1)
  ]

  All-dedup : (ms : List Memory) → All P ms → All P (dedup ms)
  All-dedup [] h = tt
  All-dedup (m ∷ ms) h = (h.0, All-dedup_after m ms h.1)

  All-show_row :
      (p : Place) (budget : ℕ) (row : Memory) (r : Rendered)
      → P row
      → All P r.shown
      → All P (show_row p budget row r).shown
  unfolding show_row
  All-show_row p budget row r h k =
      let heading = heading_of p r (or_else row.scope "") in
      let entry = String.◌++◌ (index_line row) "\n" in
      elim (Bool-cases (ltb budget (r.used + (heading_cost heading + char_count entry)))) [
        | inl over ↦
            let e : (show_row p budget row r).shown ≡ r.shown = rw over refl in
            subst (All P) (sym e) k
        | inr under ↦
            let e : (show_row p budget row r).shown ≡ r.shown ++ row ∷ [] = rw under refl in
            subst (All P) (sym e) (All-append P r.shown (row ∷ []) k (h, tt))
      ]

  All-show_rows :
      (p : Place) (budget : ℕ) (rows : List Memory) (r : Rendered)
      → All P rows
      → All P r.shown
      → All P (show_rows p budget rows r).shown
  unfolding show_rows
  All-show_rows p budget [] r h k = k
  All-show_rows p budget (row ∷ rows) r h k =
      All-show_rows p budget rows (show_row p budget row r) h.1 (All-show_row p budget row r h.0 k)

-- A row that has a place in the chain has one of its directories as its scope.
position_from-listed :
    (i : ℕ) (ds : List FilePath) (s : String)
    → i + length ds ≤ usize_max
    → not (eqb (position_from i ds s) usize_max) ≡ any (λ d. to_str d == s) ds
position_from-listed i [] s fits = ground arith
position_from-listed i (d ∷ ds) s fits = elim (Bool-cases (to_str d == s)) [
  | inl here ↦ rw here (ground (arith, fits))
  | inr later ↦ rw later (position_from-listed (i + 1) ds s (omega (arith, fits)))
]

-- Is the row filed at one of these directories?
abbrev pub is_one_of : List FilePath → Option String → Bool
is_one_of ds none = false
is_one_of ds (some s) = any (λ d. to_str d == s) ds

abbrev pub is_filed_at : List FilePath → Memory → Bool
is_filed_at ds m = is_one_of ds m.scope

depth_of-filed :
    (ds : List FilePath) (scope : Option String)
    → length ds ≤ usize_max
    → not (eqb (depth_of ds scope) usize_max) ≡ true
    → is_one_of ds scope ≡ true
depth_of-filed ds none fits h = h
depth_of-filed ds (some s) fits h = sym (position_from-listed 0 ds s (omega arith)) ∙ h

ordered-filed :
    (rows : List Memory) (p : Place)
    → length p.chain ≤ usize_max
    → All (λ m. is_filed_at p.chain m ≡ true) (ordered p rows)
unfolding ordered
ordered-filed rows p fits =
    let has_place : Memory → Bool = λ m. not (eqb (depth p m) usize_max) in
    All-dedup (λ m. is_filed_at p.chain m ≡ true) (sort_by (is_before p) (keep has_place rows))
      (All-sort_by (is_before p) (λ m. is_filed_at p.chain m ≡ true) (keep has_place rows)
        (All-map (λ m. has_place m ≡ true) (λ m. is_filed_at p.chain m ≡ true)
          (λ m. depth_of-filed p.chain m.scope fits) (keep has_place rows)
          (keep_sound has_place rows)))

-- Whatever rows are found and wherever the session stands: the index block has at most as many
-- characters as the budget allows, its headings, footer and note included; every row that is shown
-- is filed at a directory of the session's chain (whose length is a machine word); and the rows that
-- are shown and those counted as skipped are together all that were tried.
pub render_index_lem :
    (rows : List Memory) (p : Place)
    → length p.chain ≤ usize_max
    → (char_count (render_index rows p).1 ≤ index_budget_chars)
      × All (λ m. is_filed_at p.chain m ≡ true) (render_index rows p).0
      × (length (render_index rows p).0 + (render_index rows p).2 ≡ length (ordered p rows))
unfolding render_index
render_index_lem rows p fits =
    let tried = ordered p rows in
    let f = show_rows-Fits p (budget_for tried) 0 tried start (start-Fits (budget_for tried)) in
    let r = show_rows p (budget_for tried) tried start in
    (
      char_count-closed_on r.shown r.out r.skipped r.used (length tried) f.written f.within f.paid
          (omega (arith, f.counted)),
      All-show_rows (λ m. is_filed_at p.chain m ≡ true) p (budget_for tried) tried start
          (ordered-filed rows p fits) tt,
      omega (arith, f.counted),
    )
