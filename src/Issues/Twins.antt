-- ===== src/Issues/Twins.antt =====
-- No two open items of the review queue are about the same (src/http/issues.rs).
use linggen_memory.Prelude.{
  String, ◌==◌, ◌≡◌, ◌∙◌, refl, ap, inl, inr, Bool, Bool-cases, true, false, ◌&&◌, ◌||◌, Option,
  none, some, List, [], ◌∷◌, ◌++◌, any, find, arith, sort_by,
}
use linggen_memory.Text.{trim, is_empty}
use linggen_memory.Text.Order.{any_apart, text_le}
use linggen_memory.Types.{Instant}
use linggen_memory.Issues.{
  IssueRecord, IssuesState, IssueReply, added, closed, load, is_open, is_one_of, kinds, outcomes,
  texts_eq, sorted, is_same, new_issue, add_on, saved_as, issue_add, issue_resolve, closed_as,
  change_first, resolve_on,
}

-- The same texts in the same order.
abbrev pub are_equal : List String → List String → Bool
are_equal [] [] = true
are_equal (s ∷ ss) (t ∷ ts) = (s == t) && are_equal ss ts
are_equal _ _ = false

are_equal-texts_eq : (ss ts : List String) → texts_eq ss ts ≡ are_equal ss ts
are_equal-texts_eq [] [] = refl
are_equal-texts_eq [] (t ∷ ts) = refl
are_equal-texts_eq (s ∷ ss) [] = refl
are_equal-texts_eq (s ∷ ss) (t ∷ ts) = ap (λ b. (s == t) && b) (are_equal-texts_eq ss ts)

-- Two items that both wait, of one kind and about the same rows in whatever order.
abbrev pub are_twins : IssueRecord → IssueRecord → Bool
are_twins i j =
    (i.status == "open")
    && (j.status == "open")
    && (i.kind == j.kind)
    && are_equal (sort_by text_le i.row_ids) (sort_by text_le j.row_ids)

abbrev pub IsTwinless : IssuesState → Type 0
IsTwinless [] = Unit
IsTwinless (i ∷ is) = (any (are_twins i) is ≡ false) × IsTwinless is

find-any : {A : Type 0} (p : A → Bool) (xs : List A) → find p xs ≡ none → any p xs ≡ false
find-any p [] e = refl
find-any p (x ∷ xs) e = elim (Bool-cases (p x)) [
  | inl hit ↦ absurd (ground (arith, e, hit))
  | inr miss ↦ ground (arith, miss, find-any p xs, e)
]

any_end :
    {A : Type 0} (p : A → Bool) (xs : List A) (y : A) → any p (xs ++ y ∷ []) ≡ (any p xs || p y)
any_end p [] y = ground arith
any_end p (x ∷ xs) y = ground (arith, any_end p xs y)

-- A new open item like no open one keeps the queue free of twins.
added-IsTwinless :
    (r : IssueRecord) (is : IssuesState)
    → any (is_same r.kind (sorted r.row_ids)) is ≡ false
    → IsTwinless is
    → IsTwinless (is ++ r ∷ [])
added-IsTwinless r [] fresh h = (refl, tt)
added-IsTwinless r (i ∷ is) fresh h = (
  any_end (are_twins i) is r
      ∙ ground (
        arith,
        h.0,
        fresh,
        are_equal-texts_eq (sort_by text_le i.row_ids) (sort_by text_le r.row_ids),
      ),
  added-IsTwinless r is (ground (arith, fresh)) h.1,
)

module _ (id : String) (f : IssueRecord → IssueRecord)
    (shut : (i : IssueRecord) → is_open (f i) ≡ false) where
  no_twin : (i : IssueRecord) (is : IssuesState) → any (are_twins (f i)) is ≡ false
  no_twin i [] = refl
  no_twin i (j ∷ is) = ground (arith, shut i, no_twin i is)

  change_first-any :
      (i : IssueRecord) (is : IssuesState)
      → any (are_twins i) is ≡ false
      → any (are_twins i) (change_first id f is) ≡ false
  change_first-any i [] e = refl
  change_first-any i (j ∷ is) e = ground (arith, e, shut j, change_first-any i is)

  change_first-IsTwinless : (is : IssuesState) → IsTwinless is → IsTwinless (change_first id f is)
  change_first-IsTwinless [] h = tt
  change_first-IsTwinless (i ∷ is) h = elim (Bool-cases (i.id == id)) [
    | inl e ↦ rw e (no_twin i is, h.1)
    | inr e ↦ rw e (change_first-any i is h.0, change_first-IsTwinless is h.1)
  ]

saved-IsTwinless :
    (saved : Bool) (reply : IssueReply) (all : IssuesState) (file : Option IssuesState)
    → IsTwinless all
    → IsTwinless (load file)
    → IsTwinless (load (saved_as saved reply all file).1)
saved-IsTwinless true reply all file h k = h
saved-IsTwinless false reply all file h k = k

add_on-IsTwinless :
    (found : Option IssueRecord) (saved : Bool) (r : IssueRecord) (file : Option IssuesState)
    → find (is_same r.kind (sorted r.row_ids)) (load file) ≡ found
    → IsTwinless (load file)
    → IsTwinless (load (add_on found saved r file).1)
add_on-IsTwinless (some existing) saved r file e h = h
add_on-IsTwinless none saved r file e h =
    saved-IsTwinless saved (added r false) (load file ++ r ∷ []) file
      (added-IsTwinless r (load file) (find-any (is_same r.kind (sorted r.row_ids)) (load file) e)
        h)
      h

issue_add-IsTwinless :
    (saved : Bool) (id : String) (now : Instant) (kind : String) (row_ids : List String)
    (note : String) (file : Option IssuesState)
    → IsTwinless (load file)
    → IsTwinless (load (issue_add saved id now kind row_ids note file).1)
unfolding issue_add
issue_add-IsTwinless saved id now kind row_ids note file h =
    elim (Bool-cases (is_one_of kinds (trim kind))) [
      | inl known ↦ elim (Bool-cases (is_empty (trim note))) [
        | inl blank ↦ rw known (rw blank h)
        | inr said ↦ rw known (
            rw said (
              add_on-IsTwinless _ saved (new_issue id (trim kind) row_ids (trim note) now) file refl
                h))
      ]
      | inr unknown ↦ rw unknown h
    ]

closed_as_shut :
    (outcome : String) (why : Option String) (now : Instant)
    → is_one_of outcomes outcome ≡ true
    → (i : IssueRecord) → is_open (closed_as outcome why now i) ≡ false
closed_as_shut outcome why now known i =
    any_apart (λ t. t == "open") outcome outcomes (refl, (refl, tt)) known

resolve_on-IsTwinless :
    (found : Option IssueRecord) (saved : Bool) (outcome : String) (why : Option String)
    (now : Instant) (file : Option IssuesState)
    → is_one_of outcomes outcome ≡ true
    → IsTwinless (load file)
    → IsTwinless (load (resolve_on found saved outcome why now file).1)
resolve_on-IsTwinless none saved outcome why now file known h = h
resolve_on-IsTwinless (some item) saved outcome why now file known h =
    elim (Bool-cases (is_open item)) [
      | inl e ↦ rw e (
          saved-IsTwinless saved (closed (closed_as outcome why now item) false)
            (change_first item.id (closed_as outcome why now) (load file)) file
            (change_first-IsTwinless item.id (closed_as outcome why now)
              (closed_as_shut outcome why now known) (load file) h)
            h)
      | inr e ↦ rw e h
    ]

issue_resolve-IsTwinless :
    (saved : Bool) (now : Instant) (id outcome : String) (why : Option String)
    (file : Option IssuesState)
    → IsTwinless (load file)
    → IsTwinless (load (issue_resolve saved now id outcome why file).1)
unfolding issue_resolve
issue_resolve-IsTwinless saved now id outcome why file h =
    elim (Bool-cases (is_one_of outcomes (trim outcome))) [
      | inl known ↦ rw known (
          resolve_on-IsTwinless (find (λ (i : IssueRecord). i.id == id) (load file)) saved
            (trim outcome) why now file known h)
      | inr unknown ↦ rw unknown h
    ]

-- What changes the queue, one after another.
pub data Change : Type 0 where
  add :
      (saved : Bool) (id : String) (now : Instant) (kind : String)
      → List String
      → (note : String) → Change
  resolve : (saved : Bool) (now : Instant) (id outcome : String) → Option String → Change

unfoldable pub after : List Change → Option IssuesState → Option IssuesState
unfolding issue_add issue_resolve
after [] file = file
after (add saved id now kind row_ids note ∷ cs) file =
    after cs (issue_add saved id now kind row_ids note file).1
after (resolve saved now id outcome why ∷ cs) file =
    after cs (issue_resolve saved now id outcome why file).1

-- Whatever is added and resolved, in any order, whether it is saved or not: if no two open items of
-- the queue have one kind and the same rows, in whatever order, no two do afterwards.
pub after-IsTwinless :
    (cs : List Change) (file : Option IssuesState)
    → IsTwinless (load file)
    → IsTwinless (load (after cs file))
unfolding after
after-IsTwinless [] file h = h
after-IsTwinless (add saved id now kind row_ids note ∷ cs) file h =
    after-IsTwinless cs _ (issue_add-IsTwinless saved id now kind row_ids note file h)
after-IsTwinless (resolve saved now id outcome why ∷ cs) file h =
    after-IsTwinless cs _ (issue_resolve-IsTwinless saved now id outcome why file h)
