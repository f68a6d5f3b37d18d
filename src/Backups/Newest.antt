-- ===== src/Backups/Newest.antt =====
-- Which backups go, and which stay (src/memory/backups.rs).
use linggen_memory.Prelude.{
  ℕ, zero, suc, ◌-◌, ◌≤◌, String, ◌==◌, eq_iff, ◌≡◌, ◌∙◌, refl, ap, inl, inr, Bool, Bool-cases,
  true, false, not, ◌&&◌, List, [], ◌∷◌, keep, length-append, length-take, length-drop, All-drop,
  All-map, keep-append, All, take, drop, take-append-drop, length, sort_by, insert_by,
  length-sort_by, length-keep-sort_by, any-sort_by, any-insert_by, sort_by-IsSorted,
  take-before-drop, arith,
}
use linggen_memory.Text.Order.{text_le, text_le_total, text_le_trans}
use linggen_memory.Backups.{contains, daily_keep, surplus_dailies}

abbrev pub IsDistinct : List String → Type 0
IsDistinct [] = Unit
IsDistinct (s ∷ ss) = (contains ss s ≡ false) × IsDistinct ss

insert_by-IsDistinct :
    (s : String) (ss : List String)
    → contains ss s ≡ false
    → IsDistinct ss
    → IsDistinct (insert_by text_le s ss)
unfolding insert_by
insert_by-IsDistinct s [] fresh h = (refl, tt)
insert_by-IsDistinct s (t ∷ ts) fresh h = elim (Bool-cases (text_le s t)) [
  | inl e ↦ rw e (fresh, h)
  | inr e ↦ rw e (
    ground (arith, any-insert_by text_le (λ n. n == t) s ts, fresh, h.0, eq_iff s t, eq_iff t s),
    insert_by-IsDistinct s ts (ground (arith, fresh)) h.1,
  )
]

sort_by-IsDistinct : (ss : List String) → IsDistinct ss → IsDistinct (sort_by text_le ss)
unfolding sort_by
sort_by-IsDistinct [] h = tt
sort_by-IsDistinct (s ∷ ss) h =
    insert_by-IsDistinct s (sort_by text_le ss) (any-sort_by text_le (λ n. n == s) ss ∙ h.0)
      (sort_by-IsDistinct ss h.1)

pub all_both :
    (P Q R : String → Type 0) (ss : List String)
    → ((s : String) → P s → Q s → R s)
    → All P ss
    → All Q ss
    → All R ss
all_both P Q R [] f h k = tt
all_both P Q R (s ∷ ss) f h k = (f s h.0 k.0, all_both P Q R ss f h.1 k.1)

differs : (s : String) (ss : List String) → contains ss s ≡ false → All (λ t. (s == t) ≡ false) ss
differs s [] h = tt
differs s (t ∷ ts) h = (ground (arith, h, eq_iff s t, eq_iff t s), differs s ts (ground (arith, h)))

none_taken : (ss : List String) → All (λ s. contains [] s ≡ false) ss
none_taken [] = tt
none_taken (s ∷ ss) = (refl, none_taken ss)

-- What stands in the one part of a list without repetitions is not in the other.
apart :
    (n : ℕ) (ss : List String)
    → IsDistinct ss
    → All (λ s. contains (take n ss) s ≡ false) (drop n ss)
apart zero ss h = none_taken ss
apart (suc n) [] h = tt
apart (suc n) (s ∷ ss) h =
    all_both (λ t. (s == t) ≡ false) (λ t. contains (take n ss) t ≡ false)
      (λ t. contains (s ∷ take n ss) t ≡ false) (drop n ss) (λ t e k. ground (arith, e, k))
      (All-drop (λ t. (s == t) ≡ false) n ss (differs s ss h.0)) (apart n ss h.1)

all_kept :
    (p : String → Bool) (ss : List String)
    → All (λ s. p s ≡ true) ss
    → length (keep p ss) ≡ length ss
all_kept p [] h = refl
all_kept p (s ∷ ss) h = ground (arith, h.0, all_kept p ss h.1)

-- A snapshot that stays, and whose name is not before `d`.
abbrev pub is_newer_kept : List String → String → String → Bool
is_newer_kept surplus d x = text_le d x && not (contains surplus x)

module _ (files : List String) (h : IsDistinct files) where
  sorted : List String
  sorted = sort_by text_le files

  newer :
      (n : ℕ) (d : String)
      → suc n ≡ length files - daily_keep
      → All (λ y. text_le d y ≡ true) (drop (suc n) sorted)
      → daily_keep ≤ length (keep (is_newer_kept (take (suc n) sorted) d) files)
  unfolding sorted
  newer n d e later =
      let p = is_newer_kept (take (suc n) sorted) d in
      omega (
        arith,
        e,
        length-keep-sort_by text_le p files,
        ap (λ ss. length (keep p ss)) (take-append-drop (suc n) sorted),
        ap length (keep-append p (take (suc n) sorted) (drop (suc n) sorted)),
        length-append (keep p (take (suc n) sorted)) (keep p (drop (suc n) sorted)),
        length-drop (suc n) sorted,
        length-sort_by text_le files,
        all_kept p (drop (suc n) sorted) (
            all_both (λ y. text_le d y ≡ true) (λ y. contains (take (suc n) sorted) y ≡ false)
              (λ y. p y ≡ true) (drop (suc n) sorted) (λ y a b. ground (arith, a, b)) later
              (apart (suc n) sorted (sort_by-IsDistinct files h))),
      )

  all_newer :
      (n : ℕ)
      → n ≡ length files - daily_keep
      → All
          (λ d. daily_keep ≤ length (keep (is_newer_kept (take n sorted) d) files))
          (take n sorted)
  unfolding sorted
  all_newer zero e = tt
  all_newer (suc n) e =
      All-map (λ d. All (λ y. text_le d y ≡ true) (drop (suc n) sorted))
        (λ d. daily_keep ≤ length (keep (is_newer_kept (take (suc n) sorted) d) files))
        (λ d later. newer n d e later) (take (suc n) sorted)
        (take-before-drop text_le (suc n) sorted
          (sort_by-IsSorted text_le text_le_trans text_le_total files))

  -- Of daily snapshots with different names, all but seven are surplus, none if there are no more
  -- than seven; and for each that is surplus seven stay whose names are not before its own.
  pub surplus_dailies_lem :
      (length (surplus_dailies files) ≡ length files - daily_keep)
      × All
          (λ d. daily_keep ≤ length (keep (is_newer_kept (surplus_dailies files) d) files))
          (surplus_dailies files)
  unfolding surplus_dailies sorted
  surplus_dailies_lem = (
    omega (arith, length-take (length files - daily_keep) sorted, length-sort_by text_le files),
    all_newer (length files - daily_keep) refl,
  )
