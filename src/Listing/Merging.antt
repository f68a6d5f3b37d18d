-- ===== src/Listing/Merging.antt =====
-- The first rows of two sorted lists, merged (`sort_combined` of src/http/memory.rs).
use linggen_memory.Prelude.{
  ℕ, zero, suc, ◌+◌, ◌≤◌, ◌≡◌, ◌∙◌, refl, sym, ap, inl, inr, Bool, true, false, Bool-cases, List,
  [], ◌∷◌, ◌++◌, append-nil, nil_take, arith, take, drop, sort_by, insert_by, IsSorted, All,
  All-map, All-append, All-sort_by, take-IsSorted,
}

take-take {ℓ} : {A : Type ℓ} (k n : ℕ) (xs : List A) → k ≤ n → take k (take n xs) ≡ take k xs
take-take zero n xs h = refl
take-take (suc k) zero xs h = absurd (omega arith)
take-take (suc k) (suc n) [] h = refl
take-take (suc k) (suc n) (x ∷ xs) h = ap (λ l. x ∷ l) (take-take k n xs (omega arith))

-- A page is a page of the rows up to its end.
pub page_of_first {ℓ} :
    {A : Type ℓ} (l o n : ℕ) (xs : List A)
    → l + o ≤ n
    → take l (drop o (take n xs)) ≡ take l (drop o xs)
page_of_first l zero n xs h = take-take l n xs (omega arith)
page_of_first l (suc o) zero xs h = absurd (omega arith)
page_of_first l (suc o) (suc n) [] h = refl
page_of_first l (suc o) (suc n) (x ∷ xs) h = page_of_first l o n xs (omega arith)

module _ {ℓ} {A : Type ℓ} (le : A → A → Bool) where
  insert_first : (x : A) (xs : List A) → All (λ y. le x y ≡ true) xs → insert_by le x xs ≡ x ∷ xs
  unfolding insert_by
  insert_first x [] h = refl
  insert_first x (y ∷ ys) h = rw h.0 refl

  sort_of_sorted : (xs : List A) → IsSorted le xs → sort_by le xs ≡ xs
  unfolding sort_by
  sort_of_sorted [] h = refl
  sort_of_sorted (x ∷ xs) h = rw (sort_of_sorted xs h.1) (insert_first x xs h.0)

  -- What comes before every other element of the list stands first.
  sort_before :
      (xs : List A) (b : A) (bs : List A)
      → All (λ x. le x b ≡ false) xs
      → All (λ y. le b y ≡ true) bs
      → sort_by le (xs ++ b ∷ bs) ≡ b ∷ sort_by le (xs ++ bs)
  unfolding sort_by insert_by
  sort_before [] b bs h k =
      insert_first b (sort_by le bs) (All-sort_by le (λ y. le b y ≡ true) bs k)
  sort_before (x ∷ xs) b bs h k = rw (sort_before xs b bs h.1 k) (rw h.0 refl)

  module _ (le_trans : (x y z : A) → le x y ≡ true → le y z ≡ true → le x z ≡ true) where
    merge_left :
        (a : A) (as' : List A) (b : A) (bs : List A)
        → IsSorted le (a ∷ as')
        → IsSorted le (b ∷ bs)
        → le a b ≡ true
        → sort_by le (a ∷ as' ++ b ∷ bs) ≡ a ∷ sort_by le (as' ++ b ∷ bs)
    unfolding sort_by
    merge_left a as' b bs h k e =
        let above = λ (y : A). le a y ≡ true in
        insert_first a (sort_by le (as' ++ b ∷ bs)) (
          All-sort_by le above (as' ++ b ∷ bs) (
            All-append above as' (b ∷ bs) h.0
              (e, All-map (λ y. le b y ≡ true) above (λ y q. le_trans a b y e q) bs k.0)))

    above_false : (a b : A) → le a b ≡ false → (x : A) → le a x ≡ true → le x b ≡ false
    above_false a b e x h = elim (Bool-cases (le x b)) [
      | inl q ↦ absurd (cc (le_trans a x b h q))
      | inr q ↦ q
    ]

    merge_right :
        (a : A) (as' : List A) (b : A) (bs : List A)
        → IsSorted le (a ∷ as')
        → IsSorted le (b ∷ bs)
        → le a b ≡ false
        → sort_by le (a ∷ as' ++ b ∷ bs) ≡ b ∷ sort_by le (a ∷ as' ++ bs)
    merge_right a as' b bs h k e =
        sort_before (a ∷ as') b bs
          (e, All-map (λ x. le a x ≡ true) (λ x. le x b ≡ false) (above_false a b e) as' h.0) k.0

    -- The first elements of the whole are among the first of each part.
    pub sort-take :
        (k i j : ℕ) (xs ys : List A)
        → k ≤ i
        → k ≤ j
        → IsSorted le xs
        → IsSorted le ys
        → take k (sort_by le (take i xs ++ take j ys)) ≡ take k (sort_by le (xs ++ ys))
    sort-take zero i j xs ys h q sx sy = refl
    sort-take (suc k) i j [] ys h q sx sy = rw (nil_take {A = A} i) (
        ap (take (suc k)) (sort_of_sorted (take j ys) (take-IsSorted le j ys sy))
        ∙ take-take (suc k) j ys q
        ∙ ap (take (suc k)) (sym (sort_of_sorted ys sy)))
    sort-take (suc k) (suc i) (suc j) (x ∷ xs) [] h q sx sy =
        rw (append-nil (take i xs), append-nil xs)
          (ap (take (suc k)) (sort_of_sorted (x ∷ take i xs) (take-IsSorted le (suc i) (x ∷ xs) sx))
            ∙ take-take (suc k) (suc i) (x ∷ xs) h
            ∙ ap (take (suc k)) (sym (sort_of_sorted (x ∷ xs) sx)))
    sort-take (suc k) (suc i) (suc j) (x ∷ xs) (y ∷ ys) h q sx sy =
        let sx' = take-IsSorted le (suc i) (x ∷ xs) sx in
        let sy' = take-IsSorted le (suc j) (y ∷ ys) sy in
        elim (Bool-cases (le x y)) [
          | inl e ↦
              ap (take (suc k)) (merge_left x (take i xs) y (take j ys) sx' sy' e)
              ∙ ap (λ l. x ∷ l)
                  (sort-take k i (suc j) xs (y ∷ ys) (omega arith) (omega arith) sx.1 sy)
              ∙ ap (take (suc k)) (sym (merge_left x xs y ys sx sy e))
          | inr e ↦
              ap (take (suc k)) (merge_right x (take i xs) y (take j ys) sx' sy' e)
              ∙ ap (λ l. y ∷ l)
                  (sort-take k (suc i) j (x ∷ xs) ys (omega arith) (omega arith) sx sy.1)
              ∙ ap (take (suc k)) (sym (merge_right x xs y ys sx sy e))
        ]
    sort-take (suc k) zero j (x ∷ xs) ys h q sx sy = absurd (omega arith)
    sort-take (suc k) (suc i) zero (x ∷ xs) ys h q sx sy = absurd (omega arith)
