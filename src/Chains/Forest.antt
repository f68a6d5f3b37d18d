-- ===== src/Chains/Forest.antt =====
-- What the parents of the union-find say: a forest under which each row has its top
-- (src/http/chains.rs).
use linggen_memory.Prelude.{
  ℕ, zero, suc, ◌≤◌, ◌<◌, ◌≡◌, ◌≢◌, inl, inr, ◌⊎◌, ◌&&◌, some, Bool-cases, List, [], ◌∷◌, length,
  eqb, ltb, eqb_iff, arith, if◌then◌else◌, refl, ap, subst,
}
use linggen_memory.Chains.{parent_of, set_elem, find_top, compress, get_elem?}

get_elem?-set :
    (p : List ℕ) (k v i : ℕ)
    → get_elem? (set_elem p k v) i ≡ (if eqb i k && ltb k (length p) then some v else get_elem? p i)
get_elem?-set [] k v i = ground arith
get_elem?-set (x ∷ p) zero v zero = ground arith
get_elem?-set (x ∷ p) zero v (suc i) = ground arith
get_elem?-set (x ∷ p) (suc k) v zero = ground arith
get_elem?-set (x ∷ p) (suc k) v (suc i) = ground (arith, get_elem?-set p k v i)

pub length-set : (p : List ℕ) (k v : ℕ) → length (set_elem p k v) ≡ length p
length-set [] k v = refl
length-set (x ∷ p) zero v = refl
length-set (x ∷ p) (suc k) v = ap suc (length-set p k v)

-- The parents are a forest: `d` falls on the way up, and `top` is where each way ends.
pub record IsForest (p : List ℕ) (top d : ℕ → ℕ) (bound : ℕ) : Type 0 where
  pub climbs : (i : ℕ) → (parent_of p i ≡ i) ⊎ (d (parent_of p i) < d i)
  pub same : (i : ℕ) → top (parent_of p i) ≡ top i
  pub rests : (i : ℕ) → parent_of p i ≡ i → (top i ≡ i) × (d i ≡ 0)
  pub ends : (i : ℕ) → parent_of p (top i) ≡ top i
  pub bounded : (i : ℕ) → d i ≤ bound

pub find_top-IsForest :
    (p : List ℕ) (top d : ℕ → ℕ) (bound : ℕ)
    → IsForest p top d bound
    → (n i : ℕ) → d i ≤ n
    → find_top n p i ≡ top i
unfolding find_top
find_top-IsForest p top d bound f zero i h = ground (arith, f.climbs i, f.rests i)
find_top-IsForest p top d bound f (suc n) i h = elim (Bool-cases (eqb (parent_of p i) i)) [
  | inl e ↦ rw e (ground (arith, f.rests i, eqb_iff (parent_of p i) i))
  | inr e ↦ rw e (
      ground (
        arith,
        find_top-IsForest p top d bound f n (parent_of p i),
        f.climbs i,
        f.same i,
        eqb_iff (parent_of p i) i,
      ))
]

-- One node hung on another: its parent is the new one, or all is as it was.
parent_of-set :
    (p : List ℕ) (k v i : ℕ)
    → ((i ≡ k) × (parent_of (set_elem p k v) i ≡ v))
      ⊎ (parent_of (set_elem p k v) i ≡ parent_of p i)
parent_of-set p k v i = ground (arith, get_elem?-set p k v i)

parent_of-set_at :
    (p : List ℕ) (k v i : ℕ)
    → k < length p
    → parent_of (set_elem p k v) i ≡ (if eqb i k then v else parent_of p i)
parent_of-set_at p k v i h = ground (arith, get_elem?-set p k v i)

hang-IsForest :
    (p : List ℕ) (top d : ℕ → ℕ) (bound k : ℕ)
    → IsForest p top d bound
    → parent_of p k ≢ top k
    → IsForest (set_elem p k (top k)) top d bound
hang-IsForest p top d bound k f far =
    let set = λ (i : ℕ). parent_of-set p k (top k) i in
    let idle = f.rests (top k) (f.ends k) in
    record {
      climbs = λ i. ground (arith, set i, f.climbs i, f.climbs k, f.rests k, far, idle);
      same = λ i. ground (arith, set i, f.same i, idle);
      rests = λ i h. ground (arith, set i, f.rests i, h, f.rests k, f.ends k, far);
      ends = λ i. ground (arith, set (top i), f.ends i, f.rests k, far);
      bounded = f.bounded;
    }

pub compress-IsForest :
    (n : ℕ) (p : List ℕ) (top d : ℕ → ℕ) (bound cur : ℕ)
    → IsForest p top d bound
    → IsForest (compress n p (top cur) cur) top d bound
unfolding compress
compress-IsForest zero p top d bound cur f = f
compress-IsForest (suc n) p top d bound cur f =
    elim (Bool-cases (eqb (parent_of p cur) (top cur))) [
      | inl e ↦ rw e f
      | inr e ↦ rw e (
          subst
            (λ t. IsForest (compress n (set_elem p cur (top cur)) t (parent_of p cur)) top d bound)
            (f.same cur)
            (compress-IsForest n (set_elem p cur (top cur)) top d bound (parent_of p cur)
              (hang-IsForest p top d bound cur f (λ h. ground (arith, h, e)))))
    ]

pub length-compress :
    (n : ℕ) (p : List ℕ) (root cur : ℕ) → length (compress n p root cur) ≡ length p
unfolding compress
length-compress zero p root cur = refl
length-compress (suc n) p root cur =
    ground
      (arith, length-compress n (set_elem p cur root) root (parent_of p cur), length-set p cur root)

-- The two tops that an edge makes one.
abbrev pub merge : ℕ × ℕ → (ℕ → ℕ) → ℕ → ℕ
merge (x, y) top i = if eqb (top i) (top x) then top y else top i

abbrev pub deeper : (ℕ → ℕ) → ℕ → (ℕ → ℕ) → ℕ → ℕ
deeper top a d i = if eqb (top i) a then suc (d i) else d i

pub link-IsForest :
    (p : List ℕ) (top d : ℕ → ℕ) (bound x y : ℕ)
    → IsForest p top d bound
    → top x < length p
    → top x ≢ top y
    → IsForest (set_elem p (top x) (top y)) (merge (x, y) top) (deeper top (top x) d) (suc bound)
link-IsForest p top d bound x y f inside apart =
    let set = λ (i : ℕ). parent_of-set_at p (top x) (top y) i inside in
    let rests_x = f.rests (top x) (f.ends x) in
    let rests_y = f.rests (top y) (f.ends y) in
    record {
      climbs = λ i. ground (arith, set i, f.climbs i, f.same i, rests_x, rests_y, apart);
      same = λ i. ground (arith, set i, f.same i, rests_x, rests_y, apart);
      rests = λ i h. ground (arith, set i, f.rests i, h, rests_x, rests_y, apart);
      ends = λ i. ground (arith, set (top i), set (top y), f.ends i, f.ends y, rests_y, apart);
      bounded = λ i. ground (arith, f.bounded i);
    }
