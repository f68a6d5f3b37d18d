-- ===== src/Chains/Labels.antt =====
-- The union-find against labels merged one edge at a time (src/http/chains.rs).
use linggen_memory.Prelude.{
  ℕ, zero, suc, ◌+◌, ◌≤◌, ◌<◌, ◌≡◌, inl, inr, false, Bool-cases, List, [], ◌∷◌, length, eqb, arith,
  if◌then◌else◌, refl, ap, ◌∙◌, subst, All, some, Option-cases,
}
use linggen_memory.Chains.{
  find_top, compress, join, join_all, components_from, push_member, set_elem, range_from, parent_of,
  get_elem?,
}
use linggen_memory.Chains.Forest.{
  IsForest, find_top-IsForest, compress-IsForest, length-compress, link-IsForest, length-set,
  deeper, merge,
}

-- A forest of `n` rows under which `top` names the tops.
pub record IsLabelled (n : ℕ) (top : ℕ → ℕ) (bound : ℕ) (p : List ℕ) : Type 0 where
  pub depth : ℕ → ℕ
  pub forest : IsForest p top depth bound
  pub sized : length p ≡ n
  pub inside : (i : ℕ) → i < n → top i < n

pub find_root-IsLabelled :
    (n : ℕ) (top : ℕ → ℕ) (bound fuel : ℕ) (p : List ℕ) (i : ℕ)
    → bound ≤ fuel
    → IsLabelled n top bound p
    → (find_top fuel p i ≡ top i) × IsLabelled n top bound (compress fuel p (find_top fuel p i) i)
find_root-IsLabelled n top bound fuel p i enough h =
    let bounded = h.forest.bounded i in
    let e = find_top-IsForest p top h.depth bound h.forest fuel i (omega (arith, bounded)) in
    (
      e,
      rw e (record {
        depth = h.depth;
        forest = compress-IsForest fuel p top h.depth bound i h.forest;
        sized = rw (length-compress fuel p (top i) i) h.sized;
        inside = h.inside;
      }),
    )

abbrev pub merge_all : List (ℕ × ℕ) → (ℕ → ℕ) → ℕ → ℕ
merge_all [] top = top
merge_all (e ∷ es) top = merge_all es (merge e top)

merge_same : (top : ℕ → ℕ) (x y : ℕ) → top x ≡ top y → top ≡ merge (x, y) top
merge_same top x y h = λ t i. step i t
  where
    step : (i : ℕ) → top i ≡ merge (x, y) top i
    step i = ground (arith, h)

rise-IsLabelled :
    (n : ℕ) (top : ℕ → ℕ) (bound higher : ℕ) (p : List ℕ)
    → bound ≤ higher
    → IsLabelled n top bound p
    → IsLabelled n top higher p
rise-IsLabelled n top bound higher p le h = record {
  depth = h.depth;
  forest = record {
    climbs = h.forest.climbs;
    same = h.forest.same;
    rests = h.forest.rests;
    ends = h.forest.ends;
    bounded = λ i. omega (arith, h.forest.bounded i, le);
  };
  sized = h.sized;
  inside = h.inside;
}

link-IsLabelled :
    (n : ℕ) (top : ℕ → ℕ) (bound x y a b : ℕ) (p : List ℕ)
    → x < n
    → y < n
    → a ≡ top x
    → b ≡ top y
    → IsLabelled n top bound p
    → IsLabelled n (merge (x, y) top) (suc bound) (if eqb a b then p else set_elem p a b)
link-IsLabelled n top bound x y a b p in_x in_y is_a is_b h = elim (Bool-cases (eqb a b)) [
  | inl e ↦ rw e (
      subst (λ t. IsLabelled n t (suc bound) p) (merge_same top x y (ground (arith, is_a, is_b, e)))
        (rise-IsLabelled n top bound (suc bound) p (omega arith) h))
  | inr e ↦ rw e (rw is_a (rw is_b (linked e)))
]
  where
    linked :
        eqb a b ≡ false → IsLabelled n (merge (x, y) top) (suc bound) (set_elem p (top x) (top y))
    linked e0 = record {
      depth = deeper top (top x) h.depth;
      forest =
          link-IsForest p top h.depth bound x y h.forest (rw h.sized (h.inside x in_x))
            (λ same. ground (arith, same, is_a, is_b, e0));
      sized = rw (length-set p (top x) (top y)) h.sized;
      inside = λ i lt. ground (arith, h.inside i lt, h.inside y in_y);
    }

join-IsLabelled :
    (n : ℕ) (top : ℕ → ℕ) (bound fuel x y : ℕ) (p : List ℕ)
    → bound ≤ fuel
    → x < n
    → y < n
    → IsLabelled n top bound p
    → IsLabelled n (merge (x, y) top) (suc bound) (join fuel (x, y) p)
unfolding join
join-IsLabelled n top bound fuel x y p enough in_x in_y h =
    let (a, h1) = find_root-IsLabelled n top bound fuel p x enough h in
    let p1 = compress fuel p (find_top fuel p x) x in
    let (b, h2) = find_root-IsLabelled n top bound fuel p1 y enough h1 in
    link-IsLabelled n top bound x y (find_top fuel p x) (find_top fuel p1 y)
      (compress fuel p1 (find_top fuel p1 y) y) in_x in_y a b h2

abbrev pub IsInside : ℕ → ℕ × ℕ → Type 0
IsInside n e = (e.0 < n) × (e.1 < n)

join_all-IsLabelled :
    (n : ℕ) (es : List (ℕ × ℕ)) (top : ℕ → ℕ) (bound fuel : ℕ) (p : List ℕ)
    → bound + length es ≤ fuel
    → All (IsInside n) es
    → IsLabelled n top bound p
    → IsLabelled n (merge_all es top) fuel (join_all fuel es p)
unfolding join_all
join_all-IsLabelled n [] top bound fuel p enough ins h =
    rise-IsLabelled n top bound fuel p (omega (arith, enough)) h
join_all-IsLabelled n ((x, y) ∷ es) top bound fuel p enough ins h =
    join_all-IsLabelled n es (merge (x, y) top) (suc bound) fuel (join fuel (x, y) p)
      (omega (arith, enough)) ins.1
      (join-IsLabelled n top bound fuel x y p (omega (arith, enough)) ins.0.0 ins.0.1 h)

length-range_from : (start count : ℕ) → length (range_from start count) ≡ count
length-range_from start zero = refl
length-range_from start (suc count) = ap suc (length-range_from (suc start) count)

parent_of-range_from :
    (start count i k : ℕ) → get_elem? (range_from start count) i ≡ some k → k ≡ start + i
parent_of-range_from start zero i k h = ground (arith, h)
parent_of-range_from start (suc count) zero k h = ground (arith, h)
parent_of-range_from start (suc count) (suc i) k h =
    omega (arith, parent_of-range_from (suc start) count i k h)

itself : (n i : ℕ) → parent_of (range_from 0 n) i ≡ i
itself n i = elim (Option-cases (get_elem? (range_from 0 n) i)) [
  | inl e ↦ rw e refl
  | inr (k, e) ↦ rw e (omega (arith, parent_of-range_from 0 n i k e))
]

start-IsLabelled : (n : ℕ) → IsLabelled n (λ i. i) 0 (range_from 0 n)
start-IsLabelled n = record {
  depth = λ i. 0;
  forest = record {
    climbs = λ i. inl (itself n i);
    same = itself n;
    rests = λ i h. (refl, refl);
    ends = itself n;
    bounded = λ i. omega arith;
  };
  sized = length-range_from 0 n;
  inside = λ i h. h;
}

-- The forest after every edge: its tops are the merged labels, and the fuel is enough to find them.
pub joined-IsLabelled :
    (n : ℕ) (es : List (ℕ × ℕ))
    → All (IsInside n) es
    → IsLabelled n (merge_all es (λ i. i)) (length es) (join_all (length es) es (range_from 0 n))
joined-IsLabelled n es ins =
    join_all-IsLabelled n es (λ i. i) 0 (length es) (range_from 0 n) (omega arith) ins
      (start-IsLabelled n)

-- The components by the labels alone.
abbrev pub gather : (ℕ → ℕ) → List ℕ → List (ℕ × List ℕ) → List (ℕ × List ℕ)
gather top [] groups = groups
gather top (i ∷ rest) groups = gather top rest (push_member (top i) i groups)

pub components_from-gather :
    (n : ℕ) (top : ℕ → ℕ) (bound fuel : ℕ)
    → bound ≤ fuel
    → (is p : List ℕ) (groups : List (ℕ × List ℕ)) → IsLabelled n top bound p
    → components_from fuel is p groups ≡ gather top is groups
unfolding components_from
components_from-gather n top bound fuel enough [] p groups h = refl
components_from-gather n top bound fuel enough (i ∷ rest) p groups h =
    let (e, h1) = find_root-IsLabelled n top bound fuel p i enough h in
    components_from-gather n top bound fuel enough rest (compress fuel p (find_top fuel p i) i)
      (push_member (find_top fuel p i) i groups) h1
    ∙ ap (λ r. gather top rest (push_member r i groups)) e
