-- ===== src/Chains.antt =====
-- The chains of rows that cite each other, found by union-find, and the rows that carry a marker
-- (src/http/chains.rs). A round of a loop costs one unit of fuel.
mod Forest
mod Labels
pub mod Linked
pub mod Marker
use linggen_memory.Prelude.{
  ℕ, zero, suc, Bool, false, not, ◌&&◌, ◌||◌, Option, none, some, List, [], ◌∷◌, ◌++◌, any, keep,
  take, drop, length, eqb, leb, ltb, sort_by, or_else, if◌then◌else◌,
}
use linggen_memory.Types.{Memory}
use linggen_memory.Clusters.{citation_edges, is_derived_note}

module _ {ℓ} {A : Type ℓ} where
  abbrev pub get_elem? : List A → ℕ → Option A
  get_elem? [] n = none
  get_elem? (x ∷ xs) zero = some x
  get_elem? (x ∷ xs) (suc n) = get_elem? xs n

  abbrev pub set_elem : List A → ℕ → A → List A
  set_elem [] n y = []
  set_elem (x ∷ xs) zero y = y ∷ xs
  set_elem (x ∷ xs) (suc n) y = x ∷ set_elem xs n y

-- `start..start + count`.
abbrev pub range_from : ℕ → ℕ → List ℕ
range_from start zero = []
range_from start (suc count) = start ∷ range_from (suc start) count

-- `parent[i]`. An index past the end, which the code never asks for, stands for itself.
abbrev pub parent_of : List ℕ → ℕ → ℕ
parent_of parent i = or_else (get_elem? parent i) i

unfoldable pub find_top : ℕ → List ℕ → ℕ → ℕ
find_top zero parent root = root
find_top (suc n) parent root =
    let up = find_top n parent (parent_of parent root) in
    if eqb (parent_of parent root) root then root else up

-- Each node on the way to the root is hung on the root itself.
unfoldable pub compress : ℕ → List ℕ → ℕ → ℕ → List ℕ
compress zero parent root cur = parent
compress (suc n) parent root cur =
    let rest = compress n (set_elem parent cur root) root (parent_of parent cur) in
    if eqb (parent_of parent cur) root then parent else rest

-- The root of a row, and the forest after its way is compressed.
abbrev pub find_root : ℕ → List ℕ → ℕ → ℕ × List ℕ
find_root n parent i = let root = find_top n parent i in (root, compress n parent root i)

unfoldable pub join : ℕ → ℕ × ℕ → List ℕ → List ℕ
unfolding find_top compress
join n (citer, cited) parent =
    let (a, parent1) = find_root n parent citer in
    let (b, parent2) = find_root n parent1 cited in
    if eqb a b then parent2 else set_elem parent2 a b

unfoldable pub join_all : ℕ → List (ℕ × ℕ) → List ℕ → List ℕ
unfolding join
join_all n [] parent = parent
join_all n (e ∷ es) parent = join_all n es (join n e parent)

-- `entry(root).or_default().push(i)`. The order of the map is never seen: the chains are sorted.
abbrev pub push_member : ℕ → ℕ → List (ℕ × List ℕ) → List (ℕ × List ℕ)
push_member root i [] = (root, i ∷ []) ∷ []
push_member root i ((r, ms) ∷ groups) =
    let rest = push_member root i groups in
    if eqb r root then (r, ms ++ i ∷ []) ∷ groups else (r, ms) ∷ rest

unfoldable pub components_from : ℕ → List ℕ → List ℕ → List (ℕ × List ℕ) → List (ℕ × List ℕ)
unfolding find_top compress
components_from n [] parent groups = groups
components_from n (i ∷ rest) parent groups =
    let (root, parent') = find_root n parent i in
    components_from n rest parent' (push_member root i groups)

-- The rows of each root, after the edges are joined: an edge makes a way longer by one at most.
unfoldable pub components : ℕ → List (ℕ × ℕ) → List (ℕ × List ℕ)
unfolding join_all components_from
components count edges =
    let fuel = length edges in
    components_from fuel (range_from 0 count) (join_all fuel edges (range_from 0 count)) []

abbrev pub members_of : List (ℕ × List ℕ) → List (List ℕ)
members_of [] = []
members_of ((r, ms) ∷ groups) = ms ∷ members_of groups

abbrev is_derived_at : List Memory → ℕ → Bool
is_derived_at rows i = elim (get_elem? rows i) [ none ↦ false | some m ↦ is_derived_note m ]

abbrev pub is_derived_only : List Memory → List ℕ → Bool
is_derived_only rows members = not (any (λ i. not (is_derived_at rows i)) members)

abbrev pub is_chain : List ℕ → Bool
is_chain members = leb 2 (length members)

abbrev pub is_wanted : List Memory → Bool → List ℕ → Bool
is_wanted rows derived_only members = not derived_only || is_derived_only rows members

abbrev first_member : List ℕ → ℕ
first_member [] = 0
first_member (i ∷ ms) = i

abbrev pub starts_before : List ℕ → List ℕ → Bool
starts_before a b = leb (first_member a) (first_member b)

-- Every chain, those with the oldest first row first.
unfoldable pub all_chains : List Memory → Bool → List (List ℕ)
unfolding components citation_edges
all_chains rows derived_only =
    let groups = members_of (components (length rows) (citation_edges rows)) in
    sort_by starts_before (keep (is_wanted rows derived_only) (keep is_chain groups))

abbrev pub holds : List ℕ → ℕ → Bool
holds members i = any (λ k. eqb k i) members

abbrev pub rows_at : List Memory → List ℕ → List Memory
rows_at rows [] = []
rows_at rows (i ∷ members) = elim (get_elem? rows i) [
  | none ↦ rows_at rows members
  | some m ↦ m ∷ rows_at rows members
]

-- A chain of the page; an edge is the places of its two rows.
pub record Chain : Type 0 where
  pub derived_only : Bool
  pub rows : List Memory
  pub edges : List (ℕ × ℕ)

abbrev chain_of : List Memory → List ℕ → Chain
chain_of rows members = record {
  derived_only = is_derived_only rows members;
  rows = rows_at rows members;
  edges = keep (λ (e : ℕ × ℕ). holds members e.0 && holds members e.1) (citation_edges rows);
}

abbrev chains_of : List Memory → List (List ℕ) → List Chain
chains_of rows [] = []
chains_of rows (members ∷ chains) = chain_of rows members ∷ chains_of rows chains

-- The total and the page.
unfoldable pub cited_chains : List Memory → (limit offset : ℕ) → Bool → ℕ × List Chain
unfolding all_chains
cited_chains rows limit offset derived_only =
    let chains = all_chains rows derived_only in
    (length chains, chains_of rows (take limit (drop offset chains)))
