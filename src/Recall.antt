-- ===== src/Recall.antt =====
-- Recall over both tables (src/memory/recall.rs), from the candidates that each store scores
-- (`scored_candidates` of src/memory/store.rs).
use linggen_memory.Prelude.{
  ℕ, String, ◌==◌, Bool, not, ◌||◌, Option, none, some, List, [], ◌∷◌, ◌++◌, map, length, eqb, any,
  if◌then◌else◌,
}
use linggen_memory.Text.{trim}
use linggen_memory.Types.{Memory, Float}
use linggen_memory.Tables.{TableApi}
use linggen_memory.Paths.{FilePath}
use linggen_memory.Scope.{Kin, same, child, up_one, near, far, person, kin_of}
use linggen_memory.Store.{TableName, semantic, episodic, Node}
use linggen_memory.Store.Filters.{Filters, ScopeWeigher, for_search}
use linggen_memory.Store.Queries.{found}
use linggen_memory.Hybrid.{Floats, Unicode, Candidate, Hit, one, fuse}

-- `KIN_WEIGHTS`: 1.1, 1.0, 0.9, 0.85, 0.8 and 1.0.
abbrev pub weight_of : Kin → Float
weight_of same = 0x3F8C_CCCD
weight_of child = one
weight_of up_one = 0x3F66_6666
weight_of near = 0x3F59_999A
weight_of far = 0x3F4C_CCCD
weight_of person = one

abbrev pub weight : Option ScopeWeigher → FilePath → Option String → Float
weight none home scope = one
weight (some root) home scope = weight_of (kin_of root scope home)

abbrev pub products : (Float → Float → Float) → List Float → List Float → List Float
products mul (x ∷ xs) (y ∷ ys) = mul x y ∷ products mul xs ys
products mul xs ys = []

abbrev pub is_zero : Float → Bool
is_zero x = eqb x 0 || eqb x 0x8000_0000

-- `seen.insert` says whether the key is new.
unfoldable pub pool_from : List String → List Candidate → List Candidate
pool_from seen [] = []
pool_from seen (c ∷ cs) =
    let key = trim c.memory.content in
    let skipped = pool_from seen cs in
    let pushed = pool_from (key ∷ seen) cs in
    if any (λ s. s == key) seen then skipped else c ∷ pushed

unfoldable pub pool : List Candidate → List Candidate → List Candidate
unfolding pool_from
pool curated staged = pool_from [] (curated ++ staged)

module _ (fl : Floats) where
  unfoldable pub cosine_similarity : List Float → List Float → Float
  cosine_similarity a b =
      let dot = fl.sum (products fl.mul a b) in
      let na = fl.sqrt (fl.sum (products fl.mul a a)) in
      let nb = fl.sqrt (fl.sum (products fl.mul b b)) in
      if eqb (length a) 0 || not (eqb (length a) (length b))
      then 0
      else if is_zero na || is_zero nb
      then 0
      else fl.div dot (fl.mul na nb)

  abbrev pub cosine_of : List Float → Option (List Float) → Float
  cosine_of query none = 0
  cosine_of query (some v) = cosine_similarity query v

  module _ (home tmp : FilePath) (like : String → String → Bool) (db : TableApi) where
    -- The rows that a search weighs; `dim` is the length of the schema's vectors.
    unfoldable pub scored_candidates :
        ℕ → List Float → Filters → TableName → Node db → Option (List Candidate)
    scored_candidates dim query filters w n =
        let (f, weigher) = for_search filters home tmp in
        let candidate : Memory → Candidate = λ m. record {
          memory = m;
          cosine = cosine_of query m.vector;
          weight = weight weigher home m.scope;
        } in
        if eqb (length query) dim then some (map candidate (found db home tmp like f w n)) else none

    abbrev pub both : Option (List Candidate) → Option (List Candidate) → Option (List Candidate)
    both none e = none
    both (some s) none = none
    both (some s) (some e) = some (pool s e)

    -- `Recall::query`; a query vector of another length is an error.
    unfoldable pub query :
        Unicode → ℕ → List Float → String → Filters → ℕ → Option Float → Node db → Option (List Hit)
    query u dim query_vec query_text filters limit min_score n =
        elim (both (scored_candidates dim query_vec filters semantic n)
          (scored_candidates dim query_vec filters episodic n)) [
            | none ↦ none
            | some p ↦ some (fuse fl u p query_text limit min_score)
          ]
