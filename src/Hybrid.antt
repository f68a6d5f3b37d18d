-- ===== src/Hybrid.antt =====
-- Hybrid ranking (src/memory/hybrid.rs). A float is its bit pattern: comparisons are defined on it,
-- the arithmetic of `f32` and the tables of Unicode are those of the language and stand as
-- parameters. A token is the list of its characters' code points.
pub mod Top
use Prim.Native.Char.{code}
use Prim.Native.String
use linggen_memory.Prelude.{
  ℕ, zero, suc, ◌+◌, ◌-◌, ◌*◌, ◌/◌, ◌%◌, ◌^◌, String, Bool, true, false, not, ◌&&◌, ◌||◌, Option,
  none, some, List, [], ◌∷◌, ◌++◌, map, length, take, any, keep, eqb, ltb, leb, if◌then◌else◌,
  sort_by, replicate,
}
use linggen_memory.Types.{Memory, Float}
use linggen_memory.Text.{between}

pub record Floats : Type 0 where
  pub add : Float → Float → Float
  pub sub : Float → Float → Float
  pub mul : Float → Float → Float
  pub div : Float → Float → Float
  pub max : Float → Float → Float
  pub ln : Float → Float
  pub sqrt : Float → Float
  pub of_usize : ℕ → Float
  pub sum : List Float → Float

pub record Unicode : Type 0 where
  pub is_alphanumeric : ℕ → Bool
  pub to_lowercase : ℕ → List ℕ

-- `total_cmp` compares these: the patterns with the sign bit come below, in reverse.
abbrev pub total_key : Float → ℕ
total_key x = if ltb x (2 ^ 31) then x + 2 ^ 31 else 2 ^ 32 - 1 - x

abbrev pub is_nan : Float → Bool
is_nan x = ltb 0x7F80_0000 (x % 2 ^ 31)

-- `<=` of floats: no order with a NaN, and the two zeros are equal.
abbrev pub float_le : Float → Float → Bool
float_le x y =
    not (is_nan x)
    && not (is_nan y)
    && (leb (total_key x) (total_key y) || (eqb (x % 2 ^ 31) 0 && eqb (y % 2 ^ 31) 0))

abbrev pub keyword_boost : Float
keyword_boost = 0x3E99_999A

abbrev pub half : Float
half = 0x3F00_0000

abbrev pub one : Float
one = 0x3F80_0000

pub record Candidate : Type 0 where
  pub memory : Memory
  pub cosine : Float
  pub weight : Float

pub record Hit : Type 0 where
  pub memory : Memory
  pub cosine : Float
  pub hybrid : Float
  pub weight : Float
  pub score : Float

pub data Script : Type 0 where
  cjk word : Script

abbrev pub Token : Type 0
Token = List ℕ

abbrev pub token_eq : Token → Token → Bool
token_eq [] [] = true
token_eq (c ∷ s) (d ∷ t) = eqb c d && token_eq s t
token_eq _ _ = false

-- The order of texts is that of their code points.
abbrev pub token_le : Token → Token → Bool
token_le [] t = true
token_le (c ∷ s) [] = false
token_le (c ∷ s) (d ∷ t) = let rest = token_le s t in ltb c d || (eqb c d && rest)

abbrev pub is_cjk : ℕ → Bool
is_cjk c =
    between 0x3040 0x30FF c
    || between 0x3400 0x4DBF c
    || between 0x4E00 0x9FFF c
    || between 0xAC00 0xD7AF c
    || between 0xF900 0xFAFF c
    || between 0x20000 0x2FA1F c

abbrev pub same_script : Option Script → Option Script → Bool
same_script none none = true
same_script (some cjk) (some cjk) = true
same_script (some word) (some word) = true
same_script _ _ = false

-- `windows(2)`.
abbrev pub bigrams : List ℕ → List Token
bigrams [] = []
bigrams (c ∷ []) = []
bigrams (c ∷ d ∷ s) = (c ∷ d ∷ []) ∷ bigrams (d ∷ s)

abbrev pub whole_run : List ℕ → List Token
whole_run [] = []
whole_run (c ∷ s) = (c ∷ s) ∷ []

-- What a finished run adds.
abbrev pub flush : List ℕ → Option Script → List Token
flush run none = []
flush run (some cjk) = if ltb 1 (length run) then bigrams run else whole_run run
flush run (some word) = whole_run run

abbrev pub codes : String → List ℕ
codes String.[] = []
codes (String.◌∷◌ c s) = code c ∷ codes s

-- Two ASCII characters or fewer match by chance.
abbrev pub boostable : Token → Bool
boostable t = not (not (any (λ c. leb 128 c) t) && leb (length t) 2)

-- `dedup` of a sorted list.
unfoldable pub dedup_tokens : List Token → List Token
dedup_tokens [] = []
dedup_tokens (s ∷ []) = s ∷ []
dedup_tokens (s ∷ t ∷ ts) =
    let rest = dedup_tokens (t ∷ ts) in if token_eq s t then rest else s ∷ rest

abbrev pub contains : List Token → Token → Bool
contains doc t = any (λ s. token_eq s t) doc

module _ (u : Unicode) where
  abbrev pub script : ℕ → Option Script
  script c = if is_cjk c then some cjk else if u.is_alphanumeric c then some word else none

  abbrev pub is_some_script : Option Script → Bool
  is_some_script none = false
  is_some_script (some k) = true

  -- The loop over the characters, with the run that is open and its kind.
  unfoldable pub tokenize_from : List ℕ → Option Script → List ℕ → List Token
  tokenize_from run kind [] = []
  tokenize_from run kind (c ∷ cs) =
      let k = script c in
      let ends = not (same_script k kind) || not (is_some_script k) in
      let run' = if ends then [] else run in
      let longer = if is_some_script k then run' ++ u.to_lowercase c else run' in
      let done = if ends then flush run kind else [] in
      done ++ tokenize_from longer (if ends then k else kind) cs

  unfoldable pub tokenize : String → List Token
  unfolding tokenize_from
  tokenize text = tokenize_from [] none (codes text ++ 32 ∷ [])

module _ (fl : Floats) where
  abbrev pub idf : ℕ → ℕ → Float
  idf df n =
      let d = fl.of_usize df in
      fl.ln (fl.add one (fl.div (fl.add (fl.sub (fl.of_usize n) d) half) (fl.add d half)))

  abbrev pub df_of : List (List Token) → Token → ℕ
  df_of docs t = length (keep (λ d. contains d t) docs)

  -- The terms that occur in some document, each with its weight.
  unfoldable pub weighted : List (List Token) → List Token → List (Token × Float)
  weighted docs [] = []
  weighted docs (t ∷ ts) =
      let rest = weighted docs ts in
      if ltb 0 (df_of docs t) then (t, idf (df_of docs t) (length docs)) ∷ rest else rest

  abbrev pub mass : List (Token × Float) → Float
  mass ws = fl.sum (map (λ w. w.1) ws)

  unfoldable pub keyword_boosts : List Token → List (List Token) → List Float
  keyword_boosts query_terms docs =
      let ws = weighted docs (dedup_tokens (sort_by token_le (keep boostable query_terms))) in
      let total = mass ws in
      if float_le total 0
      then replicate (length docs) 0
      else map (λ doc. fl.mul keyword_boost (fl.div (mass (keep (λ w. contains doc w.0) ws)) total))
          docs

  abbrev pub hit_of : Candidate → Float → Hit
  hit_of c boost =
      let hybrid = fl.max (fl.add c.cosine boost) 0 in
      record {
        memory = c.memory;
        cosine = c.cosine;
        hybrid = hybrid;
        weight = c.weight;
        score = fl.mul hybrid c.weight;
      }

  -- `zip` with the boosts.
  abbrev pub hits_of : List Candidate → List Float → List Hit
  hits_of [] bs = []
  hits_of (c ∷ cs) [] = []
  hits_of (c ∷ cs) (b ∷ bs) = hit_of c b ∷ hits_of cs bs

  abbrev pub passes_floor : Option Float → Hit → Bool
  passes_floor none h = true
  passes_floor (some floor) h = float_le floor h.score

  -- By score, the highest first; among equals by cosine.
  abbrev pub ranks_before : Hit → Hit → Bool
  ranks_before a b =
      ltb (total_key b.score) (total_key a.score)
      || (eqb (total_key b.score) (total_key a.score)
          && leb (total_key b.cosine) (total_key a.cosine))

  module _ (u : Unicode) where
    -- The hits that the floor lets through, not yet ordered.
    unfoldable pub admitted : List Candidate → String → Option Float → List Hit
    admitted candidates query_text min_score =
        let boosts =
          keyword_boosts (tokenize u query_text)
            (map (λ c. tokenize u c.memory.content) candidates) in
        keep (passes_floor min_score) (hits_of candidates boosts)

    unfoldable pub fuse : List Candidate → String → ℕ → Option Float → List Hit
    fuse candidates query_text limit min_score =
        if eqb (length candidates) 0 || eqb limit 0
        then []
        else take limit (sort_by ranks_before (admitted candidates query_text min_score))
