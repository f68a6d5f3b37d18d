-- ===== src/Paths.antt =====
-- `std::path::Path` of the standard library on Unix: a path is the sequence of its components, by
-- which `==`, `starts_with`, `strip_prefix`, `parent` and `ancestors` are defined there.
pub mod Prefix
pub mod Ancestors
use Prim.Native.String
use linggen_memory.Prelude.{
  ℕ, zero, suc, String, ◌==◌, Bool, true, false, ◌&&◌, Option, none, some, List, [], ◌∷◌, ◌++◌,
  length, if◌then◌else◌, is_some, or_else,
}
use linggen_memory.Text.{split_slash, starts_with_code}

pub data Component : Type 0 where
  root_dir cur_dir parent_dir : Component
  normal : String → Component

abbrev pub FilePath : Type 0
FilePath = List Component

abbrev pub comp_eq : Component → Component → Bool
comp_eq root_dir root_dir = true
comp_eq cur_dir cur_dir = true
comp_eq parent_dir parent_dir = true
comp_eq (normal a) (normal b) = a == b
comp_eq _ _ = false

-- The text of one component.
abbrev pub comp_text : Component → String
comp_text root_dir = "/"
comp_text cur_dir = "."
comp_text parent_dir = ".."
comp_text (normal s) = s

-- Empty pieces and "." are no components.
abbrev pub component_of : String → FilePath → FilePath
component_of s rest =
    if s == ""
    then rest
    else if s == "."
    then rest
    else if s == ".."
    then parent_dir ∷ rest
    else normal s ∷ rest

abbrev pub components : List String → FilePath
components [] = []
components (s ∷ ss) = component_of s (components ss)

-- A leading "." of a relative path stays.
abbrev pub relative : List String → FilePath
relative [] = []
relative (s ∷ ss) = if s == "." then cur_dir ∷ components ss else component_of s (components ss)

unfoldable pub parse : String → FilePath
unfolding split_slash
parse s =
    if starts_with_code b'/' s
    then root_dir ∷ components (split_slash "" s)
    else relative (split_slash "" s)

abbrev pub is_absolute : FilePath → Bool
is_absolute (root_dir ∷ p) = true
is_absolute p = false

-- All but the last component.
abbrev pub init : FilePath → FilePath
init [] = []
init (c ∷ []) = []
init (c ∷ d ∷ p) = c ∷ init (d ∷ p)

-- The empty path and the root have no parent.
unfoldable pub parent : FilePath → Option FilePath
parent [] = none
parent (root_dir ∷ []) = none
parent p = some (init p)

unfoldable pub pop : FilePath → FilePath
unfolding parent
pop p = or_else (parent p) p

-- `push` with one component: an absolute one replaces the path.
abbrev pub push : FilePath → Component → FilePath
push p root_dir = root_dir ∷ []
push p c = p ++ c ∷ []

abbrev pub join : FilePath → FilePath → FilePath
join p (root_dir ∷ q) = root_dir ∷ q
join [] q = q
join (c ∷ p) (cur_dir ∷ q) = c ∷ (p ++ q)
join (c ∷ p) q = c ∷ (p ++ q)

abbrev pub path_eq : FilePath → FilePath → Bool
path_eq [] [] = true
path_eq (c ∷ p) (d ∷ q) = comp_eq c d && path_eq p q
path_eq _ _ = false

unfoldable pub strip_prefix : FilePath → FilePath → Option FilePath
strip_prefix p [] = some p
strip_prefix [] (d ∷ q) = none
strip_prefix (c ∷ p) (d ∷ q) = let rest = strip_prefix p q in if comp_eq c d then rest else none

unfoldable pub starts_with : FilePath → FilePath → Bool
unfolding strip_prefix
starts_with p base = is_some (strip_prefix p base)

-- The path and its parents, nearest first; there are no more of them than components.
unfoldable pub ancestors_from : ℕ → FilePath → List FilePath
ancestors_from zero p = p ∷ []
ancestors_from (suc n) p = p ∷ elim (parent p) [ none ↦ [] | some q ↦ ancestors_from n q ]

unfoldable pub ancestors : FilePath → List FilePath
unfolding ancestors_from parent
ancestors p = ancestors_from (length p) p
