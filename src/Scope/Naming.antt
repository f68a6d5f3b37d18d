-- ===== src/Scope/Naming.antt =====
-- How scopes are shown to the model and read back (`display`, `candidates_line` and `resolve` of
-- src/memory/scope.rs).
use Prim.Native.String
use linggen_memory.Prelude.{
  String, Bool, true, false, not, ◌&&◌, ◌||◌, Option, none, some, List, [], ◌∷◌, map, if◌then◌else◌,
}
use linggen_memory.Text.{trim, trim_slashes, is_empty, starts_with_code}
use linggen_memory.Text.Words.{join_with}
use linggen_memory.Paths
use linggen_memory.Paths.{FilePath, root_dir, parent, path_eq, strip_prefix, starts_with, join}
use linggen_memory.Scope.{Disk, to_str, expand, normalize}
use linggen_memory.Scope.Candidates.{candidates}

-- A text and the texts after it.
abbrev pub concat : List String → String
concat [] = ""
concat (s ∷ ss) = String.◌++◌ s (concat ss)

abbrev pub no_parts : FilePath → Bool
no_parts [] = true
no_parts (c ∷ p) = false

-- The place below the parent of the session's root.
abbrev pub below_base : FilePath → Option FilePath → Option String
below_base p none = none
below_base p (some base) = elim (strip_prefix p base) [
  | none ↦ none
  | some rel ↦
      if not (no_parts rel) && not (path_eq base (root_dir ∷ [])) then some (to_str rel) else none
]

abbrev pub below_home : FilePath → Option FilePath → String
below_home p none = to_str p
below_home p (some rel) = if no_parts rel then to_str p else concat ("~/" ∷ to_str rel ∷ [])

unfoldable pub display : FilePath → FilePath → FilePath → String
display p root home =
    let short : Option String = if starts_with p root then below_base p (parent root) else none in
    elim short [ some t ↦ t | none ↦ below_home p (strip_prefix p home) ]

module _ (home tmp : FilePath) (disk : Disk) where
  abbrev pub line_of : List FilePath → FilePath → FilePath → String
  line_of [] root cwd = ""
  line_of (p ∷ ps) root cwd = concat (
      "Memory scopes here: "
      ∷ join_with ", " (map (λ q. display q root home) (p ∷ ps))
      ∷ " (default: "
      ∷ display cwd root home
      ∷ "). On memory_add, pass `scope` when a row is about one of these directories rather than where you stand."
      ∷ [])

  unfoldable pub candidates_line : FilePath → FilePath → String
  unfolding candidates display
  candidates_line root cwd = line_of (candidates home tmp disk root cwd) root cwd

  -- Against the parent of the root first, then against the root.
  abbrev pub resolved : Option FilePath → FilePath → FilePath → FilePath
  resolved none from_root root = from_root
  resolved (some p) from_root root =
      if disk.is_dir p && (starts_with p root || starts_with root p)
      then p
      else if disk.is_dir from_root
      then from_root
      else p

  abbrev pub resolve_in : Option FilePath → String → Option FilePath
  resolve_in none s = none
  resolve_in (some root) s =
      let from_root = normalize (join root (Paths.parse s)) in
      let from_parent : Option FilePath = elim (parent root) [
        | none ↦ none
        | some b ↦ some (normalize (join b (Paths.parse s)))
      ] in
      some (resolved from_parent from_root root)

  unfoldable pub resolve : String → Option FilePath → Option FilePath
  resolve scope root =
      let s = trim_slashes (trim scope) in
      if is_empty s
      then none
      else if starts_with_code b'~' s || starts_with_code b'/' s
      then expand s home
      else resolve_in root s
