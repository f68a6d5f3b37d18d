-- ===== src/Scope.antt =====
-- Where a row belongs (src/memory/scope.rs). `home` is `$HOME`, `tmp` the system's directory for
-- temporary files, and `Disk` what the probes of the file system answer. A score weight is in
-- hundredths.
pub mod Expand
pub mod Chains
pub mod Candidates
pub mod Offers
pub mod Accepts
pub mod Naming
use Prim.Native.String
use Prim.Native.Nat.{Ordering}
use linggen_memory.Prelude.{
  ℕ, zero, suc, ◌+◌, ◌-◌, String, ◌==◌, Bool, true, false, not, ◌&&◌, ◌||◌, Option, none, some,
  List, [], ◌∷◌, ◌++◌, length, if◌then◌else◌, is_some, or_else, eqb, leb, any, keep, find,
  take_while, map, drop, Option-cases,
}
use linggen_memory.Text.{trim, trim_slashes, tilde_rest, is_empty, starts_with_code}
use linggen_memory.Paths
use linggen_memory.Paths.{
  Component, root_dir, cur_dir, parent_dir, normal, FilePath, comp_eq, comp_text, is_absolute,
  parent, pop, push, join, path_eq, strip_prefix, starts_with,
}

pub record Disk : Type 0 where
  pub is_dir : FilePath → Bool
  pub is_file : FilePath → Bool
  pub exists : FilePath → Bool
  -- The names in a directory, each with whether it is a directory; `none` is a read error.
  pub read_dir : FilePath → Option (List (String × Bool))

abbrev pub skills_rel : FilePath
skills_rel = normal ".linggen" ∷ normal "skills" ∷ []

abbrev pub markers : List String
markers = "SKILL.md" ∷ "CLAUDE.md" ∷ "Cargo.toml" ∷ "package.json" ∷ "pubspec.yaml" ∷ []

abbrev pub skip_dirs : List String
skip_dirs =
    "scripts" ∷ "test" ∷ "tests" ∷ "doc" ∷ "docs" ∷ "examples" ∷ "node_modules" ∷ "target" ∷ "build"
    ∷ "dist" ∷ "vendor" ∷ "Pods" ∷ "venv" ∷ "__pycache__" ∷ "assets" ∷ []

abbrev pub max_marked : ℕ
max_marked = 30

pub data RecallScope : Type 0 where
  owner : (root : String) (ancestors : List String) → RecallScope
  skill : (dir name : String) → RecallScope
  no_root : RecallScope

pub data Kin : Type 0 where
  same child up_one near far person : Kin

abbrev pub kin_weights : Kin → ℕ
kin_weights same = 110
kin_weights child = 100
kin_weights up_one = 90
kin_weights near = 85
kin_weights far = 80
kin_weights person = 100

abbrev pub depth : FilePath → ℕ
depth p = length p

-- `zip`, `take_while`, `count`.
unfoldable pub common_depth : FilePath → FilePath → ℕ
common_depth [] q = 0
common_depth (c ∷ p) [] = 0
common_depth (c ∷ p) (d ∷ q) = let rest = common_depth p q in if comp_eq c d then suc rest else 0

-- The steps up from the root to the common directory, and down from it to the row.
abbrev pub kin_of_steps : ℕ → ℕ → Kin
kin_of_steps up down =
    if eqb up 0 && eqb down 0
    then same
    else if eqb up 0 && eqb down 1
    then child
    else if eqb up 1 && eqb down 0
    then up_one
    else if eqb (up + down) 2
    then near
    else far

unfoldable pub kin_between : FilePath → FilePath → Kin
kin_between root row =
    kin_of_steps (depth root - common_depth root row) (depth row - common_depth root row)

-- One step of `normalize`.
abbrev pub fold_step : FilePath → Component → FilePath
fold_step out parent_dir = pop out
fold_step out cur_dir = out
fold_step out c = push out c

unfoldable pub normalize_from : FilePath → FilePath → FilePath
normalize_from out [] = out
normalize_from out (c ∷ p) = normalize_from (fold_step out c) p

unfoldable pub normalize : FilePath → FilePath
unfolding normalize_from pop
normalize p = normalize_from [] p

abbrev pub place_of : String → FilePath → FilePath
place_of s home =
    if s == "~"
    then home
    else elim (tilde_rest s) [ none ↦ Paths.parse s | some rest ↦ join home (Paths.parse rest) ]

unfoldable pub expand : String → FilePath → Option FilePath
unfolding normalize
expand raw home =
    let s = trim raw in
    let p = place_of s home in
    if is_empty s then none else if is_absolute p then some (normalize p) else none

-- `to_str`: the text of a path in its canonical form.
abbrev pub joined : FilePath → String
joined [] = ""
joined (c ∷ []) = comp_text c
joined (c ∷ d ∷ p) = String.◌++◌ (comp_text c) (String.◌++◌ "/" (joined (d ∷ p)))

unfoldable pub to_str : FilePath → String
to_str (root_dir ∷ p) = String.◌++◌ "/" (joined p)
to_str p = joined p

module _ (home : FilePath) where
  abbrev pub skills : FilePath
  skills = join home skills_rel

  -- Past the first place a component is a name or `..`, so joining its text adds it.
  abbrev pub first_of_rest : FilePath → Option (FilePath × String)
  first_of_rest [] = none
  first_of_rest (c ∷ rest) = some (skills ++ c ∷ [], comp_text c)

  unfoldable pub skill_dir : FilePath → Option (FilePath × String)
  skill_dir p = elim (strip_prefix p skills) [ none ↦ none | some rest ↦ first_of_rest rest ]

-- `Kin::of`: a row with no scope is about the person, and one whose root or scope does not parse is
-- far.
unfoldable pub kin_of : Option FilePath → Option String → FilePath → Kin
kin_of root none home = person
kin_of root (some scope) home = if is_empty (trim scope) then person else elim root [
  | none ↦ far
  | some r ↦ elim (expand scope home) [ none ↦ far | some row ↦ kin_between r row ]
]

module _ (home tmp : FilePath) where
  unfoldable pub is_temp : FilePath → Bool
  is_temp p =
      starts_with p tmp
      || starts_with p (root_dir ∷ normal "tmp" ∷ [])
      || starts_with p (root_dir ∷ normal "private" ∷ normal "tmp" ∷ [])
      || starts_with p (root_dir ∷ normal "var" ∷ normal "folders" ∷ [])
      || starts_with p (root_dir ∷ normal "private" ∷ normal "var" ∷ normal "folders" ∷ [])

  unfoldable pub is_scope_dir : FilePath → Bool
  is_scope_dir p =
      if is_some (skill_dir home p)
      then true
      else if path_eq p home || starts_with p (join home (normal ".linggen" ∷ [])) || is_temp p
      then false
      else is_some (parent p)

  -- `ancestors` of the source; the path itself is skipped.
  unfoldable pub ancestors : FilePath → List FilePath
  ancestors root =
      if is_some (skill_dir home root)
      then []
      else keep is_scope_dir (
          take_while (λ a. not (path_eq a home) && is_some (parent a))
            (drop 1 (Paths.ancestors root)))

  unfoldable pub recall_scope : String → RecallScope
  recall_scope path = elim (expand path home) [
    | none ↦ no_root
    | some p ↦ elim (skill_dir home p) [
      | some (dir, name) ↦ skill (to_str dir) name
      | none ↦ if is_scope_dir p then owner (to_str p) (map to_str (ancestors p)) else no_root
    ]
  ]

  unfoldable pub index_chain : FilePath → List FilePath
  index_chain cwd = elim (skill_dir home cwd) [
    | some (s, name) ↦ take_while (λ a. starts_with a s) (Paths.ancestors cwd)
    | none ↦ take_while (λ a. not (path_eq a home) && is_scope_dir a) (Paths.ancestors cwd)
  ]

module _ (home tmp : FilePath) (disk : Disk) where
  abbrev git_above : List FilePath → FilePath → FilePath
  git_above [] cwd = cwd
  git_above (a ∷ as') cwd =
      let rest = git_above as' cwd in
      if path_eq a home then cwd else if disk.exists (join a (normal ".git" ∷ [])) then a else rest

  unfoldable pub find_root : FilePath → FilePath
  find_root cwd = elim (skill_dir home cwd) [
    | some (dir, name) ↦ dir
    | none ↦ git_above (Paths.ancestors cwd) cwd
  ]

  -- The place of `dir` to the session's skill, or else to its root.
  abbrev pub is_within : Option (FilePath × String) → FilePath → FilePath → Bool
  is_within (some (s, name)) dir root = starts_with dir s
  is_within none dir root =
      starts_with dir root || any (λ a. path_eq a dir) (ancestors home tmp root)

  -- May a row written in a session rooted at `root` take the scope `dir`?
  unfoldable pub is_valid_for : FilePath → FilePath → Bool
  is_valid_for dir root =
      if not (is_scope_dir home tmp dir) || not (disk.is_dir dir)
      then false
      else is_within (skill_dir home root) dir root

-- The loop `while !p.starts_with(&acc)`: each round drops a component of `acc`.
unfoldable pub shrink : ℕ → FilePath → FilePath → Option FilePath
shrink zero p acc = if starts_with p acc then some acc else none
shrink (suc n) p acc =
    let rest : Option FilePath = elim (parent acc) [ none ↦ none | some q ↦ shrink n p q ] in
    if starts_with p acc then some acc else rest

unfoldable pub meet : FilePath → List (Option String) → Option FilePath
meet acc [] = some acc
meet acc (none ∷ ps) = none
meet acc (some s ∷ ps) = elim (shrink (length acc) (Paths.parse s) acc) [
  | none ↦ none
  | some acc' ↦ meet acc' ps
]

unfoldable pub common_path : List (Option String) → Option FilePath
unfolding meet
common_path [] = none
common_path (none ∷ ps) = none
common_path (some s ∷ ps) = meet (Paths.parse s) ps

unfoldable pub common : FilePath → FilePath → List (Option String) → Option String
common home tmp paths = elim (common_path paths) [
  | none ↦ none
  | some acc ↦ if is_scope_dir home tmp acc then some (to_str acc) else none
]
