-- ===== src/Scope/Candidates.antt =====
-- The scopes that a session is offered (`candidates` of src/memory/scope.rs and what it lists).
use linggen_memory.Prelude.{
  String, ◌==◌, Bool, true, false, not, ◌&&◌, ◌||◌, Option, none, some, List, [], ◌∷◌, ◌++◌, length,
  if◌then◌else◌, is_some, any, leb, map,
}
use linggen_memory.Text.Order.{text_le}
use linggen_memory.Text.{starts_with_code, strip_text}
use linggen_memory.Paths.{FilePath, normal, push, join, path_eq, strip_prefix}
use linggen_memory.Scope
use linggen_memory.Scope.{Disk, markers, skip_dirs, max_marked, is_scope_dir}

-- `Path` order among the children of one directory is the order of their names.
abbrev pub place_name : String → List String → List String
place_name s [] = s ∷ []
place_name s (t ∷ ts) = let rest = place_name s ts in if text_le s t then s ∷ t ∷ ts else t ∷ rest

abbrev pub sort_names : List String → List String
sort_names [] = []
sort_names (s ∷ ss) = place_name s (sort_names ss)

abbrev pub is_skipped : String → Bool
is_skipped name = starts_with_code b'.' name || any (λ d. d == name) skip_dirs

-- The names of a directory's subdirectories.
abbrev pub child_names : List (String × Bool) → List String
child_names [] = []
child_names ((name, is_dir) ∷ es) =
    let rest = child_names es in if is_dir && not (is_skipped name) then name ∷ rest else rest

abbrev pub sorted_names : Option (List (String × Bool)) → List String
sorted_names none = []
sorted_names (some es) = sort_names (child_names es)

abbrev pub has_readme : Option (List (String × Bool)) → Bool
has_readme none = false
has_readme (some es) = any (λ e. is_some (strip_text "README" e.0)) es

-- The directories from `cur` down, one component at a time.
unfoldable pub downs : FilePath → FilePath → List FilePath
downs cur [] = []
downs cur (c ∷ rest) = let below = downs (push cur c) rest in push cur c ∷ below

-- The state of the loops of `marked_subdirs`; `full` is its early return.
pub record Walk : Type 0 where
  pub found : List FilePath
  pub next : List FilePath
  pub full : Bool

module _ (disk : Disk) where
  unfoldable pub sorted_children : FilePath → List FilePath
  sorted_children dir = map (λ name. join dir (normal name ∷ [])) (sorted_names (disk.read_dir dir))

  unfoldable pub has_marker : FilePath → Bool
  has_marker dir =
      any (λ m. disk.is_file (join dir (normal m ∷ []))) markers || has_readme (disk.read_dir dir)

  unfoldable pub visit : FilePath → Walk → Walk
  visit child w =
      let found = w.found ++ child ∷ [] in
      if w.full
      then w
      else if not (has_marker child)
      then record w { next = w.next ++ child ∷ [] }
      else if leb max_marked (length found)
      then record w { found = found; full = true }
      else record w { found = found; next = w.next ++ child ∷ [] }

  unfoldable pub visit_all : List FilePath → Walk → Walk
  visit_all [] w = w
  visit_all (c ∷ cs) w = visit_all cs (visit c w)

  unfoldable pub visit_level : List FilePath → Walk → Walk
  visit_level [] w = w
  visit_level (d ∷ ds) w = visit_level ds (visit_all (sorted_children d) w)

  unfoldable pub marked_subdirs : FilePath → List FilePath
  marked_subdirs root =
      let first = visit_level (root ∷ []) (record { found = []; next = []; full = false }) in
      (visit_level first.next (record first { next = [] })).found

module _ (home tmp : FilePath) where
  -- The closure `push`.
  unfoldable pub offer : FilePath → List FilePath → List FilePath
  offer p out =
      if is_scope_dir home tmp p && not (any (λ q. path_eq q p) out) then out ++ p ∷ [] else out

  unfoldable pub offer_all : List FilePath → List FilePath → List FilePath
  offer_all [] out = out
  offer_all (p ∷ ps) out = offer_all ps (offer p out)

abbrev pub downs_of : Option FilePath → FilePath → List FilePath
downs_of none root = []
downs_of (some rest) root = downs root rest

module _ (home tmp : FilePath) (disk : Disk) where
  unfoldable pub candidates : FilePath → FilePath → List FilePath
  unfolding offer_all marked_subdirs
  candidates root cwd = offer_all home tmp (Scope.ancestors home tmp root) (
      offer_all home tmp (marked_subdirs disk root)
        (offer_all home tmp (downs_of (strip_prefix cwd root) root) (offer home tmp root [])))
