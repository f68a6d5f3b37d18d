-- ===== src/Tests/Scopes.antt =====
-- The properties of scopes and of the replica's link at concrete paths.
use linggen_memory.Prelude.{
  ◌++◌, ◌⊎◌, ◌≡◌, refl, true, false, none, some, [], ◌∷◌, arith, All, is_some,
}
use linggen_memory.Paths
use linggen_memory.Paths.{Component, FilePath, root_dir, normal}
use linggen_memory.Scope
use linggen_memory.Scope.{
  Kin, same, child, far, kin_between, kin_weights, expand, normalize, common_path, ancestors,
  index_chain, is_scope_dir, skill_dir,
}
use linggen_memory.Scope.{Disk, is_valid_for, max_marked}
use linggen_memory.Scope.Candidates.{candidates, marked_subdirs}
use linggen_memory.Scope.Accepts
use linggen_memory.Prelude.{if◌then◌else◌}
use linggen_memory.Replica
use linggen_memory.Replica.{ReplicaFile, default, ask, settle, finish, is_text, role, upstream}
use linggen_memory.Replica.Link
use linggen_memory.Replica.Link.{LinkReach, fresh_file, and_then, LinkStep, asking, settled}

abbrev home : FilePath
home = root_dir ∷ normal "h" ∷ []

abbrev tmp : FilePath
tmp = root_dir ∷ normal "t" ∷ []

abbrev repo : FilePath
repo = root_dir ∷ normal "h" ∷ normal "w" ∷ normal "r" ∷ []

abbrev in_skill : FilePath
in_skill =
    root_dir ∷ normal "h" ∷ normal ".linggen" ∷ normal "skills" ∷ normal "s" ∷ normal "d" ∷ []

abbrev skill_home : FilePath
skill_home = root_dir ∷ normal "h" ∷ normal ".linggen" ∷ normal "skills" ∷ normal "s" ∷ []

-- Linked to one primary, then asked again: the first request is answered too late.
abbrev waiting : ReplicaFile
waiting = ask "m" "p:1" (some "r2") (ask "m" "p:1" (some "r1") default)

LinkReach-upstream_example :
    (is_some (upstream waiting) ≡ is_some waiting.token)
    × ((role waiting ≡ Replica.replica)
        ⊎ ((is_some waiting.token ≡ false) × (is_some waiting.request_id ≡ false)))
LinkReach-upstream_example = Link.LinkReach-upstream (
    and_then (and_then fresh_file (asking default "m" "p:1" (some "r1")))
      (asking (ask "m" "p:1" (some "r1") default) "m" "p:1" (some "r2")))

-- One marked directory in the repository.
abbrev disk : Disk
disk = record {
  is_dir = λ p. true;
  is_file = λ p. Paths.path_eq p (repo ++ normal "web" ∷ normal "package.json" ∷ []);
  exists = λ p. false;
  read_dir =
      λ p. if Paths.path_eq p repo then some (("web", true) ∷ ("target", true) ∷ []) else none;
}

finds_web : marked_subdirs disk repo ≡ (repo ++ normal "web" ∷ []) ∷ []
unfolding marked_subdirs Scope.Candidates.visit_level Scope.Candidates.visit_all
    Scope.Candidates.visit Scope.Candidates.sorted_children Scope.Candidates.has_marker
    linggen_memory.Text.strip_text
finds_web = refl

candidates-is_valid_for_example :
    All
      (λ p.
        (is_scope_dir home tmp p ≡ true)
        × ((disk.is_dir p ≡ false) ⊎ (is_valid_for home tmp disk p repo ≡ true)))
      (candidates home tmp disk repo (repo ++ normal "src" ∷ []))
candidates-is_valid_for_example =
    Accepts.candidates-is_valid_for home tmp disk repo (repo ++ normal "src" ∷ []) (omega arith)
      (tt, (tt, (tt, (tt, tt))))
