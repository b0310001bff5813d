-- ===== src/Watch.antt =====
-- watch.py: which project a changed path belongs to, and the jobs that a batch of events comes to.
pub mod Owner
pub mod Dispatch
use rag_search_engine.Prelude.{
  ℕ, String, Bool, true, false, not, ◌&&◌, ◌||◌, Option, none, some, List, [], ◌∷◌, ◌++◌, length,
  drop, filter, member, sort, leb, ◌==◌, if◌then◌else◌, string_discrete,
}
use rag_search_engine.Paths.{FilePath, path_discrete, is_relative_to, len_str, rel_str, text_le}
use rag_search_engine.FileSystem.{FileSystem}
use rag_search_engine.Projcfg.{ProjectConfig}
use rag_search_engine.Text.{Library}
use rag_search_engine.Discover.{indexable}

-- `max(owning, key=lambda r: len(str(r)))`: of several longest the first.
abbrev pub longest : FilePath → List FilePath → FilePath
longest r [] = r
longest r (s ∷ l) = longest (if leb (len_str s) (len_str r) then r else s) l

abbrev pub longest_of : List FilePath → Option FilePath
longest_of [] = none
longest_of (r ∷ l) = some (longest r l)

unfoldable pub owner : FilePath → List FilePath → Option FilePath
owner path roots = longest_of (filter (is_relative_to path) roots)

-- The groups of a batch: each project with its set of relative paths.
abbrev pub Groups : Type 0
Groups = List (FilePath × List String)

-- `set.add`
abbrev pub with_path : String → List String → List String
with_path rel l = if member rel l then l else l ++ rel ∷ []

-- `grouped.setdefault(project, set()).add(rel)`
abbrev pub add_path : FilePath → String → Groups → Groups
add_path p rel [] = (p, rel ∷ []) ∷ []
add_path p rel ((q, l) ∷ gs) =
    if q == p then (q, with_path rel l) ∷ gs else (q, l) ∷ add_path p rel gs

-- `discover.git_ignored`; nothing where git cannot be asked.
unfoldable pub git_ignored :
    (FilePath → List String → Option (List String)) → FilePath → List String → List String
git_ignored check_ignore project [] = []
git_ignored check_ignore project (rel ∷ rels) = elim (check_ignore project (rel ∷ rels)) [
  | none ↦ []
  | some out ↦ out
]

module _ (lib : Library) (fs : FileSystem)
    (check_ignore : FilePath → List String → Option (List String))
    (configs : FilePath → ProjectConfig) (roots : List FilePath) where
  -- What an event asks for: the project and the path in it, if it is owned and passes the filter.
  abbrev pub routed_to : FilePath → Option FilePath → Option (FilePath × String)
  routed_to path none = none
  routed_to path (some project) =
      let rel = rel_str (drop (length project) path) in
      if indexable lib rel (configs project) then some (project, rel) else none

  abbrev pub route : FilePath → Option (FilePath × String)
  route raw = let path = fs.resolve raw in routed_to path (owner path roots)

  abbrev pub grouped_with : Option (FilePath × String) → Groups → Groups
  grouped_with none gs = gs
  grouped_with (some (project, rel)) gs = add_path project rel gs

  abbrev pub grouped : List FilePath → Groups → Groups
  grouped [] gs = gs
  grouped (raw ∷ batch) gs = grouped batch (grouped_with (route raw) gs)

  abbrev pub unignored : FilePath → List String → List String
  unignored project paths =
      let ignored = git_ignored check_ignore project (sort text_le paths) in
      if (configs project).respect_gitignore
      then filter (λ rel. not (member rel ignored)) paths
      else paths

  -- `if paths: index.submit(project, sorted(paths))`
  abbrev pub asked : FilePath → List String → Groups → Groups
  asked project [] jobs = jobs
  asked project (rel ∷ paths) jobs = (project, sort text_le (rel ∷ paths)) ∷ jobs

  abbrev pub submissions : Groups → Groups
  submissions [] = []
  submissions ((project, paths) ∷ gs) = asked project (unignored project paths) (submissions gs)

  -- The jobs that are submitted, in order.
  unfoldable pub dispatch : List FilePath → Groups
  dispatch batch = submissions (grouped batch [])
