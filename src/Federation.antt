-- ===== src/Federation.antt =====
-- federation.py: members found through symbolic links, and the claims of a root on them.
pub mod Walk
pub mod Links
pub mod Claims
pub mod Release
pub mod Register
pub mod Sweep
pub mod Unit
use rag_search_engine.Prelude.{
  ℕ, String, Bool, true, false, not, ◌&&◌, ◌||◌, Option, none, some, List, [], ◌∷◌, ◌++◌, map, keys,
  lookup, member, filter, dedup, sort, ◌==◌, if◌then◌else◌,
}
use rag_search_engine.Paths.{FilePath, path_discrete, path_le}
use rag_search_engine.FileSystem.{FileSystem}
use rag_search_engine.Entry.{ProjectEntry}
use rag_search_engine.Registry.{Rows, claim, release, get, record_error, enabled_projects}
use rag_search_engine.Federation.Walk.{Entries, links, targets}

-- The trees on the disk, and `effective(root)`: the federation excludes of a root's config, or
-- the message of its `ConfigError`.
pub data Config : Type 0 where
  excludes : List String → Config
  broken : String → Config

pub record Disk : Type 0 where
  pub fs : FileSystem
  pub tree : FilePath → Entries
  pub config : FilePath → Config

-- `row is not None and root_key in row.roots`
abbrev pub holds : FilePath → Option ProjectEntry → Bool
holds root none = false
holds root (some e) = member root e.roots

module _ (fs : FileSystem) where
  abbrev pub claim_all : FilePath → List FilePath → Rows → Rows
  claim_all root [] rows = rows
  claim_all root (m ∷ members) rows = claim_all root members (claim fs m false (some root) rows).0

  abbrev pub claim_new : FilePath → List FilePath → Rows → Rows × List FilePath
  claim_new root [] rows = (rows, [])
  claim_new root (m ∷ members) rows =
      let old = holds root (get fs m rows) in
      let (rows', claimed) =
        claim_new root members (if old then rows else (claim fs m false (some root) rows).0) in
      (rows', if old then claimed else m ∷ claimed)

  abbrev pub release_denied : FilePath → List FilePath → Rows → Rows × List FilePath
  release_denied root [] rows = (rows, [])
  release_denied root (m ∷ denied) rows =
      let held = holds root (get fs m rows) in
      let (rows', released) =
        release_denied root denied
          (if held then (release fs m false (some root) rows).0 else rows) in
      (rows', if held then m ∷ released else released)

  -- The loop of `release_gone` over the snapshot.
  abbrev pub release_unreached : FilePath → List FilePath → Rows → Rows → Rows × List FilePath
  release_unreached root reachable [] rows = (rows, [])
  release_unreached root reachable ((k, e) ∷ snapshot) rows =
      let gone = member root e.roots && not (member k reachable) in
      let (rows', released) =
        release_unreached root reachable snapshot
          (if gone then (release fs k false (some root) rows).0 else rows) in
      (rows', if gone then k ∷ released else released)

module _ (d : Disk) where
  -- `discover` under the excludes that the config gave
  unfoldable pub discover : FilePath → List String → List FilePath
  discover root patterns = sort path_le (dedup (targets (links d.fs patterns root (d.tree root))))

  -- Members that a live link reaches and that the excludes deny.
  unfoldable pub excluded_members : FilePath → List String → List FilePath
  excluded_members root [] = []
  excluded_members root (p ∷ patterns) =
      let allowed = targets (links d.fs (p ∷ patterns) root (d.tree root)) in
      sort path_le
        (dedup (filter (λ m. not (member m allowed)) (targets (links d.fs [] root (d.tree root)))))

  -- The rows and the members; nothing is claimed where the config is broken.
  abbrev pub register_with : FilePath → Config → Rows → Option (Rows × List FilePath)
  register_with root (broken message) rows = none
  register_with root (excludes patterns) rows =
      let members = discover root patterns in
      some (claim_all d.fs root members (claim d.fs root true none rows).0, members)

  unfoldable pub register : FilePath → Rows → Option (Rows × List FilePath)
  register root rows = let root' = d.fs.resolve root in register_with root' (d.config root') rows

  -- One root of `sweep`: the rows, what it claimed and what it released.
  abbrev pub sweep_root : ProjectEntry → Config → ℕ → Rows → Rows × List FilePath × List FilePath
  sweep_root e (broken message) now rows = (record_error d.fs e.path message now rows, [], [])
  sweep_root e (excludes patterns) now rows =
      let base = d.fs.resolve e.path in
      let (rows', claimed) = claim_new d.fs e.path (discover base patterns) rows in
      let (rows'', released) = release_denied d.fs e.path (excluded_members base patterns) rows' in
      (rows'', claimed, released)

  abbrev pub sweep_roots : List ProjectEntry → ℕ → Rows → Rows × List FilePath × List FilePath
  sweep_roots [] now rows = (rows, [], [])
  sweep_roots (e ∷ l) now rows =
      let (rows', c, r) =
        if e.direct && d.fs.is_dir e.path
        then sweep_root e (d.config (d.fs.resolve e.path)) now rows
        else (rows, [], []) in
      let (rows'', c', r') = sweep_roots l now rows' in (rows'', c ++ c', r ++ r')

  unfoldable pub sweep : ℕ → Rows → Rows × List FilePath × List FilePath
  sweep now rows = sweep_roots (enabled_projects rows) now rows

  abbrev pub release_gone_with : FilePath → Config → Rows → Option (Rows × List FilePath)
  release_gone_with root (broken message) rows = none
  release_gone_with root (excludes patterns) rows =
      let (rows', released) = release_unreached d.fs root (discover root patterns) rows rows in
      some (rows', sort path_le released)

  unfoldable pub release_gone : FilePath → Rows → Option (Rows × List FilePath)
  release_gone root rows =
      let base = d.fs.resolve root in release_gone_with base (d.config base) rows

abbrev pub claimed_by : FilePath → Rows → List FilePath
claimed_by root [] = []
claimed_by root ((k, e) ∷ rows) =
    if member root e.roots && e.enabled then k ∷ claimed_by root rows else claimed_by root rows

-- `projects.extend(p for p in expand(...) if p not in projects)`: each test sees what the
-- earlier ones appended.
abbrev pub extend : List FilePath → List FilePath → List FilePath
extend projects [] = projects
extend projects (p ∷ more) =
    extend (if member p projects then projects else projects ++ p ∷ []) more

module _ (fs : FileSystem) where
  -- The loop of `unregister` over the snapshot.
  abbrev pub release_members : FilePath → Rows → Rows → Rows × List FilePath
  release_members root [] rows = (rows, [])
  release_members root ((k, e) ∷ snapshot) rows =
      let mine = member root e.roots in
      let (rows', removed) =
        release_members root snapshot
          (if mine then (release fs k false (some root) rows).0 else rows) in
      (rows', if mine then k ∷ removed else removed)

  unfoldable pub unregister : FilePath → Rows → Rows × List FilePath
  unregister root rows =
      let key = fs.resolve root in
      let (rows', removed) = release_members key rows rows in
      let (rows'', gone) = release fs key true none rows' in
      (rows'', if gone then removed ++ key ∷ [] else removed)

  unfoldable pub members_of : FilePath → Rows → List FilePath
  members_of root rows = sort path_le (claimed_by (fs.resolve root) rows)

  unfoldable pub expand : FilePath → Rows → List FilePath
  unfolding members_of
  expand root rows = let key = fs.resolve root in key ∷ members_of key rows

  -- `entry.roots if entry else []`
  abbrev pub roots_of : Option ProjectEntry → List FilePath
  roots_of none = []
  roots_of (some e) = e.roots

  -- One claiming root, where its row is there and enabled.
  abbrev pub widen_by : Option ProjectEntry → Rows → List FilePath → List FilePath
  widen_by none rows projects = projects
  widen_by (some e) rows projects =
      if e.enabled then extend projects (expand e.path rows) else projects

  abbrev pub widen : List FilePath → Rows → List FilePath → List FilePath
  widen [] rows projects = projects
  widen (key ∷ roots) rows projects = widen roots rows (widen_by (get fs key rows) rows projects)

  unfoldable pub unit : FilePath → Rows → List FilePath
  unit root rows =
      let key = fs.resolve root in widen (roots_of (get fs key rows)) rows (expand key rows)
