-- ===== src/Reclaim.antt =====
-- disk.py and the listing of stores in registry.py: which store directories may be pruned.
pub mod Prunable
use rag_search_engine.Prelude.{
  ℕ, ◌*◌, Bool, true, false, not, ◌&&◌, ◌||◌, Option, none, some, List, [], ◌∷◌, map, length,
  member, filter, sort, ltb, if◌then◌else◌,
}
use rag_search_engine.Paths.{FilePath, path_discrete, path_le}
use rag_search_engine.Entry.{ProjectEntry, is_empty}
use rag_search_engine.Registry.{Rows, entries}

-- The index directory: the store directories in it (`all_stores`), the directory that
-- `config.index_path` puts a project's store in, and the stores that are idle for long enough.
pub record Tree : Type 0 where
  pub all_stores : List FilePath
  pub store_of : FilePath → FilePath
  pub idle_for : FilePath → Bool

module _ (t : Tree) where
  abbrev pub claimed_stores : Rows → List FilePath
  claimed_stores rows = map (λ e. t.store_of e.path) (entries rows)

  abbrev pub unclaimed : List FilePath → List FilePath
  unclaimed claimed = sort path_le (filter (λ p. not (member p claimed)) t.all_stores)

  unfoldable pub unclaimed_stores : Rows → List FilePath
  unclaimed_stores rows = unclaimed (claimed_stores rows)

  -- Whether it raises.
  unfoldable pub refuse_on_shape : List FilePath → ℕ → Bool → Bool
  refuse_on_shape stale row_count force =
      not (is_empty stale)
      && (ltb row_count 1 || (not force && ltb (length t.all_stores) (length stale * 2)))

  -- What is idle and what is busy; nothing where the shape is refused.
  unfoldable pub prunable_stores : Bool → Rows → Option (List FilePath × List FilePath)
  prunable_stores force rows =
      let found = unclaimed (claimed_stores rows) in
      let idle = filter t.idle_for found in
      if refuse_on_shape found (length rows) force
      then none
      else some (idle, filter (λ p. not (member p idle)) found)
