-- ===== src/Prune/Events.antt =====
-- prune.py: the tables that a delete event is matched against, and what an event queues.
use rag_search_engine.Prelude.{
  ℕ, ◌+◌, suc, ◌≡◌, refl, Bool, true, false, ◌&&◌, Option, none, some, List, [], ◌∷◌, member, keys,
  lookup, insert, decide, if◌then◌else◌, arith, lookup-insert,
}
use rag_search_engine.Paths.{FilePath, path_discrete}
use rag_search_engine.FileSystem.{FileSystem}
use rag_search_engine.Registry.{Rows}
use rag_search_engine.Federation.{Disk, Config, excludes, broken}
use rag_search_engine.Federation.Walk.{Links, links}
use rag_search_engine.Prune.{looks_deleted, Pruner, note_gone, note_unlinked}

-- `_keys` and `_links`
pub record Watched : Type 0 where
  pub keys_of : List FilePath
  pub owner_of : List (FilePath × FilePath)

abbrev pub own_each : FilePath → Links → List (FilePath × FilePath) → List (FilePath × FilePath)
own_each key [] found = found
own_each key ((l, t) ∷ ls) found = own_each key ls (insert l key found)

module _ (d : Disk) where
  abbrev pub links_of : FilePath → Config → List (FilePath × FilePath) → List (FilePath × FilePath)
  links_of key (broken message) found = found
  links_of key (excludes patterns) found =
      own_each key (links d.fs patterns (d.fs.resolve key) (d.tree (d.fs.resolve key))) found

  abbrev pub link_table :
      List FilePath → Rows → List (FilePath × FilePath) → List (FilePath × FilePath)
  link_table roots [] found = found
  link_table roots ((key, e) ∷ rows) found = link_table roots rows (
      if e.direct && member key roots
      then links_of key (d.config (d.fs.resolve key)) found
      else found)

  unfoldable pub register_paths : List FilePath → Rows → Watched
  register_paths roots rows = record { keys_of = keys rows; owner_of = link_table roots rows [] }

module _ (fs : FileSystem) (w : Watched) (now : ℕ) where
  -- The owner of a link that is no link any more.
  abbrev pub lost_link : FilePath → Option FilePath → Option FilePath
  lost_link raw none = none
  lost_link raw (some owner) = if fs.is_symlink raw then none else some owner

  abbrev pub note_lost : Option FilePath → Pruner → Pruner × Bool
  note_lost none p = (p, false)
  note_lost (some owner) p = (note_unlinked now owner p, true)

  abbrev pub note_deletion : FilePath → Pruner → Pruner × Bool
  note_deletion raw p =
      if member raw w.keys_of && looks_deleted fs raw
      then (note_gone now raw p, true)
      else note_lost (lost_link raw (lookup raw w.owner_of)) p

  -- The pruner after the batch, and how many of its events were noted.
  unfoldable pub note_deletions : List FilePath → Pruner → Pruner × ℕ
  note_deletions [] p = (p, 0)
  note_deletions (raw ∷ batch) p =
      let (p', noted) = note_deletion raw p in
      let (p'', count) = note_deletions batch p' in (p'', if noted then suc count else count)

  note_lost-gone :
      (o : Option FilePath) (p : Pruner)
      → ((note_lost o p).0.gone ≡ p.gone) × ((note_lost o p).0.grace ≡ p.grace)
  unfolding note_unlinked
  note_lost-gone none p = (refl, refl)
  note_lost-gone (some owner) p = (refl, refl)

  abbrev pub is_noted : FilePath → Bool
  is_noted k = member k w.keys_of && looks_deleted fs k

  note_deletion-gone :
      (raw k : FilePath) (p : Pruner)
      → (lookup k (note_deletion raw p).0.gone ≡ (
          if is_noted raw && decide (path_discrete raw k)
          then some (now + p.grace)
          else lookup k p.gone))
        × ((note_deletion raw p).0.grace ≡ p.grace)
  unfolding note_gone
  note_deletion-gone raw k p = ground (
    arith,
    lookup-insert raw k (now + p.grace) p.gone,
    note_lost-gone (lost_link raw (lookup raw w.owner_of)) p,
  )

  -- A batch queues a project for removal exactly if the batch names it, it has a row, and its path
  -- is gone under a parent that stands; its grace period starts then. No other project's waiting
  -- time changes.
  pub note_deletions_lem :
      (batch : List FilePath) (k : FilePath) (p : Pruner)
      → lookup k (note_deletions batch p).0.gone
        ≡ (if member k batch && is_noted k then some (now + p.grace) else lookup k p.gone)
  unfolding note_deletions
  note_deletions_lem [] k p = refl
  note_deletions_lem (raw ∷ batch) k p =
      ground (arith, note_deletions_lem batch k (note_deletion raw p).0, note_deletion-gone raw k p)
