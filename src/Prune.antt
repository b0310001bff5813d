-- ===== src/Prune.antt =====
-- prune.py: rows removed on a delete event, after a grace period, and never by a scan.
pub mod Grace
pub mod Keeps
pub mod Events
use rag_search_engine.Prelude.{
  ℕ, ◌+◌, Bool, true, false, not, ◌&&◌, ◌||◌, Option, none, some, List, [], ◌∷◌, ◌++◌, map, keys,
  lookup, insert, erase, member, filter, dedup, length, sort, leb, has, nat_discrete, ◌==◌,
  if◌then◌else◌,
}
use rag_search_engine.Paths.{FilePath, path_discrete, key_le}
use rag_search_engine.FileSystem.{FileSystem}
use rag_search_engine.Entry.{ProjectEntry, is_empty}
use rag_search_engine.Registry.{Rows, forget, get}
use rag_search_engine.Federation.{Disk, release_gone}

-- `path.parent`
abbrev pub parent : FilePath → FilePath
parent [] = []
parent (a ∷ []) = []
parent (a ∷ b ∷ p) = a ∷ parent (b ∷ p)

-- `path.parents`, the nearest first
abbrev pub parents : FilePath → List FilePath
parents [] = []
parents (a ∷ p) = map (λ q. a ∷ q) (parents p) ++ [] ∷ []

module _ (fs : FileSystem) where
  -- The path is gone and its parent is not.
  unfoldable pub looks_deleted : FilePath → Bool
  looks_deleted p =
      not (fs.exists p || fs.is_symlink p) && (not (parent p == p) && fs.is_dir (parent p))

  abbrev pub first_existing : List FilePath → Option FilePath
  first_existing [] = none
  first_existing (p ∷ ps) = if fs.exists p then some p else first_existing ps

pub data Verdict : Type 0 where
  present deleted unmounted unknown : Verdict

module _ (fs : FileSystem) where
  -- Device 0 is a row without a device, and a `stat` that raises.
  abbrev pub ancestor_verdict : ℕ → Option FilePath → Verdict
  ancestor_verdict dev none = unmounted
  ancestor_verdict dev (some a) =
      if dev == 0 || fs.device a == 0
      then unknown
      else if fs.device a == dev
      then deleted
      else unmounted

  unfoldable pub verdict : ProjectEntry → Verdict
  verdict e =
      if fs.exists e.path || fs.is_symlink e.path
      then present
      else ancestor_verdict e.dev (first_existing fs (parents e.path))

pub record Survey : Type 0 where
  pub read : ℕ
  pub deleted_keys : List FilePath
  pub unmounted_keys : List FilePath
  pub unknown_keys : List FilePath

abbrev pub is_deleted : Verdict → Bool
is_deleted deleted = true
is_deleted _ = false

abbrev pub is_unmounted : Verdict → Bool
is_unmounted unmounted = true
is_unmounted _ = false

abbrev pub is_unknown : Verdict → Bool
is_unknown unknown = true
is_unknown _ = false

unfoldable pub survey : FileSystem → Rows → Survey
survey fs rows = record {
  read = length rows;
  deleted_keys = sort key_le (keys (filter (λ r. is_deleted (verdict fs r.1)) rows));
  unmounted_keys = sort key_le (keys (filter (λ r. is_unmounted (verdict fs r.1)) rows));
  unknown_keys = sort key_le (keys (filter (λ r. is_unknown (verdict fs r.1)) rows));
}

-- The end of the grace period of each path.
abbrev pub Pending : Type 0
Pending = List (FilePath × ℕ)

-- Deletions waiting out their grace period: projects, and roots with a link that went.
pub record Pruner : Type 0 where
  pub grace : ℕ
  pub gone : Pending
  pub unlinked : Pending

unfoldable pub note_gone : ℕ → FilePath → Pruner → Pruner
note_gone now key p = record p { gone = insert key (now + p.grace) p.gone }

unfoldable pub note_unlinked : ℕ → FilePath → Pruner → Pruner
note_unlinked now root p = record p { unlinked = insert root (now + p.grace) p.unlinked }

pub depth : Pruner → ℕ
depth p = length p.gone + length p.unlinked

abbrev pub due_keys : ℕ → Pending → List FilePath
due_keys now pending = keys (filter (λ e. leb e.1 now) pending)

-- `for key in due: del pending[key]`
abbrev pub erase_each : List FilePath → Pending → Pending
erase_each [] pending = pending
erase_each (k ∷ ks) pending = erase_each ks (erase k pending)

-- What is due, sorted, and what stays.
unfoldable pub take_due : ℕ → Pruner → List FilePath × List FilePath × Pruner
take_due now p =
    let gone = due_keys now p.gone in
    let unlinked = due_keys now p.unlinked in
    (
      sort key_le gone,
      sort key_le unlinked,
      record p { gone = erase_each gone p.gone; unlinked = erase_each unlinked p.unlinked },
    )

-- What the file system answers for the store of a project: it was not written inside the idle
-- floor, and `quarantine.take` moves it.
pub record Stores : Type 0 where
  pub idle : FilePath → Bool
  pub moves : FilePath → Bool

unfoldable pub retire_stores : Stores → List FilePath → List FilePath
retire_stores stores ks = filter (λ k. stores.idle k && stores.moves k) ks

pub record Report : Type 0 where
  pub forgotten : List FilePath
  pub unclaimed : List FilePath
  pub quarantined : List FilePath

module _ (d : Disk) where
  abbrev pub with_released :
      List FilePath
      → Rows
      → Option (List FilePath × List FilePath)
      → Option (List FilePath × List FilePath)
  with_released members rows none = none
  with_released members rows (some (unclaimed, forgotten)) =
      some (members ++ unclaimed, filter (λ m. not (has (get d.fs m rows))) members ++ forgotten)

  -- The loop over the roots that lost a link: the members unclaimed and the rows gone, nothing
  -- where a config cannot be read. What was released before that stays released.
  abbrev pub release_links : List FilePath → Rows → Rows × Option (List FilePath × List FilePath)
  release_links [] rows = (rows, some ([], []))
  release_links (root ∷ roots) rows = elim (d.fs.is_dir root) [
    | false ↦ release_links roots rows
    | true ↦ elim (release_gone d root rows) [
      | none ↦ (rows, none)
      | some (rows', members) ↦
          let (rows'', rest) = release_links roots rows' in
          (rows'', with_released members rows' rest)
    ]
  ]

  abbrev pub dead_keys : List FilePath → Rows → List FilePath
  dead_keys gone rows = filter (λ k. member k (keys rows) && looks_deleted d.fs k) gone

  -- The rows without the dead ones, and what that removed.
  abbrev pub forget_dead : List FilePath → Rows → Rows × List FilePath
  forget_dead [] rows = (rows, [])
  forget_dead (k ∷ dead) rows =
      let (rows', dropped, released) = forget d.fs (k ∷ dead) rows in
      (rows', sort key_le (dedup (dropped ++ released)))

  abbrev pub report_of :
      List FilePath → List FilePath → Option (List FilePath × List FilePath) → Option Report
  report_of forgotten quarantined none = none
  report_of forgotten quarantined (some (unclaimed, more)) = some (record {
    forgotten = sort key_le (dedup (forgotten ++ more));
    unclaimed = sort key_le (dedup unclaimed);
    quarantined = sort key_le (dedup quarantined);
  })

  -- The report is missing where a config cannot be read, which raises.
  unfoldable pub run_due : Stores → ℕ → Pruner → Rows → Pruner × Rows × Option Report
  run_due stores now p rows =
      let (gone, unlinked, p') = take_due now p in
      let (rows', forgotten) = forget_dead (dead_keys gone rows) rows in
      let (rows'', rest) = release_links unlinked rows' in
      (p', rows'', report_of forgotten (retire_stores stores forgotten) rest)
