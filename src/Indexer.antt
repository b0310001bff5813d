-- ===== src/Indexer.antt =====
-- index.py: the queue of jobs in front of the one worker, `submit`, and the worker's loop. What
-- `index_project` does with a job is a parameter; `Pass` stands for it.
pub mod Covered
pub mod Awaited
pub mod Run
pub mod Settle
use rag_search_engine.Prelude.{
  ℕ, ◌+◌, String, Bool, true, false, ◌&&◌, ◌||◌, Option, none, some, List, [], ◌∷◌, ◌++◌, map,
  length, any, dedup, sort, ltb, has, ◌==◌, if◌then◌else◌, string_discrete,
}
use rag_search_engine.Paths.{FilePath, text_le, str, path_discrete}
use rag_search_engine.FileSystem.{FileSystem}
use rag_search_engine.Entry.{ProjectEntry}
use rag_search_engine.Registry.{Rows, record_error, update}
use rag_search_engine.Quiet.{Held, Taken, hold, release, due, pending}

pub record Job : Type 0 where
  pub project : FilePath
  pub paths : Option (List String)
  pub reason : String
  pub queued_at : ℕ

-- How `index_project` ends: it returns, it raises, or its root is not a directory.
pub data Pass : Type 0 where
  indexed root_missing : Pass
  raised : String → Pass

-- `_queue` (no job is the signal to stop), `_held`, `State`, the registry's rows, and whether the
-- worker runs.
pub record Indexer : Type 0 where
  pub queue : List (Option Job)
  pub held : Held
  pub current : Option FilePath
  pub done : ℕ
  pub failed : ℕ
  pub rows : Rows
  pub alive : Bool

abbrev pub is_full_walk : FilePath → Option Job → Bool
is_full_walk project none = false
is_full_walk project (some job) = elim job.paths [ none ↦ job.project == project | some ps ↦ false ]

-- `paths` after the held job, if there is one, is taken along.
abbrev pub joined : Option Taken → Option (List String) → Option (List String)
joined none paths = paths
joined (some t) none = none
joined (some t) (some ps) = elim t.paths [
  | none ↦ none
  | some held ↦ some (sort text_le (dedup (ps ++ held)))
]

abbrev pub put : Job → List (Option Job) → List (Option Job)
put job queue = queue ++ some job ∷ []

-- The whole-project walk that already waits, or the job put behind the others.
abbrev pub put_new : Job → List (Option Job) → List (Option Job)
put_new job queue = elim job.paths [
  | none ↦ if any (is_full_walk job.project) queue then queue else put job queue
  | some ps ↦ put job queue
]

abbrev pub submit_now : ℕ → FilePath → Option (List String) → String → Indexer → Indexer
submit_now now project paths reason i =
    let (t, held) = release project i.held in
    let job : Job = record {
      project = project;
      paths = joined t paths;
      reason = reason;
      queued_at = now;
    } in
    record i { queue = put_new job i.queue; held = held }

unfoldable pub submit :
    FileSystem → ℕ → FilePath → Option (List String) → String → ℕ → Indexer → Indexer
submit fs now path paths reason delay i =
    let project = fs.resolve path in
    if ltb 0 delay
    then record i { held = hold now project paths reason delay i.held }
    else submit_now now project paths reason i

abbrev pub job_of : ℕ → Taken → Option Job
job_of now t =
    some (record { project = t.project; paths = t.paths; reason = t.reason; queued_at = now })

-- The jobs whose countdown has expired go behind the others.
unfoldable pub enqueue_due : ℕ → Indexer → Indexer
enqueue_due now i =
    let (ts, held) = due now i.held in
    record i { queue = i.queue ++ map (job_of now) ts; held = held }

-- The worker's body for one job, once `index_project` has ended.
abbrev pub finish : FileSystem → ℕ → Job → Pass → Indexer → Indexer
finish fs now job indexed i = record i { done = i.done + 1 }
finish fs now job root_missing i = record i {
  rows = update fs job.project (λ e. record e { last_error = none }) i.rows;
}
finish fs now job (raised e) i = record i {
  failed = i.failed + 1;
  rows = record_error fs job.project e now i.rows;
}

abbrev pub get_job :
    FileSystem → ℕ → (Job → Pass) → List (Option Job) → Indexer → Indexer × Option Job
get_job fs now pass [] i = (i, none)
get_job fs now pass (none ∷ queue) i = (record i { queue = queue; alive = false }, none)
get_job fs now pass (some job ∷ queue) i =
    (finish fs now job (pass job) (record i { queue = queue; current = none }), some job)

-- One round of `_drain`, and the job that it ran.
unfoldable pub drain_round : FileSystem → ℕ → (Job → Pass) → Indexer → Indexer × Option Job
drain_round fs now pass i =
    let i' = enqueue_due now i in if i.alive then get_job fs now pass i'.queue i' else (i, none)

unfoldable pub start_worker : Indexer → Indexer
start_worker i = record i { alive = true }

unfoldable pub stop_worker : Indexer → Indexer
stop_worker i = record i { queue = i.queue ++ none ∷ [] }

-- `State.snapshot`, without the progress of the running pass
pub record Snapshot : Type 0 where
  pub state : String
  pub queue_depth : ℕ
  pub held : ℕ
  pub current : Option FilePath
  pub completed : ℕ
  pub failed : ℕ

unfoldable pub status : Indexer → Snapshot
status i = record {
  state = if has i.current || ltb 0 (length i.queue) then "indexing" else "idle";
  queue_depth = length i.queue;
  held = pending i.held;
  current = i.current;
  completed = i.done;
  failed = i.failed;
}
