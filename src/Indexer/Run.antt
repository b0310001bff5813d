-- ===== src/Indexer/Run.antt =====
-- index.py and quiet.py: any interleaving of producers, of the worker's rounds, and of the
-- worker's start and stop.
use rag_search_engine.Prelude.{
  ℕ, ◌≡◌, String, true, ◌||◌, Option, none, List, [], ◌∷◌, any, arith, any-append,
}
use rag_search_engine.Paths.{FilePath, path_discrete}
use rag_search_engine.FileSystem.{FileSystem}
use rag_search_engine.Indexer.{Job, Pass, Indexer, submit, drain_round, start_worker, stop_worker}
use rag_search_engine.Indexer.Covered.{reads, job_reads, awaited}
use rag_search_engine.Indexer.Awaited.{submit-awaited, drain_round-awaited}

-- One step, at a tick of the clock. A round has what `index_project` does with each job.
pub data Event : Type 0 where
  submitted : ℕ → FilePath → Option (List String) → String → ℕ → Event
  round : ℕ → (Job → Pass) → Event
  started stopped : Event

-- The state after the step, and the job that the worker ran in it.
unfoldable pub step : FileSystem → Event → Indexer → Indexer × Option Job
step fs (submitted now path ps reason delay) i = (submit fs now path ps reason delay i, none)
step fs (round now pass) i = drain_round fs now pass i
step fs started i = (start_worker i, none)
step fs stopped i = (stop_worker i, none)

-- The state after all steps, and the jobs that the worker ran, in order.
unfoldable pub run : FileSystem → List Event → Indexer → Indexer × List (Option Job)
unfolding step
run fs [] i = (i, [])
run fs (e ∷ es) i =
    let (i', job) = step fs e i in let (i'', jobs) = run fs es i' in (i'', job ∷ jobs)

step-awaited :
    (fs : FileSystem) (p : FilePath) (file : String) (e : Event) (i : Indexer)
    → awaited p file i ≡ true
    → (awaited p file (step fs e i).0 || job_reads p file (step fs e i).1) ≡ true
unfolding step start_worker stop_worker
step-awaited fs p file (submitted now path ps reason delay) i h =
    ground (arith, h, submit-awaited fs p file now path ps reason delay i (ground (arith, h)))
step-awaited fs p file (round now pass) i h = drain_round-awaited fs p file now pass i h
step-awaited fs p file started i h = ground (arith, h)
step-awaited fs p file stopped i h =
    ground (arith, h, any-append (job_reads p file) i.queue (none ∷ []))

-- Whatever steps follow, a walk that is waited for is waited for still or has been run.
pub run-awaited :
    (fs : FileSystem) (p : FilePath) (file : String) (es : List Event) (i : Indexer)
    → awaited p file i ≡ true
    → (awaited p file (run fs es i).0 || any (job_reads p file) (run fs es i).1) ≡ true
unfolding run
run-awaited fs p file [] i h = ground (arith, h)
run-awaited fs p file (e ∷ es) i h =
    ground (arith, h, step-awaited fs p file e i h, run-awaited fs p file es (step fs e i).0)

-- A file submitted for a project, alone or with the whole project, is never lost: whatever steps
-- follow, with any outcome of each pass, the worker has run a walk that reads it after the
-- submit, or such a walk still is held or in the queue.
pub submit_survives :
    (fs : FileSystem) (now : ℕ) (path : FilePath) (ps : Option (List String)) (reason : String)
    (delay : ℕ) (file : String) (es : List Event) (i : Indexer)
    → reads file ps ≡ true
    → (awaited (fs.resolve path) file (run fs es (submit fs now path ps reason delay i)).0
        || any
            (job_reads (fs.resolve path) file)
            (run fs es (submit fs now path ps reason delay i)).1)
      ≡ true
submit_survives fs now path ps reason delay file es i h =
    run-awaited fs (fs.resolve path) file es (submit fs now path ps reason delay i)
      (submit-awaited fs (fs.resolve path) file now path ps reason delay i (ground (arith, h)))
