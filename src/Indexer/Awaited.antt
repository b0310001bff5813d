-- ===== src/Indexer/Awaited.antt =====
-- index.py and quiet.py: what a call of `submit` and a round of the worker do to the walks that
-- are waited for.
use rag_search_engine.Prelude.{
  ℕ, ◌≡◌, refl, String, true, ◌&&◌, ◌||◌, Option, none, some, List, [], ◌∷◌, map, any, lookup,
  filter, keys, leb, ◌==◌, inl, inr, Option-cases, arith, any-append, lookup-erase,
}
use rag_search_engine.Paths.{FilePath, path_discrete}
use rag_search_engine.FileSystem.{FileSystem}
use rag_search_engine.Quiet.{taken, take_each, due}
use rag_search_engine.Quiet.Due.{release-none, release-some}
use rag_search_engine.Indexer.{
  Job, Pass, indexed, root_missing, raised, Indexer, joined, submit_now, submit, job_of,
  enqueue_due, finish, get_job, drain_round,
}
use rag_search_engine.Indexer.Covered.{
  reads, job_reads, held_reads, awaited, held_reads-hold, take_each-reads, reads-joined,
  reads-sorted_paths, put_new-reads,
}

submit_now-awaited :
    (p : FilePath) (file : String) (now : ℕ) (project : FilePath) (ps : Option (List String))
    (reason : String) (i : Indexer)
    → ((project == p && reads file ps) || awaited p file i) ≡ true
    → awaited p file (submit_now now project ps reason i) ≡ true
submit_now-awaited p file now project ps reason i h = elim (Option-cases (lookup project i.held)) [
  | inl e ↦
      let job : Job = record { project = project; paths = ps; reason = reason; queued_at = now } in
      let r = release-none project i.held e in
      rw r (ground (arith, h, put_new-reads p file job i.queue))
  | inr (x, e) ↦
      let t = taken project x in
      let job : Job = record {
        project = project;
        paths = joined (some t) ps;
        reason = reason;
        queued_at = now;
      } in
      let r = release-some project i.held x e in
      rw r (
        ground (
          arith,
          e,
          h,
          put_new-reads p file job i.queue,
          reads-joined file (some t) ps,
          reads-sorted_paths file x.paths,
          lookup-erase project p i.held,
        ))
]

-- After a submit, the walk asked for is waited for, and so is each that was before.
pub submit-awaited :
    (fs : FileSystem) (p : FilePath) (file : String) (now : ℕ) (path : FilePath)
    (ps : Option (List String)) (reason : String) (delay : ℕ) (i : Indexer)
    → ((fs.resolve path == p && reads file ps) || awaited p file i) ≡ true
    → awaited p file (submit fs now path ps reason delay i) ≡ true
unfolding submit
submit-awaited fs p file now path ps reason delay i h = ground (
  arith,
  h,
  held_reads-hold p file now (fs.resolve path) ps reason delay i.held,
  submit_now-awaited p file now (fs.resolve path) ps reason i,
)

enqueue_due-awaited :
    (p : FilePath) (file : String) (now : ℕ) (i : Indexer)
    → awaited p file i ≡ true
    → awaited p file (enqueue_due now i) ≡ true
unfolding enqueue_due due
enqueue_due-awaited p file now i h =
    let ready = keys (filter (λ e. leb e.1.ready_at now) i.held) in
    ground (
      arith,
      h,
      any-append (job_reads p file) i.queue (map (job_of now) (take_each ready i.held).0),
      take_each-reads p file now ready i.held,
    )

finish-awaited :
    (fs : FileSystem) (p : FilePath) (file : String) (now : ℕ) (job : Job) (r : Pass) (i : Indexer)
    → awaited p file (finish fs now job r i) ≡ awaited p file i
finish-awaited fs p file now job indexed i = refl
finish-awaited fs p file now job root_missing i = refl
finish-awaited fs p file now job (raised e) i = refl

get_job-awaited :
    (fs : FileSystem) (p : FilePath) (file : String) (now : ℕ) (pass : Job → Pass)
    (queue : List (Option Job)) (i : Indexer)
    → (held_reads file (lookup p i.held) || any (job_reads p file) queue) ≡ true
    → i.queue ≡ queue
    → (awaited p file (get_job fs now pass queue i).0
        || job_reads p file (get_job fs now pass queue i).1)
      ≡ true
get_job-awaited fs p file now pass [] i h e = rw e (ground (arith, h))
get_job-awaited fs p file now pass (none ∷ queue) i h e = ground (arith, h)
get_job-awaited fs p file now pass (some job ∷ queue) i h e = ground (
  arith,
  h,
  finish-awaited fs p file now job (pass job) (record i { queue = queue; current = none }),
)

-- A round of the worker runs the walk or leaves it waited for.
pub drain_round-awaited :
    (fs : FileSystem) (p : FilePath) (file : String) (now : ℕ) (pass : Job → Pass) (i : Indexer)
    → awaited p file i ≡ true
    → (awaited p file (drain_round fs now pass i).0
        || job_reads p file (drain_round fs now pass i).1)
      ≡ true
unfolding drain_round
drain_round-awaited fs p file now pass i h = ground (
  arith,
  h,
  enqueue_due-awaited p file now i h,
  get_job-awaited fs p file now pass (enqueue_due now i).queue (enqueue_due now i)
      (enqueue_due-awaited p file now i h) refl,
)
