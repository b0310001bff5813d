-- ===== src/Indexer/Covered.antt =====
-- index.py and quiet.py: no file that somebody submits is lost before the worker has it.
use rag_search_engine.Prelude.{
  ℕ, ◌+◌, ◌≡◌, refl, String, Bool, true, false, ◌&&◌, ◌||◌, Option, none, some, List, [], ◌∷◌, ◌++◌,
  map, any, member, dedup, lookup, erase, ◌==◌, inl, inr, Option-cases, string_discrete, arith,
  any-append, member-append, member-dedup, member-sort, lookup-insert, lookup-erase,
}
use rag_search_engine.Paths.{FilePath, text_le, path_discrete}
use rag_search_engine.Quiet.{
  HeldJob, Held, Taken, path_set, widened, sorted_paths, held_with, hold, taken, take_each,
}
use rag_search_engine.Quiet.Due.{release-none, release-some}
use rag_search_engine.Indexer.{Job, Indexer, is_full_walk, joined, put_new, job_of}

-- This walk reads the file: it is of the whole project, or of this file among others.
abbrev pub reads : String → Option (List String) → Bool
reads file none = true
reads file (some files) = member file files

abbrev pub job_reads : FilePath → String → Option Job → Bool
job_reads p file none = false
job_reads p file (some job) = job.project == p && reads file job.paths

abbrev pub held_reads : String → Option HeldJob → Bool
held_reads file none = false
held_reads file (some h) = reads file h.paths

-- A held or a queued walk of this project reads the file.
abbrev pub awaited : FilePath → String → Indexer → Bool
awaited p file i = held_reads file (lookup p i.held) || any (job_reads p file) i.queue

reads-path_set :
    (file : String) (ps : Option (List String)) → reads file (path_set ps) ≡ reads file ps
reads-path_set file none = refl
reads-path_set file (some ps) = member-dedup file ps

pub reads-sorted_paths :
    (file : String) (ps : Option (List String)) → reads file (sorted_paths ps) ≡ reads file ps
reads-sorted_paths file none = refl
reads-sorted_paths file (some ps) = member-sort text_le file ps

reads-widened :
    (file : String) (ps live : Option (List String))
    → reads file (widened ps live) ≡ (reads file ps || reads file live)
reads-widened file none live = refl
reads-widened file (some ps) none = ground arith
reads-widened file (some ps) (some live) =
    ground (arith, member-dedup file (live ++ ps), member-append file live ps)

held_reads-held_with :
    (file : String) (h : Option HeldJob) (ps : Option (List String)) (reason : String) (at : ℕ)
    → reads file (held_with h ps reason at).paths ≡ (reads file ps || held_reads file h)
held_reads-held_with file none ps reason at = ground (arith, reads-path_set file ps)
held_reads-held_with file (some h) ps reason at = reads-widened file ps h.paths

pub held_reads-hold :
    (p : FilePath) (file : String) (now : ℕ) (project : FilePath) (ps : Option (List String))
    (reason : String) (delay : ℕ) (held : Held)
    → held_reads file (lookup p (hold now project ps reason delay held))
      ≡ ((project == p && reads file ps) || held_reads file (lookup p held))
unfolding hold
held_reads-hold p file now project ps reason delay held = ground (
  arith,
  lookup-insert project p (held_with (lookup project held) ps reason (now + delay)) held,
  held_reads-held_with file (lookup project held) ps reason (now + delay),
)

job_reads-taken :
    (p : FilePath) (file : String) (now : ℕ) (project : FilePath) (h : HeldJob)
    → job_reads p file (job_of now (taken project h)) ≡ (project == p && reads file h.paths)
job_reads-taken p file now project h = ground (arith, reads-sorted_paths file h.paths)

-- What is taken out of the hold, and what stays, read together what the hold read.
pub take_each-reads :
    (p : FilePath) (file : String) (now : ℕ) (ps : List FilePath) (held : Held)
    → held_reads file (lookup p held) ≡ true
    → (any (job_reads p file) (map (job_of now) (take_each ps held).0)
        || held_reads file (lookup p (take_each ps held).1))
      ≡ true
take_each-reads p file now [] held h = h
take_each-reads p file now (k ∷ ps) held h = elim (Option-cases (lookup k held)) [
  | inl e ↦
      let r = release-none k held e in rw (r, take_each) (take_each-reads p file now ps held h)
  | inr (x, e) ↦
      let r = release-some k held x e in
      rw (r, take_each)
        (ground (
          arith,
          e,
          h,
          job_reads-taken p file now k x,
          lookup-erase k p held,
          take_each-reads p file now ps (erase k held),
        ))
]

pub reads-joined :
    (file : String) (t : Option Taken) (ps : Option (List String))
    → reads file (joined t ps)
      ≡ (reads file ps || elim t [ none ↦ false | some x ↦ reads file x.paths ])
reads-joined file none ps = ground arith
reads-joined file (some t) none = refl
reads-joined file (some t) (some ps) = elim (Option-cases t.paths) [
  | inl e ↦ rw e (ground arith)
  | inr (held, e) ↦ rw e (
      ground (
        arith,
        member-sort text_le file (dedup (ps ++ held)),
        member-dedup file (ps ++ held),
        member-append file ps held,
      ))
]

any-full_walk :
    (p : FilePath) (file : String) (project : FilePath) (queue : List (Option Job))
    → any (is_full_walk project) queue ≡ true
    → project ≡ p
    → any (job_reads p file) queue ≡ true
any-full_walk p file project [] h e = cc
any-full_walk p file project (none ∷ queue) h e = any-full_walk p file project queue h e
any-full_walk p file project (some job ∷ queue) h e = elim (Option-cases job.paths) [
  | inl n ↦ ground (arith, n, e, h, any-full_walk p file project queue)
  | inr (ps, n) ↦ ground (arith, n, e, h, any-full_walk p file project queue)
]

pub put_new-reads :
    (p : FilePath) (file : String) (job : Job) (queue : List (Option Job))
    → (job_reads p file (some job) || any (job_reads p file) queue) ≡ true
    → any (job_reads p file) (put_new job queue) ≡ true
put_new-reads p file job queue h = elim (Option-cases job.paths) [
  | inl n ↦ rw n (
      ground (
        arith,
        n,
        h,
        any-full_walk p file job.project queue,
        any-append (job_reads p file) queue (some job ∷ []),
      ))
  | inr (ps, n) ↦ rw n (ground (arith, n, h, any-append (job_reads p file) queue (some job ∷ [])))
]
