-- ===== src/Indexer/Settle.antt =====
-- index.py and quiet.py: what a submit does to the countdown and to the walks that already wait.
use rag_search_engine.Prelude.{
  ℕ, suc, ◌+◌, ◌≤◌, max, ◌≡◌, refl, String, false, Option, none, some, List, [], ◌∷◌, ◌++◌, any,
  lookup, ltb, ◌==◌, if◌then◌else◌, inl, inr, Option-cases, arith, lookup-erase, lookup-insert,
}
use rag_search_engine.Paths.{FilePath, path_discrete}
use rag_search_engine.FileSystem.{FileSystem}
use rag_search_engine.Quiet.{HeldJob, Held, hold, release, held_with}
use rag_search_engine.Quiet.Due.{release-none, release-some}
use rag_search_engine.Indexer.{Job, Indexer, is_full_walk, joined, put_new, submit}

-- How many walks of the whole project wait in the queue.
abbrev pub full_walks : FilePath → List (Option Job) → ℕ
full_walks p [] = 0
full_walks p (j ∷ queue) = if is_full_walk p j then suc (full_walks p queue) else full_walks p queue

full_walks-append :
    (p : FilePath) (xs ys : List (Option Job))
    → full_walks p (xs ++ ys) ≡ full_walks p xs + full_walks p ys
full_walks-append p [] ys = omega arith
full_walks-append p (x ∷ xs) ys = ground (arith, full_walks-append p xs ys)

full_walks-none :
    (p : FilePath) (queue : List (Option Job))
    → any (is_full_walk p) queue ≡ false
    → full_walks p queue ≡ 0
full_walks-none p [] h = refl
full_walks-none p (j ∷ queue) h = ground (arith, h, full_walks-none p queue)

full_walks-put_new :
    (p : FilePath) (job : Job) (queue : List (Option Job))
    → full_walks p (put_new job queue) ≤ max 1 (full_walks p queue)
full_walks-put_new p job queue = elim (Option-cases job.paths) [
  | inl n ↦ rw n (
      ground
        (arith, n, full_walks-append p queue (some job ∷ []), full_walks-none job.project queue))
  | inr (ps, n) ↦ rw n (ground (arith, n, full_walks-append p queue (some job ∷ [])))
]

-- A submit never makes a second walk of a whole project wait in the queue: after it one waits, or
-- as many as before where that is more.
pub full_walks-submit :
    (fs : FileSystem) (p : FilePath) (now : ℕ) (path : FilePath) (ps : Option (List String))
    (reason : String) (delay : ℕ) (i : Indexer)
    → full_walks p (submit fs now path ps reason delay i).queue ≤ max 1 (full_walks p i.queue)
unfolding submit
full_walks-submit fs p now path ps reason delay i =
    let (t, held) = release (fs.resolve path) i.held in
    let job : Job = record {
      project = fs.resolve path;
      paths = joined t ps;
      reason = reason;
      queued_at = now;
    } in
    ground (arith, full_walks-put_new p job i.queue)

-- The end of a project's countdown.
abbrev pub countdown : Option HeldJob → Option ℕ
countdown none = none
countdown (some h) = some h.ready_at

lookup-release :
    (p project : FilePath) (held : Held)
    → lookup p (release project held).1 ≡ (if project == p then none else lookup p held)
lookup-release p project held = elim (Option-cases (lookup project held)) [
  | inl e ↦ let r = release-none project held e in rw r (ground (arith, e))
  | inr (x, e) ↦ let r = release-some project held x e in rw r (lookup-erase project p held)
]

countdown-held_with :
    (h : Option HeldJob) (ps : Option (List String)) (reason : String) (at : ℕ)
    → (held_with h ps reason at).ready_at ≡ at
countdown-held_with none ps reason at = refl
countdown-held_with (some h) ps reason at = refl

-- A delayed submit sets the project's countdown anew, whatever it was; one without a delay leaves
-- nothing held for the project. No other project's countdown changes.
pub countdown-submit :
    (fs : FileSystem) (p : FilePath) (now : ℕ) (path : FilePath) (ps : Option (List String))
    (reason : String) (delay : ℕ) (i : Indexer)
    → countdown (lookup p (submit fs now path ps reason delay i).held) ≡ (
        if fs.resolve path == p
        then if ltb 0 delay then some (now + delay) else none
        else countdown (lookup p i.held))
unfolding submit hold
countdown-submit fs p now path ps reason delay i =
    let project = fs.resolve path in
    let h = held_with (lookup project i.held) ps reason (now + delay) in
    ground (
      arith,
      lookup-release p project i.held,
      lookup-insert project p h i.held,
      countdown-held_with (lookup project i.held) ps reason (now + delay),
    )
