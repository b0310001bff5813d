-- ===== src/Examples/Jobs.antt =====
-- The theorems on the indexer's queue, applied.
use rag_search_engine.Prelude.{
  ◌≡◌, refl, true, ◌||◌, none, some, List, [], ◌∷◌, any, string_discrete,
}
use rag_search_engine.Paths.{path_discrete}
use rag_search_engine.Quiet.{Held}
use rag_search_engine.Indexer.{Indexer, indexed, root_missing, raised, submit}
use rag_search_engine.Indexer.Covered.{job_reads, awaited}
use rag_search_engine.Indexer.Run.{Event, submitted, round, started, stopped, run, submit_survives}
use rag_search_engine.Examples.{app, lib, files, rows}

-- A walk of the library is held until tick 8, and one of the whole application is queued.
abbrev held : Held
held = (lib, record { paths = some ("a.py" ∷ []); reason = "watch"; ready_at = 8 }) ∷ []

abbrev busy : Indexer
busy = record {
  queue = some (record { project = app; paths = none; reason = "sweep"; queued_at = 1 }) ∷ [];
  held = held;
  current = none;
  done = 0;
  failed = 0;
  rows = rows;
  alive = true;
}

-- The worker fails on one job, is stopped and started, and another producer is in between.
abbrev events : List Event
events =
    round 5 (λ j. raised "disk full")
    ∷ submitted 6 app none "manual" 0
    ∷ stopped
    ∷ round 7 (λ j. indexed)
    ∷ round 20 (λ j. root_missing)
    ∷ started
    ∷ round 30 (λ j. indexed)
    ∷ []

submit_survives_example :
    (awaited lib "b.py"
        (run files events (submit files 4 lib (some ("b.py" ∷ [])) "watch" 10 busy)).0
      || any
          (job_reads lib "b.py")
          (run files events (submit files 4 lib (some ("b.py" ∷ [])) "watch" 10 busy)).1)
    ≡ true
unfolding string_discrete
submit_survives_example =
    submit_survives files 4 lib (some ("b.py" ∷ [])) "watch" 10 "b.py" events busy refl
