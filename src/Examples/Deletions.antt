-- ===== src/Examples/Deletions.antt =====
-- The theorems on pruning and on the health check, applied.
use rag_search_engine.Prelude.{
  ◌≡◌, ◌≢◌, refl, true, false, ◌&&◌, ◌||◌, none, some, [], ◌∷◌, lookup, member, string_discrete,
  ◌==◌,
}
use rag_search_engine.Paths.{FilePath, path_discrete}
use rag_search_engine.FileSystem.{FileSystem}
use rag_search_engine.Entry.{ProjectEntry, blank}
use rag_search_engine.Registry.{claim}
use rag_search_engine.Prune.{parents, verdict, looks_deleted, Pruner, run_due}
use rag_search_engine.Prune.Grace.{verdict_deleted_lem}
use rag_search_engine.Prune.Keeps.{is_direct, run_due_keeps_direct}
use rag_search_engine.Prune.Events.{Watched}
use rag_search_engine.Health.{Body, check, previous, failing_now, stalled, not_draining}
use rag_search_engine.Health.Pages.{paged, paged-check}
use rag_search_engine.Examples.{app, lib, disk, rows, rows-IsValid}

-- The library and the application were reported gone, and the first grace period is over.
abbrev waiting : Pruner
waiting = record { grace = 30; gone = (app, 9) ∷ (lib, 50) ∷ []; unlinked = (app, 9) ∷ [] }

-- All is back on the disk.
run_due_keeps_direct_example :
    is_direct
      (lookup app (run_due disk (record { idle = λ k. true; moves = λ k. true }) 20 waiting rows).1)
    ≡ true
unfolding path_discrete claim looks_deleted
run_due_keeps_direct_example =
    run_due_keeps_direct disk app (record { idle = λ k. true; moves = λ k. true }) 20 waiting rows
      rows-IsValid.one_row (λ x m. refl) refl refl

-- Nothing but the folder above the projects is there.
abbrev emptied : FileSystem
emptied = record {
  resolve = λ p. p;
  exists = λ p. p == "home" ∷ [];
  is_symlink = λ p. false;
  is_dir = λ p. p == "home" ∷ [];
  occupied = λ p. false;
  device = λ p. 7;
}

abbrev enrolled : ProjectEntry
enrolled = record (blank app) { dev = 7 }

verdict_deleted_lem_example :
    (emptied.exists app ≡ false)
    × ((a : FilePath) × (member a (parents app) ≡ true)
        × (emptied.exists a ≡ true)
        × (emptied.device a ≡ enrolled.dev)
        × (enrolled.dev ≢ 0))
unfolding path_discrete verdict native.Mathlib.Decide.ℕ_discrete
verdict_deleted_lem_example = verdict_deleted_lem emptied enrolled refl

abbrev watched : Watched
watched = record { keys_of = app ∷ lib ∷ []; owner_of = ("home" ∷ "app" ∷ "l" ∷ [], app) ∷ [] }

abbrev sick : Body
sick = record {
  watching = false;
  queue_depth = 60;
  failing = "/home/app" ∷ [];
  projects_failing = 1;
  scheduler_errors = "sweep" ∷ [];
}

paged-check_example :
    member "/home/app"
      (paged (check 50 (λ n. "1") (some sick) (check 50 (λ n. "1") (some sick) none).1).0)
    ≡ ((member "/home/app" (failing_now 50 (λ n. "1") sick (previous none))
          || (stalled 50
                (λ n. "1")
                sick
                (record {
                  failing = failing_now 50 (λ n. "1") sick (previous none);
                  queue_depth = some 60;
                })
              && member "/home/app" (not_draining ∷ [])))
        && member "/home/app" (
            failing_now 50
              (λ n. "1")
              sick
              (record {
                failing = failing_now 50 (λ n. "1") sick (previous none);
                queue_depth = some 60;
              })))
paged-check_example = paged-check 50 (λ n. "1") "/home/app" sick sick none
