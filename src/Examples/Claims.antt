-- ===== src/Examples/Claims.antt =====
-- The theorems on the registry's rows, applied.
use rag_search_engine.Prelude.{◌≡◌, refl, true, false, none, some, List, [], ◌∷◌, lookup}
use rag_search_engine.Paths.{path_discrete}
use rag_search_engine.Entry.{ProjectEntry, blank, to_json, from_json}
use rag_search_engine.Entry.RoundTrip.{from_json-to_json}
use rag_search_engine.Registry.{Rows, forget}
use rag_search_engine.Registry.Valid.{IsValid}
use rag_search_engine.Registry.Disk.{RegistryFile, missing, read_unlocked}
use rag_search_engine.Registry.Reach.{
  Change, claim_it, release_it, forget_them, enable_it, fail_it, run, run-IsValid,
}
use rag_search_engine.Registry.Forget.{spared, forget_keeps_held}
use rag_search_engine.Examples.{app, lib, tool, files}

abbrev changes : List Change
changes =
    claim_it app true none
    ∷ claim_it lib false (some app)
    ∷ fail_it lib "disk full" 9
    ∷ enable_it lib false
    ∷ release_it lib false (some tool)
    ∷ forget_them (app ∷ [])
    ∷ []

run-IsValid_example :
    (f : RegistryFile) × (rows : Rows) × (run files changes missing ≡ some f)
    × (read_unlocked f ≡ some rows)
    × IsValid rows
unfolding path_discrete
run-IsValid_example = run-IsValid files changes (refl, (refl, (tt, (tt, (tt, (tt, tt))))))

-- The library claimed twice: the tool's going leaves it to the application.
abbrev shared : ProjectEntry
shared = record (blank lib) { roots = app ∷ tool ∷ [] }

abbrev shared_rows : Rows
shared_rows = (app, record (blank app) { direct = true }) ∷ (lib, shared) ∷ []

forget_keeps_held_example :
    lookup lib (forget files (tool ∷ []) shared_rows).0 ≡ some (spared (tool ∷ []) shared)
unfolding path_discrete
forget_keeps_held_example =
    forget_keeps_held files (tool ∷ []) shared_rows lib shared refl refl refl refl

from_json-to_json_example : from_json lib (to_json shared) ≡ shared
from_json-to_json_example = from_json-to_json shared
