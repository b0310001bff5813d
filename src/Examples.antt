-- ===== src/Examples.antt =====
-- A small fleet on which the theorems are applied: an application with a link to a library, and a
-- tool that stands alone.
mod Claims
mod Members
mod Jobs
mod Ranking
mod Deletions
mod Upkeep
mod Stores
mod Passes
mod Searches
use rag_search_engine.Prelude.{ℕ, String, ◌≡◌, refl, true, false, Bool, none, some, List, [], ◌∷◌}
use rag_search_engine.Paths.{FilePath, path_discrete}
use rag_search_engine.FileSystem.{FileSystem}
use rag_search_engine.Entry.{ProjectEntry, blank}
use rag_search_engine.Registry.{Rows, claim}
use rag_search_engine.Registry.Valid.{IsValid, claim-IsValid}
use rag_search_engine.Federation.{Disk, excludes}
use rag_search_engine.Federation.Walk.{link, folder, nil, entry, Entries}

abbrev pub app : FilePath
app = "home" ∷ "app" ∷ []

abbrev pub lib : FilePath
lib = "home" ∷ "lib" ∷ []

abbrev pub tool : FilePath
tool = "home" ∷ "tool" ∷ []

-- Everything is there, resolved, and on one device.
abbrev pub files : FileSystem
files = record {
  resolve = λ p. p;
  exists = λ p. true;
  is_symlink = λ p. false;
  is_dir = λ p. true;
  occupied = λ p. true;
  device = λ p. 7;
}

-- `deps/lib`, a link to the library
abbrev pub tree : Entries
tree = entry "src" (folder nil) (entry "deps" (folder (entry "lib" (link (some lib)) nil)) nil)

abbrev pub disk : Disk
disk = record { fs = files; tree = λ p. tree; config = λ p. excludes [] }

-- The application enrolled directly, the library by the application.
abbrev pub rows : Rows
rows = (claim files lib false (some app) (claim files app true none []).0).0

pub rows-IsValid : IsValid rows
unfolding path_discrete
rows-IsValid =
    claim-IsValid files lib false (some app) (claim files app true none []).0 refl
      (claim-IsValid files app true none [] refl (record { one_row = refl; row = λ k e h. cc }))
