-- ===== src/Lib.antt =====
-- A model of the code search engine in src/coderag, with the theorems that make its parts correct.
--
-- The program keeps a registry of projects (src/coderag/registry.py, rows of src/coderag/entry.py),
-- finds the members of a federation through symbolic links (src/coderag/federation.py), holds and
-- queues the walks of the projects for one worker (src/coderag/quiet.py, src/coderag/index.py), and
-- shapes the hits of a search (src/coderag/rank.py). The watcher turns a batch of events into jobs
-- (src/coderag/watch.py); the worker runs one pass for a job (src/coderag/index.py), which finds
-- the files that changed, cuts them into chunks and writes them to the project's store; a search
-- reads the stores of a whole unit (src/coderag/search.py).
--
-- Entry: `ProjectEntry`, `to_json`, `from_json`. Entry/RoundTrip reads back what was written.
-- Registry: one function for each operation of registry.py, on the rows as a list of keys and
--   entries in the order of the dict. Registry/Disk has the file and `_mutate`; Registry/Valid the
--   invariant; Registry/Reach every sequence of changes to the file; Registry/Lookups, Forget,
--   Enclosing and Devices what the operations do to one row.
-- Federation: `discover`, `register`, `excluded_members`, `sweep`, `release_gone`, `unregister`,
--   `members_of`, `expand`, `unit`. Federation/Walk is `links`, over a tree of directories and
--   links; Federation/Links says which links it finds; Claims, Register, Release, Sweep and Unit
--   what the operations do to the claims.
-- Quiet: `hold`, `due`, `release`, `flush`. Quiet/Due says which jobs are taken.
-- Indexer: `submit`, the rounds of `_drain`, `start_worker`, `stop_worker` and `status` of
--   index.py. Indexer/Covered, Awaited and Run follow a submitted file through any interleaving;
--   Indexer/Settle has the countdown and the walks that wait.
-- Rank: `pool_cut` and `diversify`. Rank/Cut counts the cut, Rank/Represented says whom it
--   reaches, Rank/Divide and Rank/Diversify are about `diversify`.
-- Prune: `looks_deleted`, `verdict`, `survey` and the class `Pruner` of src/coderag/prune.py, on
--   pending deletions and the registry's rows. Prune/Events has the tables and the delete events,
--   Prune/Grace the grace period and the verdict, Prune/Keeps what a run never takes.
-- Health: `check` of src/coderag/health.py and its state file; Health/Pages, over two checks.
-- Projcfg: `parse`, `load` and `effective` of src/coderag/projcfg.py; Projcfg/Strict and
--   Projcfg/Effective.
-- Reclaim: the listing of stores in src/coderag/disk.py and registry.py; Reclaim/Prunable.
-- Scope: the pin, `default_root` and `enforce` of src/coderag/scope.py; Scope/Pin.
-- Conns: the caches of open stores of src/coderag/conns.py; Conns/Reap.
-- Store: the tables of src/coderag/store.py as lists of rows, and every statement that changes
--   them. Store/Contract is the rowid contract between chunks, index and vectors; Store/Written
--   and Store/History keep it; Store/Keys, Digests and Bodies say what the files table and the
--   chunks of a path are after a write.
-- Filters: the tables and the tests of src/coderag/filters.py and ignores.py; Filters/Languages
--   has the suffixes, Filters/Refused what no config can let in.
-- Discover: `indexable`, `candidates`, `read`, `changed` and `git_ignored` of
--   src/coderag/discover.py; Discover/Candidates and Discover/Changed.
-- Chunk: `chunk_text` of src/coderag/chunk.py; Chunk/Windows is about the cut of a long line,
--   Chunk/Lines about the line ranges.
-- Pass: `_relang` and `_write_files` of src/coderag/indexwrite.py and the stamp of a store.
-- IndexProject: `_index_project` of index.py, which composes Discover, Pass and Store.
--   IndexProject/Stamps compares the stamp; Batches has the commits of the loop; Reconciles, Named
--   and Repeats say what a pass leaves; Contracts and Refuses what it keeps.
-- Watch: `_owner` and `_dispatch` of src/coderag/watch.py; Watch/Owner and Watch/Dispatch.
-- Search: `rrf`, `_project_candidates` and `search` of search.py, on the stores of a unit;
--   Search/Fused, Search/Passing (what the cut and the sorting keep) and Search/Answers.
-- Lexical: src/coderag/lexical.py. Lexical/Found is about `findall`, Lexical/Cuts,
--   Matches, Splits and Parts about the parts of an identifier, Lexical/Quoting about the expression for a query.
-- Prelude, Text, Paths, FileSystem, Glob and Whitespace: what the source uses of Python: lists, dicts
--   in insertion order, stable sorting, resolved paths, `fnmatch`, `split` and `join`.
-- Examples: a fleet of three projects, a store and a project's folder on which the theorems are
--   applied.
--
-- The file system is a parameter (FileSystem: `resolve`, `exists`, `is_dir` and the like), and so
-- are the directory trees and `projcfg.effective` (Federation: Disk), the clock (ticks, passed to
-- each operation that reads it), what `index_project` does with a job (Indexer: Pass), what
-- `read_text` and `yaml.safe_load` give (Projcfg: ConfigFile, Document), and which stores there are and whether they are idle
-- or can be moved (Reclaim: Tree, Prune: Stores). Where the source resolves a path again that it
-- has resolved already, the members of a federation are looked up under the first resolution; the
-- theorems that need it say that a path is its own resolution. A lock is the atomicity of one operation.
-- Parameters too are the row id that SQLite picks (`fresh`; what the theorems need of it is that
-- the table does not hold it), its answers to the two queries of a search, the tokens of the index,
-- the two splitters and their offsets, the embedder and the cross-encoder (Pass: Engine, Search:
-- Retrievers), `str.lower`, digests and encodings (Text: Library), the lists that git and the walk
-- of a directory give (Discover: Folder), and floating-point numbers (Search: Float). Texts
-- of hits are lists of code points and fused scores are whole numbers, in millionths.
--
-- Two loops are no recursion on their data. The `while` of `pool_cut` runs on fuel: the room that
-- is left. Every round takes a hit, so the fuel is enough. The `while` of `_windows` has the length
-- of the text as fuel; every round takes a character. `findall` has that fuel too, and
-- takes a character each round. The walk for links has the depth limit of the source as its measure.
--
-- Not modelled: backups of the registry and the fleet digest; the recursion of the listing into git
-- submodules and the walk of a directory; the quarantine; the thread pool; the
-- loop of the watcher and its rearm test; the watchdog and the progress of a pass; the embedding
-- models and the graphics driver; the server, the command line and the logs.
pub mod Prelude
pub mod Paths
pub mod FileSystem
pub mod Glob
pub mod Entry
pub mod Registry
pub mod Federation
pub mod Store
pub mod Text
pub mod Chunk
pub mod Discover
pub mod Watch
pub mod Search
pub mod Lexical
pub mod Pass
pub mod IndexProject
pub mod Filters
pub mod Whitespace
pub mod Rank
pub mod Quiet
pub mod Indexer
pub mod Prune
pub mod Health
pub mod Projcfg
pub mod Reclaim
pub mod Conns
pub mod Scope
pub mod Examples
