-- ===== src/Examples/Stores.antt =====
-- The store's, the chunker's and the watcher's theorems at concrete inputs.
use rag_search_engine.Prelude.{
  ℕ, suc, ◌<◌, String, ◌≡◌, refl, Bool, true, false, not, ◌&&◌, Option, some, List, [], ◌∷◌, ◌++◌,
  length, all, any, member, distinct, keys, max, leb, ◌==◌, if◌then◌else◌, nat_discrete,
  string_discrete, arith,
}
use rag_search_engine.Paths.{FilePath, path_discrete}
use rag_search_engine.FileSystem.{FileSystem}
use rag_search_engine.Glob.{codes}
use rag_search_engine.Projcfg.{defaults}
use rag_search_engine.Text.{Text, Library}
use rag_search_engine.Store.{Chunk, FileInfo, Vector, Store, empty_store, orphans, upsert_file}
use rag_search_engine.Store.Contract.{IsSound}
use rag_search_engine.Store.Written.{IsFresh}
use rag_search_engine.Store.History.{
  Reached, created, after, upsert, Reached-IsSound, orphans-Reached,
}
use rag_search_engine.Store.Bodies.{chunks_of, chunks_of-upsert_file}
use rag_search_engine.Chunk.{
  Settings, is_blank, windows, longest_line, placed, pieces_of, chunk_text, chunk_indices,
}
use rag_search_engine.Chunk.Windows.{
  joined, contiguous, within, lines, windows_lem, longest_line_lem,
}
use rag_search_engine.Chunk.Lines.{IsSplitter, ranges, ranges_of, chunk_text_lem}
use rag_search_engine.Watch.{git_ignored, route, dispatch}
use rag_search_engine.Watch.Dispatch.{IsPathwise, asks, is_for, dispatch_lem}

abbrev pub maximum : List ℕ → ℕ
maximum [] = 0
maximum (i ∷ ids) = max i (maximum ids)

-- What SQLite picks for an `INTEGER PRIMARY KEY`.
abbrev pub next_id : List ℕ → ℕ
next_id ids = suc (maximum ids)

above : (n : ℕ) (ids : List ℕ) → maximum ids < n → member n ids ≡ false
above n [] h = refl
above n (i ∷ ids) h = ground (arith, h, above n ids (omega (arith, h)))

pub next_id-IsFresh : IsFresh next_id
next_id-IsFresh ids = above (next_id ids) ids (omega arith)

abbrev pub as_it_is : Text → Text
as_it_is s = s

abbrev pub chunk_of : String → Chunk
chunk_of s = record {
  ord = 0;
  start_line = 1;
  end_line = 1;
  n_chars = length (codes s);
  sha256 = s;
  text = codes s;
  header = [];
}

abbrev pub info_ex : String → FileInfo
info_ex path = record { path = path; mtime = 7; size = 3; sha256 = "old"; lang = ""; n_lines = 1 }

abbrev pub numbered : ℕ → Vector
numbered i = i ∷ []

-- Two files, one of two chunks.
abbrev first_store : Store
first_store =
    (upsert_file next_id as_it_is (info_ex "a.py") (chunk_of "x" ∷ chunk_of "y" ∷ [])
      (some numbered) empty_store).0

abbrev pub second_store : Store
second_store =
    (upsert_file next_id as_it_is (info_ex "b.md") (chunk_of "z" ∷ []) (some numbered)
      first_store).0

second_store-Reached : Reached next_id as_it_is second_store
second_store-Reached =
    after
      (after created
        (upsert (info_ex "a.py") (chunk_of "x" ∷ chunk_of "y" ∷ []) numbered empty_store))
      (upsert (info_ex "b.md") (chunk_of "z" ∷ []) numbered first_store)

second_store-IsSound : IsSound second_store
second_store-IsSound = Reached-IsSound next_id as_it_is next_id-IsFresh second_store-Reached

orphans-Reached_example : orphans second_store ≡ (0, 0)
orphans-Reached_example =
    orphans-Reached next_id as_it_is next_id-IsFresh second_store second_store-Reached

-- The first file is written again; the second keeps its chunk.
chunks_of-upsert_file_example :
    chunks_of "b.md"
      (upsert_file next_id as_it_is
        (info_ex "a.py")
        (chunk_of "w" ∷ [])
        (some numbered)
        second_store).0
    ≡ (if (info_ex "a.py").path == "b.md" then chunk_of "w" ∷ [] else chunks_of "b.md" second_store)
chunks_of-upsert_file_example =
    chunks_of-upsert_file next_id as_it_is (info_ex "a.py") (chunk_of "w" ∷ []) (some numbered)
      "b.md" second_store next_id-IsFresh second_store-IsSound

windows_lem_example :
    (joined (windows (codes "abc,defgh ij") 5) ≡ codes "abc,defgh ij")
    × ((contiguous 0 (windows (codes "abc,defgh ij") 5) ≡ true)
        × (within 5 (windows (codes "abc,defgh ij") 5) ≡ true))
windows_lem_example = windows_lem (codes "abc,defgh ij") 5 (omega arith)

longest_line_lem_example :
    leb (longest_line (codes "ab" ++ (10 ∷ codes "cdef"))) 3
    ≡ all (λ l. leb (length l) 3) (lines (codes "ab" ++ (10 ∷ codes "cdef")))
longest_line_lem_example = longest_line_lem 3 (codes "ab" ++ (10 ∷ codes "cdef"))

abbrev pub library_ex : Library
library_ex = record {
  lower = as_it_is;
  digest = λ raw. if leb (length raw) 2 then "short" else "long";
  decode = as_it_is;
  encode = as_it_is;
}

-- A splitter that gives the piece back whole.
abbrev pub whole : Bool → ℕ → ℕ → Text → List (ℕ × Text)
whole markdown size overlap piece = (0, piece) ∷ []

abbrev pub settings_ex : Settings
settings_ex = record { size = 2000; overlap = 0; header = true; md_splitter = false }

whole-IsSplitter : IsSplitter (chunk_indices library_ex whole settings_ex (codes "a.py"))
whole-IsSplitter piece = ground arith

abbrev text_ex : Text
text_ex = codes "x = 1" ++ (10 ∷ codes "y = 2")

text_ex-written : is_blank text_ex ≡ false
unfolding rag_search_engine.Whitespace.is_space
text_ex-written = refl

chunk_text_lem_example :
    (cs : List Chunk) × ((chunk_text library_ex whole settings_ex text_ex (codes "a.py") ≡ some cs)
      × (ranges_of cs
          ≡ ranges text_ex (
              placed
                (chunk_indices library_ex whole settings_ex (codes "a.py"))
                (pieces_of text_ex))))
chunk_text_lem_example =
    chunk_text_lem library_ex whole settings_ex text_ex (codes "a.py") (omega arith) text_ex-written
      whole-IsSplitter

abbrev inner : FilePath
inner = "home" ∷ "app" ∷ "lib" ∷ []

abbrev outer : FilePath
outer = "home" ∷ "app" ∷ []

abbrev plain : FileSystem
plain = record {
  resolve = λ p. p;
  exists = λ p. true;
  is_symlink = λ p. false;
  is_dir = λ p. true;
  occupied = λ p. true;
  device = λ p. 1;
}

abbrev nothing_ignored : FilePath → List String → Option (List String)
nothing_ignored project rels = some []

nothing-IsPathwise : IsPathwise nothing_ignored (λ p rel. false)
unfolding git_ignored
nothing-IsPathwise p [] rel = refl
nothing-IsPathwise p (r ∷ rels) rel = refl

dispatch_lem_example :
    (distinct (
        keys (
          dispatch library_ex plain nothing_ignored
            (λ p. defaults)
            (outer ∷ inner ∷ [])
            (("home" ∷ "app" ∷ "lib" ∷ "x.py" ∷ []) ∷ [])))
      ≡ true)
    × (asks inner "x.py" (
          dispatch library_ex plain nothing_ignored
            (λ p. defaults)
            (outer ∷ inner ∷ [])
            (("home" ∷ "app" ∷ "lib" ∷ "x.py" ∷ []) ∷ []))
        ≡ (not (defaults.respect_gitignore && false)
            && any
                (λ raw.
                  is_for inner "x.py" (
                    route library_ex plain nothing_ignored
                      (λ p. defaults)
                      (outer ∷ inner ∷ [])
                      raw))
                (("home" ∷ "app" ∷ "lib" ∷ "x.py" ∷ []) ∷ [])))
dispatch_lem_example =
    dispatch_lem library_ex plain nothing_ignored (λ p. defaults) (outer ∷ inner ∷ [])
      (λ p rel. false) (("home" ∷ "app" ∷ "lib" ∷ "x.py" ∷ []) ∷ []) inner "x.py" nothing-IsPathwise
