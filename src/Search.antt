-- ===== src/Search.antt =====
-- search.py: two rank lists fused in each project, and the answer over the search unit.
pub mod Passing
pub mod Answers
pub mod Fused
use rag_search_engine.Prelude.{
  ℕ, suc, ◌+◌, min, max, String, Bool, true, false, not, ◌&&◌, ◌||◌, Option, none, some, List, [],
  ◌∷◌, ◌++◌, map, all, filter, member, lookup, insert, sort, leb, ◌==◌, if◌then◌else◌, nat_discrete,
  string_discrete,
}
use rag_search_engine.Paths.{FilePath, path_discrete}
use rag_search_engine.Glob.{fnmatch}
use rag_search_engine.Whitespace.{is_space}
use rag_search_engine.Text.{Text}
use rag_search_engine.Entry.{ProjectEntry}
use rag_search_engine.FileSystem.{FileSystem}
use rag_search_engine.Registry.{Rows, get}
use rag_search_engine.Federation.{unit}
use rag_search_engine.Filters.Languages.{langs}
use rag_search_engine.Rank.{Hit, pool_cut, diversify}
use rag_search_engine.Store.{Store, FileRow, ChunkRow, Vector}

-- `SearchError`, and what it is about
pub data SearchError : Type 0 where
  bad_mode empty_query unknown_lang not_indexed : SearchError

pub data Answer : Type 0 where
  refused : SearchError → Answer
  results : List Hit → Answer

-- The arguments of a search; the empty text stands for no glob and no language.
pub record Query : Type 0 where
  pub query : Text
  pub k : ℕ
  pub mode : String
  pub rerank : Bool
  pub path_glob : String
  pub lang : String
  pub max_per_file : ℕ

-- Floating-point numbers, as far as they are used: 0.0, the sum, `1.0 / n`, and
-- `round(x, 6)` in millionths.
pub record Float : Type 1 where
  pub F : Type 0
  pub zero_f : F
  pub add : F → F → F
  pub reciprocal : ℕ → F
  pub millionths : F → ℕ

module _ (float : Float) where
  abbrev pub score_of : Option float.F → float.F
  score_of none = float.zero_f
  score_of (some x) = x

  -- `for position, chunk_id in enumerate(ranked)`
  abbrev pub add_ranked : ℕ → ℕ → List ℕ → List (ℕ × float.F) → List (ℕ × float.F)
  add_ranked k position [] fused = fused
  add_ranked k position (id ∷ ranked) fused = add_ranked k (position + 1) ranked (
      insert id (float.add (score_of (lookup id fused)) (float.reciprocal (k + position + 1)))
        fused)

  abbrev pub fuse : ℕ → List (List ℕ) → List (ℕ × float.F) → List (ℕ × float.F)
  fuse k [] fused = fused
  fuse k (ranked ∷ lists) fused = fuse k lists (add_ranked k 0 ranked fused)

  -- `k or config.RRF_K`
  unfoldable pub rrf : ℕ → ℕ → List (List ℕ) → List (ℕ × float.F)
  rrf rrf_k k lists = fuse (if k == 0 then rrf_k else k) lists []

-- The row of a chunk, joined with its file.
abbrev pub file_of : ℕ → List FileRow → Option FileRow
file_of id [] = none
file_of id (f ∷ fs) = if f.id == id then some f else file_of id fs

abbrev pub chunk_row : ℕ → List ChunkRow → Option ChunkRow
chunk_row id [] = none
chunk_row id (c ∷ cs) = if c.id == id then some c else chunk_row id cs

abbrev pub joined_row : List FileRow → Option ChunkRow → Option (ChunkRow × FileRow)
joined_row files none = none
joined_row files (some c) = elim (file_of c.file_id files) [ none ↦ none | some f ↦ some (c, f) ]

-- What the retrievers find in a store: `_lexical` and `_dense`, whose queries SQLite answers.
pub record Retrievers : Type 0 where
  pub lexical : Store → Text → ℕ → List ℕ
  pub dense : Store → Vector → ℕ → List ℕ
  -- The embedding of the query, and the cross-encoder's score of a hit, in millionths and counted
  -- from the lowest score that it gives.
  pub embed_query : Text → Vector
  pub rerank_scores : Text → Hit → ℕ

-- `config.RRF_K`, `CANDIDATES` and `MAX_K`; the text of `project / path`.
pub record Knobs : Type 0 where
  pub rrf_k : ℕ
  pub candidates : ℕ
  pub max_k : ℕ
  pub full_path : FilePath → String → String

abbrev pub modes : List String
modes = "hybrid" ∷ "lexical" ∷ "semantic" ∷ []

-- `_filter`
abbrev pub passes : Query → Hit → Bool
passes q h =
    (q.path_glob == "" || fnmatch h.rel_path q.path_glob) && (q.lang == "" || h.lang == q.lang)

abbrev pub is_searchable : Option ProjectEntry → Bool
is_searchable none = false
is_searchable (some e) = e.enabled && elim e.indexed_at [ none ↦ false | some t ↦ true ]

unfoldable pub known_lang : String → Bool
known_lang lang = member lang (map (λ l. l.1) langs)

module _ (float : Float) (by : Retrievers) (knobs : Knobs) where
  abbrev pub lanes : Store → Query → List (List ℕ)
  lanes s q =
      (if member q.mode ("hybrid" ∷ "lexical" ∷ [])
        then by.lexical s q.query knobs.candidates ∷ []
        else [])
      ++ (if member q.mode ("hybrid" ∷ "semantic" ∷ [])
          then by.dense s (by.embed_query q.query) knobs.candidates ∷ []
          else [])

  abbrev pub hit_of : FilePath → float.F → ChunkRow × FileRow → Hit
  hit_of project score (c, f) = record {
    project = project;
    path = knobs.full_path project f.info.path;
    rel_path = f.info.path;
    start_line = c.chunk.start_line;
    end_line = c.chunk.end_line;
    lang = f.info.lang;
    text = c.chunk.text;
    rrf = float.millionths score;
  }

  -- An id without a row is passed over.
  abbrev pub with_hit : FilePath → float.F → Option (ChunkRow × FileRow) → List Hit → List Hit
  with_hit project score none hits = hits
  with_hit project score (some row) hits = hit_of project score row ∷ hits

  abbrev pub hits_of : FilePath → Store → List (ℕ × float.F) → List Hit
  hits_of project s [] = []
  hits_of project s ((id, score) ∷ fused) =
      with_hit project score (joined_row s.files (chunk_row id s.chunks)) (hits_of project s fused)

  -- Nothing for a project without a store.
  abbrev pub project_candidates : FilePath → Option Store → Query → List Hit
  project_candidates project none q = []
  project_candidates project (some s) q = hits_of project s (rrf float knobs.rrf_k 0 (lanes s q))

  -- The pool, in the order of the projects.
  abbrev pub pool_of : (FilePath → Option Store) → List FilePath → Query → List Hit
  pool_of stores [] q = []
  pool_of stores (p ∷ projects) q = project_candidates p (stores p) q ++ pool_of stores projects q

  -- `pool.sort(key=..., reverse=True)`, which keeps the order of equals
  abbrev pub reranked : Query → List Hit → List Hit
  reranked q pool =
      if q.rerank
      then sort (λ a b. leb (by.rerank_scores q.query b) (by.rerank_scores q.query a)) pool
      else pool

  -- The hits of a search, and the error that refuses it first.
  unfoldable pub search : FileSystem → (FilePath → Option Store) → Rows → FilePath → Query → Answer
  search fs stores rows root q =
      let here = fs.resolve root in
      if not (member q.mode modes)
      then refused bad_mode
      else if all is_space q.query
      then refused empty_query
      else if not (q.lang == "") && not (known_lang q.lang)
      then refused unknown_lang
      else if not (is_searchable (get fs here rows))
      then refused not_indexed
      else (let pool = filter (passes q) (pool_of stores (unit fs here rows) q) in
          results (
            diversify (reranked q (pool_cut pool here knobs.candidates))
              (max 1 (min q.k knobs.max_k)) q.max_per_file here))
