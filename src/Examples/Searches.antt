-- ===== src/Examples/Searches.antt =====
-- The theorems on searches, applied.
use rag_search_engine.Prelude.{
  lookup, List, ℕ, ◌+◌, ◌/◌, false, filter, map, ltb, if◌then◌else◌, refl, ◌≤◌, ◌≡◌, true, not,
  ◌&&◌, ◌||◌, some, [], ◌∷◌, length, all, any, keys, max, min, member, distinct, nat_discrete,
  string_discrete, ◌==◌,
}
use rag_search_engine.Glob.{codes}
use rag_search_engine.Whitespace.{is_space, join, text_discrete}
use rag_search_engine.Entry.{blank}
use rag_search_engine.Registry.{Rows, get}
use rag_search_engine.Federation.{unit}
use rag_search_engine.Search.{
  Float, Retrievers, Knobs, Query, rrf, modes, is_searchable, known_lang, search,
}
use rag_search_engine.Search.Fused.{places, scored, rrf_lem}
use rag_search_engine.Search.Answers.{answers, hits_in, is_result, search_lem}
use rag_search_engine.Lexical.{is_alnum, is_term, lower, pieces, terms, split_identifier, fts_query}
use rag_search_engine.Lexical.Found.{joined, is_filled}
use rag_search_engine.Lexical.Cuts.{cut_up}
use rag_search_engine.Lexical.Parts.{split_identifier_lem}
use rag_search_engine.Lexical.Quoting.{outside, fts_query_lem}
use rag_search_engine.Examples.{app, files}
use rag_search_engine.Examples.Stores.{second_store}

-- Millionths for floating-point numbers.
abbrev millionths_ex : Float
millionths_ex = record {
  F = ℕ;
  zero_f = 0;
  add = λ x y. x + y;
  reciprocal = λ n. 1000000 / n;
  millionths = λ x. x;
}

abbrev retrievers_ex : Retrievers
retrievers_ex = record {
  lexical = λ s q n. 1 ∷ 2 ∷ [];
  dense = λ s v n. 2 ∷ 3 ∷ [];
  embed_query = λ q. length q ∷ [];
  rerank_scores = λ q h. h.start_line;
}

abbrev knobs_ex : Knobs
knobs_ex = record { rrf_k = 60; candidates = 200; max_k = 50; full_path = λ project rel. rel }

abbrev query_ex : Query
query_ex = record {
  query = codes "x y";
  k = 10;
  mode = "hybrid";
  rerank = true;
  path_glob = "";
  lang = "python";
  max_per_file = 2;
}

-- The application, with a store.
abbrev indexed : Rows
indexed = (app, record (blank app) { direct = true; indexed_at = some 5 }) ∷ []

abbrev lists : List (List ℕ)
lists = (1 ∷ 2 ∷ []) ∷ (2 ∷ 3 ∷ []) ∷ []

-- 1 / 61, and for the second chunk 1 / 62 + 1 / 61.
fused : rrf millionths_ex 60 0 lists ≡ (1, 16393) ∷ (2, 32522) ∷ (3, 16129) ∷ []
unfolding rrf native.Mathlib.Decide.ℕ_discrete
fused = refl

rrf_lem_example :
    (distinct (keys (rrf millionths_ex 60 0 lists)) ≡ true)
    × (member 2 (keys (rrf millionths_ex 60 0 lists)) ≡ any (member {A = ℕ} 2) lists)
    × (lookup 2 (rrf millionths_ex 60 0 lists)
        ≡ scored millionths_ex (if ◌==◌ {A = ℕ} 0 0 then 60 else 0) (places 2 lists))
rrf_lem_example = rrf_lem millionths_ex 60 0 lists 2

search_lem_example :
    (answers (
        search millionths_ex retrievers_ex knobs_ex files
          (λ p. some second_store)
          indexed
          app
          query_ex)
      ≡ (member query_ex.mode modes
          && (not (all is_space query_ex.query)
              && ((query_ex.lang == "" || known_lang query_ex.lang)
                  && is_searchable (get files (files.resolve app) indexed)))))
    × ((all
            (is_result millionths_ex retrievers_ex knobs_ex
              (λ p. some second_store)
              query_ex
              (unit files (files.resolve app) indexed))
            (hits_in (
              search millionths_ex retrievers_ex knobs_ex files
                (λ p. some second_store)
                indexed
                app
                query_ex))
          ≡ true)
        × (length (
              hits_in (
                search millionths_ex retrievers_ex knobs_ex files
                  (λ p. some second_store)
                  indexed
                  app
                  query_ex))
            ≤ max 1 (min query_ex.k knobs_ex.max_k)))
search_lem_example =
    search_lem millionths_ex retrievers_ex knobs_ex files (λ p. some second_store) indexed app
      query_ex

server : split_identifier (codes "HTTPServer_v2") ≡ codes "http" ∷ codes "server" ∷ codes "v2" ∷ []
unfolding split_identifier native.Mathlib.Decide.ℕ_discrete
server = refl

expression :
    fts_query (codes "getUser NOT *") ≡ codes "\"getuser\" OR \"get\" OR \"user\" OR \"not\""
unfolding fts_query split_identifier text_discrete native.Mathlib.Decide.ℕ_discrete
expression = refl

split_identifier_lem_example :
    (split_identifier (codes "HTTPServer_v2") ≡ (
      if ltb (length (cut_up (codes "HTTPServer_v2"))) 2
      then []
      else map (map lower) (cut_up (codes "HTTPServer_v2"))))
    × (pieces (codes "HTTPServer_v2") ≡ cut_up (codes "HTTPServer_v2"))
    × (joined (cut_up (codes "HTTPServer_v2")) ≡ filter is_alnum (codes "HTTPServer_v2"))
split_identifier_lem_example = split_identifier_lem (codes "HTTPServer_v2")

fts_query_lem_example :
    (outside false (fts_query (codes "getUser NOT *"))
      ≡ join (codes " OR ") (map (λ t. []) (terms (codes "getUser NOT *"))))
    × (is_filled (fts_query (codes "getUser NOT *")) ≡ any is_term (codes "getUser NOT *"))
fts_query_lem_example = fts_query_lem (codes "getUser NOT *")
