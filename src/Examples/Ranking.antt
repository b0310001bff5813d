-- ===== src/Examples/Ranking.antt =====
-- The theorems on the ranking of hits, applied.
use rag_search_engine.Prelude.{
  ℕ, ◌≤◌, ◌<◌, ◌≡◌, refl, arith, true, false, not, ◌&&◌, String, List, [], ◌∷◌, length, map, member,
  distinct, In, ◌==◌, string_discrete, pair_discrete,
}
use rag_search_engine.Paths.{FilePath, path_discrete}
use rag_search_engine.Whitespace.{is_space, text_discrete}
use rag_search_engine.Rank.{Hit, fingerprint, pool_cut, diversify, divide, own_fingerprints, fate}
use rag_search_engine.Rank.Represented.{from, pool_cut-represents}
use rag_search_engine.Rank.Diversify.{diversify_sound, diversify_complete}
use rag_search_engine.Examples.{app, lib, tool}

abbrev hit : FilePath → String → List ℕ → ℕ → Hit
hit project file text rrf = record {
  project = project;
  path = file;
  rel_path = file;
  start_line = 1;
  end_line = 9;
  lang = "python";
  text = text;
  rrf = rrf;
}

-- The library's best hit is a copy of the application's.
abbrev pool : List Hit
pool =
    hit lib "a.py" (97 ∷ 32 ∷ 98 ∷ []) 90
    ∷ hit app "a.py" (97 ∷ 10 ∷ 98 ∷ []) 80
    ∷ hit lib "b.py" (99 ∷ []) 70
    ∷ hit tool "c.py" (100 ∷ []) 10
    ∷ []

pool_cut-represents_example : from tool (pool_cut pool app 2) ≡ true
unfolding path_discrete
pool_cut-represents_example = pool_cut-represents pool app 2 tool refl

diversify_sound_example :
    (length (diversify pool 3 2 app) ≤ 3)
    × (distinct (map fingerprint (diversify pool 3 2 app)) ≡ true)
    × ((x : Hit)
        → In x (diversify pool 3 2 app)
        → In x pool
          × ((member (fingerprint x) (own_fingerprints app pool) && not (x.project == app))
              ≡ false))
diversify_sound_example = diversify_sound pool 3 2 app

three : length (diversify pool 5 2 app) ≡ 3
unfolding diversify fate fingerprint is_space path_discrete string_discrete pair_discrete
    text_discrete native.Mathlib.Decide.ℕ_discrete
three = refl

short : length (diversify pool 5 2 app) < 5
short = omega (arith, three)

diversify_complete_example :
    member (fingerprint (hit tool "c.py" (100 ∷ []) 10)) (map fingerprint (diversify pool 5 2 app))
    ≡ member (fingerprint (hit tool "c.py" (100 ∷ []) 10)) (map fingerprint pool)
diversify_complete_example =
    diversify_complete pool 5 2 app (fingerprint (hit tool "c.py" (100 ∷ []) 10)) short

kept : length (divide app 2 (own_fingerprints app pool) [] [] pool).0 ≡ 3
unfolding fate fingerprint is_space path_discrete string_discrete pair_discrete text_discrete
    native.Mathlib.Decide.ℕ_discrete
kept = refl

full_up : 2 ≤ length (divide app 2 (own_fingerprints app pool) [] [] pool).0
full_up = rw kept (omega arith)
