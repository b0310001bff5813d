-- ===== src/Search/Answers.antt =====
-- search.py: when a search answers, and what its results are.
use rag_search_engine.Prelude.{
  ℕ, ◌≤◌, ◌≡◌, refl, ◌∙◌, min, max, Bool, true, false, not, ◌&&◌, ◌||◌, has, Option, none, some,
  List, [], ◌∷◌, length, all, filter, member, In, leb, ◌==◌, nat_discrete, string_discrete, arith,
  Bool-cases, inl, inr,
}
use rag_search_engine.Paths.{FilePath, path_discrete}
use rag_search_engine.FileSystem.{FileSystem}
use rag_search_engine.Whitespace.{is_space}
use rag_search_engine.Registry.{Rows, get}
use rag_search_engine.Federation.{unit}
use rag_search_engine.Rank.{Hit, pool_cut, diversify}
use rag_search_engine.Rank.Diversify.{diversify_sound}
use rag_search_engine.Store.{Store, FileRow, ChunkRow}
use rag_search_engine.Search.{
  Answer, refused, results, Query, Float, Retrievers, Knobs, rrf, modes, lanes, with_hit, hits_of,
  joined_row, chunk_row, project_candidates, pool_of, passes, reranked, is_searchable, known_lang,
  search,
}
use rag_search_engine.Search.Passing.{all-append, all-sort, all-pool_cut}

abbrev pub answers : Answer → Bool
answers (refused e) = false
answers (results hits) = true

abbrev pub hits_in : Answer → List Hit
hits_in (refused e) = []
hits_in (results hits) = hits

all-imp :
    (p r : Hit → Bool) (xs : List Hit)
    → ((x : Hit) → p x ≡ true → r x ≡ true)
    → all p xs ≡ true
    → all r xs ≡ true
all-imp p r [] h a = refl
all-imp p r (x ∷ xs) h a = rw (h x (ground (arith, a)), all-imp p r xs h (ground (arith, a))) refl

all-In : (p : Hit → Bool) (xs : List Hit) → ((x : Hit) → In x xs → p x ≡ true) → all p xs ≡ true
all-In p [] h = refl
all-In p (x ∷ xs) h = rw (h x (inl refl), all-In p xs (λ y m. h y (inr m))) refl

In-all : (p : Hit → Bool) (xs : List Hit) (x : Hit) → all p xs ≡ true → In x xs → p x ≡ true
In-all p [] x a m = elim m [ ]
In-all p (y ∷ xs) x a (inl e) = rw e (ground (arith, a))
In-all p (y ∷ xs) x a (inr m) = In-all p xs x (ground (arith, a)) m

all-filter-and :
    (p r : Hit → Bool) (xs : List Hit)
    → all p xs ≡ true
    → all (λ h. p h && r h) (filter r xs) ≡ true
all-filter-and p r [] a = refl
all-filter-and p r (x ∷ xs) a = ground (arith, a, all-filter-and p r xs)

module _ (float : Float) (by : Retrievers) (knobs : Knobs) where
  all-with_hit :
      (project : FilePath) (score : float.F) (o : Option (ChunkRow × FileRow)) (hits : List Hit)
      → all (λ h. h.project == project) hits ≡ true
      → all (λ h. h.project == project) (with_hit float by knobs project score o hits) ≡ true
  all-with_hit project score none hits a = a
  all-with_hit project score (some (c, f)) hits a = ground (arith, a)

  all-hits_of :
      (project : FilePath) (s : Store) (fused : List (ℕ × float.F))
      → all (λ h. h.project == project) (hits_of float by knobs project s fused) ≡ true
  all-hits_of project s [] = refl
  all-hits_of project s ((id, score) ∷ fused) =
      all-with_hit project score (joined_row s.files (chunk_row id s.chunks))
        (hits_of float by knobs project s fused) (all-hits_of project s fused)

  module _ (stores : FilePath → Option Store) (q : Query) where
    -- The hit is of one of the projects, and of one that has a store.
    abbrev pub is_of : List FilePath → Hit → Bool
    is_of projects h = member h.project projects && has (stores h.project)

    all-project_candidates :
        (p : FilePath) (o : Option Store)
        → stores p ≡ o
        → all (is_of (p ∷ [])) (project_candidates float by knobs p o q) ≡ true
    all-project_candidates p none e = refl
    all-project_candidates p (some s) e =
        all-imp (λ h. h.project == p) (is_of (p ∷ []))
          (hits_of float by knobs p s (rrf float knobs.rrf_k 0 (lanes float by knobs s q)))
          (λ h t. ground (arith, t, e))
          (all-hits_of p s (rrf float knobs.rrf_k 0 (lanes float by knobs s q)))

    all-pool_of :
        (projects : List FilePath)
        → all (is_of projects) (pool_of float by knobs stores projects q) ≡ true
    all-pool_of [] = refl
    all-pool_of (p ∷ projects) =
        let here = project_candidates float by knobs p (stores p) q in
        let rest = pool_of float by knobs stores projects q in
        let a =
          all-imp (is_of (p ∷ [])) (is_of (p ∷ projects)) here (λ h t. ground (arith, t))
            (all-project_candidates p (stores p) refl) in
        let b =
          all-imp (is_of projects) (is_of (p ∷ projects)) rest (λ h t. ground (arith, t))
            (all-pool_of projects) in
        all-append (is_of (p ∷ projects)) here rest ∙ rw (a, b) refl

    -- What a result has to be.
    abbrev pub is_result : List FilePath → Hit → Bool
    is_result projects h = is_of projects h && passes q h

    all-reranked :
        (p : Hit → Bool) (pool : List Hit)
        → all p pool ≡ true
        → all p (reranked float by knobs q pool) ≡ true
    all-reranked p pool a = elim (Bool-cases q.rerank) [
      | inl t ↦
          rw (t, reranked)
            (all-sort p (λ a b. leb (by.rerank_scores q.query b) (by.rerank_scores q.query a)) pool
              ∙ a)
      | inr f ↦ rw (f, reranked) a
    ]

    -- The answer over the search unit.
    answer : FilePath → List FilePath → List Hit
    answer here projects =
        diversify
          (reranked float by knobs q (
            pool_cut (filter (passes q) (pool_of float by knobs stores projects q)) here
              knobs.candidates))
          (max 1 (min q.k knobs.max_k)) q.max_per_file here

    answer_sound :
        (here : FilePath) (projects : List FilePath)
        → (all (is_result projects) (answer here projects) ≡ true)
          × (length (answer here projects) ≤ max 1 (min q.k knobs.max_k))
    unfolding answer
    answer_sound here projects =
        let pool = filter (passes q) (pool_of float by knobs stores projects q) in
        let ordered = reranked float by knobs q (pool_cut pool here knobs.candidates) in
        let a : all (is_result projects) ordered ≡ true =
          all-reranked (is_result projects) (pool_cut pool here knobs.candidates) (
            all-pool_cut (is_result projects) pool here knobs.candidates (
              all-filter-and (is_of projects) (passes q) (pool_of float by knobs stores projects q)
                (all-pool_of projects))) in
        let d = diversify_sound ordered (max 1 (min q.k knobs.max_k)) q.max_per_file here in
        (
          all-In (is_result projects)
              (diversify ordered (max 1 (min q.k knobs.max_k)) q.max_per_file here)
              (λ x m. In-all (is_result projects) ordered x a (d.2 x m).0),
          d.0,
        )

-- A search answers exactly if its mode is one of the three, its query is not blank, its language, if
-- it gives one, is known, and the root's row is enabled and indexed. Then every result is of a
-- project of the root's search unit that has a store, and matches the glob and the language, if they
-- are given, and there are at most `k` results, where `k` is raised to 1 and cut to the maximum.
pub search_lem :
    (float : Float) (by : Retrievers) (knobs : Knobs) (fs : FileSystem)
    (stores : FilePath → Option Store) (rows : Rows) (root : FilePath) (q : Query)
    → (answers (search float by knobs fs stores rows root q) ≡ (
        member q.mode modes
        && (not (all is_space q.query)
            && ((q.lang == "" || known_lang q.lang)
                && is_searchable (get fs (fs.resolve root) rows)))))
      × ((all
              (is_result float by knobs stores q (unit fs (fs.resolve root) rows))
              (hits_in (search float by knobs fs stores rows root q))
            ≡ true)
          × (length (hits_in (search float by knobs fs stores rows root q))
              ≤ max 1 (min q.k knobs.max_k)))
unfolding search answer
search_lem float by knobs fs stores rows root q =
    let here = fs.resolve root in
    let projects = unit fs here rows in
    let s = answer_sound float by knobs stores q here projects in
    elim (Bool-cases (member q.mode modes)) [
      | inr f ↦ rw f (refl, (refl, omega arith))
      | inl m ↦ elim (Bool-cases (all is_space q.query)) [
        | inl t ↦ rw (m, t) (refl, (refl, omega arith))
        | inr b ↦ elim (Bool-cases (q.lang == "" || known_lang q.lang)) [
          | inr f ↦
              let e : (not (q.lang == "") && not (known_lang q.lang)) ≡ true = ground (arith, f) in
              rw (m, b, e, f) (refl, (refl, omega arith))
          | inl l ↦ elim (Bool-cases (is_searchable (get fs here rows))) [
            | inr f ↦
                let e : (not (q.lang == "") && not (known_lang q.lang)) ≡ false =
                  ground (arith, l) in
                rw (m, b, e, l, f) (refl, (refl, omega arith))
            | inl i ↦
                let e : (not (q.lang == "") && not (known_lang q.lang)) ≡ false =
                  ground (arith, l) in
                rw (m, b, e, l, i) (refl, s)
          ]
        ]
      ]
    ]
