-- ===== src/Store/Contract.antt =====
-- store.py: the rowid contract, which three tables depend on.
use rag_search_engine.Prelude.{
  ℕ, String, ◌≡◌, refl, ap, ◌∙◌, Bool, true, false, not, ◌&&◌, List, [], ◌∷◌, map, filter, member,
  distinct, keys, arith, nat_discrete, string_discrete, Bool-cases, inl, inr,
}
use rag_search_engine.Store.Keys.{filter-picked, distinct-map-filter, keys-without, without-nil}
use rag_search_engine.Store.{
  FileRow, ChunkRow, FtsRow, Store, empty_store, is_under, ids_of, without, drop_indexed,
  drop_files, delete_files,
}

abbrev pub fts_row : ChunkRow → ℕ × FtsRow
fts_row c = (c.id, record { text = c.chunk.text; tokens = c.tokens; header = c.chunk.header })

abbrev pub paths_of : List FileRow → List String
paths_of = map (λ f. f.info.path)

abbrev pub file_ids : List FileRow → List ℕ
file_ids = map (λ f. f.id)

abbrev pub all_owned : List ℕ → List ChunkRow → Bool
all_owned ids [] = true
all_owned ids (c ∷ cs) = member c.file_id ids && all_owned ids cs

-- One row per path; every chunk has its file; the index holds the chunks' texts under the chunks'
-- ids and nothing else, and so do the vectors.
pub record IsSound (s : Store) : Type 0 where
  pub one_row : distinct (paths_of s.files) ≡ true
  pub file_keys : distinct (file_ids s.files) ≡ true
  pub chunk_keys : distinct (ids_of s.chunks) ≡ true
  pub owned : all_owned (file_ids s.files) s.chunks ≡ true
  pub in_index : s.fts ≡ map fts_row s.chunks
  pub in_vectors : keys s.vec ≡ ids_of s.chunks

pub empty_store-IsSound : IsSound empty_store
empty_store-IsSound = record {
  one_row = refl;
  file_keys = refl;
  chunk_keys = refl;
  owned = refl;
  in_index = refl;
  in_vectors = refl;
}

drop_indexed-eq :
    (ids : List ℕ) (s : Store)
    → drop_indexed ids s ≡ record s { fts = without ids s.fts; vec = without ids s.vec }
drop_indexed-eq [] s = rw (without-nil s.fts, without-nil s.vec) refl
drop_indexed-eq (i ∷ ids) s = refl

-- A chunk that stays keeps its file.
stays_owned :
    (paths : List String) (fs : List FileRow) (c : ChunkRow)
    → is_under paths fs c ≡ false
    → member c.file_id (file_ids fs) ≡ true
    → member c.file_id (file_ids (filter (λ f. not (member f.info.path paths)) fs)) ≡ true
stays_owned paths [] c u m = ground (arith, m)
stays_owned paths (f ∷ fs) c u m = ground (arith, u, m, stays_owned paths fs c)

all_owned-filter :
    (paths : List String) (fs : List FileRow) (cs : List ChunkRow)
    → all_owned (file_ids fs) cs ≡ true
    → all_owned
        (file_ids (filter (λ f. not (member f.info.path paths)) fs))
        (filter (λ c. not (is_under paths fs c)) cs)
      ≡ true
all_owned-filter paths fs [] h = refl
all_owned-filter paths fs (c ∷ cs) h = elim (Bool-cases (is_under paths fs c)) [
  | inl t ↦ rw t (all_owned-filter paths fs cs (ground (arith, h)))
  | inr f ↦ rw f (ground (arith, h, stays_owned paths fs c f, all_owned-filter paths fs cs))
]

-- The tables without the files of the paths.
abbrev pub removed : List String → Store → Store
removed paths s = record s {
  files = filter (λ f. not (member f.info.path paths)) s.files;
  chunks = filter (λ c. not (is_under paths s.files c)) s.chunks;
  fts = without (ids_of (filter (is_under paths s.files) s.chunks)) s.fts;
  vec = without (ids_of (filter (is_under paths s.files) s.chunks)) s.vec;
}

pub delete_files-eq :
    (p : String) (ps : List String) (s : Store) → (delete_files (p ∷ ps) s).0 ≡ removed (p ∷ ps) s
unfolding delete_files
delete_files-eq p ps s =
    ap (drop_files (p ∷ ps))
      (drop_indexed-eq (ids_of (filter (is_under (p ∷ ps) s.files) s.chunks)) s)

removed-IsSound : (paths : List String) (s : Store) → IsSound s → IsSound (removed paths s)
removed-IsSound paths s v =
    let ids = ids_of (filter (is_under paths s.files) s.chunks) in
    let pick = is_under paths s.files in
    record {
      one_row =
          distinct-map-filter (λ f. f.info.path) (λ f. not (member f.info.path paths)) s.files
            v.one_row;
      file_keys =
          distinct-map-filter (λ f. f.id) (λ f. not (member f.info.path paths)) s.files v.file_keys;
      chunk_keys = distinct-map-filter (λ c. c.id) (λ c. not (pick c)) s.chunks v.chunk_keys;
      owned = all_owned-filter paths s.files s.chunks v.owned;
      in_index =
          ap (without ids) v.in_index
          ∙ filter-picked (λ c. c.id) (λ r. r.0) fts_row (λ c. refl) pick s.chunks v.chunk_keys;
      in_vectors =
          keys-without ids s.vec
          ∙ ap (filter (λ k. not (member k ids))) v.in_vectors
          ∙ filter-picked (λ c. c.id) (λ k. k) (λ c. c.id) (λ c. refl) pick s.chunks v.chunk_keys;
    }

pub delete_files-IsSound :
    (paths : List String) (s : Store) → IsSound s → IsSound (delete_files paths s).0
unfolding delete_files
delete_files-IsSound [] s v = v
delete_files-IsSound (p ∷ ps) s v = rw (delete_files-eq p ps s) (removed-IsSound (p ∷ ps) s v)
