-- ===== src/Store/History.antt =====
-- store.py: whatever is done to a store, in whatever order, leaves no stray row behind.
use rag_search_engine.Prelude.{
  ℕ, String, ◌≡◌, refl, sym, ap, all, ◌∙◌, true, some, List, [], ◌∷◌, map, member, keys, arith,
  nat_discrete, string_discrete,
}
use rag_search_engine.Store.Contract.{
  fts_row, paths_of, file_ids, IsSound, empty_store-IsSound, delete_files-IsSound,
}
use rag_search_engine.Store.Written.{IsFresh, upsert_file-IsSound}
use rag_search_engine.Text.{Text}
use rag_search_engine.Store.{
  Chunk, FileInfo, FileRow, ChunkRow, Vector, Value, Store, wipe, repack_vectors, empty_store,
  set_meta, set_langs, relabel, relabel_all, ids_of, delete_files, upsert_file, strays, orphans,
}

paths_of-relabel :
    (lang path : String) (fs : List FileRow) → paths_of (relabel lang path fs) ≡ paths_of fs
paths_of-relabel lang path [] = refl
paths_of-relabel lang path (f ∷ fs) = ground (arith, paths_of-relabel lang path fs)

file_ids-relabel :
    (lang path : String) (fs : List FileRow) → file_ids (relabel lang path fs) ≡ file_ids fs
file_ids-relabel lang path [] = refl
file_ids-relabel lang path (f ∷ fs) = ground (arith, file_ids-relabel lang path fs)

paths_of-relabel_all :
    (pairs : List (String × String)) (fs : List FileRow)
    → paths_of (relabel_all pairs fs) ≡ paths_of fs
paths_of-relabel_all [] fs = refl
paths_of-relabel_all ((lang, path) ∷ pairs) fs =
    paths_of-relabel_all pairs (relabel lang path fs) ∙ paths_of-relabel lang path fs

file_ids-relabel_all :
    (pairs : List (String × String)) (fs : List FileRow)
    → file_ids (relabel_all pairs fs) ≡ file_ids fs
file_ids-relabel_all [] fs = refl
file_ids-relabel_all ((lang, path) ∷ pairs) fs =
    file_ids-relabel_all pairs (relabel lang path fs) ∙ file_ids-relabel lang path fs

pub set_langs-IsSound :
    (pairs : List (String × String)) (s : Store) → IsSound s → IsSound (set_langs pairs s).0
unfolding set_langs
set_langs-IsSound pairs s h = record {
  one_row = rw (paths_of-relabel_all pairs s.files) h.one_row;
  file_keys = rw (file_ids-relabel_all pairs s.files) h.file_keys;
  chunk_keys = h.chunk_keys;
  owned = rw (file_ids-relabel_all pairs s.files) h.owned;
  in_index = h.in_index;
  in_vectors = h.in_vectors;
}

pub set_meta-IsSound :
    (pairs : List (String × Value)) (s : Store) → IsSound s → IsSound (set_meta pairs s)
unfolding set_meta
set_meta-IsSound pairs s h = record {
  one_row = h.one_row;
  file_keys = h.file_keys;
  chunk_keys = h.chunk_keys;
  owned = h.owned;
  in_index = h.in_index;
  in_vectors = h.in_vectors;
}

pub wipe-IsSound : (s : Store) → IsSound (wipe s)
wipe-IsSound s = record {
  one_row = refl;
  file_keys = refl;
  chunk_keys = refl;
  owned = refl;
  in_index = refl;
  in_vectors = refl;
}

-- A repacking that read the table as it stands.
pub repack_vectors-whole : (s : Store) → repack_vectors s.vec s ≡ some s
unfolding repack_vectors
repack_vectors-whole s = ground arith

module _ (fresh : List ℕ → ℕ) (identifier_tokens : Text → Text) where
  -- One statement sequence of the store; every file is written with its vectors, as `_flush` does.
  pub data Step : Store → Store → Type 0 where
    delete : (paths : List String) (s : Store) → Step s (delete_files paths s).0
    upsert :
        (info : FileInfo) (cs : List Chunk) (e : ℕ → Vector) (s : Store)
        → Step s (upsert_file fresh identifier_tokens info cs (some e) s).0
    relang : (pairs : List (String × String)) (s : Store) → Step s (set_langs pairs s).0
    note : (pairs : List (String × Value)) (s : Store) → Step s (set_meta pairs s)
    wiped : (s : Store) → Step s (wipe s)
    repacked : (s s' : Store) → repack_vectors s.vec s ≡ some s' → Step s s'

  -- What a store may have been through since it was created.
  pub data Reached : Store → Type 0 where
    created : Reached empty_store
    after : {s s' : Store} → Reached s → Step s s' → Reached s'

  module _ (new : IsFresh fresh) where
    Step-IsSound : {s s' : Store} → Step s s' → IsSound s → IsSound s'
    Step-IsSound (delete paths s) h = delete_files-IsSound paths s h
    Step-IsSound (upsert info cs e s) h =
        upsert_file-IsSound fresh identifier_tokens new info cs e s h
    Step-IsSound (relang pairs s) h = set_langs-IsSound pairs s h
    Step-IsSound (note pairs s) h = set_meta-IsSound pairs s h
    Step-IsSound (wiped s) h = wipe-IsSound s
    Step-IsSound (repacked s s' e) h =
        let same : some s ≡ some s' = sym (repack_vectors-whole s) ∙ e in
        let q : s ≡ s' = cc in rw (← q) h

    pub Reached-IsSound : {s : Store} → Reached s → IsSound s
    Reached-IsSound created = empty_store-IsSound
    Reached-IsSound (after r step) = Step-IsSound step (Reached-IsSound r)

-- Rows whose keys are chunks' ids are no strays.
all-member :
    (ids ks : List ℕ)
    → ((k : ℕ) → member k ks ≡ true → member k ids ≡ true)
    → all (λ k. member k ids) ks ≡ true
all-member ids [] h = refl
all-member ids (k ∷ ks) h =
    let here = h k (ground arith) in
    let rest = all-member ids ks (λ j m. h j (ground (arith, m))) in rw (here, rest) refl

strays-all :
    {A : Type 0} (chunks : List ChunkRow) (rows : List (ℕ × A))
    → all (λ k. member k (ids_of chunks)) (keys rows) ≡ true
    → strays chunks rows ≡ 0
strays-all chunks [] h = refl
strays-all chunks ((k, v) ∷ rows) h = ground (arith, h, strays-all chunks rows)

strays-nil :
    {A : Type 0} (chunks : List ChunkRow) (rows : List (ℕ × A))
    → keys rows ≡ ids_of chunks
    → strays chunks rows ≡ 0
strays-nil chunks rows e =
    strays-all chunks rows (rw e (all-member (ids_of chunks) (ids_of chunks) (λ k m. m)))

keys-fts : (cs : List ChunkRow) → keys (map fts_row cs) ≡ ids_of cs
keys-fts [] = refl
keys-fts (c ∷ cs) = rw (keys-fts cs) refl

pub orphans_lem : (s : Store) → IsSound s → orphans s ≡ (0, 0)
unfolding orphans
orphans_lem s h =
    let a = strays-nil s.chunks s.fts (ap keys h.in_index ∙ keys-fts s.chunks) in
    let b = strays-nil s.chunks s.vec h.in_vectors in rw (a, b) refl

-- Whatever is done to a store from its creation on, in whatever order, no row of the index and no
-- vector is left without its chunk, if SQLite never picks a row id that the table holds.
pub orphans-Reached :
    (fresh : List ℕ → ℕ) (identifier_tokens : Text → Text)
    → IsFresh fresh
    → (s : Store) → Reached fresh identifier_tokens s
    → orphans s ≡ (0, 0)
orphans-Reached fresh identifier_tokens new s r =
    orphans_lem s (Reached-IsSound fresh identifier_tokens new r)
