-- ===== src/Store/Written.antt =====
-- store.py: every statement sequence of the store keeps the rowid contract.
use rag_search_engine.Prelude.{
  ℕ, ◌+◌, String, ◌≡◌, refl, ◌∙◌, true, false, not, some, List, [], ◌∷◌, ◌++◌, filter, member,
  arith, nat_discrete, string_discrete,
}
use rag_search_engine.Store.Keys.{
  member-map-append, distinct-map-append, map-append_one, keys-append_one,
}
use rag_search_engine.Store.Contract.{
  fts_row, paths_of, file_ids, all_owned, IsSound, delete_files-eq, delete_files-IsSound,
}
use rag_search_engine.Text.{Text}
use rag_search_engine.Store.{
  Chunk, FileInfo, FileRow, ChunkRow, Vector, Store, ids_of, delete_files, insert_chunk,
  insert_chunks, insert_file, upsert_file,
}

-- A row id that SQLite picks is none of the table's.
abbrev pub IsFresh : (List ℕ → ℕ) → Type 0
IsFresh fresh = (ids : List ℕ) → member (fresh ids) ids ≡ false

all_owned-append :
    (ids : List ℕ) (c : ChunkRow) (cs : List ChunkRow)
    → all_owned ids cs ≡ true
    → member c.file_id ids ≡ true
    → all_owned ids (cs ++ c ∷ []) ≡ true
all_owned-append ids c [] h m = ground (arith, m)
all_owned-append ids c (x ∷ cs) h m = ground (arith, h, m, all_owned-append ids c cs)

all_owned-insert :
    (f : FileRow) (fs : List FileRow) (cs : List ChunkRow)
    → all_owned (file_ids fs) cs ≡ true
    → all_owned (file_ids (fs ++ f ∷ [])) cs ≡ true
all_owned-insert f fs [] h = refl
all_owned-insert f fs (c ∷ cs) h =
    ground (arith, h, all_owned-insert f fs cs, member-map-append (λ x. x.id) c.file_id f fs)

gone_path :
    (p : String) (fs : List FileRow)
    → member p (paths_of (filter (λ f. not (member f.info.path (p ∷ []))) fs)) ≡ false
gone_path p [] = refl
gone_path p (f ∷ fs) = ground (arith, gone_path p fs)

module _ (fresh : List ℕ → ℕ) (identifier_tokens : Text → Text) (new : IsFresh fresh) where
  insert_chunk-IsSound :
      (file_id : ℕ) (c : Chunk) (v : Vector) (s : Store)
      → IsSound s
      → member file_id (file_ids s.files) ≡ true
      → IsSound (insert_chunk fresh identifier_tokens file_id c (some v) s)
  insert_chunk-IsSound file_id c v s h m =
      let id = fresh (ids_of s.chunks) in
      let row : ChunkRow = record {
        id = id;
        file_id = file_id;
        chunk = c;
        tokens = identifier_tokens c.text;
      } in
      record {
        one_row = h.one_row;
        file_keys = h.file_keys;
        chunk_keys =
            distinct-map-append (λ x. x.id) row s.chunks h.chunk_keys (new (ids_of s.chunks));
        owned = all_owned-append (file_ids s.files) row s.chunks h.owned m;
        in_index = rw (h.in_index, map-append_one fts_row row s.chunks) refl;
        in_vectors =
            keys-append_one id v s.vec
            ∙ rw (h.in_vectors, map-append_one (λ x. x.id) row s.chunks) refl;
      }

  insert_chunks-IsSound :
      (file_id i : ℕ) (cs : List Chunk) (e : ℕ → Vector) (s : Store)
      → IsSound s
      → member file_id (file_ids s.files) ≡ true
      → IsSound (insert_chunks fresh identifier_tokens file_id i cs (some e) s)
  insert_chunks-IsSound file_id i [] e s h m = h
  insert_chunks-IsSound file_id i (c ∷ cs) e s h m =
      let s' = insert_chunk fresh identifier_tokens file_id c (some (e i)) s in
      insert_chunks-IsSound file_id (i + 1) cs e s' (insert_chunk-IsSound file_id c (e i) s h m) m

  insert_file-IsSound :
      (info : FileInfo) (s : Store)
      → IsSound s
      → member info.path (paths_of s.files) ≡ false
      → IsSound (insert_file (fresh (file_ids s.files)) info s)
  insert_file-IsSound info s h m =
      let f : FileRow = record { id = fresh (file_ids s.files); info = info } in
      record {
        one_row = distinct-map-append (λ x. x.info.path) f s.files h.one_row m;
        file_keys = distinct-map-append (λ x. x.id) f s.files h.file_keys (new (file_ids s.files));
        chunk_keys = h.chunk_keys;
        owned = all_owned-insert f s.files s.chunks h.owned;
        in_index = h.in_index;
        in_vectors = h.in_vectors;
      }

  pub upsert_file-IsSound :
      (info : FileInfo) (cs : List Chunk) (e : ℕ → Vector) (s : Store)
      → IsSound s
      → IsSound (upsert_file fresh identifier_tokens info cs (some e) s).0
  unfolding upsert_file
  upsert_file-IsSound info cs e s h =
      let cleared = (delete_files (info.path ∷ []) s).0 in
      let id = fresh (file_ids cleared.files) in
      let f : FileRow = record { id = id; info = info } in
      let absent : member info.path (paths_of cleared.files) ≡ false =
        rw (delete_files-eq info.path [] s) (gone_path info.path s.files) in
      insert_chunks-IsSound id 0 cs e (insert_file id info cleared)
        (insert_file-IsSound info cleared (delete_files-IsSound (info.path ∷ []) s h) absent)
        (rw (member-map-append (λ x. x.id) id f cleared.files) (ground arith))
