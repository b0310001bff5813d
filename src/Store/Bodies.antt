-- ===== src/Store/Bodies.antt =====
-- store.py: the chunks of a file, as a search joins them to it.
use rag_search_engine.Prelude.{
  ℕ, ◌+◌, String, ◌≡◌, refl, sym, ap, ◌∙◌, Bool, true, false, not, ◌&&◌, ◌||◌, Option, List, [],
  ◌∷◌, ◌++◌, filter, member, distinct, ◌==◌, nat_discrete, string_discrete, arith, if◌then◌else◌,
}
use rag_search_engine.Text.{Text}
use rag_search_engine.Store.{
  Chunk, FileInfo, FileRow, ChunkRow, Vector, Store, is_under, ids_of, delete_files, nth,
  insert_file, insert_chunk, insert_chunks, upsert_file,
}
use rag_search_engine.Store.Contract.{
  file_ids, all_owned, IsSound, delete_files-eq, delete_files-IsSound,
}
use rag_search_engine.Store.Written.{IsFresh}

-- `SELECT ... FROM chunks c JOIN files f ON f.id = c.file_id WHERE f.path = ?`
abbrev pub joined_to : String → List FileRow → List ChunkRow → List Chunk
joined_to q files [] = []
joined_to q files (c ∷ cs) =
    if is_under (q ∷ []) files c then c.chunk ∷ joined_to q files cs else joined_to q files cs

abbrev pub chunks_of : String → Store → List Chunk
chunks_of q s = joined_to q s.files s.chunks

-- Files that are deleted are no longer joined to, and the others are as before.
is_under-filter :
    (p q : String) (files : List FileRow) (c : ChunkRow)
    → (p == q) ≡ false
    → is_under (q ∷ []) (filter (λ f. not (member f.info.path (p ∷ []))) files) c
      ≡ is_under (q ∷ []) files c
is_under-filter p q [] c h = refl
is_under-filter p q (f ∷ files) c h = ground (arith, h, is_under-filter p q files c)

is_under-gone :
    (p : String) (files : List FileRow) (c : ChunkRow)
    → is_under (p ∷ []) (filter (λ f. not (member f.info.path (p ∷ []))) files) c ≡ false
is_under-gone p [] c = refl
is_under-gone p (f ∷ files) c = ground (arith, is_under-gone p files c)

-- A chunk belongs to one path.
is_under-id :
    (ps : List String) (files : List FileRow) (c : ChunkRow)
    → member c.file_id (file_ids files) ≡ false
    → is_under ps files c ≡ false
is_under-id ps [] c m = refl
is_under-id ps (f ∷ files) c m = ground (arith, m, is_under-id ps files c)

is_under-one :
    (p q : String) (files : List FileRow) (c : ChunkRow)
    → distinct (file_ids files) ≡ true
    → (p == q) ≡ false
    → is_under (p ∷ []) files c ≡ true
    → is_under (q ∷ []) files c ≡ false
is_under-one p q [] c u h t = refl
is_under-one p q (f ∷ files) c u h t = ground (
  arith,
  u,
  h,
  t,
  is_under-one p q files c,
  is_under-id (p ∷ []) files c,
  is_under-id (q ∷ []) files c,
)

joined_to-removed :
    (p q : String) (files : List FileRow) (cs : List ChunkRow)
    → distinct (file_ids files) ≡ true
    → joined_to q
        (filter (λ f. not (member f.info.path (p ∷ []))) files)
        (filter (λ c. not (is_under (p ∷ []) files c)) cs)
      ≡ (if p == q then [] else joined_to q files cs)
joined_to-removed p q files [] u = ground arith
joined_to-removed p q files (c ∷ cs) u = ground (
  arith,
  u,
  joined_to-removed p q files cs,
  is_under-filter p q files c,
  is_under-gone q files c,
  is_under-one p q files c,
)

is_under-append :
    (q : String) (f : FileRow) (files : List FileRow) (c : ChunkRow)
    → is_under (q ∷ []) (files ++ f ∷ []) c
      ≡ (is_under (q ∷ []) files c || (f.id == c.file_id && f.info.path == q))
is_under-append q f [] c = ground arith
is_under-append q f (g ∷ files) c = ground (arith, is_under-append q f files c)

-- A new file has none of the chunks that are there.
joined_to-insert :
    (q : String) (f : FileRow) (files : List FileRow) (cs : List ChunkRow)
    → member f.id (file_ids files) ≡ false
    → all_owned (file_ids files) cs ≡ true
    → joined_to q (files ++ f ∷ []) cs ≡ joined_to q files cs
joined_to-insert q f files [] m o = refl
joined_to-insert q f files (c ∷ cs) m o =
    ground (arith, m, o, joined_to-insert q f files cs, is_under-append q f files c)

joined_to-append :
    (q : String) (files : List FileRow) (cs : List ChunkRow) (c : ChunkRow)
    → joined_to q files (cs ++ c ∷ [])
      ≡ joined_to q files cs ++ (if is_under (q ∷ []) files c then c.chunk ∷ [] else [])
joined_to-append q files [] c = ground arith
joined_to-append q files (x ∷ cs) c = ground (arith, joined_to-append q files cs c)

append-if :
    (b : Bool) (xs : List Chunk) (c : Chunk) (cs : List Chunk)
    → (xs ++ (if b then c ∷ [] else [])) ++ (if b then cs else [])
      ≡ xs ++ (if b then c ∷ cs else [])
append-if true [] c cs = refl
append-if false [] c cs = refl
append-if b (x ∷ xs) c cs = rw (append-if b xs c cs) refl

nil-if : (b : Bool) (xs : List Chunk) → xs ≡ xs ++ (if b then [] else [])
nil-if true [] = refl
nil-if false [] = refl
nil-if b (x ∷ xs) = ap (λ l. x ∷ l) (nil-if b xs)

settle-if :
    (b : Bool) (xs cs : List Chunk)
    → (if b then [] else xs) ++ (if b then cs else []) ≡ (if b then cs else xs)
settle-if true xs cs = refl
settle-if false xs cs = sym (nil-if false xs)

is_under-new :
    (q : String) (f : FileRow) (files : List FileRow) (c : ChunkRow)
    → c.file_id ≡ f.id
    → member f.id (file_ids files) ≡ false
    → is_under (q ∷ []) (files ++ f ∷ []) c ≡ (f.info.path == q)
is_under-new q f files c w m =
    let n : member c.file_id (file_ids files) ≡ false = rw w m in
    ground (arith, w, is_under-append q f files c, is_under-id (q ∷ []) files c n)

module _ (fresh : List ℕ → ℕ) (identifier_tokens : Text → Text) where
  chunks_of-insert_chunks :
      (q : String) (b : Bool) (file_id i : ℕ) (cs : List Chunk) (e : Option (ℕ → Vector))
      (s : Store)
      → ((c : ChunkRow) → c.file_id ≡ file_id → is_under (q ∷ []) s.files c ≡ b)
      → chunks_of q (insert_chunks fresh identifier_tokens file_id i cs e s)
        ≡ chunks_of q s ++ (if b then cs else [])
  chunks_of-insert_chunks q b file_id i [] e s h = nil-if b (chunks_of q s)
  chunks_of-insert_chunks q b file_id i (c ∷ cs) e s h =
      let s' = insert_chunk fresh identifier_tokens file_id c (nth i e) s in
      let row : ChunkRow = record {
        id = fresh (ids_of s.chunks);
        file_id = file_id;
        chunk = c;
        tokens = identifier_tokens c.text;
      } in
      let first : chunks_of q s' ≡ chunks_of q s ++ (if b then c ∷ [] else []) =
        joined_to-append q s.files s.chunks row ∙ rw (h row refl) refl in
      chunks_of-insert_chunks q b file_id (i + 1) cs e s' h
      ∙ rw first (append-if b (chunks_of q s) c cs)

  -- Writing a file leaves exactly its new chunks under its path, in their order, and under every
  -- other path the chunks that were there; in a store that keeps the rowid contract, if SQLite
  -- picks no row id that its table holds.
  pub chunks_of-upsert_file :
      (info : FileInfo) (cs : List Chunk) (e : Option (ℕ → Vector)) (q : String) (s : Store)
      → IsFresh fresh
      → IsSound s
      → chunks_of q (upsert_file fresh identifier_tokens info cs e s).0
        ≡ (if info.path == q then cs else chunks_of q s)
  unfolding upsert_file
  chunks_of-upsert_file info cs e q s new h =
      let cleared = (delete_files (info.path ∷ []) s).0 in
      let id = fresh (file_ids cleared.files) in
      let f : FileRow = record { id = id; info = info } in
      let g = delete_files-IsSound (info.path ∷ []) s h in
      let m = new (file_ids cleared.files) in
      let old : chunks_of q cleared ≡ (if info.path == q then [] else chunks_of q s) =
        ap (chunks_of q) (delete_files-eq info.path [] s)
        ∙ joined_to-removed info.path q s.files s.chunks h.file_keys in
      let kept = joined_to-insert q f cleared.files cleared.chunks m g.owned in
      let mine : (c : ChunkRow)
          → c.file_id ≡ id
          → is_under (q ∷ []) (cleared.files ++ f ∷ []) c ≡ (info.path == q) =
        λ c w. is_under-new q f cleared.files c w m in
      chunks_of-insert_chunks q (info.path == q) id 0 cs e (insert_file id info cleared) mine
      ∙ rw (kept, old) (settle-if (info.path == q) (chunks_of q s) cs)
