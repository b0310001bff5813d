-- ===== src/Store.antt =====
-- store.py: the tables of one project's store. A table is the list of its rows; what SQLite does
-- with a statement is written out, but for the row ids that it picks, which are a parameter.
pub mod Keys
pub mod Contract
pub mod Written
pub mod History
pub mod Digests
pub mod Bodies
use rag_search_engine.Prelude.{
  ℕ, ◌+◌, String, Bool, not, ◌&&◌, Option, none, some, List, [], ◌∷◌, ◌++◌, map, length, filter,
  any, member, lookup, insert, ◌==◌, if◌then◌else◌, nat_discrete, string_discrete,
}
use rag_search_engine.Text.{Text}

-- `chunk.Chunk`
pub record Chunk : Type 0 where
  pub ord : ℕ
  pub start_line : ℕ
  pub end_line : ℕ
  pub n_chars : ℕ
  pub sha256 : String
  pub text : Text
  pub header : Text

-- The dict that describes a file; the time in nanoseconds.
pub record FileInfo : Type 0 where
  pub path : String
  pub mtime : ℕ
  pub size : ℕ
  pub sha256 : String
  pub lang : String
  pub n_lines : ℕ

-- The rows of `files`, of `chunks` and of `chunks_fts`; the columns that are copied stand in a
-- record of their own.
pub record FileRow : Type 0 where
  pub id : ℕ
  pub info : FileInfo

pub record ChunkRow : Type 0 where
  pub id : ℕ
  pub file_id : ℕ
  pub chunk : Chunk
  pub tokens : Text

pub record FtsRow : Type 0 where
  pub text : Text
  pub tokens : Text
  pub header : Text

-- The bytes of an embedding.
abbrev pub Vector : Type 0
Vector = List ℕ

-- What `json.loads` gives for a value of `meta`.
pub data Value : Type 0 where
  text : String → Value
  number : ℕ → Value
  flag : Bool → Value

pub record Store : Type 0 where
  pub files : List FileRow
  pub chunks : List ChunkRow
  -- The rows of the index, as its shadow table counts them.
  pub fts : List (ℕ × FtsRow)
  pub vec : List (ℕ × Vector)
  pub meta : List (String × Value)

-- A store that has just been created.
abbrev pub empty_store : Store
empty_store = record { files = []; chunks = []; fts = []; vec = []; meta = [] }

abbrev pub get_meta : Store → String → Option Value
get_meta s key = lookup key s.meta

abbrev pub put_all : List (String × Value) → List (String × Value) → List (String × Value)
put_all [] meta = meta
put_all ((k, v) ∷ pairs) meta = put_all pairs (insert k v meta)

unfoldable pub set_meta : List (String × Value) → Store → Store
set_meta pairs s = record s { meta = put_all pairs s.meta }

abbrev pub digests_of : List FileRow → List (String × String)
digests_of [] = []
digests_of (f ∷ fs) = (f.info.path, f.info.sha256) ∷ digests_of fs

-- path -> sha256
abbrev pub file_digests : Store → List (String × String)
file_digests s = digests_of s.files

abbrev pub langs_of : List FileRow → List (String × String)
langs_of [] = []
langs_of (f ∷ fs) = (f.info.path, f.info.lang) ∷ langs_of fs

-- path -> lang
abbrev pub file_langs : Store → List (String × String)
file_langs s = langs_of s.files

-- `UPDATE files SET lang = ? WHERE path = ?`
abbrev pub relabel : String → String → List FileRow → List FileRow
relabel lang path [] = []
relabel lang path (f ∷ fs) =
    (if f.info.path == path then record f { info = record f.info { lang = lang } } else f)
    ∷ relabel lang path fs

abbrev pub relabel_all : List (String × String) → List FileRow → List FileRow
relabel_all [] fs = fs
relabel_all ((lang, path) ∷ pairs) fs = relabel_all pairs (relabel lang path fs)

unfoldable pub set_langs : List (String × String) → Store → Store × ℕ
set_langs pairs s = (record s { files = relabel_all pairs s.files }, length pairs)

-- The chunk belongs to a file of one of the paths.
abbrev pub is_under : List String → List FileRow → ChunkRow → Bool
is_under paths files c = any (λ f. f.id == c.file_id && member f.info.path paths) files

abbrev pub ids_of : List ChunkRow → List ℕ
ids_of = map (λ c. c.id)

-- `DELETE FROM chunks_fts WHERE rowid IN (...)`, and the same for `chunks_vec`
abbrev pub without {ℓ} : {A : Type ℓ} → List ℕ → List (ℕ × A) → List (ℕ × A)
without ids = filter (λ r. not (member r.0 ids))

-- `if ids:`
abbrev pub drop_indexed : List ℕ → Store → Store
drop_indexed [] s = s
drop_indexed (i ∷ ids) s = record s { fts = without (i ∷ ids) s.fts; vec = without (i ∷ ids) s.vec }

-- `DELETE FROM files`: the foreign key takes the chunks of the deleted rows along, and no more.
abbrev pub drop_files : List String → Store → Store
drop_files paths s = record s {
  files = filter (λ f. not (member f.info.path paths)) s.files;
  chunks = filter (λ c. not (is_under paths s.files c)) s.chunks;
}

unfoldable pub delete_files : List String → Store → Store × ℕ
delete_files [] s = (s, 0)
delete_files (p ∷ ps) s =
    let ids = ids_of (filter (is_under (p ∷ ps) s.files) s.chunks) in
    (drop_files (p ∷ ps) (drop_indexed ids s), length ids)

-- `INSERT INTO files`
abbrev pub insert_file : ℕ → FileInfo → Store → Store
insert_file id info s = record s { files = s.files ++ record { id = id; info = info } ∷ [] }

-- `indexwrite._wipe`
abbrev pub wipe : Store → Store
wipe s = record s { files = []; chunks = []; fts = []; vec = [] }

abbrev pub embedded : ℕ → Option Vector → List (ℕ × Vector) → List (ℕ × Vector)
embedded id none vec = vec
embedded id (some v) vec = vec ++ (id, v) ∷ []

-- `embeddings[i]`, if there are embeddings
abbrev pub nth : ℕ → Option (ℕ → Vector) → Option Vector
nth i none = none
nth i (some e) = some (e i)

module _ (fresh : List ℕ → ℕ) (identifier_tokens : Text → Text) where
  abbrev pub indexed : Chunk → FtsRow
  indexed c = record { text = c.text; tokens = identifier_tokens c.text; header = c.header }

  -- One turn of the loop over the chunks: three tables, one id.
  abbrev pub insert_chunk : ℕ → Chunk → Option Vector → Store → Store
  insert_chunk file_id c v s =
      let id = fresh (ids_of s.chunks) in
      let row : ChunkRow = record {
        id = id;
        file_id = file_id;
        chunk = c;
        tokens = identifier_tokens c.text;
      } in
      record s {
        chunks = s.chunks ++ row ∷ [];
        fts = s.fts ++ (id, indexed c) ∷ [];
        vec = embedded id v s.vec;
      }

  abbrev pub insert_chunks : ℕ → ℕ → List Chunk → Option (ℕ → Vector) → Store → Store
  insert_chunks file_id i [] embeddings s = s
  insert_chunks file_id i (c ∷ cs) embeddings s =
      insert_chunks file_id (i + 1) cs embeddings (insert_chunk file_id c (nth i embeddings) s)

  unfoldable pub upsert_file : FileInfo → List Chunk → Option (ℕ → Vector) → Store → Store × ℕ
  upsert_file info chunks embeddings s =
      let cleared = (delete_files (info.path ∷ []) s).0 in
      let file_id = fresh (map (λ f. f.id) cleared.files) in
      (insert_chunks file_id 0 chunks embeddings (insert_file file_id info cleared), length chunks)

-- The rows of a virtual table with no chunk behind them.
abbrev pub strays {ℓ} : {A : Type ℓ} → List ChunkRow → List (ℕ × A) → ℕ
strays chunks rows = length (filter (λ r. not (member r.0 (ids_of chunks))) rows)

unfoldable pub orphans : Store → ℕ × ℕ
orphans s = (strays s.chunks s.fts, strays s.chunks s.vec)

abbrev pub counts : Store → ℕ × ℕ
counts s = (length s.files, length s.chunks)

-- `rows` is what the first read of the table gave. Nothing where it raises.
unfoldable pub repack_vectors : List (ℕ × Vector) → Store → Option Store
repack_vectors rows s = if length rows == length s.vec then some (record s { vec = rows }) else none
