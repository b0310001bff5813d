-- ===== src/Pass.antt =====
-- indexwrite.py and `index_project` of index.py: one pass over a project.
use rag_search_engine.Prelude.{
  ℕ, ◌+◌, String, Bool, true, false, not, Option, none, some, List, [], ◌∷◌, ◌++◌, map, length, leb,
  ◌==◌, if◌then◌else◌, nat_discrete, string_discrete,
}
use rag_search_engine.Text.{Text}
use rag_search_engine.Discover.{FileMeta}
use rag_search_engine.Chunk.{embed_text}
use rag_search_engine.Store.{
  Chunk, FileInfo, Vector, Value, text, number, flag, Store, get_meta, set_meta, upsert_file,
}

-- The settings that a store is stamped with.
pub record Stamp : Type 0 where
  pub embed_model : String
  pub embed_dims : ℕ
  pub chunk_chars : ℕ
  pub chunk_overlap : ℕ
  pub chunk_header_path : Bool
  pub chunk_md_splitter : Bool
  pub chunk_algo : ℕ

abbrev pub stamped : Stamp → List (String × Value)
stamped c =
    ("embed_model", text c.embed_model)
    ∷ ("embed_dims", number c.embed_dims)
    ∷ ("chunk_chars", number c.chunk_chars)
    ∷ ("chunk_overlap", number c.chunk_overlap)
    ∷ ("chunk_header_path", flag c.chunk_header_path)
    ∷ ("chunk_md_splitter", flag c.chunk_md_splitter)
    ∷ ("chunk_algo", number c.chunk_algo)
    ∷ []

unfoldable pub stamp : Stamp → Store → Store
stamp c s = set_meta (stamped c) s

-- `was == now`: in Python a truth value equals 1 or 0.
abbrev pub same_value : Value → Value → Bool
same_value (text a) (text b) = a == b
same_value (number a) (number b) = a == b
same_value (flag true) (flag b) = b
same_value (flag false) (flag b) = not b
same_value (number a) (flag b) = a == (if b then 1 else 0)
same_value (flag b) (number a) = a == (if b then 1 else 0)
same_value _ _ = false

abbrev pub same_as : Option Value → Value → Bool
same_as none now = false
same_as (some was) now = same_value was now

-- The first key whose value is another than now.
abbrev pub first_changed : Store → List (String × Value) → Option String
first_changed s [] = none
first_changed s ((key, now) ∷ l) =
    if same_as (get_meta s key) now then first_changed s l else some key

unfoldable pub incompatible : Stamp → Store → Option String
incompatible c s = elim (get_meta s "embed_model") [
  | none ↦ none
  | some model ↦ first_changed s (stamped c)
]

-- What the pass is given: SQLite's row ids, `lexical.identifier_tokens`, `chunker.chunk_text` and
-- the embedder; the last two give nothing where they raise.
pub record Engine : Type 0 where
  pub fresh : List ℕ → ℕ
  pub identifier_tokens : Text → Text
  pub chunk_text : Text → String → Option (List Chunk)
  pub embed : List Text → Option (ℕ → Vector)

-- A file with its chunks and its vectors; the tuple in `pending`.
pub record Prepared : Type 0 where
  pub meta : FileMeta
  pub chunks : List Chunk
  pub vectors : ℕ → Vector

-- What preparing a file comes to.
pub data Preparation : Type 0 where
  raises no_chunks : Preparation
  ready : Prepared → Preparation

-- The state of `_write_files`; `committed` are the stores that were committed, the last one first.
pub record Writer : Type 0 where
  pub store : Store
  pub committed : List Store
  pub pending : List Prepared
  pub written : ℕ

abbrev pub batch_files : ℕ
batch_files = 64

abbrev pub info_of : FileMeta → FileInfo
info_of m = record {
  path = m.rel;
  mtime = m.mtime;
  size = m.size;
  sha256 = m.sha256;
  lang = m.lang;
  n_lines = m.n_lines;
}

module _ (engine : Engine) where
  abbrev pub embedding : FileMeta → List Chunk → Preparation
  embedding m cs = elim (engine.embed (map embed_text cs)) [
    | none ↦ raises
    | some vectors ↦ ready (record { meta = m; chunks = cs; vectors = vectors })
  ]

  abbrev pub prepare : FileMeta → Preparation
  prepare m = elim (engine.chunk_text m.text m.rel) [
    | none ↦ raises
    | some [] ↦ no_chunks
    | some (c ∷ cs) ↦ embedding m (c ∷ cs)
  ]

  abbrev pub write_one : Prepared → Store → Store
  write_one p s =
      (upsert_file engine.fresh engine.identifier_tokens (info_of p.meta) p.chunks (some p.vectors)
        s).0

  abbrev pub write_each : List Prepared → Store → Store
  write_each [] s = s
  write_each (p ∷ ps) s = write_each ps (write_one p s)

  abbrev pub flushed : List Prepared → Writer → Writer
  flushed [] w = w
  flushed (p ∷ ps) w =
      let s = write_each (p ∷ ps) w.store in
      record {
        store = s;
        committed = s ∷ w.committed;
        pending = [];
        written = w.written + length (p ∷ ps);
      }

  -- `written += _flush(conn, pending)`
  abbrev pub flush : Writer → Writer
  flush w = flushed w.pending w

  -- `pending.append(...)`, and the flush of a full batch
  abbrev pub put : Prepared → Writer → Writer
  put p w =
      let w' = record w { pending = w.pending ++ p ∷ [] } in
      if leb batch_files (length w'.pending) then flush w' else w'

  -- The loop and the last flush; false where the loop is left by an error.
  abbrev pub write_from : List FileMeta → Writer → Writer × Bool
  write_from [] w = (flush w, true)
  write_from (m ∷ metas) w = elim (prepare m) [
    | raises ↦ (w, false)
    | no_chunks ↦ write_from metas w
    | ready p ↦ write_from metas (put p w)
  ]

  unfoldable pub write_files : List FileMeta → Store → Writer × Bool
  write_files metas s =
      write_from metas (record { store = s; committed = []; pending = []; written = 0 })
