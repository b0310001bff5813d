-- ===== src/Registry/Disk.antt =====
-- registry.py: projects.json, and `_mutate`, which reads, changes and writes it under one lock.
use rag_search_engine.Prelude.{
  ◌≡◌, refl, ap, Option, none, some, List, [], ◌∷◌, lookup, keys, sort_keys, arith,
  lookup-sort_keys, keys-sort_keys, distinct-sort,
}
use rag_search_engine.Paths.{FilePath, path_discrete, key_le, key_le_refl}
use rag_search_engine.Entry.{ProjectEntry, Row, to_json, from_json}
use rag_search_engine.Entry.RoundTrip.{from_json-to_json}
use rag_search_engine.Registry.{Rows}
use rag_search_engine.Registry.Valid.{IsRow, IsValid}

pub data RegistryFile : Type 0 where
  missing : RegistryFile
  unreadable : RegistryFile
  payload : List (FilePath × Row) → RegistryFile

abbrev pub decode : List (FilePath × Row) → Rows
decode [] = []
decode ((k, row) ∷ l) = (k, from_json k row) ∷ decode l

abbrev pub encode : Rows → List (FilePath × Row)
encode [] = []
encode ((k, e) ∷ rows) = (k, to_json e) ∷ encode rows

-- `none` is the `RuntimeError` of a file that is there and cannot be read.
unfoldable pub read_unlocked : RegistryFile → Option Rows
read_unlocked missing = some []
read_unlocked unreadable = none
read_unlocked (payload l) = some (decode l)

unfoldable pub write_unlocked : Rows → RegistryFile
write_unlocked rows = payload (encode (sort_keys key_le rows))

-- The file after the block and the block's result; nothing is written where the read raises.
unfoldable pub mutate {ℓ} :
    {A : Type ℓ} → (Rows → Rows × A) → RegistryFile → Option (RegistryFile × A)
mutate block file = elim (read_unlocked file) [
  | none ↦ none
  | some rows ↦ let (rows', result) = block rows in some (write_unlocked rows', result)
]

abbrev reread : FilePath → Option ProjectEntry → Option ProjectEntry
reread k none = none
reread k (some e) = some (from_json k (to_json e))

lookup-decode-encode :
    (k : FilePath) (rows : Rows) → lookup k (decode (encode rows)) ≡ reread k (lookup k rows)
lookup-decode-encode k [] = refl
lookup-decode-encode k ((i, e) ∷ rows) = ground (arith, lookup-decode-encode k rows)

keys-decode-encode : (rows : Rows) → keys (decode (encode rows)) ≡ keys rows
keys-decode-encode [] = refl
keys-decode-encode ((i, e) ∷ rows) = ground (arith, keys-decode-encode rows)

reread_same :
    (k : FilePath) (o : Option ProjectEntry)
    → ((e : ProjectEntry) → o ≡ some e → IsRow k e)
    → reread k o ≡ o
reread_same k none h = refl
reread_same k (some e) h = let p = (h e refl).keyed in rw (← p) (ap some (from_json-to_json e))

-- What is written is read back, in another order.
abbrev pub reread_rows : Rows → Rows
reread_rows rows = decode (encode (sort_keys key_le rows))

pub lookup-reread_rows :
    (k : FilePath) (rows : Rows) → IsValid rows → lookup k (reread_rows rows) ≡ lookup k rows
lookup-reread_rows k rows v =
    rw (lookup-decode-encode, lookup-sort_keys key_le key_le_refl)
      (reread_same k (lookup k rows) (v.row k))

pub reread_rows-IsValid : (rows : Rows) → IsValid rows → IsValid (reread_rows rows)
reread_rows-IsValid rows v = record {
  one_row = rw (keys-decode-encode, keys-sort_keys) (distinct-sort key_le (keys rows) v.one_row);
  row = λ k e h. v.row k e (ground (arith, lookup-reread_rows k rows v));
}
