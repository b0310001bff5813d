-- ===== src/Entry.antt =====
-- entry.py: the row of the registry, and the JSON object that it is kept as.
pub mod RoundTrip
use rag_search_engine.Prelude.{
  ℕ, String, Bool, true, false, not, ◌&&◌, Option, none, some, List, [], ◌∷◌, lookup,
  string_discrete, ltb, ◌==◌,
}
use rag_search_engine.Paths.{FilePath}

-- Times are whole ticks.
pub record ProjectEntry : Type 0 where
  pub path : FilePath
  pub enabled : Bool
  pub direct : Bool
  pub roots : List FilePath
  pub tags : List String
  pub indexed_at : Option ℕ
  pub file_count : ℕ
  pub chunk_count : ℕ
  pub last_error : Option String
  pub last_error_at : Option ℕ
  pub error_total : ℕ
  pub config_signature : String
  pub dev : ℕ

-- `ProjectEntry(path=path)`
abbrev pub blank : FilePath → ProjectEntry
blank path = record {
  path = path;
  enabled = true;
  direct = false;
  roots = [];
  tags = [];
  indexed_at = none;
  file_count = 0;
  chunk_count = 0;
  last_error = none;
  last_error_at = none;
  error_total = 0;
  config_signature = "";
  dev = 0;
}

abbrev pub is_empty {ℓ} : {A : Type ℓ} → List A → Bool
is_empty [] = true
is_empty (x ∷ xs) = false

-- Nothing claims this project any more.
abbrev pub orphaned : ProjectEntry → Bool
orphaned e = not e.direct && is_empty e.roots

-- The JSON values of a row. A list of paths is the list of their texts.
pub data Json : Type 0 where
  null : Json
  bool : Bool → Json
  num : ℕ → Json
  text : String → Json
  texts : List String → Json
  paths : List FilePath → Json

abbrev pub Row : Type 0
Row = List (String × Json)

abbrev of_num : Option ℕ → Json
of_num none = null
of_num (some n) = num n

abbrev of_text : Option String → Json
of_text none = null
of_text (some s) = text s

pub to_json : ProjectEntry → Row
to_json e =
    ("enabled", bool e.enabled)
    ∷ ("direct", bool e.direct)
    ∷ ("roots", paths e.roots)
    ∷ ("tags", texts e.tags)
    ∷ ("indexed_at", of_num e.indexed_at)
    ∷ ("file_count", num e.file_count)
    ∷ ("chunk_count", num e.chunk_count)
    ∷ ("last_error", of_text e.last_error)
    ∷ ("last_error_at", of_num e.last_error_at)
    ∷ ("error_total", num e.error_total)
    ∷ ("config_signature", text e.config_signature)
    ∷ ("dev", num e.dev)
    ∷ []

-- `bool(value)`
truthy : Json → Bool
truthy null = false
truthy (bool b) = b
truthy (num n) = ltb 0 n
truthy (text s) = not (s == "")
truthy (texts l) = not (is_empty l)
truthy (paths l) = not (is_empty l)

-- `bool(row.get(name, default))`
bool_at : String → Bool → Row → Bool
unfolding truthy
bool_at name default row = elim (lookup name row) [ some v ↦ truthy v | none ↦ default ]

-- The other fields at their own type. A value of another type, which this program never writes
-- and where `int` may raise, reads as the default.

num_at : String → Row → ℕ
num_at name row = elim (lookup name row) [ some (num n) ↦ n | _ ↦ 0 ]

text_at : String → Row → String
text_at name row = elim (lookup name row) [ some (text s) ↦ s | _ ↦ "" ]

texts_at : String → Row → List String
texts_at name row = elim (lookup name row) [ some (texts l) ↦ l | _ ↦ [] ]

paths_at : String → Row → List FilePath
paths_at name row = elim (lookup name row) [ some (paths l) ↦ l | _ ↦ [] ]

num_or_none_at : String → Row → Option ℕ
num_or_none_at name row = elim (lookup name row) [ some (num n) ↦ some n | _ ↦ none ]

text_or_none_at : String → Row → Option String
text_or_none_at name row = elim (lookup name row) [ some (text s) ↦ some s | _ ↦ none ]

pub from_json : FilePath → Row → ProjectEntry
unfolding bool_at num_at text_at texts_at paths_at num_or_none_at text_or_none_at string_discrete
from_json path row = record {
  path = path;
  enabled = bool_at "enabled" true row;
  direct = bool_at "direct" false row;
  roots = paths_at "roots" row;
  tags = texts_at "tags" row;
  indexed_at = num_or_none_at "indexed_at" row;
  file_count = num_at "file_count" row;
  chunk_count = num_at "chunk_count" row;
  last_error = text_or_none_at "last_error" row;
  last_error_at = num_or_none_at "last_error_at" row;
  error_total = num_at "error_total" row;
  config_signature = text_at "config_signature" row;
  dev = num_at "dev" row;
}
