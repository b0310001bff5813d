-- ===== src/Entry/RoundTrip.antt =====
-- A row read back from its own JSON.
use rag_search_engine.Prelude.{◌≡◌, arith}
use rag_search_engine.Entry.{ProjectEntry, to_json, from_json}

-- Reading the JSON object of a row under the row's own key gives the row back, every field of it.
pub from_json-to_json : (e : ProjectEntry) → from_json e.path (to_json e) ≡ e
unfolding from_json to_json
from_json-to_json e = ground arith
