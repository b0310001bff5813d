-- ===== src/Text.antt =====
-- Texts as lists of code points, and what Python's own library computes on them.
use rag_search_engine.Prelude.{
  ℕ, String, Bool, false, ◌||◌, List, [], ◌∷◌, ◌==◌, if◌then◌else◌, Option, none, some,
  nat_discrete,
}
use rag_search_engine.Glob.{codes}
use rag_search_engine.Whitespace.{text_discrete}

abbrev pub Text : Type 0
Text = List ℕ

pub record Library : Type 0 where
  -- `str.lower`
  pub lower : Text → Text
  -- `hashlib.sha256(raw).hexdigest()`
  pub digest : List ℕ → String
  -- `raw.decode("utf-8", "replace")` and `text.encode("utf-8", "replace")`
  pub decode : List ℕ → Text
  pub encode : Text → List ℕ

-- `s in names` and `table.get(s)`, of a text and of literals.
abbrev pub is_one_of : Text → List String → Bool
is_one_of s [] = false
is_one_of s (n ∷ names) = codes n == s || is_one_of s names

abbrev pub entry_of : Text → List (String × String) → Option String
entry_of s [] = none
entry_of s ((k, v) ∷ table) = if codes k == s then some v else entry_of s table
