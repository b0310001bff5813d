-- ===== src/Lexical.antt =====
-- lexical.py: the parts of an identifier, and the expression for the full-text index.
pub mod Found
pub mod Cuts
pub mod Matches
pub mod Splits
pub mod Parts
pub mod Quoting
use rag_search_engine.Prelude.{
  ℕ, zero, suc, ◌+◌, max, Bool, true, false, not, ◌&&◌, ◌||◌, List, [], ◌∷◌, ◌++◌, map, length,
  take, drop, dedup, leb, ltb, ◌==◌, if◌then◌else◌, nat_discrete,
}
use rag_search_engine.Glob.{codes}
use rag_search_engine.Whitespace.{join, text_discrete}
use rag_search_engine.Text.{Text}

abbrev pub is_upper : ℕ → Bool
is_upper c = leb b'A' c && leb c b'Z'

abbrev pub is_lower : ℕ → Bool
is_lower c = leb b'a' c && leb c b'z'

-- `[a-z0-9]`
abbrev pub is_small : ℕ → Bool
is_small c = is_lower c || (leb b'0' c && leb c b'9')

abbrev pub is_alnum : ℕ → Bool
is_alnum c = is_upper c || is_small c

-- `[A-Za-z0-9_$.]`
abbrev pub is_term : ℕ → Bool
is_term c = is_alnum c || (c == b'_' || (c == b'$' || c == b'.'))

-- `[_$.\-/]`
abbrev pub is_separator : ℕ → Bool
is_separator c = c == b'_' || (c == b'$' || (c == b'.' || (c == b'-' || c == b'/')))

-- The length of the run that the text begins with.
abbrev pub span : (ℕ → Bool) → Text → ℕ
span p [] = 0
span p (c ∷ s) = let n = span p s in if p c then suc n else 0

abbrev pub begins_lower : Text → Bool
begins_lower [] = false
begins_lower (c ∷ s) = is_lower c

-- How much of the text `_CAMEL` matches at its beginning, 0 for no match. A run of capitals that a
-- small letter follows gives its last capital back; one capital alone takes what follows it.
abbrev pub camel_from : ℕ → Text → ℕ
camel_from zero s = span is_small s
camel_from (suc zero) s = if begins_lower (drop 1 s) then suc (span is_small (drop 1 s)) else 1
camel_from (suc (suc u)) s = if begins_lower (drop (suc (suc u)) s) then suc u else suc (suc u)

abbrev pub camel_match : Text → ℕ
camel_match s = camel_from (span is_upper s) s

-- `pattern.findall(s)`, where `m` says how much the pattern matches at the beginning of a text.
-- Every round takes a character at least.
abbrev pub taken : ℕ → Text → List Text → List Text
taken zero s rest = rest
taken (suc k) s rest = take (suc k) s ∷ rest

abbrev pub findall_from : (Text → ℕ) → ℕ → Text → List Text
findall_from m zero s = []
findall_from m (suc fuel) [] = []
findall_from m (suc fuel) (c ∷ s) =
    let k = m (c ∷ s) in
    let rest = findall_from m fuel (drop (max 1 k) (c ∷ s)) in taken k (c ∷ s) rest

abbrev pub findall : (Text → ℕ) → Text → List Text
findall m s = findall_from m (length s) s

abbrev pub onto_first : ℕ → List Text → List Text
onto_first c [] = (c ∷ []) ∷ []
onto_first c (w ∷ ws) = (c ∷ w) ∷ ws

-- `re.split(r"[_$.\-/]+", word)`; the flag says that a run of separators is being read.
abbrev pub split_from : Bool → Text → List Text
split_from b [] = [] ∷ []
split_from b (c ∷ s) =
    let rest = split_from (is_separator c) s in
    if is_separator c then (if b then rest else [] ∷ rest) else onto_first c rest

abbrev pub camel_each : List Text → List Text
camel_each [] = []
camel_each (w ∷ ws) = findall camel_match w ++ camel_each ws

abbrev pub pieces : Text → List Text
pieces word = camel_each (split_from false word)

-- `str.lower` of a text of ASCII characters.
abbrev pub lower : ℕ → ℕ
lower c = if is_upper c then c + 32 else c

unfoldable pub split_identifier : Text → List Text
split_identifier word = let ps = pieces word in if ltb (length ps) 2 then [] else map (map lower) ps

-- `_TERM.findall(text)`
abbrev pub words_of : Text → List Text
words_of s = findall (span is_term) s

abbrev pub parts_of_each : List Text → List Text
parts_of_each [] = []
parts_of_each (w ∷ ws) = split_identifier w ++ parts_of_each ws

unfoldable pub identifier_tokens : Text → Text
identifier_tokens s = join (codes " ") (dedup (parts_of_each (words_of s)))

abbrev pub with_parts : List Text → List Text
with_parts [] = []
with_parts (w ∷ ws) = map lower w ∷ (split_identifier w ++ with_parts ws)

-- `t.replace('"', '""')`
abbrev pub doubled : Text → Text
doubled [] = []
doubled (c ∷ s) = let rest = doubled s in if c == b'"' then b'"' ∷ b'"' ∷ rest else c ∷ rest

abbrev pub quoted : Text → Text
quoted t = b'"' ∷ (doubled t ++ b'"' ∷ [])

-- The keys of the dict `terms`.
abbrev pub terms : Text → List Text
terms q = dedup (with_parts (words_of q))

-- The join of no terms is the empty text, too.
unfoldable pub fts_query : Text → Text
fts_query q = join (codes " OR ") (map quoted (terms q))
