-- ===== src/Chunk.antt =====
-- chunk.py: a file cut into chunks with their line ranges. The splitters are a library's: `split`
-- gives what `chunk_indices` gives, for the Markdown splitter or the plain one.
pub mod Windows
pub mod Lines
use rag_search_engine.Prelude.{
  ℕ, zero, suc, ◌+◌, ◌-◌, ◌/◌, min, max, String, Bool, true, false, not, ◌&&◌, ◌||◌, Option, none,
  some, List, [], ◌∷◌, ◌++◌, map, length, take, drop, filter, all, member, leb, ltb, ◌==◌,
  if◌then◌else◌, nat_discrete, string_discrete,
}
use rag_search_engine.Whitespace.{is_space}
use rag_search_engine.Text.{Text, Library}
use rag_search_engine.Store.{Chunk}
use rag_search_engine.Filters.{lang_of}
use rag_search_engine.Filters.Languages.{doc_langs}

-- `Chunk.embed_text`
unfoldable pub embed_text : Chunk → Text
embed_text c = elim c.header [ [] ↦ c.text | _ ↦ c.header ++ (b'\n' ∷ c.text) ]

abbrev pub nonwhitespace : Text → ℕ
nonwhitespace text = length (filter (λ c. not (is_space c)) text)

-- `not text.strip()`
abbrev pub is_blank : Text → Bool
is_blank text = all is_space text

abbrev pub newlines : Text → ℕ
newlines [] = 0
newlines (c ∷ s) = if c == b'\n' then suc (newlines s) else newlines s

abbrev pub ends_line : Text → Bool
ends_line [] = false
ends_line (c ∷ []) = c == b'\n'
ends_line (c ∷ d ∷ s) = ends_line (d ∷ s)

-- `text.rfind(sep, lo)`
abbrev pub last_at : ℕ → ℕ → Text → Option ℕ
last_at sep lo [] = none
last_at sep lo (c ∷ s) = elim (last_at sep (lo - 1) s) [
  | some i ↦ some (suc i)
  | none ↦ if leb lo 0 && c == sep then some 0 else none
]

abbrev pub later : Option ℕ → Option ℕ → Option ℕ
later none o = o
later (some i) none = some i
later (some i) (some j) = some (max i j)

-- Where the first piece of a text ends.
unfoldable pub cut_at : ℕ → Text → ℕ
cut_at width rest =
    if leb (length rest) width
    then length rest
    else (let window = take width rest in
        let lo = width / 2 in
        elim (later (last_at b'\n' lo window)
          (later (last_at b',' lo window) (last_at b' ' lo window))) [
            | none ↦ width
            | some i ↦ suc i
          ])

-- The `while` loop; `rest` is `text[start:]`.
abbrev pub windows_from : ℕ → ℕ → ℕ → Text → List (ℕ × Text)
windows_from width zero start rest = []
windows_from width (suc fuel) start [] = []
windows_from width (suc fuel) start (c ∷ rest) =
    let n = cut_at width (c ∷ rest) in
    (start, take n (c ∷ rest)) ∷ windows_from width fuel (start + n) (drop n (c ∷ rest))

-- Every piece takes a character at least, so the length of the text is fuel enough.
unfoldable pub windows : Text → ℕ → List (ℕ × Text)
windows text width = windows_from width (length text) 0 text

abbrev pub long_line : ℕ
long_line = 32768

-- `longest`, and the length of the line that is being read
abbrev pub longest_from : ℕ → ℕ → Text → ℕ
longest_from longest here [] = max longest here
longest_from longest here (c ∷ s) =
    if c == b'\n' then longest_from (max longest here) 0 s else longest_from longest (suc here) s

unfoldable pub longest_line : Text → ℕ
longest_line text = longest_from 0 0 text

-- `text.count("\n", cursor, offset)`
abbrev pub newlines_between : ℕ → ℕ → Text → ℕ
newlines_between cursor offset text = newlines (take (offset - cursor) (drop cursor text))

abbrev pub last_line : ℕ → Text → ℕ
last_line line body = line + newlines body - (if ends_line body then 1 else 0)

abbrev pub shifted : ℕ → List (ℕ × Text) → List (ℕ × Text)
shifted base [] = []
shifted base ((offset, body) ∷ l) = (offset + base, body) ∷ shifted base l

-- What the two loops go over: the bodies with their offsets in the file.
abbrev pub placed : (Text → List (ℕ × Text)) → List (ℕ × Text) → List (ℕ × Text)
placed chunk_indices [] = []
placed chunk_indices ((base, piece) ∷ pieces) =
    shifted base (chunk_indices piece) ++ placed chunk_indices pieces

pub record Settings : Type 0 where
  pub size : ℕ
  pub overlap : ℕ
  pub header : Bool
  pub md_splitter : Bool

-- `pieces`
abbrev pub pieces_of : Text → List (ℕ × Text)
pieces_of text =
    if ltb long_line (longest_line text) then windows text long_line else (0, text) ∷ []

module _ (lib : Library) where
  abbrev pub located : Text → Text → ℕ → ℕ → ℕ → List (ℕ × Text) → List Chunk
  located text header ord cursor line [] = []
  located text header ord cursor line ((offset, body) ∷ l) =
      let line' = line + newlines_between cursor offset text in
      let c : Chunk = record {
        ord = ord;
        start_line = line';
        end_line = max line' (last_line line' body);
        n_chars = nonwhitespace body;
        sha256 = lib.digest (lib.encode body);
        text = body;
        header = header;
      } in
      c ∷ located text header (ord + 1) offset line' l

  module _ (split : Bool → ℕ → ℕ → Text → List (ℕ × Text)) (cfg : Settings) where
    -- `splitter.chunk_indices`, of the splitter that is chosen for a path
    abbrev pub chunk_indices : Text → Text → List (ℕ × Text)
    chunk_indices rel_path =
        let markdown = cfg.md_splitter && member (lang_of lib.lower rel_path) doc_langs in
        split markdown cfg.size cfg.overlap

    -- Nothing where it raises.
    unfoldable pub chunk_text : Text → Text → Option (List Chunk)
    chunk_text text rel_path =
        if leb cfg.size cfg.overlap
        then none
        else if is_blank text
        then some []
        else (let header = if cfg.header then rel_path else [] in
            some (located text header 0 0 1 (placed (chunk_indices rel_path) (pieces_of text))))
