-- ===== src/Chunk/Lines.antt =====
-- chunk.py: the line range of a chunk.
use rag_search_engine.Prelude.{
  ℕ, zero, suc, ◌+◌, ◌-◌, ◌≤◌, ◌<◌, max, ◌≡◌, refl, Bool, true, false, ◌&&◌, some, List, [], ◌∷◌,
  ◌++◌, length, take, leb, ltb, if◌then◌else◌, nat_discrete, arith, Bool-cases, inl, inr,
}
use rag_search_engine.Text.{Text, Library}
use rag_search_engine.Store.{Chunk}
use rag_search_engine.Chunk.{
  newlines, ends_line, newlines_between, last_line, located, is_blank, long_line, longest_line,
  shifted, placed, pieces_of, Settings, chunk_indices, chunk_text,
}
use rag_search_engine.Chunk.Windows.{contiguous, windows_lem}

-- The line that the character at an offset stands on, counted from the top of the file.
abbrev pub line_at : Text → ℕ → ℕ
line_at text offset = 1 + newlines (take offset text)

-- A text without its last character.
abbrev pub but_last : Text → Text
but_last [] = []
but_last (c ∷ []) = []
but_last (c ∷ d ∷ s) = c ∷ but_last (d ∷ s)

-- The line that the last character of a body stands on, where the body begins on `line`.
abbrev pub end_at : ℕ → Text → ℕ
end_at line body = line + newlines (but_last body)

newlines-but_last :
    (body : Text) → newlines body ≡ newlines (but_last body) + (if ends_line body then 1 else 0)
newlines-but_last [] = refl
newlines-but_last (c ∷ []) = ground arith
newlines-but_last (c ∷ d ∷ s) = ground (arith, newlines-but_last (d ∷ s))

last_line-end_at : (line : ℕ) (body : Text) → max line (last_line line body) ≡ end_at line body
last_line-end_at line body = ground (arith, newlines-but_last body)

abbrev pub ranges : Text → List (ℕ × Text) → List (ℕ × (ℕ × Text))
ranges text [] = []
ranges text ((offset, body) ∷ l) =
    (line_at text offset, (end_at (line_at text offset) body, body)) ∷ ranges text l

abbrev pub ranges_of : List Chunk → List (ℕ × (ℕ × Text))
ranges_of [] = []
ranges_of (c ∷ cs) = (c.start_line, (c.end_line, c.text)) ∷ ranges_of cs

-- The offsets do not descend.
abbrev pub ascends : ℕ → List (ℕ × Text) → Bool
ascends cursor [] = true
ascends cursor ((offset, body) ∷ l) = leb cursor offset && ascends offset l

take-nil : (n : ℕ) → take {A = ℕ} n [] ≡ []
take-nil zero = refl
take-nil (suc n) = refl

newlines-split :
    (cursor offset : ℕ) (text : Text)
    → cursor ≤ offset
    → newlines (take cursor text) + newlines_between cursor offset text
      ≡ newlines (take offset text)
newlines-split zero offset text h = let e : offset - 0 ≡ offset = omega arith in rw e (omega arith)
newlines-split (suc cursor) zero text h = omega (arith, h)
newlines-split (suc cursor) (suc offset) [] h = rw (take-nil (suc offset - suc cursor)) refl
newlines-split (suc cursor) (suc offset) (c ∷ s) h =
    ground (arith, newlines-split cursor offset s (omega (arith, h)))

-- What a splitter finds in a piece: the offsets do not descend and lie in the piece.
abbrev pub climbs : ℕ → ℕ → List (ℕ × Text) → Bool
climbs lo hi [] = true
climbs lo hi ((offset, body) ∷ l) = leb lo offset && leb offset hi && climbs offset hi l

abbrev pub IsSplitter : (Text → List (ℕ × Text)) → Type 0
IsSplitter split = (piece : Text) → climbs 0 (length piece) (split piece) ≡ true

ascends-le : (i j : ℕ) (l : List (ℕ × Text)) → i ≤ j → ascends j l ≡ true → ascends i l ≡ true
ascends-le i j [] h k = refl
ascends-le i j ((offset, body) ∷ l) h k = ground (arith, h, k)

ascends-shifted :
    (lo hi base : ℕ) (l rest : List (ℕ × Text))
    → lo ≤ hi
    → climbs lo hi l ≡ true
    → ascends (base + hi) rest ≡ true
    → ascends (lo + base) (shifted base l ++ rest) ≡ true
ascends-shifted lo hi base [] rest o h k =
    ascends-le (lo + base) (base + hi) rest (omega (arith, o)) k
ascends-shifted lo hi base ((offset, body) ∷ l) rest o h k =
    ground
      (arith, h, ascends-shifted offset hi base l rest (ground (arith, h)) (ground (arith, h)) k)

ascends-placed :
    (split : Text → List (ℕ × Text)) (start : ℕ) (pieces : List (ℕ × Text))
    → IsSplitter split
    → contiguous start pieces ≡ true
    → ascends start (placed split pieces) ≡ true
ascends-placed split start [] v h = refl
ascends-placed split start ((base, piece) ∷ pieces) v h =
    let rest = ascends-placed split (start + length piece) pieces v (ground (arith, h)) in
    let e : base ≡ start = ground (arith, h) in
    let both = shifted start (split piece) ++ placed split pieces in
    rw e (
      ascends-le start (0 + start) both (omega arith) (
        ascends-shifted 0 (length piece) start (split piece) (placed split pieces) (omega arith)
          (v piece) rest))

pieces_of-contiguous : (text : Text) → contiguous 0 (pieces_of text) ≡ true
pieces_of-contiguous text = elim (Bool-cases (ltb long_line (longest_line text))) [
  | inl t ↦ rw t (windows_lem text long_line (omega arith)).1.0
  | inr f ↦ rw f (ground arith)
]

module _ (lib : Library) where
  ranges_of-located :
      (text header : Text) (ord cursor : ℕ) (l : List (ℕ × Text))
      → ascends cursor l ≡ true
      → ranges_of (located lib text header ord cursor (line_at text cursor) l) ≡ ranges text l
  ranges_of-located text header ord cursor [] h = refl
  ranges_of-located text header ord cursor ((offset, body) ∷ l) h =
      let e : line_at text cursor + newlines_between cursor offset text ≡ line_at text offset =
        omega (arith, newlines-split cursor offset text (ground (arith, h))) in
      let rest = ranges_of-located text header (ord + 1) offset l (ground (arith, h)) in
      rw (e, rest, last_line-end_at (line_at text offset) body) refl

  -- Of a text that is not blank, under settings whose overlap is smaller than their size, the
  -- chunks are the bodies that the splitter finds, in their order, each with the line that its
  -- first character stands on in the whole file, and with the line of its last character, which
  -- is as many lines below as there are newlines in the body before that character; also where the
  -- file is cut into windows first. The offsets that the splitter gives lie in the piece and do
  -- not descend.
  pub chunk_text_lem :
      (split : Bool → ℕ → ℕ → Text → List (ℕ × Text)) (cfg : Settings) (text rel_path : Text)
      → cfg.overlap < cfg.size
      → is_blank text ≡ false
      → IsSplitter (chunk_indices lib split cfg rel_path)
      → (cs : List Chunk) × ((chunk_text lib split cfg text rel_path ≡ some cs)
          × (ranges_of cs
              ≡ ranges text (placed (chunk_indices lib split cfg rel_path) (pieces_of text))))
  unfolding chunk_text
  chunk_text_lem split cfg text rel_path o b v =
      let bodies = placed (chunk_indices lib split cfg rel_path) (pieces_of text) in
      let header = if cfg.header then rel_path else [] in
      let up =
        ascends-placed (chunk_indices lib split cfg rel_path) 0 (pieces_of text) v
          (pieces_of-contiguous text) in
      let c : leb cfg.size cfg.overlap ≡ false = ground (arith, o) in
      (
        located lib text header 0 0 1 bodies,
        (rw (c, b) refl, ranges_of-located text header 0 0 bodies up),
      )
