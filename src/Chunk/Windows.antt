-- ===== src/Chunk/Windows.antt =====
-- chunk.py: the windows of a text with a long line.
use rag_search_engine.Prelude.{
  ℕ, zero, suc, ◌+◌, ◌-◌, ◌/◌, ◌≤◌, ◌<◌, min, max, ◌≡◌, refl, Bool, true, false, ◌&&◌, Option, none,
  some, List, [], ◌∷◌, ◌++◌, length, take, drop, all, leb, ltb, ◌==◌, if◌then◌else◌, nat_discrete,
  arith, length-take, length-drop,
}
use rag_search_engine.Text.{Text}
use rag_search_engine.Chunk.{
  last_at, later, cut_at, windows_from, windows, longest_from, longest_line,
}

take-drop : (n : ℕ) (s : Text) → take n s ++ drop n s ≡ s
take-drop zero s = refl
take-drop (suc n) [] = refl
take-drop (suc n) (c ∷ s) = rw (take-drop n s) refl

below : Option ℕ → ℕ → Bool
below none n = true
below (some i) n = ltb i n

last_at-below : (sep lo : ℕ) (s : Text) → below (last_at sep lo s) (length s) ≡ true
unfolding below
last_at-below sep lo [] = refl
last_at-below sep lo (c ∷ s) = ground (arith, last_at-below sep (lo - 1) s)

later-below :
    (o p : Option ℕ) (n : ℕ) → below o n ≡ true → below p n ≡ true → below (later o p) n ≡ true
unfolding below
later-below none p n h k = k
later-below (some i) none n h k = h
later-below (some i) (some j) n h k = ground (arith, h, k)

-- What is cut off, by the length of the text and the last break.
abbrev cut_by : ℕ → ℕ → Option ℕ → ℕ
cut_by width n o = if leb n width then n else elim o [ none ↦ width | some i ↦ suc i ]

cut_by-bounds :
    (width n : ℕ) (o : Option ℕ)
    → 0 < width
    → 0 < n
    → below o (min width n) ≡ true
    → (0 < cut_by width n o) × ((cut_by width n o ≤ width) × (cut_by width n o ≤ n))
unfolding below
cut_by-bounds width n none w p h = (ground arith, (ground arith, ground arith))
cut_by-bounds width n (some i) w p h = (ground arith, (ground arith, ground arith))

-- A piece is not empty, and no longer than the text and the width.
cut_at-bounds :
    (width : ℕ) (c : ℕ) (s : Text)
    → 0 < width
    → (0 < cut_at width (c ∷ s))
      × ((cut_at width (c ∷ s) ≤ width) × (cut_at width (c ∷ s) ≤ length (c ∷ s)))
unfolding cut_at below
cut_at-bounds width c s w =
    let window = take width (c ∷ s) in
    let lo = width / 2 in
    let o =
      later (last_at b'\n' lo window) (later (last_at b',' lo window) (last_at b' ' lo window)) in
    let h =
      later-below (last_at b'\n' lo window)
        (later (last_at b',' lo window) (last_at b' ' lo window)) (length window)
        (last_at-below b'\n' lo window)
        (later-below (last_at b',' lo window) (last_at b' ' lo window) (length window)
          (last_at-below b',' lo window) (last_at-below b' ' lo window)) in
    cut_by-bounds width (length (c ∷ s)) o w (omega arith) (rw (← length-take width (c ∷ s)) h)

abbrev pub joined : List (ℕ × Text) → Text
joined [] = []
joined ((start, piece) ∷ l) = piece ++ joined l

-- Each piece begins where the one before it ends.
abbrev pub contiguous : ℕ → List (ℕ × Text) → Bool
contiguous start [] = true
contiguous start ((at, piece) ∷ l) = at == start && contiguous (start + length piece) l

abbrev pub within : ℕ → List (ℕ × Text) → Bool
within width [] = true
within width ((at, piece) ∷ l) = ltb 0 (length piece) && leb (length piece) width && within width l

IsCut : ℕ → ℕ → Text → List (ℕ × Text) → Type 0
IsCut width start text l =
    (joined l ≡ text) × ((contiguous start l ≡ true) × (within width l ≡ true))

windows_from-IsCut :
    (width fuel start : ℕ) (text : Text)
    → 0 < width
    → length text ≤ fuel
    → IsCut width start text (windows_from width fuel start text)
unfolding IsCut
windows_from-IsCut width zero start [] w h = (refl, (refl, refl))
windows_from-IsCut width zero start (c ∷ s) w h = (ground (arith, h), (refl, refl))
windows_from-IsCut width (suc fuel) start [] w h = (refl, (refl, refl))
windows_from-IsCut width (suc fuel) start (c ∷ s) w h =
    let n = cut_at width (c ∷ s) in
    let b = cut_at-bounds width c s w in
    let r =
      windows_from-IsCut width fuel (start + n) (drop n (c ∷ s)) w
        (omega (arith, h, b.0, length-drop n (c ∷ s))) in
    let l = length-take n (c ∷ s) in
    let e : length (take n (c ∷ s)) ≡ n = omega (arith, l, b.1.1) in
    let joins : take n (c ∷ s) ++ joined (windows_from width fuel (start + n) (drop n (c ∷ s)))
        ≡ c ∷ s =
      rw r.0 (take-drop n (c ∷ s)) in
    (joins, (rw e (ground (arith, r.1.0)), rw e (ground (arith, r.1.1, b.0, b.1.0))))

-- The windows of a text are its contiguous pieces, from its beginning to its end: joined they are
-- the text, each begins where the one before it ends, none is empty and none is longer than the
-- width, if that is not 0. So the loop ends.
pub windows_lem :
    (text : Text) (width : ℕ)
    → 0 < width
    → (joined (windows text width) ≡ text)
      × ((contiguous 0 (windows text width) ≡ true) × (within width (windows text width) ≡ true))
unfolding windows IsCut
windows_lem text width w = windows_from-IsCut width (length text) 0 text w (omega arith)

-- `text.split("\n")`
abbrev pub lines : Text → List Text
lines [] = [] ∷ []
lines (c ∷ s) = elim (c == b'\n') [
  | true ↦ [] ∷ lines s
  | false ↦ elim (lines s) [ [] ↦ (c ∷ []) ∷ [] | w ∷ ws ↦ (c ∷ w) ∷ ws ]
]

-- The first line has `here` characters more.
abbrev fit : ℕ → ℕ → List Text → Bool
fit n here [] = leb here n
fit n here (w ∷ ws) = leb (here + length w) n && all (λ l. leb (length l) n) ws

longest_from_lem :
    (n longest here : ℕ) (s : Text)
    → leb (longest_from longest here s) n ≡ (leb longest n && fit n here (lines s))
longest_from_lem n longest here [] = ground arith
longest_from_lem n longest here (c ∷ s) =
    ground
      (arith, longest_from_lem n (max longest here) 0 s, longest_from_lem n longest (suc here) s)

fit-zero : (n : ℕ) (ls : List Text) → fit n 0 ls ≡ all (λ l. leb (length l) n) ls
fit-zero n [] = ground arith
fit-zero n (w ∷ ws) = ground arith

-- The longest line has at most `n` characters exactly if every line of the text has.
pub longest_line_lem :
    (n : ℕ) (text : Text) → leb (longest_line text) n ≡ all (λ l. leb (length l) n) (lines text)
unfolding longest_line
longest_line_lem n text = ground (arith, longest_from_lem n 0 0 text, fit-zero n (lines text))
