-- ===== src/Glob.antt =====
-- `fnmatch.fnmatch` on texts: `*` spans everything, `/` too; `?` is one character; `[...]` a set.
use Prim.Native.Char.{code}
use rag_search_engine.Prelude.{
  ℕ, zero, suc, String, ◌≡◌, refl, Bool, true, false, not, ◌&&◌, ◌||◌, List, [], ◌∷◌, Option, none,
  some, leb, length, if◌then◌else◌,
}

-- The code points of a text.
abbrev pub codes : String → List ℕ
codes String.[] = []
codes (String.◌∷◌ c s) = code c ∷ codes s

abbrev pub eqb : ℕ → ℕ → Bool
eqb a b = leb a b && leb b a

-- A character set, as ranges.
abbrev pub Ranges : Type 0
Ranges = List (ℕ × ℕ)

pub data Token : Type 0 where
  star : Token
  one : Token
  lit : ℕ → Token
  set : Bool → Ranges → Token

unfoldable pub in_ranges : ℕ → Ranges → Bool
in_ranges c [] = false
in_ranges c ((lo, hi) ∷ r) = (leb lo c && leb c hi) || in_ranges c r

-- The inside of `[...]`: `a-z` is a range, all else stands for itself.
unfoldable pub ranges : List ℕ → Ranges
ranges (a ∷ d ∷ b ∷ rest) = elim (eqb d b'-') [
  | true ↦ (a, b) ∷ ranges rest
  | false ↦ (a, a) ∷ ranges (d ∷ b ∷ rest)
]
ranges (a ∷ rest) = (a, a) ∷ ranges rest
ranges [] = []

-- What stands before the next `]`, and what behind it.
unfoldable pub to_bracket : List ℕ → Option (List ℕ × List ℕ)
to_bracket [] = none
to_bracket (c ∷ rest) = elim (eqb c b']') [
  | true ↦ some ([], rest)
  | false ↦ elim (to_bracket rest) [ none ↦ none | some (a, b) ↦ some (c ∷ a, b) ]
]

-- A `]` that stands first belongs to the set.
unfoldable pub set_body : List ℕ → Option (List ℕ × List ℕ)
set_body [] = none
set_body (c ∷ rest) = elim (eqb c b']') [
  | true ↦ elim (to_bracket rest) [ none ↦ none | some (a, b) ↦ some (c ∷ a, b) ]
  | false ↦ to_bracket (c ∷ rest)
]

unfoldable pub set_token : List ℕ → Option (Token × List ℕ)
set_token [] = none
set_token (c ∷ rest) = elim (eqb c b'!') [
  | true ↦ elim (set_body rest) [ none ↦ none | some (a, b) ↦ some (set true (ranges a), b) ]
  | false ↦ elim (set_body (c ∷ rest)) [
    | none ↦ none
    | some (a, b) ↦ some (set false (ranges a), b)
  ]
]

-- Every round takes a character at least, so the pattern's length is fuel enough.
unfoldable pub tokens : ℕ → List ℕ → List Token
tokens zero p = []
tokens (suc f) [] = []
tokens (suc f) (c ∷ p) = elim (eqb c b'*') [
  | true ↦ star ∷ tokens f p
  | false ↦ elim (eqb c b'?') [
    | true ↦ one ∷ tokens f p
    | false ↦ elim (eqb c b'[') [
      | true ↦ elim (set_token p) [ none ↦ lit c ∷ tokens f p | some (t, rest) ↦ t ∷ tokens f rest ]
      | false ↦ lit c ∷ tokens f p
    ]
  ]
]

unfoldable pub takes : Token → ℕ → Bool
takes star c = true
takes one c = true
takes (lit a) c = eqb a c
takes (set negated r) c = if negated then not (in_ranges c r) else in_ranges c r

-- `star` first tries to end, and then takes one more character.
unfoldable pub matches : List Token → List ℕ → Bool
matches [] [] = true
matches [] (c ∷ s) = false
matches (star ∷ p) [] = matches p []
matches (star ∷ p) (c ∷ s) = elim (matches p (c ∷ s)) [ true ↦ true | false ↦ matches (star ∷ p) s ]
matches (t ∷ p) [] = false
matches (t ∷ p) (c ∷ s) = elim (takes t c) [ true ↦ matches p s | false ↦ false ]

-- A name given by its code points.
unfoldable pub fnmatch_codes : List ℕ → String → Bool
unfolding tokens matches set_token set_body to_bracket ranges in_ranges takes
fnmatch_codes name pattern = matches (tokens (length (codes pattern)) (codes pattern)) name

pub fnmatch : String → String → Bool
unfolding fnmatch_codes
fnmatch name pattern = fnmatch_codes (codes name) pattern

spans_slashes : fnmatch "wiki/a/b.md" "wiki/*" ≡ true
unfolding fnmatch
spans_slashes = refl

anchored : fnmatch "packages/a/package-lock.json" "package-lock.json" ≡ false
unfolding fnmatch
anchored = refl

sets : fnmatch "a-5x" "[!b]-[0-9]?" ≡ true
unfolding fnmatch
sets = refl
