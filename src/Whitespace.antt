-- ===== src/Whitespace.antt =====
-- `str.split()` and `" ".join`, on code points.
use rag_search_engine.Prelude.{
  ℕ, Bool, true, false, ◌&&◌, ◌||◌, List, [], ◌∷◌, ◌++◌, leb, list_discrete, nat_discrete,
}

abbrev between : ℕ → ℕ → ℕ → Bool
between lo hi c = leb lo c && leb c hi

-- `c.isspace()`
unfoldable pub is_space : ℕ → Bool
is_space c =
    between 9 13 c
    || between 28 32 c
    || between 133 133 c
    || between 160 160 c
    || between 5760 5760 c
    || between 8192 8202 c
    || between 8232 8233 c
    || between 8239 8239 c
    || between 8287 8287 c
    || between 12288 12288 c

-- The word that is being read goes before the others, if there is one.
abbrev pub add_word : List ℕ → List (List ℕ) → List (List ℕ)
add_word [] ws = ws
add_word (c ∷ w) ws = (c ∷ w) ∷ ws

-- `w` is the word that is being read.
abbrev pub words_from : List ℕ → List ℕ → List (List ℕ)
words_from w [] = add_word w []
words_from w (c ∷ s) = elim (is_space c) [
  | true ↦ add_word w (words_from [] s)
  | false ↦ words_from (w ++ c ∷ []) s
]

instance unfoldable pub text_discrete : Discrete (List ℕ)
unfolding list_discrete
text_discrete = list_discrete

-- `text.split()`
abbrev pub words : List ℕ → List (List ℕ)
words s = words_from [] s

-- `sep.join(parts)`
abbrev pub join : List ℕ → List (List ℕ) → List ℕ
join sep [] = []
join sep (w ∷ []) = w
join sep (w ∷ v ∷ ws) = w ++ (sep ++ join sep (v ∷ ws))
