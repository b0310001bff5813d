-- ===== src/Lexical/Parts.antt =====
-- lexical.py: what the parts of an identifier are.
use rag_search_engine.Prelude.{
  ◌≡◌, refl, ap, ◌∙◌, List, [], ◌∷◌, map, length, filter, ltb, if◌then◌else◌, Bool-cases, inl, inr,
  ℕ,
}
use rag_search_engine.Text.{Text}
use rag_search_engine.Lexical.{is_alnum, onto_first, pieces, lower, split_identifier}
use rag_search_engine.Lexical.Found.{joined}
use rag_search_engine.Lexical.Cuts.{is_cut, cut_up}
use rag_search_engine.Lexical.Splits.{pieces-cut_up}

joined-onto_first : (c : ℕ) (ws : List Text) → joined (onto_first c ws) ≡ c ∷ joined ws
joined-onto_first c [] = refl
joined-onto_first c (w ∷ ws) = refl

joined-cut_up : (word : Text) → joined (cut_up word) ≡ filter is_alnum word
joined-cut_up [] = refl
joined-cut_up (c ∷ s) = elim (Bool-cases (is_alnum c)) [
  | inr f ↦ rw f (joined-cut_up s)
  | inl t ↦ elim (Bool-cases (is_cut c s)) [
    | inl k ↦ rw (t, k) (ap (λ l. c ∷ l) (joined-cut_up s))
    | inr k ↦ rw (t, k) (joined-onto_first c (cut_up s) ∙ ap (λ l. c ∷ l) (joined-cut_up s))
  ]
]

-- The parts of a word are its pieces in small letters, where there are two at least, and nothing
-- otherwise. The pieces hold the letters and digits of the word in their order, and the word is cut
-- exactly at what is neither letter nor digit, between a small letter or a digit and a capital,
-- between a capital and a digit, and before the last of several capitals where a small letter
-- follows it.
pub split_identifier_lem :
    (word : Text)
    → (split_identifier word
        ≡ (if ltb (length (cut_up word)) 2 then [] else map (map lower) (cut_up word)))
      × (pieces word ≡ cut_up word)
      × (joined (cut_up word) ≡ filter is_alnum word)
unfolding split_identifier
split_identifier_lem word = (
  ap (λ ps. if ltb (length ps) 2 then [] else map (map lower) ps) (pieces-cut_up word),
  pieces-cut_up word,
  joined-cut_up word,
)
