-- ===== src/Lexical/Quoting.antt =====
-- lexical.py: what of a query stands outside quotes.
use rag_search_engine.Prelude.{
  ℕ, ◌≡◌, refl, ap, ◌∙◌, Bool, true, false, not, ◌||◌, List, [], ◌∷◌, ◌++◌, map, all, any, filter,
  dedup, ◌==◌, if◌then◌else◌, nat_discrete, arith, Bool-cases, inl, inr,
}
use rag_search_engine.Glob.{codes}
use rag_search_engine.Whitespace.{join, text_discrete}
use rag_search_engine.Text.{Text}
use rag_search_engine.Lexical.{
  is_term, span, words_of, with_parts, doubled, quoted, terms, fts_query,
}
use rag_search_engine.Lexical.Found.{
  joined, is_filled, append_assoc, joined-findall, filled-findall, span-IsMatch,
}

-- What stands outside double quotes; a quote that is not closed shows at the end. The flag says
-- that one is open.
abbrev pub outside : Bool → Text → Text
outside true [] = b'"' ∷ []
outside false [] = []
outside b (c ∷ s) =
    let rest = outside (if c == b'"' then not b else b) s in
    if c == b'"' || b then rest else c ∷ rest

outside_quote : (b : Bool) (s : Text) → outside b (b'"' ∷ s) ≡ outside (not b) s
unfolding native.Mathlib.Decide.ℕ_discrete
outside_quote true s = refl
outside_quote false s = refl

outside_inner : (c : ℕ) (s : Text) → (c == b'"') ≡ false → outside true (c ∷ s) ≡ outside true s
outside_inner c s f = rw f refl

outside-doubled : (t s : Text) → outside true (doubled t ++ s) ≡ outside true s
outside-doubled [] s = refl
outside-doubled (c ∷ t) s = elim (Bool-cases (c == b'"')) [
  | inl e ↦ rw e (
      outside_quote true (b'"' ∷ (doubled t ++ s))
      ∙ (outside_quote false (doubled t ++ s) ∙ outside-doubled t s))
  | inr f ↦ rw f (outside_inner c (doubled t ++ s) f ∙ outside-doubled t s)
]

outside-quoted : (t s : Text) → outside false (quoted t ++ s) ≡ outside false s
outside-quoted t s =
    outside_quote false ((doubled t ++ b'"' ∷ []) ++ s)
    ∙ (ap (outside true) (append_assoc (doubled t) (b'"' ∷ []) s)
        ∙ (outside-doubled t (b'"' ∷ s) ∙ outside_quote true s))

outside_or : (s : Text) → outside false (codes " OR " ++ s) ≡ codes " OR " ++ outside false s
unfolding native.Mathlib.Decide.ℕ_discrete
outside_or s = refl

append_nil : (a : Text) → a ≡ a ++ []
append_nil [] = refl
append_nil (c ∷ a) = ap (λ l. c ∷ l) (append_nil a)

outside-join :
    (ts : List Text)
    → outside false (join (codes " OR ") (map quoted ts)) ≡ join (codes " OR ") (map (λ t. []) ts)
outside-join [] = refl
outside-join (t ∷ []) = ap (outside false) (append_nil (quoted t)) ∙ outside-quoted t []
outside-join (t ∷ v ∷ ts) =
    let rest = join (codes " OR ") (map quoted (v ∷ ts)) in
    outside-quoted t (codes " OR " ++ rest)
    ∙ (outside_or rest ∙ ap (λ l. codes " OR " ++ l) (outside-join (v ∷ ts)))

abbrev is_any : List Text → Bool
is_any [] = false
is_any (t ∷ ts) = true

filled-join : (ts : List Text) → is_filled (join (codes " OR ") (map quoted ts)) ≡ is_any ts
filled-join [] = refl
filled-join (t ∷ []) = refl
filled-join (t ∷ v ∷ ts) = refl

any-terms : (ws : List Text) → is_any (dedup (with_parts ws)) ≡ is_any ws
any-terms [] = refl
any-terms (w ∷ ws) = refl

any-words : (ws : List Text) → all is_filled ws ≡ true → is_any ws ≡ is_filled (joined ws)
any-words [] h = refl
any-words ([] ∷ ws) h = ground (arith, h)
any-words ((c ∷ w) ∷ ws) h = refl

filled-filter : (p : ℕ → Bool) (s : Text) → is_filled (filter p s) ≡ any p s
filled-filter p [] = refl
filled-filter p (c ∷ s) = ground (arith, filled-filter p s)

-- Outside its quotes, which are all closed, the expression for a query has the ` OR ` between its
-- terms and nothing of the query; and it is empty exactly if no character of the query is one of a
-- term.
pub fts_query_lem :
    (q : Text)
    → (outside false (fts_query q) ≡ join (codes " OR ") (map (λ t. []) (terms q)))
      × (is_filled (fts_query q) ≡ any is_term q)
unfolding fts_query
fts_query_lem q = (
  outside-join (terms q),
  filled-join (terms q)
      ∙ (any-terms (words_of q)
          ∙ (any-words (words_of q) (filled-findall (span is_term) q)
              ∙ (ap is_filled (joined-findall (span is_term) is_term (span-IsMatch is_term) q)
                  ∙ filled-filter is_term q))),
)
