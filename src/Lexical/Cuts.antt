-- ===== src/Lexical/Cuts.antt =====
-- lexical.py: where an identifier is cut.
use rag_search_engine.Prelude.{
  ℕ, ◌≡◌, refl, ap, ◌∙◌, Bool, true, false, not, ◌&&◌, ◌||◌, List, [], ◌∷◌, take, drop,
  if◌then◌else◌, nat_discrete, arith, Bool-cases, inl, inr,
}
use rag_search_engine.Text.{Text}
use rag_search_engine.Lexical.{
  is_upper, is_lower, is_small, is_alnum, span, begins_lower, onto_first,
}

-- Whether a word is cut between a letter or digit and the next character: where that is neither
-- letter nor digit; between a small letter or a digit and a capital; between a capital and a
-- digit; and before the last of several capitals where a small letter follows it.
abbrev pub is_cut : ℕ → Text → Bool
is_cut c [] = true
is_cut c (d ∷ s) =
    not (is_alnum d)
    || (if is_upper d then not (is_upper c) || begins_lower s else is_upper c && not (is_lower d))

-- The pieces of a word by these cuts.
abbrev pub cut_up : Text → List Text
cut_up [] = []
cut_up (c ∷ s) =
    let rest = cut_up s in
    if not (is_alnum c) then rest else if is_cut c s then (c ∷ []) ∷ rest else onto_first c rest

cut_up_alone :
    (c : ℕ) (s : Text)
    → is_alnum c ≡ true
    → is_cut c s ≡ true
    → cut_up (c ∷ s) ≡ (c ∷ []) ∷ cut_up s
cut_up_alone c s a k = rw (a, k) refl

cut_up_onto :
    (c : ℕ) (s : Text)
    → is_alnum c ≡ true
    → is_cut c s ≡ false
    → cut_up (c ∷ s) ≡ onto_first c (cut_up s)
cut_up_onto c s a k = rw (a, k) refl

stopped :
    (p : ℕ → Bool) (c d : ℕ) (s : Text)
    → p d ≡ false
    → (c ∷ []) ∷ cut_up (d ∷ s)
      ≡ (c ∷ take (span p (d ∷ s)) (d ∷ s)) ∷ cut_up (drop (span p (d ∷ s)) (d ∷ s))
stopped p c d s f =
    let z : 0 ≡ span p (d ∷ s) = rw f refl in
    ap (λ n. (c ∷ take n (d ∷ s)) ∷ cut_up (drop n (d ∷ s))) z

stopped_later :
    (c d x : ℕ) (s : Text)
    → is_upper x ≡ false
    → (c ∷ []) ∷ cut_up (d ∷ x ∷ s)
      ≡ (c ∷ take (span is_upper (x ∷ s)) (d ∷ x ∷ s))
        ∷ cut_up (drop (span is_upper (x ∷ s)) (d ∷ x ∷ s))
stopped_later c d x s f =
    let z : 0 ≡ span is_upper (x ∷ s) = rw f refl in
    ap (λ n. (c ∷ take n (d ∷ x ∷ s)) ∷ cut_up (drop n (d ∷ x ∷ s))) z

-- A run of small letters and digits is one piece.
pub cut_up-small :
    (c : ℕ) (s : Text)
    → is_small c ≡ true
    → cut_up (c ∷ s) ≡ (c ∷ take (span is_small s) s) ∷ cut_up (drop (span is_small s) s)
cut_up-small c [] h = cut_up_alone c [] (ground (arith, h)) refl
cut_up-small c (d ∷ s) h = elim (Bool-cases (is_small d)) [
  | inl t ↦
      cut_up_onto c (d ∷ s) (ground (arith, h)) (ground (arith, h, t))
      ∙ rw (cut_up-small d s t, t) refl
  | inr f ↦
      cut_up_alone c (d ∷ s) (ground (arith, h)) (ground (arith, h, f)) ∙ stopped is_small c d s f
]

-- The same of one capital with the small letters and digits behind it.
pub cut_up-capital :
    (c : ℕ) (s : Text)
    → is_upper c ≡ true
    → begins_lower s ≡ true
    → cut_up (c ∷ s) ≡ (c ∷ take (span is_small s) s) ∷ cut_up (drop (span is_small s) s)
cut_up-capital c [] h l = ground (arith, l)
cut_up-capital c (d ∷ s) h l =
    let t : is_small d ≡ true = ground (arith, l) in
    cut_up_onto c (d ∷ s) (ground (arith, h)) (ground (arith, h, l))
    ∙ rw (cut_up-small d s t, t) refl

no_cut_inside :
    (c d : ℕ) (s : Text)
    → is_upper c ≡ true
    → is_upper d ≡ true
    → begins_lower (drop (span is_upper s) s) ≡ false
    → is_cut c (d ∷ s) ≡ false
no_cut_inside c d [] h t b = ground (arith, h, t)
no_cut_inside c d (x ∷ s) h t b = ground (arith, h, t, b)

-- Capitals that no small letter follows are one piece.
pub cut_up-capitals :
    (c : ℕ) (s : Text)
    → is_upper c ≡ true
    → begins_lower (drop (span is_upper s) s) ≡ false
    → cut_up (c ∷ s) ≡ (c ∷ take (span is_upper s) s) ∷ cut_up (drop (span is_upper s) s)
cut_up-capitals c [] h b = cut_up_alone c [] (ground (arith, h)) refl
cut_up-capitals c (d ∷ s) h b = elim (Bool-cases (is_upper d)) [
  | inl t ↦
      let e : begins_lower (drop (span is_upper s) s) ≡ false = ground (arith, t, b) in
      cut_up_onto c (d ∷ s) (ground (arith, h)) (no_cut_inside c d s h t e)
      ∙ rw (cut_up-capitals d s t e, t) refl
  | inr f ↦
      cut_up_alone c (d ∷ s) (ground (arith, h)) (ground (arith, h, f, b))
      ∙ stopped is_upper c d s f
]

-- Of two capitals or more that a small letter follows all but the last are one piece.
pub cut_up-acronym :
    (c d : ℕ) (s : Text)
    → is_upper c ≡ true
    → is_upper d ≡ true
    → begins_lower (drop (span is_upper s) s) ≡ true
    → cut_up (c ∷ d ∷ s)
      ≡ (c ∷ take (span is_upper s) (d ∷ s)) ∷ cut_up (drop (span is_upper s) (d ∷ s))
cut_up-acronym c d [] h t b = ground (arith, b)
cut_up-acronym c d (x ∷ s) h t b = elim (Bool-cases (is_upper x)) [
  | inl u ↦
      let e : begins_lower (drop (span is_upper s) s) ≡ true = ground (arith, u, b) in
      cut_up_onto c (d ∷ x ∷ s) (ground (arith, h)) (ground (arith, h, t, u))
      ∙ rw (cut_up-acronym d x s t u e, u) refl
  | inr f ↦
      cut_up_alone c (d ∷ x ∷ s) (ground (arith, h)) (ground (arith, h, t, f, b))
      ∙ stopped_later c d x s f
]
