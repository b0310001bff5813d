-- ===== src/Lexical/Matches.antt =====
-- lexical.py: the matches of `_CAMEL` are the pieces between the cuts.
use rag_search_engine.Prelude.{
  ℕ, zero, suc, ◌-◌, ◌≤◌, max, ◌≡◌, refl, sym, ap, ◌∙◌, true, false, List, [], ◌∷◌, length, take,
  drop, nat_discrete, arith, Bool-cases, inl, inr,
}
use rag_search_engine.Text.{Text}
use rag_search_engine.Lexical.{
  is_upper, is_small, is_alnum, span, begins_lower, camel_match, camel_from, taken, findall_from,
}
use rag_search_engine.Lexical.Found.{length-drop}
use rag_search_engine.Lexical.Cuts.{
  cut_up, cut_up-small, cut_up-capital, cut_up-capitals, cut_up-acronym,
}

abbrev after_match : ℕ → Text → List Text
after_match k s = taken k s (cut_up (drop (max 1 k) s))

after_match-suc :
    (k m c : ℕ) (s : Text)
    → m ≡ suc k
    → cut_up (c ∷ s) ≡ (c ∷ take k s) ∷ cut_up (drop k s)
    → cut_up (c ∷ s) ≡ after_match m (c ∷ s)
after_match-suc k m c s e h = let x : max 1 (suc k) ≡ suc k = omega arith in rw (e, x) h

small_match :
    (c : ℕ) (s : Text)
    → is_upper c ≡ false
    → cut_up (c ∷ s) ≡ after_match (camel_match (c ∷ s)) (c ∷ s)
small_match c s f = elim (Bool-cases (is_small c)) [
  | inl t ↦
      after_match-suc (span is_small s) (camel_match (c ∷ s)) c s (rw (f, t) refl)
        (cut_up-small c s t)
  | inr g ↦
      let z : camel_match (c ∷ s) ≡ 0 = rw (f, g) refl in
      let a : is_alnum c ≡ false = ground (arith, f, g) in rw (z, a) refl
]

capital_match :
    (u c : ℕ) (s : Text)
    → is_upper c ≡ true
    → span is_upper s ≡ u
    → cut_up (c ∷ s) ≡ after_match (camel_from (suc u) (c ∷ s)) (c ∷ s)
capital_match zero c s t e = elim (Bool-cases (begins_lower s)) [
  | inl l ↦
      after_match-suc (span is_small s) (camel_from 1 (c ∷ s)) c s (rw l refl)
        (cut_up-capital c s t l)
  | inr n ↦
      let b : begins_lower (drop (span is_upper s) s) ≡ false = rw (e, n) refl in
      let h = cut_up-capitals c s t b in
      after_match-suc 0 (camel_from 1 (c ∷ s)) c s (rw n refl)
        (h ∙ ap (λ n. (c ∷ take n s) ∷ cut_up (drop n s)) e)
]
capital_match (suc v) c [] t e = ground (arith, e)
capital_match (suc v) c (d ∷ s) t e =
    let i : is_upper d ≡ true = ground (arith, e) in
    let w : span is_upper s ≡ v = ground (arith, e) in
    elim (Bool-cases (begins_lower (drop v s))) [
      | inl l ↦
          let b : begins_lower (drop (span is_upper s) s) ≡ true = rw (w, l) refl in
          after_match-suc v (camel_from (suc (suc v)) (c ∷ d ∷ s)) c (d ∷ s) (rw l refl) (
            cut_up-acronym c d s t i b ∙ ap (λ n. (c ∷ take n (d ∷ s)) ∷ cut_up (drop n (d ∷ s))) w)
      | inr n ↦
          let b : begins_lower (drop (span is_upper (d ∷ s)) (d ∷ s)) ≡ false = rw (e, n) refl in
          after_match-suc (suc v) (camel_from (suc (suc v)) (c ∷ d ∷ s)) c (d ∷ s) (rw n refl) (
            cut_up-capitals c (d ∷ s) t b
            ∙ ap (λ n. (c ∷ take n (d ∷ s)) ∷ cut_up (drop n (d ∷ s))) e)
    ]

cut_up-match : (c : ℕ) (s : Text) → cut_up (c ∷ s) ≡ after_match (camel_match (c ∷ s)) (c ∷ s)
cut_up-match c s = elim (Bool-cases (is_upper c)) [
  | inl t ↦
      let e : suc (span is_upper s) ≡ span is_upper (c ∷ s) = rw t refl in
      capital_match (span is_upper s) c s t refl
      ∙ ap (λ n. after_match (camel_from n (c ∷ s)) (c ∷ s)) e
  | inr f ↦ small_match c s f
]

pub findall_from-cut_up :
    (n : ℕ) (s : Text) → length s ≤ n → findall_from camel_match n s ≡ cut_up s
findall_from-cut_up zero [] l = refl
findall_from-cut_up zero (c ∷ s) l = ground (arith, l)
findall_from-cut_up (suc n) [] l = refl
findall_from-cut_up (suc n) (c ∷ s) l =
    let k = camel_match (c ∷ s) in
    let j = max 1 k - 1 in
    let e : max 1 k ≡ suc j = omega arith in
    let short : length (drop (max 1 k) (c ∷ s)) ≤ n =
      rw e (length-drop j n c s (omega (arith, l))) in
    ap (taken k (c ∷ s)) (findall_from-cut_up n (drop (max 1 k) (c ∷ s)) short)
    ∙ sym (cut_up-match c s)
