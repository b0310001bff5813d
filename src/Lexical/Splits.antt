-- ===== src/Lexical/Splits.antt =====
-- lexical.py: a word that is split at its separators first has the same cuts.
use rag_search_engine.Prelude.{
  ℕ, ◌≡◌, refl, ◌∙◌, Bool, true, false, not, List, [], ◌∷◌, ◌++◌, length, if◌then◌else◌,
  nat_discrete, arith, Bool-cases, inl, inr,
}
use rag_search_engine.Text.{Text}
use rag_search_engine.Lexical.{
  is_lower, is_alnum, is_separator, begins_lower, onto_first, split_from, camel_each, pieces,
}
use rag_search_engine.Lexical.Cuts.{is_cut, cut_up}
use rag_search_engine.Lexical.Matches.{findall_from-cut_up}

abbrev cut_each : List Text → List Text
cut_each [] = []
cut_each (w ∷ ws) = cut_up w ++ cut_each ws

camel_each-cut_each : (ws : List Text) → camel_each ws ≡ cut_each ws
camel_each-cut_each [] = refl
camel_each-cut_each (w ∷ ws) =
    rw (findall_from-cut_up (length w) w (omega arith), camel_each-cut_each ws) refl

abbrev head : List Text → Text
head [] = []
head (w ∷ ws) = w

onto_twice :
    (c d : ℕ) (ws more : List Text)
    → onto_first c (onto_first d ws) ++ more ≡ onto_first c (onto_first d ws ++ more)
onto_twice c d [] more = refl
onto_twice c d (w ∷ ws) more = refl

onto_first-append :
    (c : ℕ) (w : Text) (more : List Text)
    → is_cut c w ≡ false
    → onto_first c (cut_up w) ++ more ≡ onto_first c (cut_up w ++ more)
onto_first-append c [] more k = cc
onto_first-append c (d ∷ w) more k =
    let a : is_alnum d ≡ true = ground (arith, k) in
    elim (Bool-cases (is_cut d w)) [
      | inl t ↦ rw (a, t) refl
      | inr f ↦ rw (a, f) (onto_twice c d (cut_up w) more)
    ]

cut_each-onto_first :
    (c : ℕ) (ws : List Text)
    → cut_each (onto_first c ws) ≡ (
        if not (is_alnum c)
        then cut_each ws
        else if is_cut c (head ws)
        then (c ∷ []) ∷ cut_each ws
        else onto_first c (cut_each ws))
cut_each-onto_first c [] = elim (Bool-cases (is_alnum c)) [ inl t ↦ rw t refl | inr f ↦ rw f refl ]
cut_each-onto_first c (w ∷ ws) = elim (Bool-cases (is_alnum c)) [
  | inr f ↦ rw f refl
  | inl t ↦ elim (Bool-cases (is_cut c w)) [
    | inl k ↦ rw (t, k) refl
    | inr k ↦ rw (t, k) (onto_first-append c w (cut_each ws) k)
  ]
]

head-onto_first : (c : ℕ) (ws : List Text) → head (onto_first c ws) ≡ c ∷ head ws
head-onto_first c [] = refl
head-onto_first c (w ∷ ws) = refl

separator_no_alnum : (c : ℕ) → is_separator c ≡ true → is_alnum c ≡ false
separator_no_alnum c t = ground (arith, t)

begins_lower-head : (s : Text) → begins_lower (head (split_from false s)) ≡ begins_lower s
begins_lower-head [] = refl
begins_lower-head (c ∷ s) = elim (Bool-cases (is_separator c)) [
  | inl t ↦ let f : is_lower c ≡ false = ground (arith, separator_no_alnum c t) in rw (t, f) refl
  | inr f ↦ rw (f, head-onto_first c (split_from false s)) refl
]

is_cut-head : (c : ℕ) (s : Text) → is_cut c (head (split_from false s)) ≡ is_cut c s
is_cut-head c [] = refl
is_cut-head c (d ∷ s) = elim (Bool-cases (is_separator d)) [
  | inl t ↦ rw (t, separator_no_alnum d t) refl
  | inr f ↦ rw (f, head-onto_first d (split_from false s), begins_lower-head s) refl
]

split_onto :
    (c : ℕ) (s : Text)
    → cut_each (split_from false s) ≡ cut_up s
    → cut_each (onto_first c (split_from false s)) ≡ cut_up (c ∷ s)
split_onto c s h = cut_each-onto_first c (split_from false s) ∙ rw (h, is_cut-head c s) refl

cut_each-split_from : (b : Bool) (s : Text) → cut_each (split_from b s) ≡ cut_up s
cut_each-split_from b [] = refl
cut_each-split_from true (c ∷ s) = elim (Bool-cases (is_separator c)) [
  | inl t ↦ rw (t, separator_no_alnum c t) (cut_each-split_from true s)
  | inr f ↦ rw f (split_onto c s (cut_each-split_from false s))
]
cut_each-split_from false (c ∷ s) = elim (Bool-cases (is_separator c)) [
  | inl t ↦ rw (t, separator_no_alnum c t) (cut_each-split_from true s)
  | inr f ↦ rw f (split_onto c s (cut_each-split_from false s))
]

pub pieces-cut_up : (word : Text) → pieces word ≡ cut_up word
pieces-cut_up word = camel_each-cut_each (split_from false word) ∙ cut_each-split_from false word
