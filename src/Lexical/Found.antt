-- ===== src/Lexical/Found.antt =====
-- lexical.py: what `findall` finds, for any pattern.
use rag_search_engine.Prelude.{
  ℕ, zero, suc, ◌≤◌, max, ◌≡◌, refl, sym, ap, ◌∙◌, Bool, true, false, List, [], ◌∷◌, ◌++◌, length,
  take, drop, filter, all, nat_discrete, arith, Bool-cases, inl, inr,
}
use rag_search_engine.Text.{Text}
use rag_search_engine.Lexical.{span, taken, findall_from, findall}

abbrev pub joined : List Text → Text
joined [] = []
joined (w ∷ ws) = w ++ joined ws

abbrev pub is_filled : Text → Bool
is_filled [] = false
is_filled (c ∷ s) = true

pub append_assoc : (a b c : Text) → (a ++ b) ++ c ≡ a ++ (b ++ c)
append_assoc [] b c = refl
append_assoc (x ∷ a) b c = ap (λ l. x ∷ l) (append_assoc a b c)

pub all-take-span :
    (p r : ℕ → Bool) (k : ℕ) (s : Text)
    → ((c : ℕ) → p c ≡ true → r c ≡ true)
    → k ≤ span p s
    → all r (take k s) ≡ true
all-take-span p r zero s h l = refl
all-take-span p r (suc k) [] h l = refl
all-take-span p r (suc k) (c ∷ s) h l = elim (Bool-cases (p c)) [
  | inl t ↦ rw (h c t) (all-take-span p r k s h (ground (arith, t, l)))
  | inr f ↦ ground (arith, f, l)
]

filter-split :
    (r : ℕ → Bool) (k : ℕ) (s : Text)
    → all r (take k s) ≡ true
    → filter r s ≡ take k s ++ filter r (drop k s)
filter-split r zero s a = refl
filter-split r (suc k) [] a = refl
filter-split r (suc k) (c ∷ s) a =
    let t : r c ≡ true = ground (arith, a) in
    rw t (ap (λ l. c ∷ l) (filter-split r k s (ground (arith, a))))

pub length-drop : (k n : ℕ) (c : ℕ) (s : Text) → length s ≤ n → length (drop (suc k) (c ∷ s)) ≤ n
length-drop zero n c s l = l
length-drop (suc k) n c [] l = omega arith
length-drop (suc k) n c (d ∷ s) l = length-drop k n d s (omega (arith, l))

-- A match takes only characters of one kind, and there is one wherever such a character stands.
pub record IsMatch (m : Text → ℕ) (r : ℕ → Bool) : Type 0 where
  pub kind : (s : Text) → all r (take (m s) s) ≡ true
  pub found : (c : ℕ) (s : Text) → m (c ∷ s) ≡ 0 → r c ≡ false

module _ (m : Text → ℕ) (r : ℕ → Bool) (h : IsMatch m r) where
  joined-round :
      (k n c : ℕ) (s : Text)
      → m (c ∷ s) ≡ k
      → all r (take k (c ∷ s)) ≡ true
      → ((j : ℕ)
          → joined (findall_from m n (drop (suc j) (c ∷ s))) ≡ filter r (drop (suc j) (c ∷ s)))
      → joined (findall_from m (suc n) (c ∷ s)) ≡ filter r (c ∷ s)
  joined-round zero n c s e a ih = rw (e, h.found c s e) (ih 0)
  joined-round (suc k) n c s e a ih =
      let x : max 1 (suc k) ≡ suc k = omega arith in
      rw (e, x)
        (ap (λ l. take (suc k) (c ∷ s) ++ l) (ih k) ∙ sym (filter-split r (suc k) (c ∷ s) a))

  joined-findall_from : (n : ℕ) (s : Text) → length s ≤ n → joined (findall_from m n s) ≡ filter r s
  joined-findall_from zero [] l = refl
  joined-findall_from zero (c ∷ s) l = ground (arith, l)
  joined-findall_from (suc n) [] l = refl
  joined-findall_from (suc n) (c ∷ s) l =
      joined-round (m (c ∷ s)) n c s refl (h.kind (c ∷ s))
        (λ j. joined-findall_from n (drop (suc j) (c ∷ s)) (length-drop j n c s (omega (arith, l))))

  pub joined-findall : (s : Text) → joined (findall m s) ≡ filter r s
  joined-findall s = joined-findall_from (length s) s (omega arith)

filled-round :
    (k c : ℕ) (s : Text) (rest : List Text)
    → all is_filled rest ≡ true
    → all is_filled (taken k (c ∷ s) rest) ≡ true
filled-round zero c s rest h = h
filled-round (suc k) c s rest h = h

filled-findall_from : (m : Text → ℕ) (n : ℕ) (s : Text) → all is_filled (findall_from m n s) ≡ true
filled-findall_from m zero s = refl
filled-findall_from m (suc n) [] = refl
filled-findall_from m (suc n) (c ∷ s) =
    filled-round (m (c ∷ s)) c s (findall_from m n (drop (max 1 (m (c ∷ s))) (c ∷ s)))
      (filled-findall_from m n (drop (max 1 (m (c ∷ s))) (c ∷ s)))

pub filled-findall : (m : Text → ℕ) (s : Text) → all is_filled (findall m s) ≡ true
filled-findall m s = filled-findall_from m (length s) s

pub span-IsMatch : (p : ℕ → Bool) → IsMatch (span p) p
span-IsMatch p = record {
  kind = λ s. all-take-span p p (span p s) s (λ c t. t) (omega arith);
  found = λ c s e. ground (arith, e);
}
