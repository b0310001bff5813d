-- ===== src/Store/Keys.antt =====
-- Keys of rows: of those that a filter leaves, and of one more.
use rag_search_engine.Prelude.{
  ℕ, ◌≡◌, refl, ap, ◌∙◌, Bool, true, false, not, ◌||◌, List, [], ◌∷◌, ◌++◌, map, filter, member,
  distinct, keys, arith, ◌==◌, nat_discrete, string_discrete, Bool-cases, inl, inr,
}
use rag_search_engine.Store.{without}

-- Deleting rows by key, where the keys are those of the elements that `p` picks out.
module _ {A R : Type 0} (key : A → ℕ) (rk : R → ℕ) where
  skip :
      (k : ℕ) (ids : List ℕ) (rows : List R)
      → member k (map rk rows) ≡ false
      → filter (λ r. not (member (rk r) (k ∷ ids))) rows
        ≡ filter (λ r. not (member (rk r) ids)) rows
  skip k ids [] m = refl
  skip k ids (r ∷ rows) m = ground (arith, m, skip k ids rows)

  member-picked :
      (p : A → Bool) (k : ℕ) (xs : List A)
      → member k (map key xs) ≡ false
      → member k (map key (filter p xs)) ≡ false
  member-picked p k [] m = refl
  member-picked p k (x ∷ xs) m = ground (arith, m, member-picked p k xs)

  module _ (g : A → R) (e : (a : A) → rk (g a) ≡ key a) where
    keys-rows : (xs : List A) → map rk (map g xs) ≡ map key xs
    keys-rows [] = refl
    keys-rows (x ∷ xs) = rw (e x, keys-rows xs)

    pub filter-picked :
        (p : A → Bool) (xs : List A)
        → distinct (map key xs) ≡ true
        → filter (λ r. not (member (rk r) (map key (filter p xs)))) (map g xs)
          ≡ map g (filter (λ a. not (p a)) xs)
    filter-picked p [] u = refl
    filter-picked p (x ∷ xs) u =
        let rest = filter-picked p xs (ground (arith, u)) in
        let new : member (key x) (map key xs) ≡ false = ground (arith, u) in
        let unpicked = member-picked p (key x) xs new in
        let passed = skip (key x) (map key (filter p xs)) (map g xs) (rw (keys-rows xs) new) in
        elim (Bool-cases (p x)) [
          | inl t ↦
              let step : filter p (x ∷ xs) ≡ x ∷ filter p xs = rw t in
              ap (λ l. filter (λ r. not (member (rk r) (map key l))) (map g (x ∷ xs))) step
              ∙ rw (t, e x) (ground (arith, passed, rest))
          | inr f ↦
              let step : filter p (x ∷ xs) ≡ filter p xs = rw f in
              ap (λ l. filter (λ r. not (member (rk r) (map key l))) (map g (x ∷ xs))) step
              ∙ rw (f, e x, unpicked) (ground (arith, rest))
        ]

-- Keys of the elements that are left, and of one more.
module _ {A K : Type 0} ⦃d : Discrete K⦄ (key : A → K) where
  pub member-map-filter :
      (p : A → Bool) (k : K) (xs : List A)
      → member k (map key xs) ≡ false
      → member k (map key (filter p xs)) ≡ false
  member-map-filter p k [] m = refl
  member-map-filter p k (x ∷ xs) m = ground (arith, m, member-map-filter p k xs)

  pub distinct-map-filter :
      (p : A → Bool) (xs : List A)
      → distinct (map key xs) ≡ true
      → distinct (map key (filter p xs)) ≡ true
  distinct-map-filter p [] u = refl
  distinct-map-filter p (x ∷ xs) u =
      ground (arith, u, distinct-map-filter p xs, member-map-filter p (key x) xs)

  pub member-map-append :
      (k : K) (x : A) (xs : List A)
      → member k (map key (xs ++ x ∷ [])) ≡ (member k (map key xs) || k == key x)
  member-map-append k x [] = ground arith
  member-map-append k x (y ∷ xs) = ground (arith, member-map-append k x xs)

  pub distinct-map-append :
      (x : A) (xs : List A)
      → distinct (map key xs) ≡ true
      → member (key x) (map key xs) ≡ false
      → distinct (map key (xs ++ x ∷ [])) ≡ true
  distinct-map-append x [] u m = refl
  distinct-map-append x (y ∷ xs) u m =
      ground (arith, u, m, distinct-map-append x xs, member-map-append (key y) x xs)

pub map-append_one :
    {A B : Type 0} (f : A → B) (x : A) (xs : List A) → map f (xs ++ x ∷ []) ≡ map f xs ++ f x ∷ []
map-append_one f x [] = refl
map-append_one f x (y ∷ xs) = rw (map-append_one f x xs)

pub keys-append_one :
    {B : Type 0} (k : ℕ) (v : B) (xs : List (ℕ × B)) → keys (xs ++ (k, v) ∷ []) ≡ keys xs ++ k ∷ []
keys-append_one k v [] = refl
keys-append_one k v ((i, w) ∷ xs) = rw (keys-append_one k v xs)

pub keys-without :
    {B : Type 0} (ids : List ℕ) (xs : List (ℕ × B))
    → keys (without ids xs) ≡ filter (λ k. not (member k ids)) (keys xs)
keys-without ids [] = refl
keys-without ids ((i, w) ∷ xs) = ground (arith, keys-without ids xs)

pub without-nil : {B : Type 0} (xs : List (ℕ × B)) → without [] xs ≡ xs
without-nil [] = refl
without-nil (x ∷ xs) = rw (without-nil xs)

pub map-id : (xs : List ℕ) → map (λ k. k) xs ≡ xs
map-id [] = refl
map-id (x ∷ xs) = rw (map-id xs)
