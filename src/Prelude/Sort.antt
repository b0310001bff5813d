-- ===== src/Prelude/Sort.antt =====
-- `sorted`: a stable sort, over any Boolean order.
use Prim.Native.Nat.{suc}
use mathlib.Core.Path.{◌≡◌, refl}
use mathlib.Core.Bool.{Bool, true, false, ◌&&◌, ◌||◌}
use mathlib.Core.Logic.{◌⊎◌}
use mathlib.Core.Option.{some}
use mathlib.Core.List.{List, [], ◌∷◌}
use native.Mathlib.Omega.{arith}
use rag_search_engine.Prelude.Tests.{◌==◌, if◌then◌else◌}
use rag_search_engine.Prelude.Lists.{length, any, member, distinct, keys, lookup}

module _ {ℓ} {A : Type ℓ} (le : A → A → Bool) where
  abbrev pub insert_sorted : A → List A → List A
  insert_sorted x [] = x ∷ []
  insert_sorted x (y ∷ ys) = if le x y then x ∷ y ∷ ys else y ∷ insert_sorted x ys

  abbrev pub sort : List A → List A
  sort [] = []
  sort (x ∷ xs) = insert_sorted x (sort xs)

  -- Each element is at most the one behind it.
  abbrev pub ascending : List A → Bool
  ascending [] = true
  ascending (x ∷ []) = true
  ascending (x ∷ y ∷ ys) = le x y && ascending (y ∷ ys)

  module _ (total : (x y : A) → (le x y ≡ true) ⊎ (le y x ≡ true)) where
    ascending-insert_sorted :
        (x : A) (ys : List A) → ascending ys ≡ true → ascending (insert_sorted x ys) ≡ true
    ascending-insert_sorted x [] h = refl
    ascending-insert_sorted x (y ∷ []) h = ground (arith, total x y)
    ascending-insert_sorted x (y ∷ z ∷ ys) h =
        ground (arith, total x y, ascending-insert_sorted x (z ∷ ys))

    pub ascending-sort : (xs : List A) → ascending (sort xs) ≡ true
    ascending-sort [] = refl
    ascending-sort (x ∷ xs) = ascending-insert_sorted x (sort xs) (ascending-sort xs)

  length-insert_sorted : (x : A) (ys : List A) → length (insert_sorted x ys) ≡ suc (length ys)
  length-insert_sorted x [] = refl
  length-insert_sorted x (y ∷ ys) = ground (arith, length-insert_sorted x ys)

  pub length-sort : (xs : List A) → length (sort xs) ≡ length xs
  length-sort [] = refl
  length-sort (x ∷ xs) = omega (arith, length-insert_sorted x (sort xs), length-sort xs)

  any-insert_sorted :
      (p : A → Bool) (x : A) (ys : List A) → any p (insert_sorted x ys) ≡ (p x || any p ys)
  any-insert_sorted p x [] = refl
  any-insert_sorted p x (y ∷ ys) = ground (arith, any-insert_sorted p x ys)

  pub any-sort : (p : A → Bool) (xs : List A) → any p (sort xs) ≡ any p xs
  any-sort p [] = refl
  any-sort p (x ∷ xs) = ground (arith, any-insert_sorted p x (sort xs), any-sort p xs)

  module _ ⦃d : Discrete A⦄ where
    member-insert_sorted :
        (z x : A) (ys : List A) → member z (insert_sorted x ys) ≡ (z == x || member z ys)
    member-insert_sorted z x [] = refl
    member-insert_sorted z x (y ∷ ys) = ground (arith, member-insert_sorted z x ys)

    pub member-sort : (z : A) (xs : List A) → member z (sort xs) ≡ member z xs
    member-sort z [] = refl
    member-sort z (x ∷ xs) = ground (arith, member-insert_sorted z x (sort xs), member-sort z xs)

    distinct-insert_sorted :
        (x : A) (ys : List A)
        → member x ys ≡ false
        → distinct ys ≡ true
        → distinct (insert_sorted x ys) ≡ true
    distinct-insert_sorted x [] m h = refl
    distinct-insert_sorted x (y ∷ ys) m h =
        ground (arith, distinct-insert_sorted x ys, member-insert_sorted y x ys)

    pub distinct-sort : (xs : List A) → distinct xs ≡ true → distinct (sort xs) ≡ true
    distinct-sort [] h = refl
    distinct-sort (x ∷ xs) h =
        ground (arith, distinct-sort xs, member-sort x xs, distinct-insert_sorted x (sort xs))

-- A dict written in the order of its keys.
module _ {ℓ κ} {K : Type ℓ} {V : Type κ} (le : K → K → Bool) where
  abbrev pub sort_keys : List (K × V) → List (K × V)
  sort_keys = sort (λ a b. le a.0 b.0)

  module _ ⦃d : Discrete K⦄ (le_refl : (k : K) → le k k ≡ true) where
    lookup-insert_sorted :
        (j k : K) (v : V) (l : List (K × V))
        → lookup j (insert_sorted (λ a b. le a.0 b.0) (k, v) l)
          ≡ (if k == j then some v else lookup j l)
    lookup-insert_sorted j k v [] = refl
    lookup-insert_sorted j k v ((i, w) ∷ l) =
        ground (arith, le_refl k, lookup-insert_sorted j k v l)

    -- Sorting a dict changes no lookup.
    pub lookup-sort_keys : (j : K) (l : List (K × V)) → lookup j (sort_keys l) ≡ lookup j l
    lookup-sort_keys j [] = refl
    lookup-sort_keys j ((k, v) ∷ l) =
        ground (arith, lookup-insert_sorted j k v (sort_keys l), lookup-sort_keys j l)

  keys-insert_sorted :
      (k : K) (v : V) (l : List (K × V))
      → keys (insert_sorted (λ a b. le a.0 b.0) (k, v) l) ≡ insert_sorted le k (keys l)
  keys-insert_sorted k v [] = refl
  keys-insert_sorted k v ((i, w) ∷ l) = ground (arith, keys-insert_sorted k v l)

  pub keys-sort_keys : (l : List (K × V)) → keys (sort_keys l) ≡ sort le (keys l)
  keys-sort_keys [] = refl
  keys-sort_keys ((k, v) ∷ l) =
      ground (arith, keys-insert_sorted k v (sort_keys l), keys-sort_keys l)
