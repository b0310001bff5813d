-- ===== src/Prelude/Lists.antt =====
-- Lists tested by Booleans and measured by native numbers, and Python's `dict` in insertion order.
use Prim.Native.Nat.{ℕ, zero, suc, ◌+◌, ◌-◌, ◌≤◌, min}
use mathlib.Core.Path.{◌≡◌, refl}
use mathlib.Core.Bool.{Bool, true, false, not, ◌&&◌, ◌||◌}
use mathlib.Core.Logic.{◌⊎◌, inl, inr}
use mathlib.Core.Option.{Option, none, some}
use mathlib.Core.List.{List, [], ◌∷◌, ◌++◌}
use native.Mathlib.Omega.{arith}
use rag_search_engine.Prelude.Tests.{◌==◌, if◌then◌else◌}

-- `x is not None`
abbrev pub has {ℓ} : {A : Type ℓ} → Option A → Bool
has none = false
has (some a) = true

-- No value at any level.
pub data Empty {ℓ} : Type ℓ where

pub of_empty {ℓ κ} : {B : Type κ} → Empty {ℓ} → B
of_empty e = elim e [ ]

module _ {ℓ} {A : Type ℓ} where
  abbrev pub length : List A → ℕ
  length [] = 0
  length (x ∷ xs) = suc (length xs)

  -- `xs[:n]`
  abbrev pub take : ℕ → List A → List A
  take zero xs = []
  take (suc n) [] = []
  take (suc n) (x ∷ xs) = x ∷ take n xs

  -- `xs[n:]`
  abbrev pub drop : ℕ → List A → List A
  drop zero xs = xs
  drop (suc n) [] = []
  drop (suc n) (x ∷ xs) = drop n xs

  -- `[x for x in xs if p(x)]`
  abbrev pub filter : (A → Bool) → List A → List A
  filter p [] = []
  filter p (x ∷ xs) = if p x then x ∷ filter p xs else filter p xs

  abbrev pub any : (A → Bool) → List A → Bool
  any p [] = false
  any p (x ∷ xs) = p x || any p xs

  abbrev pub all : (A → Bool) → List A → Bool
  all p [] = true
  all p (x ∷ xs) = p x && all p xs

  -- A predicate of every element.
  abbrev pub All {κ} : (A → Type κ) → List A → Type κ
  All P [] = Unit
  All P (x ∷ xs) = P x × All P xs

  -- An element of a list, with the place where it stands.
  abbrev pub In : A → List A → Type ℓ
  In x [] = Empty
  In x (y ∷ ys) = (x ≡ y) ⊎ In x ys

  pub In-append_left : (x : A) (xs ys : List A) → In x xs → In x (xs ++ ys)
  In-append_left x [] ys m = elim m [ ]
  In-append_left x (y ∷ xs) ys (inl e) = inl e
  In-append_left x (y ∷ xs) ys (inr m) = inr (In-append_left x xs ys m)

  pub In-append_right : (x : A) (xs ys : List A) → In x ys → In x (xs ++ ys)
  In-append_right x [] ys m = m
  In-append_right x (y ∷ xs) ys m = inr (In-append_right x xs ys m)

  pub In-append : (x : A) (xs ys : List A) → In x (xs ++ ys) → In x xs ⊎ In x ys
  In-append x [] ys m = inr m
  In-append x (y ∷ xs) ys (inl e) = inl (inl e)
  In-append x (y ∷ xs) ys (inr m) = elim (In-append x xs ys m) [
    | inl l ↦ inl (inr l)
    | inr r ↦ inr r
  ]

  pub length-append : (xs ys : List A) → length (xs ++ ys) ≡ length xs + length ys
  length-append [] ys = omega arith
  length-append (x ∷ xs) ys = omega (arith, length-append xs ys)

  pub length-take : (n : ℕ) (xs : List A) → length (take n xs) ≡ min n (length xs)
  length-take zero xs = omega arith
  length-take (suc n) [] = omega arith
  length-take (suc n) (x ∷ xs) = omega (arith, length-take n xs)

  pub length-drop : (n : ℕ) (xs : List A) → length (drop n xs) ≡ length xs - n
  length-drop zero xs = omega arith
  length-drop (suc n) [] = omega arith
  length-drop (suc n) (x ∷ xs) = omega (arith, length-drop n xs)

  pub any-append : (p : A → Bool) (xs ys : List A) → any p (xs ++ ys) ≡ (any p xs || any p ys)
  any-append p [] ys = refl
  any-append p (x ∷ xs) ys = ground (arith, any-append p xs ys)

  pub length-filter-le : (p : A → Bool) (xs : List A) → length (filter p xs) ≤ length xs
  length-filter-le p [] = omega arith
  length-filter-le p (x ∷ xs) = ground (arith, length-filter-le p xs)

module _ {ℓ} {A : Type ℓ} ⦃d : Discrete A⦄ where
  -- `x in xs`
  abbrev pub member : A → List A → Bool
  member x [] = false
  member x (y ∷ ys) = x == y || member x ys

  -- The keys of a dict made from a list, in order of first appearance.
  abbrev pub dedup : List A → List A
  dedup [] = []
  dedup (x ∷ xs) = x ∷ filter (λ y. not (y == x)) (dedup xs)

  pub member-append : (x : A) (xs ys : List A) → member x (xs ++ ys) ≡ (member x xs || member x ys)
  member-append x [] ys = refl
  member-append x (y ∷ xs) ys = ground (arith, member-append x xs ys)

  pub member-filter :
      (x : A) (p : A → Bool) (xs : List A) → member x (filter p xs) ≡ (p x && member x xs)
  member-filter x p [] = ground arith
  member-filter x p (y ∷ xs) = ground (arith, member-filter x p xs)

  pub member-dedup : (x : A) (xs : List A) → member x (dedup xs) ≡ member x xs
  member-dedup x [] = refl
  member-dedup x (y ∷ xs) =
      ground (arith, member-filter x (λ z. not (z == y)) (dedup xs), member-dedup x xs)

  -- No element twice.
  abbrev pub distinct : List A → Bool
  distinct [] = true
  distinct (x ∷ xs) = not (member x xs) && distinct xs

  pub distinct-filter :
      (p : A → Bool) (xs : List A) → distinct xs ≡ true → distinct (filter p xs) ≡ true
  distinct-filter p [] h = refl
  distinct-filter p (x ∷ xs) h = ground (arith, distinct-filter p xs, member-filter x p xs)

  pub distinct-dedup : (xs : List A) → distinct (dedup xs) ≡ true
  distinct-dedup [] = refl
  distinct-dedup (x ∷ xs) = ground (
    arith,
    distinct-dedup xs,
    distinct-filter (λ y. not (y == x)) (dedup xs),
    member-filter x (λ y. not (y == x)) (dedup xs),
  )

module _ {ℓ κ} {K : Type ℓ} {V : Type κ} where
  abbrev pub keys : List (K × V) → List K
  keys [] = []
  keys ((k, v) ∷ l) = k ∷ keys l

module _ {ℓ κ} {K : Type ℓ} {V : Type κ} ⦃d : Discrete K⦄ where
  -- `d.get(k)`
  abbrev pub lookup : K → List (K × V) → Option V
  lookup k [] = none
  lookup k ((j, v) ∷ l) = if j == k then some v else lookup k l

  -- `d[k] = v`: in place, or at the end
  abbrev pub insert : K → V → List (K × V) → List (K × V)
  insert k v [] = (k, v) ∷ []
  insert k v ((j, w) ∷ l) = if j == k then (k, v) ∷ l else (j, w) ∷ insert k v l

  -- `del d[k]`
  abbrev pub erase : K → List (K × V) → List (K × V)
  erase k [] = []
  erase k ((j, v) ∷ l) = if j == k then erase k l else (j, v) ∷ erase k l

  pub lookup-insert :
      (k j : K) (v : V) (l : List (K × V))
      → lookup j (insert k v l) ≡ (if k == j then some v else lookup j l)
  lookup-insert k j v [] = refl
  lookup-insert k j v ((i, w) ∷ l) = ground (arith, lookup-insert k j v l)

  pub lookup-erase :
      (k j : K) (l : List (K × V)) → lookup j (erase k l) ≡ (if k == j then none else lookup j l)
  lookup-erase k j [] = ground arith
  lookup-erase k j ((i, w) ∷ l) = ground (arith, lookup-erase k j l)

  pub member-keys-insert :
      (k j : K) (v : V) (l : List (K × V))
      → member j (keys (insert k v l)) ≡ (j == k || member j (keys l))
  member-keys-insert k j v [] = refl
  member-keys-insert k j v ((i, w) ∷ l) = ground (arith, member-keys-insert k j v l)

  pub member-keys-erase :
      (k j : K) (l : List (K × V))
      → member j (keys (erase k l)) ≡ (not (j == k) && member j (keys l))
  member-keys-erase k j [] = ground arith
  member-keys-erase k j ((i, w) ∷ l) = ground (arith, member-keys-erase k j l)

  pub distinct-keys-insert :
      (k : K) (v : V) (l : List (K × V))
      → distinct (keys l) ≡ true
      → distinct (keys (insert k v l)) ≡ true
  distinct-keys-insert k v [] h = refl
  distinct-keys-insert k v ((i, w) ∷ l) h =
      ground (arith, distinct-keys-insert k v l, member-keys-insert k i v l)

  pub distinct-keys-erase :
      (k : K) (l : List (K × V)) → distinct (keys l) ≡ true → distinct (keys (erase k l)) ≡ true
  distinct-keys-erase k [] h = refl
  distinct-keys-erase k ((i, w) ∷ l) h =
      ground (arith, distinct-keys-erase k l, member-keys-erase k i l)

  pub lookup-eq-none : (k : K) (l : List (K × V)) → member k (keys l) ≡ false → lookup k l ≡ none
  lookup-eq-none k [] h = refl
  lookup-eq-none k ((i, w) ∷ l) h = ground (arith, lookup-eq-none k l)

  -- A key is there exactly if its lookup finds something.
  pub member-keys : (k : K) (l : List (K × V)) → member k (keys l) ≡ has (lookup k l)
  member-keys k [] = refl
  member-keys k ((i, w) ∷ l) = ground (arith, member-keys k l)
