-- ===== src/Prelude/Tests.antt =====
-- Boolean tests, the conditional, and equality of keys as an interface.
use Prim.Native.Nat.{ℕ, compare, Ordering}
use Prim.Native.String.{String}
use Prim.Native.String
use mathlib.Core.Path.{◌≡◌, refl, ap₂}
use mathlib.Core.Logic.{◌⊎◌, inl, inr}
use mathlib.Core.Bool.{Bool, true, false}
use mathlib.Core.Option.{Option, none, some}
use mathlib.Core.List.{List, [], ◌∷◌, head-eq_of_cons-eq, tail-eq_of_cons-eq, nil≢cons, cons≢nil}
use native.Mathlib.Decide.{ℕ_discrete}
use text.Mathlib.TextEquality.{path_by_compare}
use text.Mathlib.TextPositions.{compare_refl}

abbrev pub ltb : ℕ → ℕ → Bool
ltb a b = elim (compare a b) [ Ordering.lt ↦ true | _ ↦ false ]

abbrev pub leb : ℕ → ℕ → Bool
leb a b = elim (compare a b) [ Ordering.gt ↦ false | _ ↦ true ]

infix 1 if◌then◌else◌
abbrev pub if◌then◌else◌ {ℓ} : {A : Type ℓ} → Bool → A → A → A
if true then x else y = x
if false then x else y = y

abbrev pub decide {ℓ} : {A : Type ℓ} → Dec A → Bool
decide (yes p) = true
decide (no p) = false

-- `a == b` for every type whose equality is decided.
infix 50 ◌==◌
abbrev pub ◌==◌ {ℓ} : {A : Type ℓ} ⦃d : Discrete A⦄ → A → A → Bool
◌==◌ ⦃d⦄ a b = decide (d a b)

instance abbrev pub nat_discrete : Discrete ℕ
nat_discrete = ℕ_discrete

lt≢eq : Ordering.lt ≡ Ordering.eq → ⊥
lt≢eq e = cc

gt≢eq : Ordering.gt ≡ Ordering.eq → ⊥
gt≢eq e = cc

-- Two texts are compared code point by code point.
decide_text : (s t : String) (o : Ordering) → String.compare s t ≡ o → Dec (s ≡ t)
decide_text s t Ordering.eq e = yes (path_by_compare s t e)
decide_text s t Ordering.lt e = no (λ p. lt≢eq (rw (← e, ← p) (compare_refl s)))
decide_text s t Ordering.gt e = no (λ p. gt≢eq (rw (← e, ← p) (compare_refl s)))

instance unfoldable pub string_discrete : Discrete String
unfolding decide_text lt≢eq gt≢eq
string_discrete s t = decide_text s t (String.compare s t) refl

instance unfoldable pub list_discrete {ℓ} : {A : Type ℓ} ⦃d : Discrete A⦄ → Discrete (List A)
list_discrete [] [] = yes refl
list_discrete [] (y ∷ ys) = no nil≢cons
list_discrete (x ∷ xs) [] = no cons≢nil
list_discrete ⦃d⦄ (x ∷ xs) (y ∷ ys) = elim (d x y) [
  | yes p ↦ elim (list_discrete xs ys) [
    | yes q ↦ yes (ap₂ ◌∷◌ p q)
    | no q ↦ no (λ e. q (tail-eq_of_cons-eq e))
  ]
  | no p ↦ no (λ e. p (head-eq_of_cons-eq e))
]

instance unfoldable pub pair_discrete {ℓ κ} :
    {A : Type ℓ} {B : Type κ} ⦃d : Discrete A⦄ ⦃e : Discrete B⦄ → Discrete (A × B)
pair_discrete ⦃d⦄ ⦃e⦄ p q = elim (d p.0 q.0) [
  | yes h ↦ elim (e p.1 q.1) [ yes k ↦ yes (λ i. (h i, k i)) | no k ↦ no (λ s. k (λ i. (s i).1)) ]
  | no h ↦ no (λ s. h (λ i. (s i).0))
]

-- To split on a computed value and keep the equation.
pub Bool-cases : (b : Bool) → (b ≡ true) ⊎ (b ≡ false)
Bool-cases true = inl refl
Bool-cases false = inr refl

pub Option-cases {ℓ} : {A : Type ℓ} (o : Option A) → (o ≡ none) ⊎ ((a : A) × (o ≡ some a))
Option-cases none = inl refl
Option-cases (some a) = inr (a, refl)

abbrev sample : List String
sample = "home" ∷ "me" ∷ []

same : (sample == sample) ≡ true
unfolding string_discrete list_discrete
same = refl

other : (sample == ("home" ∷ "you" ∷ [])) ≡ false
unfolding string_discrete list_discrete
other = refl
