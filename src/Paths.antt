-- ===== src/Paths.antt =====
-- `pathlib.Path` for resolved absolute paths: the names below `/`. A path and its `str` stand for
-- one another, so a key of the registry is a path too. Texts are ordered by code points.
use Prim.Native.Nat.{Ordering}
use Prim.Native.String
use Prim.Native.String.compare
use text.Mathlib.TextPositions.{compare_refl}
use rag_search_engine.Prelude.{
  ℕ, String, ◌≡◌, refl, Bool, true, false, ◌&&◌, List, [], ◌∷◌, ◌⊎◌, inl, inr, arith, ◌==◌,
  string_discrete, list_discrete,
}

abbrev pub FilePath : Type 0
FilePath = List String

instance unfoldable pub path_discrete : Discrete FilePath
unfolding list_discrete string_discrete
path_discrete = list_discrete

abbrev not_gt : Ordering → Bool
not_gt Ordering.gt = false
not_gt _ = true

-- `s <= t` on texts
pub text_le : String → String → Bool
text_le s t = not_gt (String.compare s t)

pub text_le_refl : (s : String) → text_le s s ≡ true
unfolding text_le
text_le_refl s = rw (compare_refl s)

pub text_le_total : (s t : String) → (text_le s t ≡ true) ⊎ (text_le t s ≡ true)
unfolding text_le
text_le_total String.[] String.[] = inl refl
text_le_total String.[] (String.◌∷◌ d t) = inl (rw compare.nil-cons)
text_le_total (String.◌∷◌ c s) String.[] = inr (rw compare.nil-cons)
text_le_total (String.◌∷◌ c s) (String.◌∷◌ d t) =
    simp compare.cons-cons (ground (arith, text_le_total s t))

str_below : FilePath → String
str_below [] = ""
str_below (p ∷ ps) = String.◌++◌ "/" (String.◌++◌ p (str_below ps))

-- `str(path)`
pub str : FilePath → String
unfolding str_below
str [] = "/"
str (p ∷ ps) = str_below (p ∷ ps)

-- `str` of a relative path
pub rel_str : FilePath → String
unfolding str_below
rel_str [] = "."
rel_str (p ∷ ps) = String.◌++◌ p (str_below ps)

-- `len(str(path))`
pub len_str : FilePath → ℕ
unfolding str
len_str p = String.count (str p)

-- `sorted` on keys compares the texts of the paths.
pub key_le : FilePath → FilePath → Bool
unfolding str
key_le p q = text_le (str p) (str q)

pub key_le_refl : (p : FilePath) → key_le p p ≡ true
unfolding key_le
key_le_refl p = text_le_refl (str p)

pub key_le_total : (p q : FilePath) → (key_le p q ≡ true) ⊎ (key_le q p ≡ true)
unfolding key_le
key_le_total p q = text_le_total (str p) (str q)

-- `sorted` on `Path`s compares the parts one by one.
abbrev pub path_le : FilePath → FilePath → Bool
path_le [] q = true
path_le (a ∷ p) [] = false
path_le (a ∷ p) (b ∷ q) = elim (a == b) [ true ↦ path_le p q | false ↦ text_le a b ]

pub path_le_total : (p q : FilePath) → (path_le p q ≡ true) ⊎ (path_le q p ≡ true)
path_le_total [] q = inl refl
path_le_total (a ∷ p) [] = inr refl
path_le_total (a ∷ p) (b ∷ q) = ground (arith, text_le_total a b, path_le_total p q)

-- `path.is_relative_to(base)`, which is `path == base or base in path.parents`
abbrev pub is_relative_to : FilePath → FilePath → Bool
is_relative_to path [] = true
is_relative_to [] (b ∷ bs) = false
is_relative_to (p ∷ ps) (b ∷ bs) = p == b && is_relative_to ps bs

pub is_relative_to_refl : (p : FilePath) → is_relative_to p p ≡ true
is_relative_to_refl [] = refl
is_relative_to_refl (a ∷ p) = ground (arith, is_relative_to_refl p)

text_of_path : str ("home" ∷ "me" ∷ []) ≡ "/home/me"
unfolding str
text_of_path = refl
