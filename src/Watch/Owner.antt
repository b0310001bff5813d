-- ===== src/Watch/Owner.antt =====
-- watch.py: `_owner`.
use rag_search_engine.Prelude.{
  ◌≡◌, refl, sym, Bool, true, false, not, ◌&&◌, ◌||◌, Option, none, some, List, [], ◌∷◌, filter,
  all, any, member, member-filter, leb, arith, Bool-cases, inl, inr,
}
use rag_search_engine.Paths.{FilePath, path_discrete, is_relative_to, len_str}
use rag_search_engine.Watch.{longest, longest_of, owner}

-- A watched root that the path is in, and no other such root has a longer name.
abbrev pub is_owner : FilePath → List FilePath → Option FilePath → Bool
is_owner path roots none = not (any (is_relative_to path) roots)
is_owner path roots (some r) =
    member r roots
    && is_relative_to path r
    && all (λ s. not (is_relative_to path s) || leb (len_str s) (len_str r)) roots

abbrev longer_than_none : FilePath → List FilePath → Bool
longer_than_none r l = all (λ s. leb (len_str s) (len_str r)) l

IsLongest : FilePath → List FilePath → Type 0
IsLongest w l = (member w l ≡ true) × (longer_than_none w l ≡ true)

IsLongest-same : (v w : FilePath) (l : List FilePath) → v ≡ w → IsLongest v l → IsLongest w l
IsLongest-same v w l e h = rw (← e) h

IsLongest-more :
    (w r s : FilePath) (l : List FilePath)
    → IsLongest w (r ∷ l)
    → leb (len_str s) (len_str r) ≡ true
    → IsLongest w (r ∷ s ∷ l)
unfolding IsLongest
IsLongest-more w r s l h t = (ground (arith, h.0), ground (arith, t, h.1))

IsLongest-longer :
    (w r s : FilePath) (l : List FilePath)
    → IsLongest w (s ∷ l)
    → leb (len_str s) (len_str r) ≡ false
    → IsLongest w (r ∷ s ∷ l)
unfolding IsLongest
IsLongest-longer w r s l h f = (ground (arith, h.0), ground (arith, f, h.1))

longest_lem : (r : FilePath) (l : List FilePath) → IsLongest (longest r l) (r ∷ l)
unfolding IsLongest
longest_lem r [] = (ground arith, ground arith)
longest_lem r (s ∷ l) = elim (Bool-cases (leb (len_str s) (len_str r))) [
  | inl t ↦
      let e : longest r (s ∷ l) ≡ longest r l = rw t refl in
      IsLongest-same (longest r l) (longest r (s ∷ l)) (r ∷ s ∷ l) (sym e)
        (IsLongest-more (longest r l) r s l (longest_lem r l) t)
  | inr f ↦
      let e : longest r (s ∷ l) ≡ longest s l = rw f refl in
      IsLongest-same (longest s l) (longest r (s ∷ l)) (r ∷ s ∷ l) (sym e)
        (IsLongest-longer (longest s l) r s l (longest_lem s l) f)
]

all-filtered :
    (path r : FilePath) (roots : List FilePath)
    → longer_than_none r (filter (is_relative_to path) roots)
      ≡ all (λ s. not (is_relative_to path s) || leb (len_str s) (len_str r)) roots
all-filtered path r [] = refl
all-filtered path r (s ∷ roots) = ground (arith, all-filtered path r roots)

any-filtered :
    (path : FilePath) (roots : List FilePath)
    → filter (is_relative_to path) roots ≡ []
    → any (is_relative_to path) roots ≡ false
any-filtered path [] h = refl
any-filtered path (s ∷ roots) h = elim (Bool-cases (is_relative_to path s)) [
  | inl t ↦ ground (arith, h, t)
  | inr f ↦ ground (arith, h, f, any-filtered path roots)
]

longest_of-IsOwner :
    (path : FilePath) (roots l : List FilePath)
    → filter (is_relative_to path) roots ≡ l
    → is_owner path roots (longest_of l) ≡ true
unfolding IsLongest
longest_of-IsOwner path roots [] h = ground (arith, any-filtered path roots h)
longest_of-IsOwner path roots (r ∷ l) h =
    let w = longest r l in
    let b = longest_lem r l in
    let m : member w (filter (is_relative_to path) roots) ≡ true = rw h b.0 in
    let a : longer_than_none w (filter (is_relative_to path) roots) ≡ true = rw h b.1 in
    ground (arith, m, a, member-filter w (is_relative_to path) roots, all-filtered path w roots)

-- A changed path goes to a watched root that it is in, and no other root that it is in has a longer
-- name; and to none exactly if it is in none.
pub owner_lem :
    (path : FilePath) (roots : List FilePath) → is_owner path roots (owner path roots) ≡ true
unfolding owner
owner_lem path roots = longest_of-IsOwner path roots (filter (is_relative_to path) roots) refl
