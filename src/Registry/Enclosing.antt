-- ===== src/Registry/Enclosing.antt =====
-- registry.py: `enclosing`, the nearest enabled project that contains a path.
use rag_search_engine.Prelude.{
  ℕ, ◌≤◌, ◌≡◌, refl, Bool, true, false, ◌&&◌, none, some, List, [], ◌∷◌, ltb, member, any, ◌==◌,
  if◌then◌else◌, arith,
}
use rag_search_engine.Paths.{FilePath, path_discrete, is_relative_to, len_str}
use rag_search_engine.FileSystem.{FileSystem}
use rag_search_engine.Entry.{ProjectEntry}
use rag_search_engine.Registry.{Rows, entries, max_by, max_by?, owning, enclosing}

-- An enabled row stands at `p`, and `p` is the path or one of its parents.
abbrev pub encloses : FilePath → Rows → FilePath → Bool
encloses target rows p =
    any (λ e. e.enabled && (p == e.path)) (entries rows) && is_relative_to target p

member-owning :
    (target p : FilePath) (l : List ProjectEntry)
    → member p (owning target l)
      ≡ (any (λ e. e.enabled && (p == e.path)) l && is_relative_to target p)
member-owning target p [] = refl
member-owning target p (e ∷ l) = ground (arith, member-owning target p l)

module _ (size : FilePath → ℕ) where
  max_by-mem : (best : FilePath) (l : List FilePath) → member (max_by size best l) (best ∷ l) ≡ true
  max_by-mem best [] = ground arith
  max_by-mem best (x ∷ l) =
      ground (arith, max_by-mem (if ltb (size best) (size x) then x else best) l)

  le-max_by :
      (best : FilePath) (l : List FilePath) (q : FilePath)
      → member q (best ∷ l) ≡ true
      → size q ≤ size (max_by size best l)
  le-max_by best [] q h = ground arith
  le-max_by best (x ∷ l) q h = ground (
    arith,
    le-max_by (if ltb (size best) (size x) then x else best) l q,
    le-max_by (if ltb (size best) (size x) then x else best) l
        (if ltb (size best) (size x) then x else best),
  )

  max_by?_lem : (l : List FilePath) (p : FilePath) → max_by? size l ≡ some p → member p l ≡ true
  max_by?_lem [] p h = cc
  max_by?_lem (x ∷ l) p h = ground (arith, max_by-mem x l)

  le-max_by? :
      (l : List FilePath) (p q : FilePath)
      → max_by? size l ≡ some p
      → member q l ≡ true
      → size q ≤ size p
  le-max_by? [] p q h m = cc
  le-max_by? (x ∷ l) p q h m = ground (arith, le-max_by x l q m)

  max_by?-none : (l : List FilePath) (q : FilePath) → max_by? size l ≡ none → member q l ≡ false
  max_by?-none [] q h = refl
  max_by?-none (x ∷ l) q h = cc

-- What `enclosing` returns is the path of an enabled row that is the resolved path or one of its
-- parents, and no other such row has a longer path.
pub enclosing-some :
    (fs : FileSystem) (path : FilePath) (rows : Rows) (p : FilePath)
    → enclosing fs path rows ≡ some p
    → (encloses (fs.resolve path) rows p ≡ true)
      × ((q : FilePath) → encloses (fs.resolve path) rows q ≡ true → len_str q ≤ len_str p)
unfolding enclosing
enclosing-some fs path rows p h =
    let own = owning (fs.resolve path) (entries rows) in
    (
      ground (arith, max_by?_lem len_str own p h, member-owning (fs.resolve path) p (entries rows)),
      λ q m.
          le-max_by? len_str own p q h
            (ground (arith, member-owning (fs.resolve path) q (entries rows))),
    )

-- It returns nothing exactly where no enabled row is the resolved path or one of its parents.
pub enclosing-none :
    (fs : FileSystem) (path : FilePath) (rows : Rows) (q : FilePath)
    → enclosing fs path rows ≡ none
    → encloses (fs.resolve path) rows q ≡ false
unfolding enclosing
enclosing-none fs path rows q h = ground (
  arith,
  max_by?-none len_str (owning (fs.resolve path) (entries rows)) q h,
  member-owning (fs.resolve path) q (entries rows),
)
