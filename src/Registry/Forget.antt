-- ===== src/Registry/Forget.antt =====
-- registry.py: `forget` and `release` against the other claims on a row.
use rag_search_engine.Prelude.{
  ◌≡◌, refl, Bool, true, false, not, ◌&&◌, ◌||◌, Option, none, some, List, [], ◌∷◌, ◌++◌, map,
  lookup, keys, member, any, distinct, filter, dedup, arith, member-append, member-filter,
  member-dedup, member-sort, lookup-eq-none, member-keys, has,
}
use mathlib.Core.List.{map-append}
use rag_search_engine.Paths.{FilePath, path_discrete, key_le}
use rag_search_engine.FileSystem.{FileSystem}
use rag_search_engine.Entry.{ProjectEntry, is_empty}
use rag_search_engine.Registry.{Rows, forgotten, without_targets, released_keys, forget}
use rag_search_engine.Registry.Lookups.{
  survivor, lookup-forget, distinct-forget, lookup-without_targets, distinct-without_targets,
}

-- Another claim than those of `targets` holds the row.
abbrev pub held_otherwise : List FilePath → ProjectEntry → Bool
held_otherwise targets e = e.direct || any (λ r. not (member r targets)) e.roots

is_empty-filter :
    (p : FilePath → Bool) (roots : List FilePath) → is_empty (filter p roots) ≡ not (any p roots)
is_empty-filter p [] = refl
is_empty-filter p (x ∷ roots) = ground (arith, is_empty-filter p roots)

filter_of_not-any :
    (p : FilePath → Bool) (roots : List FilePath)
    → any p roots ≡ false
    → filter (λ r. not (p r)) roots ≡ roots
filter_of_not-any p [] h = refl
filter_of_not-any p (x ∷ roots) h = ground (arith, filter_of_not-any p roots)

is_empty-any :
    (p : FilePath → Bool) (roots : List FilePath) → is_empty roots ≡ true → any p roots ≡ false
is_empty-any p [] h = refl
is_empty-any p (x ∷ roots) h = cc

module _ (targets : List FilePath) where
  abbrev pub spared : ProjectEntry → ProjectEntry
  spared e = record e { roots = filter (λ r. not (member r targets)) e.roots }

  forgotten_held :
      (e : ProjectEntry) → held_otherwise targets e ≡ true → forgotten targets e ≡ some (spared e)
  forgotten_held e h = ground (
    arith,
    is_empty-filter (λ r. not (member r targets)) e.roots,
    filter_of_not-any (λ r. member r targets) e.roots,
  )

  abbrev is_released : Option ProjectEntry → Bool
  is_released none = false
  is_released (some e) = not (has (forgotten targets e))

  member-released_keys :
      (k : FilePath) (rows : Rows)
      → distinct (keys rows) ≡ true
      → member k (released_keys targets rows) ≡ is_released (lookup k rows)
  member-released_keys k [] h = refl
  member-released_keys k ((i, e) ∷ rows) h =
      ground (arith, member-released_keys k rows, lookup-eq-none k rows)

  any-append_targets :
      (ys roots : List FilePath)
      → any (λ r. member r (targets ++ ys)) roots ≡ (
          any (λ r. member r targets) roots
          || any (λ r. member r ys) (filter (λ r. not (member r targets)) roots))
  any-append_targets ys [] = refl
  any-append_targets ys (x ∷ roots) =
      ground (arith, any-append_targets ys roots, member-append x targets ys)

  filter-append_targets :
      (ys roots : List FilePath)
      → filter (λ r. not (member r (targets ++ ys))) roots
        ≡ filter (λ r. not (member r ys)) (filter (λ r. not (member r targets)) roots)
  filter-append_targets ys [] = refl
  filter-append_targets ys (x ∷ roots) =
      ground (arith, filter-append_targets ys roots, member-append x targets ys)

  forgotten-append :
      (ys : List FilePath) (e : ProjectEntry)
      → forgotten (targets ++ ys) e ≡ survivor ys (forgotten targets e)
  forgotten-append ys e = ground (
    arith,
    any-append_targets ys e.roots,
    filter-append_targets ys e.roots,
    filter_of_not-any (λ r. member r targets) e.roots,
    filter_of_not-any (λ r. member r ys) (filter (λ r. not (member r targets)) e.roots),
    is_empty-filter (λ r. not (member r ys)) (filter (λ r. not (member r targets)) e.roots),
    is_empty-any (λ r. not (member r ys)) (filter (λ r. not (member r targets)) e.roots),
    is_empty-filter (λ r. not (member r targets)) e.roots,
  )

  survivor-append :
      (ys : List FilePath) (o : Option ProjectEntry)
      → survivor (targets ++ ys) o ≡ survivor ys (survivor targets o)
  survivor-append ys none = refl
  survivor-append ys (some e) = forgotten-append ys e

module _ (fs : FileSystem) where
  -- `forget` never takes a row that it does not name and that something else claims: the row loses
  -- the roots that went, and nothing but those.
  pub forget_keeps_held :
      (paths : List FilePath) (rows : Rows) (k : FilePath) (e : ProjectEntry)
      → distinct (keys rows) ≡ true
      → lookup k rows ≡ some e
      → member k (map fs.resolve paths) ≡ false
      → held_otherwise (map fs.resolve paths) e ≡ true
      → lookup k (forget fs paths rows).0 ≡ some (spared (map fs.resolve paths) e)
  forget_keeps_held paths rows k e d h m o =
      ground (arith, lookup-forget fs paths rows k d, forgotten_held (map fs.resolve paths) e o)

  -- The two lists that `forget` returns name every row that it removed and no other: the named ones
  -- first, then those that were left with no claim.
  pub forget_reports :
      (paths : List FilePath) (rows : Rows) (k : FilePath)
      → distinct (keys rows) ≡ true
      → (member k (forget fs paths rows).1
          ≡ (member k (map fs.resolve paths) && member k (keys rows)))
        × ((member k (forget fs paths rows).1 || member k (forget fs paths rows).2)
            ≡ (has (lookup k rows) && not (has (lookup k (forget fs paths rows).0))))
  unfolding forget
  forget_reports paths rows k d =
      let ts = map fs.resolve paths in
      let left = without_targets ts rows in
      ground (
        arith,
        member-sort key_le k (dedup (filter (λ t. member t (keys rows)) ts)),
        member-dedup k (filter (λ t. member t (keys rows)) ts),
        member-filter k (λ t. member t (keys rows)) ts,
        member-sort key_le k (released_keys ts left),
        member-released_keys ts k left,
        distinct-without_targets ts rows,
        lookup-without_targets ts k rows,
        lookup-forget fs paths rows k d,
        member-keys k rows,
      )

  -- Forgetting two lists one after the other leaves the rows that forgetting them at once leaves.
  pub forget-append :
      (xs ys : List FilePath) (rows : Rows) (k : FilePath)
      → distinct (keys rows) ≡ true
      → lookup k (forget fs (xs ++ ys) rows).0 ≡ lookup k (forget fs ys (forget fs xs rows).0).0
  forget-append xs ys rows k d = ground (
    arith,
    lookup-forget fs (xs ++ ys) rows k d,
    lookup-forget fs ys (forget fs xs rows).0 k (distinct-forget fs xs rows d),
    lookup-forget fs xs rows k d,
    survivor-append (map fs.resolve xs) (map fs.resolve ys) (lookup k rows),
    member-append k (map fs.resolve xs) (map fs.resolve ys),
    map-append fs.resolve xs ys,
  )
