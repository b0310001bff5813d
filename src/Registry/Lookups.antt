-- ===== src/Registry/Lookups.antt =====
-- registry.py: what each operation leaves under each key.
use rag_search_engine.Prelude.{
  ◌≡◌, refl, Bool, true, false, not, ◌&&◌, Option, none, some, List, [], ◌∷◌, map, lookup, keys,
  member, distinct, ◌==◌, if◌then◌else◌, arith, lookup-insert, lookup-erase, lookup-eq-none,
  distinct-keys-insert, distinct-keys-erase,
}
use rag_search_engine.Paths.{FilePath, path_discrete}
use rag_search_engine.FileSystem.{FileSystem}
use rag_search_engine.Entry.{ProjectEntry, orphaned}
use rag_search_engine.Registry.{
  Rows, entry_or_blank, claimed, claim, released, release_row, release, forgotten, without_targets,
  without_orphans, forget, modify,
}

module _ (fs : FileSystem) (path : FilePath) (direct : Bool) (root : Option FilePath) where
  pub lookup-claim :
      (j : FilePath) (rows : Rows)
      → lookup j (claim fs path direct root rows).0 ≡ (
          if fs.resolve path == j
          then some (
              claimed fs
                (fs.resolve path)
                direct
                root
                (entry_or_blank (fs.resolve path) (lookup (fs.resolve path) rows)))
          else lookup j rows)
  unfolding claim
  lookup-claim j rows = lookup-insert _ j _ rows

  pub distinct-claim :
      (rows : Rows)
      → distinct (keys rows) ≡ true
      → distinct (keys (claim fs path direct root rows).0) ≡ true
  unfolding claim
  distinct-claim rows = distinct-keys-insert _ _ rows

  -- What `release` leaves of the row that it finds.
  abbrev pub left_of : Option ProjectEntry → Option ProjectEntry
  left_of none = none
  left_of (some e) =
      if orphaned (released fs direct root e) then none else some (released fs direct root e)

  lookup-release_row :
      (key j : FilePath) (o : Option ProjectEntry) (rows : Rows)
      → lookup key rows ≡ o
      → lookup j (release_row fs key direct root o rows).0
        ≡ (if key == j then left_of o else lookup j rows)
  lookup-release_row key j none rows h = ground arith
  lookup-release_row key j (some e) rows h =
      ground (arith, lookup-insert key j (released fs direct root e) rows, lookup-erase key j rows)

  distinct-release_row :
      (key : FilePath) (o : Option ProjectEntry) (rows : Rows)
      → distinct (keys rows) ≡ true
      → distinct (keys (release_row fs key direct root o rows).0) ≡ true
  distinct-release_row key none rows h = h
  distinct-release_row key (some e) rows h = ground (
    arith,
    distinct-keys-insert key (released fs direct root e) rows,
    distinct-keys-erase key rows,
  )

  pub lookup-release :
      (j : FilePath) (rows : Rows)
      → lookup j (release fs path direct root rows).0
        ≡ (if fs.resolve path == j then left_of (lookup (fs.resolve path) rows) else lookup j rows)
  unfolding release
  lookup-release j rows = lookup-release_row (fs.resolve path) j _ rows refl

  pub distinct-release :
      (rows : Rows)
      → distinct (keys rows) ≡ true
      → distinct (keys (release fs path direct root rows).0) ≡ true
  unfolding release
  distinct-release rows h = distinct-release_row (fs.resolve path) _ rows h

module _ (targets : List FilePath) where
  pub lookup-without_targets :
      (k : FilePath) (rows : Rows)
      → lookup k (without_targets targets rows) ≡ (if member k targets then none else lookup k rows)
  lookup-without_targets k [] = ground arith
  lookup-without_targets k ((i, e) ∷ rows) = ground (arith, lookup-without_targets k rows)

  member-without_targets :
      (k : FilePath) (rows : Rows)
      → member k (keys (without_targets targets rows))
        ≡ (not (member k targets) && member k (keys rows))
  member-without_targets k [] = ground arith
  member-without_targets k ((i, e) ∷ rows) = ground (arith, member-without_targets k rows)

  pub distinct-without_targets :
      (rows : Rows)
      → distinct (keys rows) ≡ true
      → distinct (keys (without_targets targets rows)) ≡ true
  distinct-without_targets [] h = refl
  distinct-without_targets ((i, e) ∷ rows) h =
      ground (arith, distinct-without_targets rows, member-without_targets i rows)

  -- What `forget` leaves of a row that it does not name.
  abbrev pub survivor : Option ProjectEntry → Option ProjectEntry
  survivor none = none
  survivor (some e) = forgotten targets e

  member-without_orphans :
      (k : FilePath) (rows : Rows)
      → member k (keys rows) ≡ false
      → member k (keys (without_orphans targets rows)) ≡ false
  member-without_orphans k [] h = refl
  member-without_orphans k ((i, e) ∷ rows) h = ground (arith, member-without_orphans k rows)

  distinct-without_orphans :
      (rows : Rows)
      → distinct (keys rows) ≡ true
      → distinct (keys (without_orphans targets rows)) ≡ true
  distinct-without_orphans [] h = refl
  distinct-without_orphans ((i, e) ∷ rows) h =
      ground (arith, distinct-without_orphans rows, member-without_orphans i rows)

  lookup-without_orphans :
      (k : FilePath) (rows : Rows)
      → distinct (keys rows) ≡ true
      → lookup k (without_orphans targets rows) ≡ survivor (lookup k rows)
  lookup-without_orphans k [] h = refl
  lookup-without_orphans k ((i, e) ∷ rows) h = ground (
    arith,
    lookup-without_orphans k rows,
    lookup-eq-none k (without_orphans targets rows),
    member-without_orphans k rows,
  )

module _ (fs : FileSystem) (paths : List FilePath) (rows : Rows) where
  pub distinct-forget :
      distinct (keys rows) ≡ true → distinct (keys (forget fs paths rows).0) ≡ true
  unfolding forget
  distinct-forget h =
      distinct-without_orphans (map fs.resolve paths) _
        (distinct-without_targets (map fs.resolve paths) rows h)

  -- A row that `forget` names is gone; every other row is as its own roots say.
  pub lookup-forget :
      (k : FilePath)
      → distinct (keys rows) ≡ true
      → lookup k (forget fs paths rows).0 ≡ (
          if member k (map fs.resolve paths)
          then none
          else survivor (map fs.resolve paths) (lookup k rows))
  unfolding forget
  lookup-forget k h = ground (
    arith,
    lookup-without_orphans (map fs.resolve paths) k (without_targets (map fs.resolve paths) rows),
    distinct-without_targets (map fs.resolve paths) rows,
    lookup-without_targets (map fs.resolve paths) k rows,
  )

abbrev pub changed : (ProjectEntry → ProjectEntry) → Option ProjectEntry → Option ProjectEntry
changed f none = none
changed f (some e) = some (f e)

module _ (key : FilePath) (f : ProjectEntry → ProjectEntry) where
  pub lookup-modify :
      (j : FilePath) (rows : Rows)
      → lookup j (modify key f rows)
        ≡ (if key == j then changed f (lookup j rows) else lookup j rows)
  lookup-modify j [] = ground arith
  lookup-modify j ((k, e) ∷ rows) = ground (arith, lookup-modify j rows)

  pub keys-modify : (rows : Rows) → keys (modify key f rows) ≡ keys rows
  keys-modify [] = refl
  keys-modify ((k, e) ∷ rows) = ground (arith, keys-modify rows)
