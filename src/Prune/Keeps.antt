-- ===== src/Prune/Keeps.antt =====
-- prune.py: what a run of the pruner never takes.
use rag_search_engine.Prelude.{
  ℕ, ◌≡◌, refl, Bool, true, false, not, ◌&&◌, Option, none, some, List, [], ◌∷◌, map, All, keys,
  lookup, member, distinct, sort, arith, Bool-cases, Option-cases, inl, inr, member-filter,
  member-sort,
}
use rag_search_engine.Paths.{FilePath, path_discrete, key_le}
use rag_search_engine.FileSystem.{FileSystem}
use rag_search_engine.Entry.{ProjectEntry}
use rag_search_engine.Registry.{Rows, release}
use rag_search_engine.Registry.Lookups.{lookup-release, lookup-forget, survivor}
use rag_search_engine.Federation.{
  Disk, Config, excludes, broken, discover, release_unreached, release_gone_with, release_gone,
}
use rag_search_engine.Federation.Claims.{IsResolved}
use rag_search_engine.Prune.{
  looks_deleted, Pruner, due_keys, take_due, Stores, release_links, dead_keys, forget_dead, run_due,
}

-- The row is there and was claimed directly.
abbrev pub is_direct : Option ProjectEntry → Bool
is_direct none = false
is_direct (some e) = e.direct

module _ (k : FilePath) where
  release-is_direct :
      (fs : FileSystem) (path root : FilePath) (rows : Rows)
      → is_direct (lookup k rows) ≡ true
      → is_direct (lookup k (release fs path false (some root) rows).0) ≡ true
  release-is_direct fs path root rows h =
      ground
        (arith, h, lookup-release fs path false (some root) k rows, Option-cases (lookup k rows))

  release_unreached-is_direct :
      (fs : FileSystem) (root : FilePath) (reachable : List FilePath) (snapshot rows : Rows)
      → is_direct (lookup k rows) ≡ true
      → is_direct (lookup k (release_unreached fs root reachable snapshot rows).0) ≡ true
  release_unreached-is_direct fs root reachable [] rows h = h
  release_unreached-is_direct fs root reachable ((i, e) ∷ snapshot) rows h =
      elim (Bool-cases (member root e.roots && not (member i reachable))) [
        | inl t ↦
            rw (t, release_unreached)
              (release_unreached-is_direct fs root reachable snapshot
                (release fs i false (some root) rows).0 (release-is_direct fs i root rows h))
        | inr f ↦
            rw (f, release_unreached)
              (release_unreached-is_direct fs root reachable snapshot rows h)
      ]

module _ (d : Disk) (k : FilePath) where
  release_gone_with-is_direct :
      (root : FilePath) (c : Config) (rows : Rows) (out : Rows × List FilePath)
      → release_gone_with d root c rows ≡ some out
      → is_direct (lookup k rows) ≡ true
      → is_direct (lookup k out.0) ≡ true
  release_gone_with-is_direct root (broken message) rows out e h = cc
  release_gone_with-is_direct root (excludes patterns) rows out e h =
      ground
        (arith, e, release_unreached-is_direct k d.fs root (discover d root patterns) rows rows h)

  release_gone-is_direct :
      (root : FilePath) (rows : Rows) (out : Rows × List FilePath)
      → release_gone d root rows ≡ some out
      → is_direct (lookup k rows) ≡ true
      → is_direct (lookup k out.0) ≡ true
  unfolding release_gone
  release_gone-is_direct root rows out e h =
      release_gone_with-is_direct (d.fs.resolve root) (d.config (d.fs.resolve root)) rows out e h

  release_links-is_direct :
      (roots : List FilePath) (rows : Rows)
      → is_direct (lookup k rows) ≡ true
      → is_direct (lookup k (release_links d roots rows).0) ≡ true
  release_links-is_direct [] rows h = h
  release_links-is_direct (root ∷ roots) rows h = elim (Bool-cases (d.fs.is_dir root)) [
    | inr f ↦ rw (f, release_links) (release_links-is_direct roots rows h)
    | inl t ↦ elim (Option-cases (release_gone d root rows)) [
      | inl e ↦ rw (t, e, release_links) h
      | inr (out, e) ↦
          let g = release_gone-is_direct root rows out e h in
          rw (t, e, release_links) (release_links-is_direct roots out.0 g)
    ]
  ]

  -- The paths of rows resolve to themselves, so `forget` names the dead ones and no other.
  member-resolved :
      (dead : List FilePath)
      → All (IsResolved d.fs) dead
      → member k (map d.fs.resolve dead) ≡ member k dead
  member-resolved [] r = refl
  member-resolved (x ∷ dead) r = ground (arith, r.0, member-resolved dead r.1)

  survivor-is_direct :
      (targets : List FilePath) (o : Option ProjectEntry)
      → is_direct (survivor targets o) ≡ is_direct o
  survivor-is_direct targets none = refl
  survivor-is_direct targets (some e) = ground arith

  forget_dead-is_direct :
      (dead : List FilePath) (rows : Rows)
      → distinct (keys rows) ≡ true
      → All (IsResolved d.fs) dead
      → member k dead ≡ false
      → is_direct (lookup k rows) ≡ true
      → is_direct (lookup k (forget_dead d dead rows).0) ≡ true
  forget_dead-is_direct [] rows u r m h = h
  forget_dead-is_direct (x ∷ dead) rows u r m h = ground (
    arith,
    lookup-forget d.fs (x ∷ dead) rows k u,
    member-resolved (x ∷ dead) r,
    survivor-is_direct (map d.fs.resolve (x ∷ dead)) (lookup k rows),
  )

  dead_keys-IsResolved :
      (gone : List FilePath) (rows : Rows)
      → ((x : FilePath) → member x (keys rows) ≡ true → IsResolved d.fs x)
      → All (IsResolved d.fs) (dead_keys d gone rows)
  dead_keys-IsResolved [] rows r = tt
  dead_keys-IsResolved (x ∷ gone) rows r =
      elim (Bool-cases (member x (keys rows) && looks_deleted d.fs x)) [
        | inl t ↦ rw (t, dead_keys) (r x (ground (arith, t)), dead_keys-IsResolved gone rows r)
        | inr f ↦ rw (f, dead_keys) (dead_keys-IsResolved gone rows r)
      ]

  -- A project that was enrolled directly keeps its row, and the row its direct claim, unless its
  -- own delete event has fallen due and its path is still gone under a parent that stands. No link
  -- that went, no other project's deletion and no path that came back costs it the row; nor does a
  -- config that cannot be read.
  pub run_due_keeps_direct :
      (stores : Stores) (now : ℕ) (p : Pruner) (rows : Rows)
      → distinct (keys rows) ≡ true
      → ((x : FilePath) → member x (keys rows) ≡ true → IsResolved d.fs x)
      → (member k (due_keys now p.gone) && looks_deleted d.fs k) ≡ false
      → is_direct (lookup k rows) ≡ true
      → is_direct (lookup k (run_due d stores now p rows).1) ≡ true
  unfolding run_due take_due
  run_due_keeps_direct stores now p rows u r m h =
      let gone = sort key_le (due_keys now p.gone) in
      let unlinked = sort key_le (due_keys now p.unlinked) in
      let dead = dead_keys d gone rows in
      let alive : member k dead ≡ false = ground (
        arith,
        m,
        member-filter k (λ x. member x (keys rows) && looks_deleted d.fs x) gone,
        member-sort key_le k (due_keys now p.gone),
      ) in
      release_links-is_direct unlinked (forget_dead d dead rows).0
        (forget_dead-is_direct dead rows u (dead_keys-IsResolved gone rows r) alive h)
