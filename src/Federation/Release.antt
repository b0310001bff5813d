-- ===== src/Federation/Release.antt =====
-- federation.py: what releasing a root, or the links of a root that are gone, does to each row.
use rag_search_engine.Prelude.{
  String, ◌≡◌, refl, true, false, not, ◌&&◌, Option, none, some, List, [], ◌∷◌, All, lookup, keys,
  member, distinct, sort, ◌==◌, if◌then◌else◌, arith, member-filter, lookup-eq-none,
}
use rag_search_engine.Paths.{FilePath, path_discrete, path_le}
use rag_search_engine.FileSystem.{FileSystem}
use rag_search_engine.Entry.{ProjectEntry}
use rag_search_engine.Registry.{Rows, release, drop_root}
use rag_search_engine.Registry.Lookups.{left_of, lookup-release}
use rag_search_engine.Federation.{
  Disk, excludes, holds, release_members, unregister, release_unreached, release_gone_with,
  release_gone, discover,
}
use rag_search_engine.Federation.Claims.{IsResolved}

module _ (fs : FileSystem) (root : FilePath) (resolved : IsResolved fs root) where
  -- A row without the claim of `root`; `none` where nothing else claims it.
  abbrev pub freed : Option ProjectEntry → Option ProjectEntry
  freed o = if holds root o then left_of fs root false (some root) o else o

  lookup-release_members :
      (k : FilePath) (snapshot rows : Rows)
      → distinct (keys snapshot) ≡ true
      → All (IsResolved fs) (keys snapshot)
      → lookup k (release_members fs root snapshot rows).0 ≡ (
          if holds root (lookup k snapshot)
          then left_of fs root false (some root) (lookup k rows)
          else lookup k rows)
  lookup-release_members k [] rows h r = refl
  lookup-release_members k ((i, e) ∷ snapshot) rows h r = ground (
    arith,
    r.0,
    lookup-eq-none i snapshot,
    lookup-release_members k snapshot rows,
    lookup-release_members k snapshot (release fs i false (some root) rows).0,
    lookup-release fs i false (some root) k rows,
  )

  lookup-release_unreached :
      (reachable : List FilePath) (k : FilePath) (snapshot rows : Rows)
      → distinct (keys snapshot) ≡ true
      → All (IsResolved fs) (keys snapshot)
      → lookup k (release_unreached fs root reachable snapshot rows).0 ≡ (
          if holds root (lookup k snapshot) && not (member k reachable)
          then left_of fs root false (some root) (lookup k rows)
          else lookup k rows)
  lookup-release_unreached reachable k [] rows h r = refl
  lookup-release_unreached reachable k ((i, e) ∷ snapshot) rows h r = ground (
    arith,
    r.0,
    lookup-eq-none i snapshot,
    lookup-release_unreached reachable k snapshot rows,
    lookup-release_unreached reachable k snapshot (release fs i false (some root) rows).0,
    lookup-release fs i false (some root) k rows,
  )

  not-member-drop_root : (roots : List FilePath) → member root (drop_root (some root) roots) ≡ false
  not-member-drop_root roots = ground (arith, member-filter root (λ r. not (r == root)) roots)

  holds-freed : (o : Option ProjectEntry) → holds root (freed o) ≡ false
  holds-freed none = refl
  holds-freed (some e) = ground (arith, resolved, not-member-drop_root e.roots)

  holds-direct :
      (o : Option ProjectEntry)
      → holds root o ≡ false
      → holds root (left_of fs root true none o) ≡ false
  holds-direct none h = refl
  holds-direct (some e) h = ground arith

module _ (d : Disk) (root : FilePath) (resolved : IsResolved d.fs (d.fs.resolve root)) where
  -- With a config that can be read, `release_gone` succeeds, and a row loses the claim of `root`
  -- exactly if `discover`, under the excludes of that config, does not find its project: no live
  -- link of `root` reaches it, or the excludes deny it. A row that nothing else claims goes, and
  -- every other row stays as it was, but for that one root. The rows' keys are distinct and
  -- resolved, as is the root.
  pub release_gone_lem :
      (patterns : List String) (rows : Rows)
      → d.config (d.fs.resolve root) ≡ excludes patterns
      → distinct (keys rows) ≡ true
      → All (IsResolved d.fs) (keys rows)
      → (out : Rows × List FilePath) × (release_gone d root rows ≡ some out)
        × ((k : FilePath)
            → lookup k out.0 ≡ (
                if member k (discover d (d.fs.resolve root) patterns)
                then lookup k rows
                else freed d.fs (d.fs.resolve root) resolved (lookup k rows)))
  unfolding release_gone
  release_gone_lem patterns rows c h r =
      let base = d.fs.resolve root in
      let loop = release_unreached d.fs base (discover d base patterns) rows rows in
      (
        (loop.0, sort path_le loop.1),
        rw (c, release_gone_with),
        λ k. ground (
          arith,
          lookup-release_unreached d.fs base resolved (discover d base patterns) k rows rows h r,
        ),
      )

module _ (fs : FileSystem) (root : FilePath) (resolved : IsResolved fs (fs.resolve root)) where
  -- After `unregister` no row counts `root` among its roots. Of another project's row only that
  -- root is gone, and the row itself only where nothing else claimed it; the row of `root` loses
  -- its direct claim besides.
  pub unregister_lem :
      (rows : Rows) (k : FilePath)
      → distinct (keys rows) ≡ true
      → All (IsResolved fs) (keys rows)
      → (holds (fs.resolve root) (lookup k (unregister fs root rows).0) ≡ false)
        × (lookup k (unregister fs root rows).0 ≡ (
            if fs.resolve root == k
            then left_of fs root true none (freed fs (fs.resolve root) resolved (lookup k rows))
            else freed fs (fs.resolve root) resolved (lookup k rows)))
  unfolding unregister
  unregister_lem rows k h r =
      let base = fs.resolve root in
      let swept = (release_members fs base rows rows).0 in
      let e = lookup-release_members fs base resolved k rows rows h r in
      let g = lookup-release fs base true none k swept in
      ground (
        arith,
        resolved,
        e,
        g,
        holds-freed fs base resolved (lookup k rows),
        holds-direct fs base resolved (freed fs base resolved (lookup k rows)),
      )
