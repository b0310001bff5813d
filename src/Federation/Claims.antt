-- ===== src/Federation/Claims.antt =====
-- federation.py: what enrolling and releasing a root do to the claims of its members.
use rag_search_engine.Prelude.{
  ◌≡◌, ◌≢◌, refl, Bool, true, false, ◌&&◌, ◌||◌, Option, none, some, List, [], ◌∷◌, All, lookup,
  member, ◌==◌, arith, member-append, Option-cases,
}
use rag_search_engine.Paths.{FilePath, path_discrete}
use rag_search_engine.FileSystem.{FileSystem}
use rag_search_engine.Entry.{ProjectEntry}
use rag_search_engine.Registry.{Rows, add_root, claim, entry_or_blank}
use rag_search_engine.Registry.Lookups.{lookup-claim}
use rag_search_engine.Federation.{claim_all}

-- The row is enabled and counts `root` among its roots.
abbrev pub is_member_row : FilePath → Option ProjectEntry → Bool
is_member_row root none = false
is_member_row root (some e) = member root e.roots && e.enabled

-- The row is enabled and was claimed directly.
abbrev pub is_root_row : Option ProjectEntry → Bool
is_root_row none = false
is_root_row (some e) = e.direct && e.enabled

-- The paths that a walk hands on are resolved already.
abbrev pub IsResolved : FileSystem → FilePath → Type 0
IsResolved fs p = fs.resolve p ≡ p

module _ (fs : FileSystem) (root : FilePath) (resolved : IsResolved fs root) where
  member-add_root :
      (key : FilePath) (roots : List FilePath)
      → key ≢ root
      → member root (add_root key (some root) roots) ≡ true
  member-add_root key roots ne = ground (arith, member-append root roots (root ∷ []))

  claim_member :
      (m k : FilePath) (rows : Rows)
      → IsResolved fs m
      → m ≢ root
      → is_member_row root (lookup k (claim fs m false (some root) rows).0)
        ≡ (k == m || is_member_row root (lookup k rows))
  claim_member m k rows rm ne = ground (
    arith,
    resolved,
    lookup-claim fs m false (some root) k rows,
    member-add_root (fs.resolve m)
        (entry_or_blank (fs.resolve m) (lookup (fs.resolve m) rows)).roots,
  )

  claim_keeps_root :
      (m k : FilePath) (rows : Rows)
      → is_root_row (lookup k rows) ≡ true
      → is_root_row (lookup k (claim fs m false (some root) rows).0) ≡ true
  claim_keeps_root m k rows h =
      ground (
        arith,
        lookup-claim fs m false (some root) k rows,
        Option-cases (lookup (fs.resolve m) rows),
      )

  -- A path that the walk of `root` can hand on: resolved, and not the root itself.
  abbrev pub IsTarget : FilePath → Type 0
  IsTarget m = IsResolved fs m × (m ≢ root)

  pub claim_all-member :
      (ms : List FilePath) (k : FilePath) (rows : Rows)
      → All IsTarget ms
      → is_member_row root (lookup k (claim_all fs root ms rows))
        ≡ (member k ms || is_member_row root (lookup k rows))
  claim_all-member [] k rows h = refl
  claim_all-member (m ∷ ms) k rows h = ground (
    arith,
    claim_all-member ms k (claim fs m false (some root) rows).0 h.1,
    claim_member m k rows h.0.0 h.0.1,
  )

  pub claim_all_keeps_root :
      (ms : List FilePath) (k : FilePath) (rows : Rows)
      → is_root_row (lookup k rows) ≡ true
      → is_root_row (lookup k (claim_all fs root ms rows)) ≡ true
  claim_all_keeps_root [] k rows h = h
  claim_all_keeps_root (m ∷ ms) k rows h =
      claim_all_keeps_root ms k (claim fs m false (some root) rows).0 (claim_keeps_root m k rows h)
