-- ===== src/Federation/Register.antt =====
-- federation.py: enrolling a root claims every member that its walk finds.
use rag_search_engine.Prelude.{
  String, ◌≡◌, ◌≢◌, refl, sym, ◌∙◌, inl, inr, true, ◌||◌, none, some, List, [], ◌∷◌, All, In,
  lookup, member, dedup, arith, member-sort, member-dedup, Option-cases,
}
use rag_search_engine.Paths.{FilePath, path_discrete, path_le, is_relative_to_refl}
use rag_search_engine.FileSystem.{FileSystem}
use rag_search_engine.Registry.{Rows, claim}
use rag_search_engine.Registry.Lookups.{lookup-claim}
use rag_search_engine.Federation.{Disk, excludes, discover, claim_all, register_with, register}
use rag_search_engine.Federation.Walk.{Entries, Links, targets, is_member, links}
use rag_search_engine.Federation.Links.{Leads, links_sound}
use rag_search_engine.Federation.Claims.{
  IsResolved, IsTarget, is_member_row, is_root_row, claim_all-member, claim_all_keeps_root,
}

pub link_of_target :
    (k : FilePath) (ls : Links)
    → member k (targets ls) ≡ true
    → (l : FilePath × FilePath) × In l ls × (l.1 ≡ k)
link_of_target k [] h = cc
link_of_target k ((l, t) ∷ ls) h = elim (path_discrete k t) [
  | yes e ↦ ((l, t), inl refl, sym e)
  | no e ↦ let (x, m, p) = link_of_target k ls (ground arith) in (x, inr m, p)
]

pub All-of_member :
    {P : FilePath → Type 0} (xs : List FilePath)
    → ((x : FilePath) → member x xs ≡ true → P x)
    → All P xs
All-of_member [] h = tt
All-of_member (x ∷ xs) h = (h x (ground arith), All-of_member xs (λ y m. h y (ground arith)))

-- The links of a tree lead to resolved paths.
abbrev pub IsTreeResolved : FileSystem → Entries → Type 0
IsTreeResolved fs es = (rel target : FilePath) → Leads target es rel → IsResolved fs target

module _ (d : Disk) (root : FilePath) (resolved : IsResolved d.fs root) where
  outside :
      (patterns : List String) (rel target : FilePath)
      → is_member d.fs patterns root rel target ≡ true
      → target ≢ root
  unfolding is_member
  outside patterns rel target h = ground (arith, is_relative_to_refl root)

  own_row : (rows : Rows) → is_root_row (lookup root (claim d.fs root true none rows).0) ≡ true
  own_row rows = ground (
    arith,
    lookup-claim d.fs root true none root rows,
    Option-cases (lookup (d.fs.resolve root) rows),
  )

  discover-IsTarget :
      (patterns : List String)
      → IsTreeResolved d.fs (d.tree root)
      → (k : FilePath) → member k (discover d root patterns) ≡ true
      → IsTarget d.fs root resolved k
  unfolding discover
  discover-IsTarget patterns tr k h =
      let ls = links d.fs patterns root (d.tree root) in
      let m : member k (targets ls) ≡ true =
        ground (arith, member-sort path_le k (dedup (targets ls)), member-dedup k (targets ls)) in
      let (l, i, e) = link_of_target k ls m in
      let f = links_sound d.fs patterns root (d.tree root) l i in
      (rw (← e) (tr f.rel l.1 f.leads), λ same. outside patterns f.rel l.1 f.passes (e ∙ same))

  -- `register` claims the root directly, and each member that the walk finds by the root, enabled;
  -- a row that is neither is a member of the root exactly if it was one before.
  pub register_lem :
      (patterns : List String) (rows : Rows)
      → IsTreeResolved d.fs (d.tree root)
      → d.config root ≡ excludes patterns
      → (out : Rows × List FilePath) × (register d root rows ≡ some out)
        × (out.1 ≡ discover d root patterns)
        × (is_root_row (lookup root out.0) ≡ true)
        × ((k : FilePath)
            → k ≢ root
            → is_member_row root (lookup k out.0)
              ≡ (member k out.1 || is_member_row root (lookup k rows)))
  unfolding register
  register_lem patterns rows tr c =
      let members = discover d root patterns in
      let first = (claim d.fs root true none rows).0 in
      let ts = All-of_member members (discover-IsTarget patterns tr) in
      let e : register_with d root (d.config root) rows
          ≡ some (claim_all d.fs root members first, members) =
        rw c in
      (
        (claim_all d.fs root members first, members),
        rw resolved e,
        refl,
        claim_all_keeps_root d.fs root resolved members root first (own_row rows),
        λ k ne. ground (
          arith,
          claim_all-member d.fs root resolved members k first ts,
          lookup-claim d.fs root true none k rows,
        ),
      )
