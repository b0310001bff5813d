-- ===== src/Federation/Sweep.antt =====
-- federation.py: the hourly sweep never drops a claim for a link that is merely gone.
use rag_search_engine.Prelude.{
  ℕ, String, ◌≡◌, ◌≢◌, refl, sym, Option-cases, Bool-cases, ◌⊎◌, inl, inr, true, false, not, ◌&&◌,
  Option, none, some, List, [], ◌∷◌, All, lookup, member, filter, dedup, ◌==◌, arith, member-append,
  member-filter, member-sort, member-dedup,
}
use mathlib.Core.Path.{subst}
use rag_search_engine.Paths.{FilePath, path_discrete, path_le}
use rag_search_engine.FileSystem.{FileSystem}
use rag_search_engine.Entry.{ProjectEntry, is_empty}
use rag_search_engine.Registry.{
  Rows, claim, release, entry_or_blank, failed, record_error, enabled_projects,
}
use rag_search_engine.Registry.Lookups.{lookup-claim, left_of, lookup-release, lookup-modify}
use rag_search_engine.Federation.{
  Disk, Config, excludes, broken, holds, claim_new, release_denied, discover, excluded_members,
  sweep_root, sweep_roots, sweep,
}
use rag_search_engine.Federation.Walk.{targets, links}
use rag_search_engine.Federation.Links.{links_sound}
use rag_search_engine.Federation.Claims.{IsResolved}
use rag_search_engine.Federation.Register.{IsTreeResolved, link_of_target, All-of_member}

module _ (fs : FileSystem) (r k : FilePath) where
  -- The row of `k` counts `r` among its roots.
  abbrev pub Holds : Rows → Type 0
  Holds rows = holds r (lookup k rows) ≡ true

  claim-Holds :
      (m q : FilePath) (rows : Rows) → Holds rows → Holds (claim fs m false (some q) rows).0
  claim-Holds m q rows h = ground (
    arith,
    lookup-claim fs m false (some q) k rows,
    member-append r (entry_or_blank k (lookup k rows)).roots (fs.resolve q ∷ []),
  )

  is_empty_of_member : (l : List FilePath) → member r l ≡ true → is_empty l ≡ false
  is_empty_of_member [] h = cc
  is_empty_of_member (x ∷ l) h = refl

  left_of-holds :
      (m q : FilePath) (o : Option ProjectEntry)
      → fs.resolve q ≢ r
      → holds r o ≡ true
      → holds r (left_of fs m false (some q) o) ≡ true
  left_of-holds m q none ne h = cc
  left_of-holds m q (some e) ne h = ground (
    arith,
    member-filter r (λ x. not (x == fs.resolve q)) e.roots,
    is_empty_of_member (filter (λ x. not (x == fs.resolve q)) e.roots),
  )

  release-Holds :
      (m q : FilePath) (rows : Rows)
      → (fs.resolve q ≢ r) ⊎ (fs.resolve m ≢ k)
      → Holds rows
      → Holds (release fs m false (some q) rows).0
  release-Holds m q rows (inl ne) h =
      ground
        (arith, lookup-release fs m false (some q) k rows, left_of-holds m q (lookup k rows) ne h)
  release-Holds m q rows (inr ne) h = ground (arith, lookup-release fs m false (some q) k rows)

  claim_new-Holds :
      (q : FilePath) (ms : List FilePath) (rows : Rows)
      → Holds rows
      → Holds (claim_new fs q ms rows).0
  claim_new-Holds q [] rows h = h
  claim_new-Holds q (m ∷ ms) rows h = ground (
    arith,
    claim-Holds m q rows h,
    claim_new-Holds q ms rows,
    claim_new-Holds q ms (claim fs m false (some q) rows).0,
  )

  release_denied-Holds :
      (q : FilePath) (ms : List FilePath) (rows : Rows)
      → (fs.resolve q ≢ r) ⊎ (member k ms ≡ false)
      → All (IsResolved fs) ms
      → Holds rows
      → Holds (release_denied fs q ms rows).0
  release_denied-Holds q [] rows c rs h = h
  release_denied-Holds q (m ∷ ms) rows (inl ne) rs h = ground (
    arith,
    release-Holds m q rows (inl ne) h,
    release_denied-Holds q ms rows (inl ne) rs.1,
    release_denied-Holds q ms (release fs m false (some q) rows).0 (inl ne) rs.1,
  )
  release_denied-Holds q (m ∷ ms) rows (inr nm) rs h =
      let away : fs.resolve m ≢ k = ground (arith, rs.0) in
      let rest : member k ms ≡ false = ground arith in
      ground (
        arith,
        release-Holds m q rows (inr away) h,
        release_denied-Holds q ms rows (inr rest) rs.1,
        release_denied-Holds q ms (release fs m false (some q) rows).0 (inr rest) rs.1,
      )

module _ (d : Disk) (trees : (root : FilePath) → IsTreeResolved d.fs (d.tree root)) where
  excluded_members-IsResolved :
      (root : FilePath) (patterns : List String)
      → All (IsResolved d.fs) (excluded_members d root patterns)
  unfolding excluded_members
  excluded_members-IsResolved root [] = tt
  excluded_members-IsResolved root (p ∷ patterns) =
      let all = targets (links d.fs [] root (d.tree root)) in
      let allowed = targets (links d.fs (p ∷ patterns) root (d.tree root)) in
      let denied = filter (λ m. not (member m allowed)) all in
      All-of_member _ (λ x h.
        let m : member x all ≡ true = ground (
          arith,
          member-sort path_le x (dedup denied),
          member-dedup x denied,
          member-filter x (λ m. not (member m allowed)) all,
        ) in
        let (l, i, e) = link_of_target x (links d.fs [] root (d.tree root)) m in
        let f = links_sound d.fs [] root (d.tree root) l i in
        rw (← e) (trees root f.rel l.1 f.leads))

  module _ (r k : FilePath)
      (safe : (patterns : List String)
        → d.config r ≡ excludes patterns
        → member k (excluded_members d r patterns) ≡ false) where
    sweep_root-Holds :
        (e : ProjectEntry) (c : Config) (now : ℕ) (rows : Rows)
        → d.config (d.fs.resolve e.path) ≡ c
        → Holds d.fs r k rows
        → Holds d.fs r k (sweep_root d e c now rows).0
    unfolding record_error
    sweep_root-Holds e (broken message) now rows ce h = ground (
      arith,
      lookup-modify (d.fs.resolve e.path) (failed message now) k rows,
      Option-cases (lookup k rows),
    )
    sweep_root-Holds e (excludes patterns) now rows ce h =
        let base = d.fs.resolve e.path in
        let denied = excluded_members d base patterns in
        let c : (base ≢ r) ⊎ (member k denied ≡ false) = elim (path_discrete base r) [
          | yes p ↦ inr (
              subst (λ q. member k (excluded_members d q patterns) ≡ false) (sym p)
                (safe patterns (subst (λ q. d.config q ≡ excludes patterns) p ce)))
          | no np ↦ inl np
        ] in
        release_denied-Holds d.fs r k e.path denied _ c (excluded_members-IsResolved base patterns)
          (claim_new-Holds d.fs r k e.path (discover d base patterns) rows h)

    sweep_roots-Holds :
        (l : List ProjectEntry) (now : ℕ) (rows : Rows)
        → Holds d.fs r k rows
        → Holds d.fs r k (sweep_roots d l now rows).0
    sweep_roots-Holds [] now rows h = h
    sweep_roots-Holds (e ∷ l) now rows h = elim (Bool-cases (e.direct && d.fs.is_dir e.path)) [
      | inl t ↦
          rw (t, sweep_roots)
            (sweep_roots-Holds l now _
              (sweep_root-Holds e (d.config (d.fs.resolve e.path)) now rows refl h))
      | inr f ↦ rw (f, sweep_roots) (sweep_roots-Holds l now rows h)
    ]

    -- A whole sweep keeps the claim of `r` on `k`, unless the config of `r` can be read and its
    -- excludes deny `k` while a live link reaches it. A link that is gone, a target that is
    -- unmounted and a config that is broken never cost a claim.
    pub sweep_keeps_claims :
        (now : ℕ) (rows : Rows) → Holds d.fs r k rows → Holds d.fs r k (sweep d now rows).0
    unfolding sweep
    sweep_keeps_claims now rows h = sweep_roots-Holds (enabled_projects rows) now rows h
