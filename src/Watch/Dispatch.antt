-- ===== src/Watch/Dispatch.antt =====
-- watch.py: `_dispatch`.
use rag_search_engine.Prelude.{
  String, ◌≡◌, refl, Bool, true, false, not, ◌&&◌, ◌||◌, Option, none, some, List, [], ◌∷◌, any,
  member, distinct, keys, sort, member-filter, member-append, member-sort, ◌==◌, string_discrete,
  arith, Bool-cases, Option-cases, inl, inr,
}
use rag_search_engine.Paths.{FilePath, path_discrete, text_le}
use rag_search_engine.FileSystem.{FileSystem}
use rag_search_engine.Projcfg.{ProjectConfig}
use rag_search_engine.Text.{Library}
use rag_search_engine.Watch.{
  Groups, add_path, git_ignored, route, grouped_with, grouped, unignored, asked, submissions,
  dispatch,
}

-- A path is among those of a project.
abbrev pub asks : FilePath → String → Groups → Bool
asks p rel [] = false
asks p rel ((q, l) ∷ gs) = (q == p && member rel l) || asks p rel gs

abbrev pub is_for : FilePath → String → Option (FilePath × String) → Bool
is_for p rel none = false
is_for p rel (some (q, r)) = q == p && r == rel

asks-add_path :
    (p q : FilePath) (rel r : String) (gs : Groups)
    → asks p rel (add_path q r gs) ≡ ((q == p && r == rel) || asks p rel gs)
asks-add_path p q rel r [] = ground arith
asks-add_path p q rel r ((x, l) ∷ gs) =
    ground (arith, asks-add_path p q rel r gs, member-append rel l (r ∷ []))

member-keys-add_path :
    (p q : FilePath) (r : String) (gs : Groups)
    → member p (keys (add_path q r gs)) ≡ (p == q || member p (keys gs))
member-keys-add_path p q r [] = refl
member-keys-add_path p q r ((x, l) ∷ gs) = ground (arith, member-keys-add_path p q r gs)

distinct-keys-add_path :
    (q : FilePath) (r : String) (gs : Groups)
    → distinct (keys gs) ≡ true
    → distinct (keys (add_path q r gs)) ≡ true
distinct-keys-add_path q r [] u = refl
distinct-keys-add_path q r ((x, l) ∷ gs) u =
    ground (arith, u, distinct-keys-add_path q r gs, member-keys-add_path x q r gs)

-- Git judges each path by itself.
abbrev pub IsPathwise :
    (FilePath → List String → Option (List String)) → (FilePath → String → Bool) → Type 0
IsPathwise check_ignore ignores =
    (p : FilePath) (rels : List String) (rel : String)
    → member rel (git_ignored check_ignore p rels) ≡ (ignores p rel && member rel rels)

module _ (lib : Library) (fs : FileSystem)
    (check_ignore : FilePath → List String → Option (List String))
    (configs : FilePath → ProjectConfig) (roots : List FilePath) where
  asks-grouped_with :
      (p : FilePath) (rel : String) (o : Option (FilePath × String)) (gs : Groups)
      → asks p rel (grouped_with lib fs check_ignore configs roots o gs)
        ≡ (is_for p rel o || asks p rel gs)
  asks-grouped_with p rel none gs = refl
  asks-grouped_with p rel (some (q, r)) gs = asks-add_path p q rel r gs

  asks-grouped :
      (p : FilePath) (rel : String) (batch : List FilePath) (gs : Groups)
      → asks p rel (grouped lib fs check_ignore configs roots batch gs) ≡ (
          any (λ raw. is_for p rel (route lib fs check_ignore configs roots raw)) batch
          || asks p rel gs)
  asks-grouped p rel [] gs = refl
  asks-grouped p rel (raw ∷ batch) gs =
      let o = route lib fs check_ignore configs roots raw in
      let gs' = grouped_with lib fs check_ignore configs roots o gs in
      ground (arith, asks-grouped p rel batch gs', asks-grouped_with p rel o gs)

  distinct-grouped :
      (batch : List FilePath) (gs : Groups)
      → distinct (keys gs) ≡ true
      → distinct (keys (grouped lib fs check_ignore configs roots batch gs)) ≡ true
  distinct-grouped [] gs u = u
  distinct-grouped (raw ∷ batch) gs u =
      elim (Option-cases (route lib fs check_ignore configs roots raw)) [
        | inl e ↦ rw (e, grouped) (distinct-grouped batch gs u)
        | inr ((q, r), e) ↦
            rw (e, grouped)
              (distinct-grouped batch (add_path q r gs) (distinct-keys-add_path q r gs u))
      ]

  member-keys-asked :
      (p q : FilePath) (paths : List String) (jobs : Groups)
      → (p == q) ≡ false
      → member p (keys jobs) ≡ false
      → member p (keys (asked lib fs check_ignore configs roots q paths jobs)) ≡ false
  member-keys-asked p q [] jobs n m = m
  member-keys-asked p q (r ∷ paths) jobs n m = ground (arith, n, m)

  distinct-asked :
      (q : FilePath) (paths : List String) (jobs : Groups)
      → member q (keys jobs) ≡ false
      → distinct (keys jobs) ≡ true
      → distinct (keys (asked lib fs check_ignore configs roots q paths jobs)) ≡ true
  distinct-asked q [] jobs m u = u
  distinct-asked q (r ∷ paths) jobs m u = ground (arith, m, u)

  module _ (ignores : FilePath → String → Bool) (v : IsPathwise check_ignore ignores) where
    -- Git's word on a path, where the config wants it.
    abbrev is_dropped : FilePath → String → Bool
    is_dropped p rel = (configs p).respect_gitignore && ignores p rel

    member-unignored :
        (p : FilePath) (rel : String) (paths : List String)
        → member rel (unignored lib fs check_ignore configs roots p paths)
          ≡ (not (is_dropped p rel) && member rel paths)
    member-unignored p rel paths =
        let ignored = git_ignored check_ignore p (sort text_le paths) in
        elim (Bool-cases (configs p).respect_gitignore) [
          | inl t ↦
              rw (t, unignored)
                (ground (
                  arith,
                  member-filter rel (λ r. not (member r ignored)) paths,
                  v p (sort text_le paths) rel,
                  member-sort text_le rel paths,
                ))
          | inr f ↦ rw (f, unignored) (ground arith)
        ]

    asks-asked :
        (p q : FilePath) (rel : String) (paths : List String) (jobs : Groups)
        → asks p rel (asked lib fs check_ignore configs roots q paths jobs)
          ≡ ((q == p && member rel paths) || asks p rel jobs)
    asks-asked p q rel [] jobs = ground arith
    asks-asked p q rel (r ∷ paths) jobs = ground (arith, member-sort text_le rel (r ∷ paths))

    asks-submissions :
        (p : FilePath) (rel : String) (gs : Groups)
        → asks p rel (submissions lib fs check_ignore configs roots gs)
          ≡ (not (is_dropped p rel) && asks p rel gs)
    asks-submissions p rel [] = ground arith
    asks-submissions p rel ((q, l) ∷ gs) =
        let jobs = submissions lib fs check_ignore configs roots gs in
        let paths = unignored lib fs check_ignore configs roots q l in
        ground (
          arith,
          asks-asked p q rel paths jobs,
          member-unignored q rel l,
          asks-submissions p rel gs,
        )

  member-keys-submissions :
      (p : FilePath) (gs : Groups)
      → member p (keys gs) ≡ false
      → member p (keys (submissions lib fs check_ignore configs roots gs)) ≡ false
  member-keys-submissions p [] m = refl
  member-keys-submissions p ((q, l) ∷ gs) m =
      member-keys-asked p q (unignored lib fs check_ignore configs roots q l)
        (submissions lib fs check_ignore configs roots gs) (ground (arith, m))
        (member-keys-submissions p gs (ground (arith, m)))

  distinct-submissions :
      (gs : Groups)
      → distinct (keys gs) ≡ true
      → distinct (keys (submissions lib fs check_ignore configs roots gs)) ≡ true
  distinct-submissions [] u = refl
  distinct-submissions ((q, l) ∷ gs) u =
      distinct-asked q (unignored lib fs check_ignore configs roots q l)
        (submissions lib fs check_ignore configs roots gs)
        (member-keys-submissions q gs (ground (arith, u)))
        (distinct-submissions gs (ground (arith, u)))

-- A batch of events becomes one job for a project at most, and a job asks for a path exactly if an
-- event of the batch leads to it: its resolved path is in the project, by the longest name, and
-- passes the filters of the project's config, and git does not ignore it where the config heeds
-- git. Git judges each path by itself.
pub dispatch_lem :
    (lib : Library) (fs : FileSystem) (check_ignore : FilePath → List String → Option (List String))
    (configs : FilePath → ProjectConfig) (roots : List FilePath)
    (ignores : FilePath → String → Bool) (batch : List FilePath) (p : FilePath) (rel : String)
    → IsPathwise check_ignore ignores
    → (distinct (keys (dispatch lib fs check_ignore configs roots batch)) ≡ true)
      × (asks p rel (dispatch lib fs check_ignore configs roots batch) ≡ (
          not ((configs p).respect_gitignore && ignores p rel)
          && any (λ raw. is_for p rel (route lib fs check_ignore configs roots raw)) batch))
unfolding dispatch
dispatch_lem lib fs check_ignore configs roots ignores batch p rel v =
    let gs = grouped lib fs check_ignore configs roots batch [] in
    (
      distinct-submissions lib fs check_ignore configs roots gs
          (distinct-grouped lib fs check_ignore configs roots batch [] refl),
      ground (
        arith,
        asks-submissions lib fs check_ignore configs roots ignores v p rel gs,
        asks-grouped lib fs check_ignore configs roots p rel batch [],
      ),
    )
