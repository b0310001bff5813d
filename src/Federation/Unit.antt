-- ===== src/Federation/Unit.antt =====
-- federation.py: the search unit of a directory, each project once.
use rag_search_engine.Prelude.{
  ◌≡◌, refl, sym, Bool, true, false, ◌&&◌, ◌||◌, Option, none, some, List, [], ◌∷◌, ◌++◌, lookup,
  keys, member, any, distinct, ◌==◌, arith, member-append, member-sort, distinct-sort,
  lookup-eq-none,
}
use rag_search_engine.Paths.{FilePath, path_discrete, path_le}
use rag_search_engine.FileSystem.{FileSystem}
use rag_search_engine.Entry.{ProjectEntry}
use rag_search_engine.Registry.{Rows, get}
use rag_search_engine.Registry.Valid.{IsValid}
use rag_search_engine.Federation.{
  claimed_by, members_of, expand, extend, widen_by, widen, roots_of, unit,
}
use rag_search_engine.Federation.Claims.{IsResolved, is_member_row}

distinct-snoc :
    (x : FilePath) (l : List FilePath)
    → distinct l ≡ true
    → member x l ≡ false
    → distinct (l ++ x ∷ []) ≡ true
distinct-snoc x [] h m = refl
distinct-snoc x (y ∷ l) h m = ground (arith, distinct-snoc x l, member-append y l (x ∷ []))

member-extend :
    (p : FilePath) (projects more : List FilePath)
    → member p (extend projects more) ≡ (member p projects || member p more)
member-extend p projects [] = ground arith
member-extend p projects (q ∷ more) = ground (
  arith,
  member-extend p projects more,
  member-extend p (projects ++ q ∷ []) more,
  member-append p projects (q ∷ []),
)

distinct-extend :
    (projects more : List FilePath)
    → distinct projects ≡ true
    → distinct (extend projects more) ≡ true
distinct-extend projects [] h = h
distinct-extend projects (q ∷ more) h = ground (
  arith,
  distinct-extend projects more,
  distinct-extend (projects ++ q ∷ []) more,
  distinct-snoc q projects,
)

module _ (root : FilePath) where
  member-claimed_by :
      (k : FilePath) (rows : Rows)
      → distinct (keys rows) ≡ true
      → member k (claimed_by root rows) ≡ is_member_row root (lookup k rows)
  member-claimed_by k [] h = refl
  member-claimed_by k ((i, e) ∷ rows) h =
      ground (arith, member-claimed_by k rows, lookup-eq-none k rows)

  member-claimed_by-keys :
      (k : FilePath) (rows : Rows)
      → member k (keys rows) ≡ false
      → member k (claimed_by root rows) ≡ false
  member-claimed_by-keys k [] h = refl
  member-claimed_by-keys k ((i, e) ∷ rows) h = ground (arith, member-claimed_by-keys k rows)

  distinct-claimed_by :
      (rows : Rows) → distinct (keys rows) ≡ true → distinct (claimed_by root rows) ≡ true
  distinct-claimed_by [] h = refl
  distinct-claimed_by ((i, e) ∷ rows) h =
      ground (arith, distinct-claimed_by rows, member-claimed_by-keys i rows)

module _ (fs : FileSystem) (rows : Rows) (valid : IsValid rows) where
  -- The members of a root are the enabled rows that count it among their roots.
  pub member-members_of :
      (root k : FilePath)
      → member k (members_of fs root rows) ≡ is_member_row (fs.resolve root) (lookup k rows)
  unfolding members_of
  member-members_of root k = ground (
    arith,
    member-sort path_le k (claimed_by (fs.resolve root) rows),
    member-claimed_by (fs.resolve root) k rows valid.one_row,
  )

  root_is_no_member :
      (root : FilePath) (o : Option ProjectEntry)
      → lookup root rows ≡ o
      → is_member_row root o ≡ false
  root_is_no_member root none h = refl
  root_is_no_member root (some e) h = let f = (valid.row root e h).foreign in ground arith

  distinct-members_of : (root : FilePath) → distinct (members_of fs root rows) ≡ true
  unfolding members_of
  distinct-members_of root =
      distinct-sort path_le _ (distinct-claimed_by (fs.resolve root) rows valid.one_row)

  -- A root and its members, where the root's path is resolved.
  distinct-expand :
      (root : FilePath) → IsResolved fs (fs.resolve root) → distinct (expand fs root rows) ≡ true
  unfolding expand
  distinct-expand root r =
      let key = fs.resolve root in
      ground (
        arith,
        r,
        distinct-members_of key,
        member-members_of key key,
        root_is_no_member key (lookup key rows) refl,
      )

  -- `p` is the project with this path or a member of it.
  abbrev pub belongs : FilePath → FilePath → Bool
  belongs key p = key == p || is_member_row key (lookup p rows)

  -- `p` is searched on behalf of a claiming root whose row is there and enabled.
  abbrev pub reached_by : FilePath → Option ProjectEntry → Bool
  reached_by p none = false
  reached_by p (some e) = e.enabled && belongs (fs.resolve e.path) p

  pub member-expand :
      (root p : FilePath)
      → IsResolved fs (fs.resolve root)
      → member p (expand fs root rows) ≡ belongs (fs.resolve root) p
  unfolding expand
  member-expand root p r = ground (arith, r, member-members_of (fs.resolve root) p)

  member-widen_by :
      (settled : (q : FilePath) → IsResolved fs (fs.resolve q)) (p : FilePath)
      (o : Option ProjectEntry) (projects : List FilePath)
      → member p (widen_by fs o rows projects) ≡ (member p projects || reached_by p o)
  member-widen_by settled p none projects = ground arith
  member-widen_by settled p (some e) projects = ground (
    arith,
    member-extend p projects (expand fs e.path rows),
    member-expand e.path p (settled e.path),
  )

  distinct-widen_by :
      (o : Option ProjectEntry) (projects : List FilePath)
      → distinct projects ≡ true
      → distinct (widen_by fs o rows projects) ≡ true
  distinct-widen_by none projects h = h
  distinct-widen_by (some e) projects h =
      ground (arith, distinct-extend projects (expand fs e.path rows) h)

  distinct-widen :
      (roots projects : List FilePath)
      → distinct projects ≡ true
      → distinct (widen fs roots rows projects) ≡ true
  distinct-widen [] projects h = h
  distinct-widen (q ∷ roots) projects h =
      distinct-widen roots (widen_by fs (get fs q rows) rows projects)
        (distinct-widen_by (get fs q rows) projects h)

  member-widen :
      (settled : (q : FilePath) → IsResolved fs (fs.resolve q)) (p : FilePath)
      (roots projects : List FilePath)
      → member p (widen fs roots rows projects)
        ≡ (member p projects || any (λ q. reached_by p (get fs q rows)) roots)
  member-widen settled p [] projects = ground arith
  member-widen settled p (q ∷ roots) projects = ground (
    arith,
    member-widen settled p roots (widen_by fs (get fs q rows) rows projects),
    member-widen_by settled p (get fs q rows) projects,
  )

  -- The search unit of a directory holds no project twice, and exactly these: the directory and
  -- the enabled rows that count it among their roots, and for each enabled root that claims the
  -- directory, that root and the enabled rows that count it among theirs. The rows are valid, and
  -- a path that was resolved is its own resolution.
  pub unit_lem :
      (settled : (q : FilePath) → IsResolved fs (fs.resolve q)) (root : FilePath)
      → (distinct (unit fs root rows) ≡ true)
        × ((p : FilePath)
            → member p (unit fs root rows) ≡ (
                belongs (fs.resolve root) p
                || any
                    (λ q. reached_by p (get fs q rows))
                    (roots_of fs (get fs (fs.resolve root) rows))))
  unfolding unit
  unit_lem settled root =
      let r = settled root in
      let key = fs.resolve root in
      let roots = roots_of fs (get fs key rows) in
      let again : IsResolved fs (fs.resolve key) = rw r r in
      (
        distinct-widen roots (expand fs key rows) (distinct-expand key again),
        λ p. rw (sym r) (
            ground (
              arith,
              r,
              again,
              member-widen settled p roots (expand fs key rows),
              member-expand key p again,
            )),
      )
