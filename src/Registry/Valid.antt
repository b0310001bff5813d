-- ===== src/Registry/Valid.antt =====
-- registry.py: the invariant of the rows, and the operations that keep it.
use rag_search_engine.Prelude.{
  ℕ, String, ◌≡◌, refl, Bool, true, false, not, ◌||◌, Option, none, some, List, [], ◌∷◌, ◌++◌, map,
  lookup, keys, member, distinct, ◌==◌, arith, distinct-filter, member-filter, member-append,
}
use rag_search_engine.Paths.{FilePath, path_discrete}
use rag_search_engine.FileSystem.{FileSystem}
use rag_search_engine.Entry.{ProjectEntry, blank, orphaned, is_empty}
use rag_search_engine.Registry.{
  Rows, entry_or_blank, claimed, claim, released, release, forgotten, forget, modify, set_enabled,
  record_error,
}
use rag_search_engine.Registry.Lookups.{
  lookup-claim, distinct-claim, left_of, lookup-release, distinct-release, survivor, lookup-forget,
  distinct-forget, changed, lookup-modify, keys-modify,
}

-- A row stands under its own path, something claims it, and its roots are other projects, once each.
pub record IsRow (key : FilePath) (e : ProjectEntry) : Type 0 where
  pub keyed : e.path ≡ key
  pub held : orphaned e ≡ false
  pub once : distinct e.roots ≡ true
  pub foreign : member key e.roots ≡ false

pub record IsValid (rows : Rows) : Type 0 where
  pub one_row : distinct (keys rows) ≡ true
  pub row : (k : FilePath) (e : ProjectEntry) → lookup k rows ≡ some e → IsRow k e

-- The claim says why the row exists: directly, or by a root other than itself.
abbrev pub gives_reason : FileSystem → FilePath → Bool → Option FilePath → Bool
gives_reason fs path direct none = direct
gives_reason fs path direct (some root) = direct || not (fs.resolve root == fs.resolve path)

distinct-snoc :
    (roots : List FilePath) (r : FilePath)
    → distinct roots ≡ true
    → member r roots ≡ false
    → distinct (roots ++ r ∷ []) ≡ true
distinct-snoc [] r h m = refl
distinct-snoc (x ∷ roots) r h m =
    ground (arith, distinct-snoc roots r, member-append x roots (r ∷ []))

is_empty-snoc : (roots : List FilePath) (r : FilePath) → is_empty (roots ++ r ∷ []) ≡ false
is_empty-snoc [] r = refl
is_empty-snoc (x ∷ roots) r = refl

is_empty-false_of_member :
    (r : FilePath) (roots : List FilePath) → member r roots ≡ true → is_empty roots ≡ false
is_empty-false_of_member r [] h = cc
is_empty-false_of_member r (x ∷ roots) h = refl

module _ (fs : FileSystem) (path : FilePath) (direct : Bool) where
  claimed-IsRow :
      (root : Option FilePath) (e : ProjectEntry)
      → gives_reason fs path direct root ≡ true
      → e.path ≡ fs.resolve path
      → distinct e.roots ≡ true
      → member (fs.resolve path) e.roots ≡ false
      → IsRow (fs.resolve path) (claimed fs (fs.resolve path) direct root e)
  claimed-IsRow none e g k o f = ground arith
  claimed-IsRow (some root) e g k o f = ground (
    arith,
    distinct-snoc e.roots (fs.resolve root),
    is_empty-snoc e.roots (fs.resolve root),
    is_empty-false_of_member (fs.resolve root) e.roots,
    member-append (fs.resolve path) e.roots (fs.resolve root ∷ []),
  )

  entry_or_blank-IsRow :
      (root : Option FilePath) (o : Option ProjectEntry)
      → gives_reason fs path direct root ≡ true
      → ((e : ProjectEntry) → o ≡ some e → IsRow (fs.resolve path) e)
      → IsRow
          (fs.resolve path)
          (claimed fs (fs.resolve path) direct root (entry_or_blank (fs.resolve path) o))
  entry_or_blank-IsRow root none g h = claimed-IsRow root (blank (fs.resolve path)) g refl refl refl
  entry_or_blank-IsRow root (some e) g h =
      let r = h e refl in claimed-IsRow root e g r.keyed r.once r.foreign

  -- A claim that gives a reason keeps the registry valid.
  pub claim-IsValid :
      (root : Option FilePath) (rows : Rows)
      → gives_reason fs path direct root ≡ true
      → IsValid rows
      → IsValid (claim fs path direct root rows).0
  claim-IsValid root rows g v = record {
    one_row = distinct-claim fs path direct root rows v.one_row;
    row = λ k e h. ground (
      arith,
      lookup-claim fs path direct root k rows,
      entry_or_blank-IsRow root (lookup (fs.resolve path) rows) g (v.row (fs.resolve path)),
      v.row k e,
    );
  }

module _ (key : FilePath) where
  released-IsRow :
      (fs : FileSystem) (direct : Bool) (root : Option FilePath) (e : ProjectEntry)
      → IsRow key e
      → orphaned (released fs direct root e) ≡ false
      → IsRow key (released fs direct root e)
  released-IsRow fs direct none e r h = ground arith
  released-IsRow fs direct (some root) e r h = ground (
    arith,
    distinct-filter (λ r. not (r == fs.resolve root)) e.roots,
    member-filter key (λ r. not (r == fs.resolve root)) e.roots,
  )

  left_of-IsRow :
      (fs : FileSystem) (path : FilePath) (direct : Bool) (root : Option FilePath)
      (o : Option ProjectEntry) (e : ProjectEntry)
      → ((e : ProjectEntry) → o ≡ some e → IsRow key e)
      → left_of fs path direct root o ≡ some e
      → IsRow key e
  left_of-IsRow fs path direct root none e h p = cc
  left_of-IsRow fs path direct root (some e') e h p =
      ground (arith, released-IsRow fs direct root e' (h e' refl))

  forgotten-IsRow :
      (targets : List FilePath) (e e' : ProjectEntry)
      → IsRow key e
      → forgotten targets e ≡ some e'
      → IsRow key e'
  forgotten-IsRow targets e e' r h = ground (
    arith,
    distinct-filter (λ r. not (member r targets)) e.roots,
    member-filter key (λ r. not (member r targets)) e.roots,
  )

  survivor-IsRow :
      (targets : List FilePath) (o : Option ProjectEntry) (e : ProjectEntry)
      → ((e : ProjectEntry) → o ≡ some e → IsRow key e)
      → survivor targets o ≡ some e
      → IsRow key e
  survivor-IsRow targets none e h p = cc
  survivor-IsRow targets (some e') e h p = forgotten-IsRow targets e' e (h e' refl) p

  changed-IsRow :
      (f : ProjectEntry → ProjectEntry) (o : Option ProjectEntry) (e : ProjectEntry)
      → ((e : ProjectEntry) → IsRow key e → IsRow key (f e))
      → ((e : ProjectEntry) → o ≡ some e → IsRow key e)
      → changed f o ≡ some e
      → IsRow key e
  changed-IsRow f none e keep h p = cc
  changed-IsRow f (some e') e keep h p = let r = keep e' (h e' refl) in ground arith

module _ (fs : FileSystem) where
  -- Dropping a claim keeps the registry valid: a row that nothing claims any more is gone.
  pub release-IsValid :
      (path : FilePath) (direct : Bool) (root : Option FilePath) (rows : Rows)
      → IsValid rows
      → IsValid (release fs path direct root rows).0
  release-IsValid path direct root rows v = record {
    one_row = distinct-release fs path direct root rows v.one_row;
    row = λ k e h. ground (
      arith,
      lookup-release fs path direct root k rows,
      left_of-IsRow (fs.resolve path) fs path direct root (lookup (fs.resolve path) rows) e
          (v.row (fs.resolve path)),
      v.row k e,
    );
  }

  -- Removing rows keeps the registry valid: no row is left with nothing that claims it.
  pub forget-IsValid :
      (paths : List FilePath) (rows : Rows) → IsValid rows → IsValid (forget fs paths rows).0
  forget-IsValid paths rows v = record {
    one_row = distinct-forget fs paths rows v.one_row;
    row = λ k e h. ground (
      arith,
      lookup-forget fs paths rows k v.one_row,
      survivor-IsRow k (map fs.resolve paths) (lookup k rows) e (v.row k),
    );
  }

-- A change that leaves the claims alone keeps the registry valid.
pub modify-IsValid :
    (key : FilePath) (f : ProjectEntry → ProjectEntry) (rows : Rows)
    → ((k : FilePath) (e : ProjectEntry) → IsRow k e → IsRow k (f e))
    → IsValid rows
    → IsValid (modify key f rows)
modify-IsValid key f rows keep v = record {
  one_row = rw keys-modify v.one_row;
  row = λ k e h. ground (
    arith,
    lookup-modify key f k rows,
    changed-IsRow k f (lookup k rows) e (keep k) (v.row k),
    v.row k e,
  );
}

pub set_enabled-IsValid :
    (fs : FileSystem) (path : FilePath) (on : Bool) (rows : Rows)
    → IsValid rows
    → IsValid (set_enabled fs path on rows)
unfolding set_enabled
set_enabled-IsValid fs path on rows v = modify-IsValid _ _ rows (λ k e r. ground arith) v

pub record_error-IsValid :
    (fs : FileSystem) (path : FilePath) (message : String) (now : ℕ) (rows : Rows)
    → IsValid rows
    → IsValid (record_error fs path message now rows)
unfolding record_error
record_error-IsValid fs path message now rows v = modify-IsValid _ _ rows (λ k e r. ground arith) v
