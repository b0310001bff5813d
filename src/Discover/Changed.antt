-- ===== src/Discover/Changed.antt =====
-- discover.py: `changed`, the comparison of the store with the disk.
use rag_search_engine.Prelude.{
  String, ◌≡◌, refl, Bool, false, not, ◌&&◌, has, Option, none, some, List, [], ◌∷◌, filter, member,
  lookup, keys, dedup, member-filter, member-dedup, member-sort, member-keys, ◌==◌, string_discrete,
  arith, Option-cases, inl, inr, if◌then◌else◌,
}
use rag_search_engine.Paths.{text_le}
use rag_search_engine.Text.{Library}
use rag_search_engine.Discover.{FileMeta, Folder, Limits, read, differs, compare_each, gone}
use rag_search_engine.Discover.Candidates.{read-rel}

-- The digest that a path has once the files are written one after the other.
abbrev pub overlaid : String → List FileMeta → Option String → Option String
overlaid q [] was = was
overlaid q (m ∷ ms) was = overlaid q ms (if m.rel == q then some m.sha256 else was)

abbrev pub sha_of : Option FileMeta → Option String
sha_of none = none
sha_of (some m) = some m.sha256

-- What is to be written over `was`, if anything.
abbrev pub renewed : Option String → Option FileMeta → Option String
renewed was none = was
renewed was (some m) = some m.sha256

module _ (lib : Library) (limits : Limits) (folder : Folder) (known : List (String × String)) where
  pub compare_each-none :
      (rel : String) (present : List String)
      → read lib limits folder rel ≡ none
      → compare_each lib limits folder known (rel ∷ present)
        ≡ compare_each lib limits folder known present
  compare_each-none rel present e = rw (e, compare_each) refl

  pub compare_each-some :
      (rel : String) (present : List String) (m : FileMeta)
      → read lib limits folder rel ≡ some m
      → compare_each lib limits folder known (rel ∷ present) ≡ (
        if differs (lookup rel known) m.sha256
            then m ∷ (compare_each lib limits folder known present).0
            else (compare_each lib limits folder known present).0,
        rel ∷ (compare_each lib limits folder known present).1,
      )
  compare_each-some rel present m e = rw (e, compare_each) refl

  pub member-seen :
      (q : String) (present : List String)
      → member q (compare_each lib limits folder known present).1
        ≡ (member q present && has (read lib limits folder q))
  member-seen q [] = refl
  member-seen q (rel ∷ present) = elim (Option-cases (read lib limits folder rel)) [
    | inl e ↦ rw (compare_each-none rel present e) (ground (arith, e, member-seen q present))
    | inr (m, e) ↦ rw (compare_each-some rel present m e) (ground (arith, e, member-seen q present))
  ]

  abbrev needs : String → Option FileMeta → Bool
  needs q none = false
  needs q (some m) = differs (lookup q known) m.sha256

  overlaid-write :
      (q : String) (present : List String) (was : Option String)
      → overlaid q (compare_each lib limits folder known present).0 was ≡ (
          if member q present && needs q (read lib limits folder q)
          then renewed was (read lib limits folder q)
          else was)
  overlaid-write q [] was = refl
  overlaid-write q (rel ∷ present) was = elim (Option-cases (read lib limits folder rel)) [
    | inl e ↦ rw (compare_each-none rel present e) (ground (arith, e, overlaid-write q present was))
    | inr (m, e) ↦ rw (compare_each-some rel present m e) (
        ground (
          arith,
          e,
          (read-rel lib limits folder rel m e).0,
          overlaid-write q present was,
          overlaid-write q present (some m.sha256),
        ))
  ]

  -- Deleting what is gone and writing what differs gives the digests of the disk.
  pub reconciled :
      (q : String) (present : List String)
      → overlaid q (compare_each lib limits folder known present).0 (
          if member q (gone known (compare_each lib limits folder known present).1)
          then none
          else lookup q known)
        ≡ (if member q present then sha_of (read lib limits folder q) else none)
  reconciled q present =
      let seen = (compare_each lib limits folder known present).1 in
      ground (
        arith,
        overlaid-write q present (if member q (gone known seen) then none else lookup q known),
        member-seen q present,
        member-sort text_le q (filter (λ rel. not (member rel seen)) (dedup (keys known))),
        member-filter q (λ rel. not (member rel seen)) (dedup (keys known)),
        member-dedup q (keys known),
        member-keys q known,
      )
