-- ===== src/Rank/Divide.antt =====
-- rank.py: the loop of `diversify`.
use rag_search_engine.Prelude.{
  ℕ, suc, ◌+◌, ◌≤◌, ◌<◌, ◌≡◌, refl, ◌⊎◌, inl, inr, In, of_empty, max, String, Bool, true, false,
  not, ◌&&◌, ◌||◌, List, [], ◌∷◌, ◌++◌, map, lookup, member, any, distinct, ◌==◌, if◌then◌else◌,
  arith, member-append, lookup-insert, string_discrete, pair_discrete,
}
use mathlib.Core.List.{map-append}
use rag_search_engine.Paths.{FilePath, path_discrete}
use rag_search_engine.Whitespace.{text_discrete}
use rag_search_engine.Rank.{
  Hit, Fingerprint, fingerprint, PerFile, count_of, vendored, Fate, skip, hold, keep, fate,
  seen_after, per_file_after, sort_out, divide,
}

-- The fingerprints of what is kept and of what is held back.
abbrev pub all_prints : List Hit × List Hit → List Fingerprint
all_prints (kept, held) = map fingerprint (kept ++ held)

abbrev pub both : List Hit × List Hit → List Hit
both (kept, held) = kept ++ held

In-middle :
    (h : Hit) (kept held : List Hit) (x : Hit)
    → In x (kept ++ h ∷ held)
    → (x ≡ h) ⊎ In x (kept ++ held)
In-middle h [] held x (inl e) = inl e
In-middle h [] held x (inr m) = inr m
In-middle h (y ∷ kept) held x (inl e) = inr (inl e)
In-middle h (y ∷ kept) held x (inr m) = elim (In-middle h kept held x m) [
  | inl e ↦ inl e
  | inr r ↦ inr (inr r)
]

abbrev is_skip : Fate → Bool
is_skip skip = true
is_skip _ = false

In-sort_out :
    (t : Fate) (h : Hit) (out : List Hit × List Hit) (x : Hit)
    → In x (both (sort_out t h out))
    → ((is_skip t ≡ false) × (x ≡ h)) ⊎ In x (both out)
In-sort_out skip h (kept, held) x m = inr m
In-sort_out hold h (kept, held) x m = elim (In-middle h kept held x m) [
  | inl e ↦ inl (refl, e)
  | inr r ↦ inr r
]
In-sort_out keep h (kept, held) x (inl e) = inl (refl, e)
In-sort_out keep h (kept, held) x (inr m) = inr m

-- How many of the hits stand in the file `q`.
abbrev pub count_file : FilePath × String → List Hit → ℕ
count_file q [] = 0
count_file q (h ∷ hits) =
    if (h.project, h.rel_path) == q then suc (count_file q hits) else count_file q hits

module _ (root : FilePath) (most : ℕ) (own : List Fingerprint) where
  is_skip-fate :
      (seen : List Fingerprint) (per_file : PerFile) (h : Hit)
      → is_skip (fate root most own seen per_file h)
        ≡ (member (fingerprint h) seen || vendored root own h)
  unfolding fate
  is_skip-fate seen per_file h = ground arith

  prints-sort_out :
      (t : Fate) (h : Hit) (out : List Hit × List Hit) (f : Fingerprint)
      → member f (all_prints (sort_out t h out))
        ≡ ((not (is_skip t) && (f == fingerprint h)) || member f (all_prints out))
  prints-sort_out skip h (kept, held) f = refl
  prints-sort_out hold h (kept, held) f = ground (
    arith,
    map-append fingerprint kept (h ∷ held),
    map-append fingerprint kept held,
    member-append f (map fingerprint kept) (map fingerprint (h ∷ held)),
    member-append f (map fingerprint kept) (map fingerprint held),
  )
  prints-sort_out keep h (kept, held) f = refl

  member-seen_after :
      (t : Fate) (h : Hit) (seen : List Fingerprint) (f : Fingerprint)
      → member f (seen_after t h seen)
        ≡ ((not (is_skip t) && (f == fingerprint h)) || member f seen)
  member-seen_after skip h seen f = refl
  member-seen_after _ h seen f = refl

  -- A fingerprint comes out exactly if it is new and some hit that is no vendored copy has it.
  pub divide-prints :
      (seen : List Fingerprint) (per_file : PerFile) (hits : List Hit) (f : Fingerprint)
      → member f (all_prints (divide root most own seen per_file hits))
        ≡ (not (member f seen) && any (λ h. not (vendored root own h) && (f == fingerprint h)) hits)
  divide-prints seen per_file [] f = ground arith
  divide-prints seen per_file (h ∷ hits) f =
      let t = fate root most own seen per_file h in
      let seen' = seen_after t h seen in
      let per_file' = per_file_after t h per_file in
      ground (
        arith,
        prints-sort_out t h (divide root most own seen' per_file' hits) f,
        divide-prints seen' per_file' hits f,
        member-seen_after t h seen f,
        is_skip-fate seen per_file h,
      )

  distinct-middle :
      (x : Hit) (kept held : List Hit)
      → distinct (map fingerprint (kept ++ held)) ≡ true
      → member (fingerprint x) (map fingerprint (kept ++ held)) ≡ false
      → distinct (map fingerprint (kept ++ x ∷ held)) ≡ true
  distinct-middle x [] held h m = ground arith
  distinct-middle x (y ∷ kept) held h m = ground (
    arith,
    distinct-middle x kept held,
    map-append fingerprint kept (x ∷ held),
    map-append fingerprint kept held,
    member-append (fingerprint y) (map fingerprint kept) (map fingerprint (x ∷ held)),
    member-append (fingerprint y) (map fingerprint kept) (map fingerprint held),
  )

  distinct-sort_out :
      (t : Fate) (h : Hit) (out : List Hit × List Hit)
      → distinct (all_prints out) ≡ true
      → (is_skip t ≡ false → member (fingerprint h) (all_prints out) ≡ false)
      → distinct (all_prints (sort_out t h out)) ≡ true
  distinct-sort_out skip h (kept, held) d m = d
  distinct-sort_out hold h (kept, held) d m = distinct-middle h kept held d (m refl)
  distinct-sort_out keep h (kept, held) d m = let e = m refl in ground arith

  pub divide-distinct :
      (seen : List Fingerprint) (per_file : PerFile) (hits : List Hit)
      → distinct (all_prints (divide root most own seen per_file hits)) ≡ true
  divide-distinct seen per_file [] = refl
  divide-distinct seen per_file (h ∷ hits) =
      let t = fate root most own seen per_file h in
      let seen' = seen_after t h seen in
      let per_file' = per_file_after t h per_file in
      distinct-sort_out t h (divide root most own seen' per_file' hits)
        (divide-distinct seen' per_file' hits)
        (λ s. ground (
          arith,
          divide-prints seen' per_file' hits (fingerprint h),
          member-seen_after t h seen (fingerprint h),
        ))

  -- Whatever comes out was in, and is no vendored copy.
  abbrev IsFrom : List Hit → Hit → Type 0
  IsFrom hits x = In x hits × (vendored root own x ≡ false)

  pub divide-IsFrom :
      (seen : List Fingerprint) (per_file : PerFile) (hits : List Hit) (x : Hit)
      → In x (both (divide root most own seen per_file hits))
      → IsFrom hits x
  divide-IsFrom seen per_file [] x m = of_empty m
  divide-IsFrom seen per_file (h ∷ hits) x m =
      let t = fate root most own seen per_file h in
      let seen' = seen_after t h seen in
      let per_file' = per_file_after t h per_file in
      elim (In-sort_out t h (divide root most own seen' per_file' hits) x m) [
        | inl (s, e) ↦ (inl e, rw e (ground (arith, is_skip-fate seen per_file h)))
        | inr rest ↦ let (i, v) = divide-IsFrom seen' per_file' hits x rest in (inr i, v)
      ]

  keep-fate :
      (seen : List Fingerprint) (per_file : PerFile) (h : Hit)
      → fate root most own seen per_file h ≡ keep
      → count_of (lookup (h.project, h.rel_path) per_file) < most
  unfolding fate
  keep-fate seen per_file h e = ground arith

  cap_after :
      (q : FilePath × String) (per_file : PerFile) (h : Hit) (t : Fate) (out : List Hit × List Hit)
      → (t ≡ keep → count_of (lookup (h.project, h.rel_path) per_file) < most)
      → count_file q out.0 + count_of (lookup q (per_file_after t h per_file))
        ≤ max most (count_of (lookup q (per_file_after t h per_file)))
      → count_file q (sort_out t h out).0 + count_of (lookup q per_file)
        ≤ max most (count_of (lookup q per_file))
  cap_after q per_file h skip (kept, held) room ih = ih
  cap_after q per_file h hold (kept, held) room ih = ih
  cap_after q per_file h keep (kept, held) room ih =
      let below = room refl in
      let key : FilePath × String = (h.project, h.rel_path) in
      ground (arith, lookup-insert key q (count_of (lookup key per_file) + 1) per_file)

  -- The hits of one file that are kept, with those counted before, pass the cap no further than
  -- those counted before did.
  pub divide-cap :
      (q : FilePath × String) (seen : List Fingerprint) (per_file : PerFile) (hits : List Hit)
      → count_file q (divide root most own seen per_file hits).0 + count_of (lookup q per_file)
        ≤ max most (count_of (lookup q per_file))
  divide-cap q seen per_file [] = omega arith
  divide-cap q seen per_file (h ∷ hits) =
      let t = fate root most own seen per_file h in
      let seen' = seen_after t h seen in
      let per_file' = per_file_after t h per_file in
      cap_after q per_file h t (divide root most own seen' per_file' hits)
        (keep-fate seen per_file h) (divide-cap q seen' per_file' hits)
