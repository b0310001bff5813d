-- ===== src/Rank/Diversify.antt =====
-- rank.py: `diversify`.
use rag_search_engine.Prelude.{
  ℕ, zero, suc, ◌≤◌, ◌<◌, ◌≡◌, refl, inl, inr, In, of_empty, String, true, false, not, ◌&&◌, List,
  [], ◌∷◌, ◌++◌, map, length, take, member, any, distinct, ◌==◌, if◌then◌else◌, arith, length-take,
  string_discrete, pair_discrete,
}
use rag_search_engine.Paths.{FilePath, path_discrete}
use rag_search_engine.Whitespace.{text_discrete}
use rag_search_engine.Rank.{
  Hit, Fingerprint, fingerprint, vendored, divide, own_fingerprints, diversify,
}
use rag_search_engine.Rank.Divide.{
  both, count_file, divide-prints, divide-distinct, divide-IsFrom, divide-cap,
}

-- Taking a prefix.
In-take : (n : ℕ) (l : List Hit) (x : Hit) → In x (take n l) → In x l
In-take zero l x m = of_empty m
In-take (suc n) [] x m = m
In-take (suc n) (y ∷ l) x (inl e) = inl e
In-take (suc n) (y ∷ l) x (inr m) = inr (In-take n l x m)

member-take :
    (n : ℕ) (l : List Hit) (f : Fingerprint)
    → member f (map fingerprint l) ≡ false
    → member f (map fingerprint (take n l)) ≡ false
member-take zero l f h = refl
member-take (suc n) [] f h = refl
member-take (suc n) (y ∷ l) f h = ground (arith, member-take n l f)

distinct-take :
    (n : ℕ) (l : List Hit)
    → distinct (map fingerprint l) ≡ true
    → distinct (map fingerprint (take n l)) ≡ true
distinct-take zero l h = refl
distinct-take (suc n) [] h = refl
distinct-take (suc n) (y ∷ l) h = ground (arith, distinct-take n l, member-take n l (fingerprint y))

take_of_length-le : (n : ℕ) (l : List Hit) → length l ≤ n → take n l ≡ l
take_of_length-le zero [] h = refl
take_of_length-le zero (x ∷ l) h = absurd (omega arith)
take_of_length-le (suc n) [] h = refl
take_of_length-le (suc n) (x ∷ l) h = rw (take_of_length-le n l (omega arith))

count_file-take :
    (q : FilePath × String) (n : ℕ) (a b : List Hit)
    → n ≤ length a
    → count_file q (take n (a ++ b)) ≤ count_file q a
count_file-take q zero a b h = omega arith
count_file-take q (suc n) [] b h = absurd (omega arith)
count_file-take q (suc n) (x ∷ a) b h = ground (arith, count_file-take q n a b)

any-own :
    (root : FilePath) (hits : List Hit) (f : Fingerprint)
    → member f (own_fingerprints root hits)
      ≡ any (λ h. (h.project == root) && (f == fingerprint h)) hits
any-own root [] f = refl
any-own root (h ∷ hits) f = ground (arith, any-own root hits f)

any-vendored :
    (root : FilePath) (own : List Fingerprint) (hits : List Hit) (f : Fingerprint)
    → any (λ h. not (vendored root own h) && (f == fingerprint h)) hits ≡ (
        if member f own
        then any (λ h. (h.project == root) && (f == fingerprint h)) hits
        else member f (map fingerprint hits))
any-vendored root own [] f = ground arith
any-vendored root own (h ∷ hits) f = ground (arith, any-vendored root own hits f)

own-print :
    (root : FilePath) (hits : List Hit) (f : Fingerprint)
    → member f (own_fingerprints root hits) ≡ true
    → member f (map fingerprint hits) ≡ true
own-print root [] f h = cc
own-print root (x ∷ hits) f h = ground (arith, own-print root hits f)

module _ (hits : List Hit) (k max_per_file : ℕ) (root : FilePath) where
  -- At most `k` results, no answer twice, every result one of the hits, and where the caller's own
  -- project has a hit with the same fingerprint, the result is the own project's copy.
  pub diversify_sound :
      (length (diversify hits k max_per_file root) ≤ k)
      × (distinct (map fingerprint (diversify hits k max_per_file root)) ≡ true)
      × ((x : Hit)
          → In x (diversify hits k max_per_file root)
          → In x hits
            × ((member (fingerprint x) (own_fingerprints root hits) && not (x.project == root))
                ≡ false))
  unfolding diversify
  diversify_sound =
      let own = own_fingerprints root hits in
      let all = both (divide root max_per_file own [] [] hits) in
      (
        omega (arith, length-take k all),
        distinct-take k all (divide-distinct root max_per_file own [] [] hits),
        λ x m. divide-IsFrom root max_per_file own [] [] hits x (In-take k all x m),
      )

  -- Where fewer than `k` results come out, no answer was held back: every fingerprint among the
  -- hits is the fingerprint of a result.
  pub diversify_complete :
      (f : Fingerprint)
      → length (diversify hits k max_per_file root) < k
      → member f (map fingerprint (diversify hits k max_per_file root))
        ≡ member f (map fingerprint hits)
  unfolding diversify
  diversify_complete f h =
      let own = own_fingerprints root hits in
      let all = both (divide root max_per_file own [] [] hits) in
      let whole : take k all ≡ all = take_of_length-le k all (omega (arith, length-take k all)) in
      rw whole (
        ground (
          arith,
          divide-prints root max_per_file own [] [] hits f,
          any-vendored root own hits f,
          any-own root hits f,
          own-print root hits f,
        ))

  -- Where the hits within the cap fill the answer, no file has more than `max_per_file` results.
  pub diversify_cap :
      (q : FilePath × String)
      → k ≤ length (divide root max_per_file (own_fingerprints root hits) [] [] hits).0
      → count_file q (diversify hits k max_per_file root) ≤ max_per_file
  unfolding diversify
  diversify_cap q h =
      let out = divide root max_per_file (own_fingerprints root hits) [] [] hits in
      omega (
        arith,
        count_file-take q k out.0 out.1 h,
        divide-cap root max_per_file (own_fingerprints root hits) q [] [] hits,
      )
