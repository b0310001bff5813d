-- ===== src/Search/Fused.antt =====
-- search.py: `rrf`.
use rag_search_engine.Prelude.{
  ℕ, ◌+◌, ◌≡◌, refl, sym, ap, if◌then◌else◌, Bool-cases, inl, inr, ◌++◌, ◌∙◌, true, ◌||◌, Option,
  none, some, List, [], ◌∷◌, any, keys, lookup, insert, member, distinct, member-keys-insert,
  lookup-insert, distinct-keys-insert, ◌==◌, nat_discrete, arith,
}
use rag_search_engine.Search.{Float, score_of, add_ranked, fuse, rrf}

module _ (float : Float) (k : ℕ) where
  member-add_ranked :
      (id position : ℕ) (ranked : List ℕ) (fused : List (ℕ × float.F))
      → member id (keys (add_ranked float k position ranked fused))
        ≡ (member id ranked || member id (keys fused))
  member-add_ranked id position [] fused = refl
  member-add_ranked id position (x ∷ ranked) fused =
      let v = float.add (score_of float (lookup x fused)) (float.reciprocal (k + position + 1)) in
      ground (
        arith,
        member-add_ranked id (position + 1) ranked (insert x v fused),
        member-keys-insert x id v fused,
      )

  distinct-add_ranked :
      (position : ℕ) (ranked : List ℕ) (fused : List (ℕ × float.F))
      → distinct (keys fused) ≡ true
      → distinct (keys (add_ranked float k position ranked fused)) ≡ true
  distinct-add_ranked position [] fused u = u
  distinct-add_ranked position (x ∷ ranked) fused u =
      let v = float.add (score_of float (lookup x fused)) (float.reciprocal (k + position + 1)) in
      distinct-add_ranked (position + 1) ranked (insert x v fused)
        (distinct-keys-insert x v fused u)

  member-fuse :
      (id : ℕ) (lists : List (List ℕ)) (fused : List (ℕ × float.F))
      → member id (keys (fuse float k lists fused))
        ≡ (any (member id) lists || member id (keys fused))
  member-fuse id [] fused = refl
  member-fuse id (l ∷ lists) fused =
      ground
        (arith, member-fuse id lists (add_ranked float k 0 l fused), member-add_ranked id 0 l fused)

  distinct-fuse :
      (lists : List (List ℕ)) (fused : List (ℕ × float.F))
      → distinct (keys fused) ≡ true
      → distinct (keys (fuse float k lists fused)) ≡ true
  distinct-fuse [] fused u = u
  distinct-fuse (l ∷ lists) fused u =
      distinct-fuse lists (add_ranked float k 0 l fused) (distinct-add_ranked 0 l fused u)

-- The positions at which an id stands in a list, counted from `position`, and those in each of
-- several lists.
abbrev pub positions : ℕ → ℕ → List ℕ → List ℕ
positions id position [] = []
positions id position (x ∷ xs) =
    let rest = positions id (position + 1) xs in if x == id then position ∷ rest else rest

abbrev pub places : ℕ → List (List ℕ) → List ℕ
places id [] = []
places id (l ∷ lists) = positions id 0 l ++ places id lists

module _ (float : Float) (k : ℕ) where
  -- A sum and what the places add to it.
  abbrev pub total : float.F → List ℕ → float.F
  total x [] = x
  total x (p ∷ ps) = total (float.add x (float.reciprocal (k + p + 1))) ps

  -- The score of what stands at these places, and nothing where there is none.
  abbrev pub scored : List ℕ → Option float.F
  scored [] = none
  scored (p ∷ ps) = some (total float.zero_f (p ∷ ps))

  abbrev gained : Option float.F → List ℕ → Option float.F
  gained o [] = o
  gained o (p ∷ ps) = gained (some (float.add (score_of float o) (float.reciprocal (k + p + 1)))) ps

  gained-append : (o : Option float.F) (a b : List ℕ) → gained o (a ++ b) ≡ gained (gained o a) b
  gained-append o [] b = refl
  gained-append o (p ∷ a) b =
      gained-append (some (float.add (score_of float o) (float.reciprocal (k + p + 1)))) a b

  gained-some : (x : float.F) (ps : List ℕ) → gained (some x) ps ≡ some (total x ps)
  gained-some x [] = refl
  gained-some x (p ∷ ps) = gained-some (float.add x (float.reciprocal (k + p + 1))) ps

  gained-none : (ps : List ℕ) → gained none ps ≡ scored ps
  gained-none [] = refl
  gained-none (p ∷ ps) = gained-some (float.add float.zero_f (float.reciprocal (k + p + 1))) ps

  lookup-add_ranked :
      (id position : ℕ) (ranked : List ℕ) (fused : List (ℕ × float.F))
      → lookup id (add_ranked float k position ranked fused)
        ≡ gained (lookup id fused) (positions id position ranked)
  lookup-add_ranked id position [] fused = refl
  lookup-add_ranked id position (x ∷ ranked) fused =
      let v = float.add (score_of float (lookup x fused)) (float.reciprocal (k + position + 1)) in
      lookup-add_ranked id (position + 1) ranked (insert x v fused)
      ∙ (ap (λ o. gained o (positions id (position + 1) ranked)) (lookup-insert x id v fused)
          ∙ elim (Bool-cases (x == id)) [
            | inl t ↦ let e : x ≡ id = ground (arith, t) in rw (t, e) refl
            | inr f ↦ rw f refl
          ])

  lookup-fuse :
      (id : ℕ) (lists : List (List ℕ)) (fused : List (ℕ × float.F))
      → lookup id (fuse float k lists fused) ≡ gained (lookup id fused) (places id lists)
  lookup-fuse id [] fused = refl
  lookup-fuse id (l ∷ lists) fused =
      lookup-fuse id lists (add_ranked float k 0 l fused)
      ∙ (ap (λ o. gained o (places id lists)) (lookup-add_ranked id 0 l fused)
          ∙ sym (gained-append (lookup id fused) (positions id 0 l) (places id lists)))

-- The fusion of rank lists holds no chunk twice, and exactly those that one of the lists holds.
-- The score of a chunk is the sum of `1 / (k + position + 1)` over the places at which the lists
-- have it, added up in the order of the lists from 0, with positions counted from 0 in each list;
-- `k` is the default where 0 is given.
pub rrf_lem :
    (float : Float) (rrf_k : ℕ) (k : ℕ) (lists : List (List ℕ)) (id : ℕ)
    → (distinct (keys (rrf float rrf_k k lists)) ≡ true)
      × (member id (keys (rrf float rrf_k k lists)) ≡ any (member id) lists)
      × (lookup id (rrf float rrf_k k lists)
          ≡ scored float (if k == 0 then rrf_k else k) (places id lists))
unfolding rrf
rrf_lem float rrf_k k lists id =
    let c = if k == 0 then rrf_k else k in
    (
      distinct-fuse float c lists [] refl,
      member-fuse float c id lists [] ∙ ground (arith),
      lookup-fuse float c id lists [] ∙ gained-none float c (places id lists),
    )
