-- ===== src/Search/Passing.antt =====
-- rank.py: what passes a test before the cut passes it after.
use rag_search_engine.Prelude.{
  ℕ, ◌-◌, ◌≡◌, refl, ◌∙◌, zero, suc, Bool, true, ◌&&◌, ◌||◌, List, [], ◌∷◌, ◌++◌, length, take,
  drop, all, erase, sort, insert_sorted, leb, arith, Bool-cases, inl, inr,
}
use rag_search_engine.Paths.{FilePath, path_discrete}
use rag_search_engine.Rank.{
  Hit, Queues, enqueue, group_from, pop_queue, queues, turn, own_turn, nothing_left, fill, ranked,
  pool_cut, own_share, raised_limit,
}

-- A test that all hits of a list pass is passed by all hits that come of it.
module _ (p : Hit → Bool) where
  pub all-append : (xs ys : List Hit) → all p (xs ++ ys) ≡ (all p xs && all p ys)
  all-append [] ys = refl
  all-append (x ∷ xs) ys = ground (arith, all-append xs ys)

  all-take : (n : ℕ) (xs : List Hit) → all p xs ≡ true → all p (take n xs) ≡ true
  all-take zero xs h = refl
  all-take (suc n) [] h = refl
  all-take (suc n) (x ∷ xs) h = ground (arith, h, all-take n xs)

  all-drop : (n : ℕ) (xs : List Hit) → all p xs ≡ true → all p (drop n xs) ≡ true
  all-drop zero xs h = h
  all-drop (suc n) [] h = refl
  all-drop (suc n) (x ∷ xs) h = all-drop n xs (ground (arith, h))

  all-insert_sorted :
      (le : Hit → Hit → Bool) (x : Hit) (xs : List Hit)
      → all p (insert_sorted le x xs) ≡ (p x && all p xs)
  all-insert_sorted le x [] = refl
  all-insert_sorted le x (y ∷ xs) = ground (arith, all-insert_sorted le x xs)

  pub all-sort : (le : Hit → Hit → Bool) (xs : List Hit) → all p (sort le xs) ≡ all p xs
  all-sort le [] = refl
  all-sort le (x ∷ xs) = ground (arith, all-insert_sorted le x (sort le xs), all-sort le xs)

  abbrev all_queues : Queues → Bool
  all_queues [] = true
  all_queues ((q, l) ∷ qs) = all p l && all_queues qs

  abbrev all_lists : List (List Hit) → Bool
  all_lists [] = true
  all_lists (l ∷ ls) = all p l && all_lists ls

  all-enqueue : (h : Hit) (qs : Queues) → all_queues (enqueue h qs) ≡ (p h && all_queues qs)
  all-enqueue h [] = ground arith
  all-enqueue h ((q, l) ∷ qs) = ground (arith, all-enqueue h qs, all-append l (h ∷ []))

  all-group_from :
      (hits : List Hit) (qs : Queues)
      → all_queues (group_from qs hits) ≡ (all p hits && all_queues qs)
  all-group_from [] qs = refl
  all-group_from (h ∷ hits) qs =
      ground (arith, all-group_from hits (enqueue h qs), all-enqueue h qs)

  all-pop_queue :
      (root : FilePath) (qs : Queues) → all_queues qs ≡ true → all p (pop_queue root qs) ≡ true
  all-pop_queue root [] h = refl
  all-pop_queue root ((q, l) ∷ qs) h = ground (arith, h, all-pop_queue root qs)

  all-erase :
      (root : FilePath) (qs : Queues)
      → all_queues qs ≡ true
      → all_lists (queues (erase root qs)) ≡ true
  all-erase root [] h = refl
  all-erase root ((q, l) ∷ qs) h = ground (arith, h, all-erase root qs)

  all-turn :
      (room : ℕ) (qs : List (List Hit))
      → all_lists qs ≡ true
      → (all p (turn room qs).0 ≡ true) × (all_lists (turn room qs).1 ≡ true)
  all-turn room [] h = (refl, refl)
  all-turn room ([] ∷ qs) h = all-turn room qs h
  all-turn zero ((x ∷ q) ∷ qs) h = (refl, h)
  all-turn (suc room) ((x ∷ q) ∷ qs) h =
      let r = all-turn room qs (ground (arith, h)) in
      (ground (arith, h, r.0), ground (arith, h, r.1))

  all-own_turn :
      (room : ℕ) (own : List Hit)
      → all p own ≡ true
      → (all p (own_turn room own).0 ≡ true) × (all p (own_turn room own).1 ≡ true)
  all-own_turn room [] h = (refl, refl)
  all-own_turn zero (x ∷ own) h = (refl, h)
  all-own_turn (suc room) (x ∷ own) h = (ground (arith, h), ground (arith, h))

  all-fill :
      (fuel room : ℕ) (own : List Hit) (qs : List (List Hit))
      → all p own ≡ true
      → all_lists qs ≡ true
      → all p (fill fuel room own qs) ≡ true
  unfolding fill
  all-fill zero room own qs h g = refl
  all-fill (suc fuel) room own qs h g =
      let t = turn room qs in
      let left = room - length t.0 in
      let o = own_turn left own in
      let a = all-turn room qs g in
      let b = all-own_turn left own h in
      let rest = all-fill fuel (room - length t.0 - length o.0) o.1 t.1 b.1 a.1 in
      elim (Bool-cases (leb room 0 || nothing_left own qs)) [
        | inl e ↦ rw e refl
        | inr e ↦ rw e (
            all-append t.0 (o.0 ++ fill fuel (room - length t.0 - length o.0) o.1 t.1)
            ∙ rw
                (
                  a.0,
                  all-append o.0 (fill fuel (room - length t.0 - length o.0) o.1 t.1),
                  b.0,
                  rest,
                )
                refl)
      ]

  -- Every hit of the cut passes, if every hit of the pool does.
  pub all-pool_cut :
      (pool : List Hit) (root : FilePath) (limit : ℕ)
      → all p pool ≡ true
      → all p (pool_cut pool root limit) ≡ true
  unfolding pool_cut ranked
  all-pool_cut pool root limit h =
      let qs = ranked pool in
      let g : all_queues qs ≡ true =
        all-group_from (sort (λ a b. leb b.rrf a.rrf) pool) []
        ∙ rw (all-sort (λ a b. leb b.rrf a.rrf) pool, h) refl in
      let own = pop_queue root qs in
      let members = queues (erase root qs) in
      let share = own_share limit own in
      let room = raised_limit limit own members - share in
      let o = all-pop_queue root qs g in
      let f =
        all-fill room room (drop share own) members (all-drop share own o) (all-erase root qs g) in
      all-append (take share own) (fill room room (drop share own) members)
      ∙ rw (all-take share own o, f) refl
