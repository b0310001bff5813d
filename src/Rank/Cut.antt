-- ===== src/Rank/Cut.antt =====
-- rank.py: `pool_cut`.
use rag_search_engine.Prelude.{
  ℕ, zero, suc, ◌+◌, ◌-◌, ◌≤◌, ◌<◌, ◌/◌, min, max, ◌≡◌, refl, inl, inr, true, false, ◌||◌, List, [],
  ◌∷◌, ◌++◌, length, take, drop, erase, keys, member, distinct, length-drop, sort, leb, ◌==◌, arith,
  length-append, length-sort, length-take, Bool-cases,
}
use rag_search_engine.Paths.{FilePath, path_discrete}
use rag_search_engine.Rank.{
  Hit, Queues, enqueue, group_from, pop_queue, queues, turn, own_turn, all_empty, nothing_left,
  fill, ranked, own_share, raised_limit, pool_cut,
}

-- The hits in all queues.
abbrev pub total : List (List Hit) → ℕ
total [] = 0
total (q ∷ qs) = length q + total qs

turn-total :
    (room : ℕ) (qs : List (List Hit)) → length (turn room qs).0 + total (turn room qs).1 ≡ total qs
turn-total room [] = omega arith
turn-total room ([] ∷ qs) = omega (arith, turn-total room qs)
turn-total zero ((h ∷ q) ∷ qs) = omega arith
turn-total (suc room) ((h ∷ q) ∷ qs) = omega (arith, turn-total room qs)

turn-le : (room : ℕ) (qs : List (List Hit)) → length (turn room qs).0 ≤ room
turn-le room [] = omega arith
turn-le room ([] ∷ qs) = turn-le room qs
turn-le zero ((h ∷ q) ∷ qs) = omega arith
turn-le (suc room) ((h ∷ q) ∷ qs) = omega (arith, turn-le room qs)

own_turn-total :
    (room : ℕ) (own : List Hit)
    → length (own_turn room own).0 + length (own_turn room own).1 ≡ length own
own_turn-total room [] = omega arith
own_turn-total zero (h ∷ own) = omega arith
own_turn-total (suc room) (h ∷ own) = omega arith

own_turn-le : (room : ℕ) (own : List Hit) → length (own_turn room own).0 ≤ room
own_turn-le room [] = omega arith
own_turn-le zero (h ∷ own) = omega arith
own_turn-le (suc room) (h ∷ own) = omega arith

own_turn-pos : (n : ℕ) (x : Hit) (own : List Hit) → 0 < n → 0 < length (own_turn n (x ∷ own)).0
own_turn-pos zero x own h = omega arith
own_turn-pos (suc n) x own h = omega arith

nothing_left-total :
    (own : List Hit) (qs : List (List Hit)) → nothing_left own qs ≡ true → length own + total qs ≡ 0
nothing_left-total [] [] h = omega arith
nothing_left-total [] ([] ∷ qs) h = omega (arith, nothing_left-total [] qs h)
nothing_left-total [] ((x ∷ q) ∷ qs) h = cc
nothing_left-total (x ∷ own) qs h = cc

-- A round with room takes a hit while there is one.
turn-pos :
    (room : ℕ) (qs : List (List Hit)) → all_empty qs ≡ false → 0 < length (turn (suc room) qs).0
turn-pos room [] h = cc
turn-pos room ([] ∷ qs) h = turn-pos room qs h
turn-pos room ((x ∷ q) ∷ qs) h = omega arith

turn-empty : (room : ℕ) (qs : List (List Hit)) → all_empty qs ≡ true → length (turn room qs).0 ≡ 0
turn-empty room [] h = refl
turn-empty room ([] ∷ qs) h = turn-empty room qs h
turn-empty room ((x ∷ q) ∷ qs) h = cc

round-pos :
    (room : ℕ) (own : List Hit) (qs : List (List Hit))
    → nothing_left own qs ≡ false
    → 0
      < length (turn (suc room) qs).0
        + length (own_turn (suc room - length (turn (suc room) qs).0) own).0
round-pos room [] qs h = omega (arith, turn-pos room qs h)
round-pos room (x ∷ own) qs h = elim (Bool-cases (all_empty qs)) [
  | inl e ↦
      let z = turn-empty (suc room) qs e in
      omega
        (arith, own_turn-pos (suc room - length (turn (suc room) qs).0) x own (omega (arith, z)))
  | inr e ↦ omega (arith, turn-pos room qs e)
]

-- With fuel for the room, the loop stops when the room is full or every queue is empty.
length-fill :
    (fuel room : ℕ) (own : List Hit) (qs : List (List Hit))
    → room ≤ fuel
    → length (fill fuel room own qs) ≡ min room (length own + total qs)
unfolding fill
length-fill zero room own qs h = omega arith
length-fill (suc fuel) zero own qs h = ground arith
length-fill (suc fuel) (suc room) own qs h =
    let t = (turn (suc room) qs).0 in
    let qs' = (turn (suc room) qs).1 in
    let o = (own_turn (suc room - length t) own).0 in
    let own' = (own_turn (suc room - length t) own).1 in
    let rest = fill fuel (suc room - length t - length o) own' qs' in
    elim (Bool-cases (nothing_left own qs)) [
      | inl e ↦ ground (arith, e, nothing_left-total own qs e)
      | inr e ↦ ground (
        arith,
        e,
        length-append t (o ++ rest),
        length-append o rest,
        turn-total (suc room) qs,
        turn-le (suc room) qs,
        own_turn-total (suc room - length t) own,
        own_turn-le (suc room - length t) own,
        round-pos room own qs e,
        length-fill fuel (suc room - length t - length o) own' qs',
      )
    ]

-- The whole pool, counted by project.
total-enqueue : (h : Hit) (qs : Queues) → total (queues (enqueue h qs)) ≡ suc (total (queues qs))
total-enqueue h [] = refl
total-enqueue h ((p, q) ∷ qs) = ground (arith, length-append q (h ∷ []), total-enqueue h qs)

total-group_from :
    (hits : List Hit) (qs : Queues)
    → total (queues (group_from qs hits)) ≡ length hits + total (queues qs)
total-group_from [] qs = omega arith
total-group_from (h ∷ hits) qs =
    omega (arith, total-group_from hits (enqueue h qs), total-enqueue h qs)

keys-enqueue :
    (p : FilePath) (h : Hit) (qs : Queues)
    → member p (keys (enqueue h qs)) ≡ (p == h.project || member p (keys qs))
keys-enqueue p h [] = refl
keys-enqueue p h ((r, q) ∷ qs) = ground (arith, keys-enqueue p h qs)

distinct-enqueue :
    (h : Hit) (qs : Queues) → distinct (keys qs) ≡ true → distinct (keys (enqueue h qs)) ≡ true
distinct-enqueue h [] d = refl
distinct-enqueue h ((r, q) ∷ qs) d = ground (arith, distinct-enqueue h qs, keys-enqueue r h qs)

pub distinct-group_from :
    (hits : List Hit) (qs : Queues)
    → distinct (keys qs) ≡ true
    → distinct (keys (group_from qs hits)) ≡ true
distinct-group_from [] qs d = d
distinct-group_from (h ∷ hits) qs d =
    distinct-group_from hits (enqueue h qs) (distinct-enqueue h qs d)

total-erase_absent :
    (root : FilePath) (qs : Queues)
    → member root (keys qs) ≡ false
    → total (queues (erase root qs)) ≡ total (queues qs)
total-erase_absent root [] m = refl
total-erase_absent root ((r, q) ∷ qs) m = ground (arith, total-erase_absent root qs)

total-pop_queue :
    (root : FilePath) (qs : Queues)
    → distinct (keys qs) ≡ true
    → length (pop_queue root qs) + total (queues (erase root qs)) ≡ total (queues qs)
total-pop_queue root [] d = refl
total-pop_queue root ((r, q) ∷ qs) d =
    ground (arith, total-pop_queue root qs, total-erase_absent root qs)

total-ranked :
    (pool : List Hit) (root : FilePath)
    → length (pop_queue root (ranked pool)) + total (queues (erase root (ranked pool)))
      ≡ length pool
unfolding ranked
total-ranked pool root =
    let sorted = sort (λ a b. leb b.rrf a.rrf) pool in
    omega (
      arith,
      total-pop_queue root (group_from [] sorted) (distinct-group_from sorted [] refl),
      total-group_from sorted [],
      length-sort (λ a b. leb b.rrf a.rrf) pool,
    )

-- The cut has as many hits as the raised limit, or the whole pool where that is smaller. The
-- raised limit is the limit, or the caller's own share and one hit for each other project in the
-- pool where that is larger.
pub length-pool_cut :
    (pool : List Hit) (root : FilePath) (limit : ℕ)
    → length (pool_cut pool root limit)
      ≡ min
          (raised_limit limit (pop_queue root (ranked pool)) (queues (erase root (ranked pool))))
          (length pool)
unfolding pool_cut raised_limit own_share
length-pool_cut pool root limit =
    let own = pop_queue root (ranked pool) in
    let members = queues (erase root (ranked pool)) in
    let share = min (length own) (max 1 (limit / 2)) in
    let room = max limit (share + length members) - share in
    omega (
      arith,
      length-append (take share own) (fill room room (drop share own) members),
      length-take share own,
      length-drop share own,
      length-fill room room (drop share own) members (omega arith),
      total-ranked pool root,
    )
