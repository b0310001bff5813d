-- ===== src/Rank/Represented.antt =====
-- rank.py: `pool_cut` leaves no project out.
use rag_search_engine.Prelude.{
  ℕ, zero, suc, ◌+◌, ◌-◌, ◌≤◌, ◌/◌, min, max, ◌≡◌, refl, Bool, true, false, ◌&&◌, ◌||◌, List, [],
  ◌∷◌, ◌++◌, length, take, drop, erase, keys, member, distinct, any, any-append, any-sort, sort,
  leb, ◌==◌, arith,
}
use rag_search_engine.Paths.{FilePath, path_discrete}
use rag_search_engine.Rank.Cut.{distinct-group_from}
use rag_search_engine.Rank.{
  Hit, Queues, enqueue, group_from, pop_queue, queues, turn, own_turn, nothing_left, fill, ranked,
  own_share, raised_limit, pool_cut,
}

-- A hit of this project.
abbrev pub from : FilePath → List Hit → Bool
from p hits = any (λ h. h.project == p) hits

-- One of the queues has a hit of this project in front.
abbrev leads : FilePath → List (List Hit) → Bool
leads p [] = false
leads p ([] ∷ qs) = leads p qs
leads p ((h ∷ q) ∷ qs) = h.project == p || leads p qs

-- No queue is empty, and each has a hit of its own project in front.
abbrev keyed : Queues → Bool
keyed [] = true
keyed ((p, []) ∷ qs) = false
keyed ((p, h ∷ q) ∷ qs) = h.project == p && keyed qs

keyed-enqueue : (h : Hit) (qs : Queues) → keyed qs ≡ true → keyed (enqueue h qs) ≡ true
keyed-enqueue h [] k = ground arith
keyed-enqueue h ((r, []) ∷ qs) k = ground (arith, k)
keyed-enqueue h ((r, x ∷ q) ∷ qs) k = ground (arith, k, keyed-enqueue h qs)

keyed-group_from :
    (hits : List Hit) (qs : Queues) → keyed qs ≡ true → keyed (group_from qs hits) ≡ true
keyed-group_from [] qs k = k
keyed-group_from (h ∷ hits) qs k = keyed-group_from hits (enqueue h qs) (keyed-enqueue h qs k)

leads-enqueue :
    (p : FilePath) (h : Hit) (qs : Queues)
    → keyed qs ≡ true
    → leads p (queues (enqueue h qs)) ≡ (h.project == p || leads p (queues qs))
leads-enqueue p h [] k = refl
leads-enqueue p h ((r, []) ∷ qs) k = ground (arith, k)
leads-enqueue p h ((r, x ∷ q) ∷ qs) k = ground (arith, k, leads-enqueue p h qs)

leads-group_from :
    (p : FilePath) (hits : List Hit) (qs : Queues)
    → keyed qs ≡ true
    → leads p (queues (group_from qs hits)) ≡ (leads p (queues qs) || from p hits)
leads-group_from p [] qs k = ground arith
leads-group_from p (h ∷ hits) qs k =
    ground
      (arith, leads-group_from p hits (enqueue h qs) (keyed-enqueue h qs k), leads-enqueue p h qs k)

leads-erase_absent :
    (p root : FilePath) (qs : Queues)
    → member root (keys qs) ≡ false
    → leads p (queues (erase root qs)) ≡ leads p (queues qs)
leads-erase_absent p root [] m = refl
leads-erase_absent p root ((r, []) ∷ qs) m = ground (arith, leads-erase_absent p root qs)
leads-erase_absent p root ((r, x ∷ q) ∷ qs) m = ground (arith, leads-erase_absent p root qs)

-- Taking one queue out leaves the fronts of the others, and the front of that one is its own.
leads-pop_queue :
    (p root : FilePath) (qs : Queues)
    → distinct (keys qs) ≡ true
    → keyed qs ≡ true
    → leads p (queues qs) ≡ true
    → (from p (take 1 (pop_queue root qs)) || leads p (queues (erase root qs))) ≡ true
leads-pop_queue p root [] d k h = cc
leads-pop_queue p root ((r, []) ∷ qs) d k h = cc
leads-pop_queue p root ((r, x ∷ q) ∷ qs) d k h =
    ground (arith, d, k, h, leads-erase_absent p root qs, leads-pop_queue p root qs)

leads-turn :
    (p : FilePath) (room : ℕ) (qs : List (List Hit))
    → length qs ≤ room
    → leads p qs ≡ true
    → from p (turn room qs).0 ≡ true
leads-turn p room [] n h = cc
leads-turn p room ([] ∷ qs) n h = leads-turn p room qs (omega (arith, n)) h
leads-turn p zero ((x ∷ q) ∷ qs) n h = ground (arith, n)
leads-turn p (suc room) ((x ∷ q) ∷ qs) n h = ground (arith, n, h, leads-turn p room qs)

leads-nothing_left :
    (p : FilePath) (own : List Hit) (qs : List (List Hit))
    → leads p qs ≡ true
    → nothing_left own qs ≡ false
leads-nothing_left p (x ∷ own) qs h = refl
leads-nothing_left p [] [] h = cc
leads-nothing_left p [] ([] ∷ qs) h = leads-nothing_left p [] qs h
leads-nothing_left p [] ((x ∷ q) ∷ qs) h = refl

from-fill :
    (p : FilePath) (room : ℕ) (own : List Hit) (qs : List (List Hit))
    → length qs ≤ room
    → leads p qs ≡ true
    → from p (fill room room own qs) ≡ true
unfolding fill
from-fill p zero own [] n h = cc
from-fill p zero own (q ∷ qs) n h = ground (arith, n)
from-fill p (suc room) own qs n h =
    let (t, qs') = turn (suc room) qs in
    let (o, own') = own_turn (suc room - length t) own in
    let rest = fill room (suc room - length t - length o) own' qs' in
    ground (
      arith,
      leads-nothing_left p own qs h,
      any-append (λ h. h.project == p) t (o ++ rest),
      leads-turn p (suc room) qs n h,
    )

from-take :
    (p : FilePath) (n : ℕ) (own : List Hit)
    → from p (take 1 own) ≡ true
    → 1 ≤ n
    → from p (take n own) ≡ true
from-take p zero own h n = ground (arith, n)
from-take p (suc m) [] h n = cc
from-take p (suc m) (x ∷ own) h n = ground (arith, h)

from-length : (p : FilePath) (own : List Hit) → from p (take 1 own) ≡ true → 1 ≤ length own
from-length p [] h = cc
from-length p (x ∷ own) h = omega arith

-- A project with a hit in the pool has one in the cut.
pub pool_cut-represents :
    (pool : List Hit) (root : FilePath) (limit : ℕ) (p : FilePath)
    → from p pool ≡ true
    → from p (pool_cut pool root limit) ≡ true
unfolding pool_cut raised_limit own_share ranked
pool_cut-represents pool root limit p h =
    let sorted = sort (λ a b. leb b.rrf a.rrf) pool in
    let by_project = group_from [] sorted in
    let own = pop_queue root by_project in
    let members = queues (erase root by_project) in
    let share = min (length own) (max 1 (limit / 2)) in
    let room = max limit (share + length members) - share in
    let k = keyed-group_from sorted [] refl in
    ground (
      arith,
      any-append (λ h. h.project == p) (take share own) (fill room room (drop share own) members),
      leads-pop_queue p root by_project (distinct-group_from sorted [] refl) k,
      leads-group_from p sorted [] refl,
      any-sort (λ a b. leb b.rrf a.rrf) (λ h. h.project == p) pool,
      from-fill p room (drop share own) members (omega arith),
      from-take p share own,
      from-length p own,
      h,
    )
