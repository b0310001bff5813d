-- ===== src/Rank.antt =====
-- rank.py: which hits reach the cross-encoder, and which of them are the answer.
pub mod Divide
pub mod Diversify
pub mod Cut
pub mod Represented
use rag_search_engine.Prelude.{
  ℕ, zero, suc, ◌+◌, ◌-◌, ◌/◌, min, max, String, Bool, true, false, not, ◌&&◌, ◌||◌, Option, none,
  some, List, [], ◌∷◌, ◌++◌, map, length, take, drop, lookup, insert, erase, member, filter, sort,
  leb, ltb, ◌==◌, if◌then◌else◌, string_discrete, pair_discrete,
}
use rag_search_engine.Paths.{FilePath, path_discrete}
use rag_search_engine.Whitespace.{words, join, text_discrete}

-- Texts are code points; of the scores the fused one, in millionths, as it is rounded.
pub record Hit : Type 0 where
  pub project : FilePath
  pub path : String
  pub rel_path : String
  pub start_line : ℕ
  pub end_line : ℕ
  pub lang : String
  pub text : List ℕ
  pub rrf : ℕ

abbrev pub Fingerprint : Type 0
Fingerprint = String × List ℕ

-- Same file, same text modulo whitespace.
unfoldable pub fingerprint : Hit → Fingerprint
fingerprint h = (h.rel_path, take 400 (join (b' ' ∷ []) (words h.text)))

-- The dict of deques, in order of first appearance.
abbrev pub Queues : Type 0
Queues = List (FilePath × List Hit)

-- `by_project[hit.project].append(hit)`
abbrev pub enqueue : Hit → Queues → Queues
enqueue h [] = (h.project, h ∷ []) ∷ []
enqueue h ((p, q) ∷ qs) = if p == h.project then (p, q ++ h ∷ []) ∷ qs else (p, q) ∷ enqueue h qs

abbrev pub group_from : Queues → List Hit → Queues
group_from qs [] = qs
group_from qs (h ∷ hits) = group_from (enqueue h qs) hits

-- `by_project.pop(root, deque())`
abbrev pub pop_queue : FilePath → Queues → List Hit
pop_queue root [] = []
pop_queue root ((p, q) ∷ qs) = if p == root then q else pop_queue root qs

abbrev pub queues : Queues → List (List Hit)
queues [] = []
queues ((p, q) ∷ qs) = q ∷ queues qs

-- One turn of each member's queue while there is room: what is taken, and the queues left.
abbrev pub turn : ℕ → List (List Hit) → List Hit × List (List Hit)
turn room [] = ([], [])
turn room ([] ∷ qs) = let (t, rest) = turn room qs in (t, [] ∷ rest)
turn zero ((h ∷ q) ∷ qs) = ([], (h ∷ q) ∷ qs)
turn (suc room) ((h ∷ q) ∷ qs) = let (t, rest) = turn room qs in (h ∷ t, q ∷ rest)

-- The turn of the caller's own project.
abbrev pub own_turn : ℕ → List Hit → List Hit × List Hit
own_turn room [] = ([], [])
own_turn zero (h ∷ own) = ([], h ∷ own)
own_turn (suc room) (h ∷ own) = (h ∷ [], own)

abbrev pub all_empty : List (List Hit) → Bool
all_empty [] = true
all_empty ([] ∷ qs) = all_empty qs
all_empty ((h ∷ q) ∷ qs) = false

abbrev pub nothing_left : List Hit → List (List Hit) → Bool
nothing_left [] qs = all_empty qs
nothing_left (h ∷ own) qs = false

-- The `while` loop: `room` is `limit - len(taken)`. Every round takes a hit at least, so fuel of
-- `room` is enough.
unfoldable pub fill : ℕ → ℕ → List Hit → List (List Hit) → List Hit
fill zero room own qs = []
fill (suc fuel) room own qs =
    let (t, qs') = turn room qs in
    let (o, own') = own_turn (room - length t) own in
    let rest = fill fuel (room - length t - length o) own' qs' in
    if leb room 0 || nothing_left own qs then [] else t ++ (o ++ rest)

-- The queues of the sorted pool: best first within each project.
unfoldable pub ranked : List Hit → Queues
ranked pool = group_from [] (sort (λ a b. leb b.rrf a.rrf) pool)

unfoldable pub own_share : ℕ → List Hit → ℕ
own_share limit own = min (length own) (max 1 (limit / 2))

unfoldable pub raised_limit : ℕ → List Hit → List (List Hit) → ℕ
unfolding own_share
raised_limit limit own members = max limit (own_share limit own + length members)

unfoldable pub pool_cut : List Hit → FilePath → ℕ → List Hit
pool_cut pool root limit =
    let by_project = ranked pool in
    let own = pop_queue root by_project in
    let members = queues (erase root by_project) in
    let share = own_share limit own in
    let room = raised_limit limit own members - share in
    take share own ++ fill room room (drop share own) members

-- The loop of `diversify`: what is kept and what is held back.
abbrev pub PerFile : Type 0
PerFile = List ((FilePath × String) × ℕ)

abbrev pub count_of : Option ℕ → ℕ
count_of none = 0
count_of (some n) = n

-- A copy in another project of code that the caller's own project has too.
abbrev pub vendored : FilePath → List Fingerprint → Hit → Bool
vendored root own h = member (fingerprint h) own && not (h.project == root)

-- What the loop does with a hit: `continue` on a copy, `held.append`, or `kept.append`.
pub data Fate : Type 0 where
  skip hold keep : Fate

unfoldable pub fate : FilePath → ℕ → List Fingerprint → List Fingerprint → PerFile → Hit → Fate
fate root most own seen per_file h =
    if member (fingerprint h) seen || vendored root own h
    then skip
    else if leb most (count_of (lookup (h.project, h.rel_path) per_file))
    then hold
    else keep

-- `seen` and `per_file` after the hit
abbrev pub seen_after : Fate → Hit → List Fingerprint → List Fingerprint
seen_after skip h seen = seen
seen_after _ h seen = fingerprint h ∷ seen

abbrev pub per_file_after : Fate → Hit → PerFile → PerFile
per_file_after keep h per_file =
    insert (h.project, h.rel_path) (count_of (lookup (h.project, h.rel_path) per_file) + 1) per_file
per_file_after _ h per_file = per_file

abbrev pub sort_out : Fate → Hit → List Hit × List Hit → List Hit × List Hit
sort_out skip h (kept, held) = (kept, held)
sort_out hold h (kept, held) = (kept, h ∷ held)
sort_out keep h (kept, held) = (h ∷ kept, held)

abbrev pub divide :
    FilePath → ℕ → List Fingerprint → List Fingerprint → PerFile → List Hit → List Hit × List Hit
divide root most own seen per_file [] = ([], [])
divide root most own seen per_file (h ∷ hits) =
    let t = fate root most own seen per_file h in
    sort_out t h (divide root most own (seen_after t h seen) (per_file_after t h per_file) hits)

abbrev pub own_fingerprints : FilePath → List Hit → List Fingerprint
own_fingerprints root hits = map fingerprint (filter (λ h. h.project == root) hits)

unfoldable pub diversify : List Hit → ℕ → ℕ → FilePath → List Hit
diversify hits k max_per_file root =
    let (kept, held) = divide root max_per_file (own_fingerprints root hits) [] [] hits in
    take k (kept ++ held)
