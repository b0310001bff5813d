-- ===== src/Conns/Reap.antt =====
-- conns.py: what `reap_idle` closes.
use rag_search_engine.Prelude.{
  ℕ, ◌+◌, ◌≡◌, refl, Bool, not, ◌&&◌, ◌||◌, List, [], ◌∷◌, member, arith, length-filter-le,
  member-filter,
}
use rag_search_engine.Paths.{FilePath, path_discrete}
use rag_search_engine.Conns.{Cache, is_idle, kept_conns, reap_idle, open_count}

module _ (exists : FilePath → Bool) (seconds now : ℕ) where
  -- The handles open after a reaping and those it closed are the handles open before it.
  pub open_count-reap_idle :
      (caches : List Cache)
      → open_count (reap_idle exists seconds now caches).0 + (reap_idle exists seconds now caches).1
        ≡ open_count caches
  unfolding open_count reap_idle
  open_count-reap_idle [] = refl
  open_count-reap_idle (c ∷ caches) = ground (
    arith,
    open_count-reap_idle caches,
    length-filter-le (λ k. not (is_idle exists seconds now c || not (exists k))) c.conns,
  )

  member-kept_conns :
      (k : FilePath) (c : Cache)
      → member k (kept_conns exists seconds now c)
        ≡ (member k c.conns && (c.locked || (not (is_idle exists seconds now c) && exists k)))
  member-kept_conns k c =
      ground
        (arith, member-filter k (λ x. not (is_idle exists seconds now c || not (exists x))) c.conns)

  -- What a reaping makes of one cache: the stamp and the lock stay, and a handle is open
  -- afterwards exactly if it was and a session holds the cache, or the cache is not idle and the
  -- store still exists.
  abbrev pub IsReapedCache : Cache → Cache → Type 0
  IsReapedCache c c' =
      (c'.locked ≡ c.locked)
      × (c'.last_used ≡ c.last_used)
      × ((k : FilePath)
          → member k c'.conns
            ≡ (member k c.conns && (c.locked || (not (is_idle exists seconds now c) && exists k))))

  -- Cache by cache, in their order.
  pub data IsReaped : List Cache → List Cache → Type 0 where
    no_cache : IsReaped [] []
    one_cache :
        {c c' : Cache} {cs cs' : List Cache}
        → IsReapedCache c c'
        → IsReaped cs cs'
        → IsReaped (c ∷ cs) (c' ∷ cs')

  reap_idle-IsReaped :
      (caches : List Cache) → IsReaped caches (reap_idle exists seconds now caches).0
  unfolding reap_idle
  reap_idle-IsReaped [] = no_cache
  reap_idle-IsReaped (c ∷ caches) =
      one_cache (refl, refl, λ k. member-kept_conns k c) (reap_idle-IsReaped caches)

  -- A reaping keeps every cache in its place, with its stamp and its lock; a handle is open
  -- afterwards exactly if it was and a session holds its cache, or the cache is not idle and the
  -- store exists. The handles left open and those counted as closed are the handles open before.
  pub reap_idle_lem :
      (caches : List Cache)
      → IsReaped caches (reap_idle exists seconds now caches).0
        × (open_count (reap_idle exists seconds now caches).0
              + (reap_idle exists seconds now caches).1
            ≡ open_count caches)
  reap_idle_lem caches = (reap_idle-IsReaped caches, open_count-reap_idle caches)
