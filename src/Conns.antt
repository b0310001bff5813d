-- ===== src/Conns.antt =====
-- conns.py: the stores that each thread holds open, and the reaping of those that went quiet.
pub mod Reap
use rag_search_engine.Prelude.{
  ℕ, ◌+◌, ◌-◌, Bool, true, false, not, ◌&&◌, ◌||◌, List, [], ◌∷◌, length, filter, leb,
  if◌then◌else◌,
}
use rag_search_engine.Paths.{FilePath}

-- One thread's handles, by the path of the store; `locked` while a session of the thread runs.
pub record Cache : Type 0 where
  pub conns : List FilePath
  pub last_used : ℕ
  pub locked : Bool

-- A session begins, and ends with a stamp.
unfoldable pub enter : ℕ → Cache → Cache
enter now c = record c { last_used = now; locked = true }

unfoldable pub leave : ℕ → Cache → Cache
leave now c = record c { last_used = now; locked = false }

module _ (exists : FilePath → Bool) (seconds now : ℕ) where
  abbrev pub is_idle : Cache → Bool
  is_idle c = leb seconds (now - c.last_used)

  -- The handles that stay.
  abbrev pub kept_conns : Cache → List FilePath
  kept_conns c =
      if c.locked then c.conns else filter (λ k. not (is_idle c || not (exists k))) c.conns

  -- The caches after it, and how many handles were closed.
  unfoldable pub reap_idle : List Cache → List Cache × ℕ
  reap_idle [] = ([], 0)
  reap_idle (c ∷ caches) =
      let (rest, closed) = reap_idle caches in
      (record c { conns = kept_conns c } ∷ rest, length c.conns - length (kept_conns c) + closed)

unfoldable pub open_count : List Cache → ℕ
open_count [] = 0
open_count (c ∷ caches) = length c.conns + open_count caches

unfoldable pub close_all : Cache → Cache
close_all c = record c { conns = [] }
