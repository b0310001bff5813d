-- ===== src/Quiet.antt =====
-- quiet.py: a watch job held until its project stops changing. Times are ticks of the clock; each
-- function is the body of its `with _lock`. A set of paths is a list in which each stands once.
pub mod Due
use rag_search_engine.Prelude.{
  ℕ, ◌+◌, String, Bool, true, false, Option, none, some, List, [], ◌∷◌, ◌++◌, map, dedup, lookup,
  insert, erase, filter, keys, length, sort, leb, if◌then◌else◌, string_discrete,
}
use rag_search_engine.Paths.{FilePath, text_le, path_discrete}

-- `_Held`; no paths is the whole project
pub record HeldJob : Type 0 where
  pub paths : Option (List String)
  pub reason : String
  pub ready_at : ℕ

abbrev pub Held : Type 0
Held = List (FilePath × HeldJob)

-- The triple that `_take` returns.
pub record Taken : Type 0 where
  pub project : FilePath
  pub paths : Option (List String)
  pub reason : String

abbrev pub path_set : Option (List String) → Option (List String)
path_set none = none
path_set (some ps) = some (dedup ps)

-- `live.paths |= set(paths)`, where neither is the whole project
abbrev pub widened : Option (List String) → Option (List String) → Option (List String)
widened none live = none
widened (some ps) none = none
widened (some ps) (some live) = some (dedup (live ++ ps))

abbrev pub sorted_paths : Option (List String) → Option (List String)
sorted_paths none = none
sorted_paths (some ps) = some (sort text_le ps)

abbrev pub held_with : Option HeldJob → Option (List String) → String → ℕ → HeldJob
held_with none paths reason ready_at = record {
  paths = path_set paths;
  reason = reason;
  ready_at = ready_at;
}
held_with (some live) paths reason ready_at = record {
  paths = widened paths live.paths;
  reason = reason;
  ready_at = ready_at;
}

unfoldable pub hold : ℕ → FilePath → Option (List String) → String → ℕ → Held → Held
hold now project paths reason delay held =
    insert project (held_with (lookup project held) paths reason (now + delay)) held

abbrev pub taken : FilePath → HeldJob → Taken
taken project live = record {
  project = project;
  paths = sorted_paths live.paths;
  reason = live.reason;
}

-- `_take`, with nothing for a project that is not held
unfoldable pub release : FilePath → Held → Option Taken × Held
release project held = elim (lookup project held) [
  | none ↦ (none, held)
  | some live ↦ (some (taken project live), erase project held)
]

abbrev pub with_taken : Option Taken → List Taken → List Taken
with_taken none ts = ts
with_taken (some t) ts = t ∷ ts

-- `[_take(p) for p in projects]`
abbrev pub take_each : List FilePath → Held → List Taken × Held
take_each [] held = ([], held)
take_each (p ∷ ps) held =
    let (t, held') = release p held in
    let (ts, rest) = take_each ps held' in (with_taken t ts, rest)

unfoldable pub due : ℕ → Held → List Taken × Held
due now held = take_each (keys (filter (λ e. leb e.1.ready_at now) held)) held

unfoldable pub flush : Held → List Taken × Held
flush held = take_each (keys held) held

pub pending : Held → ℕ
pending held = length held

-- `projects()`, in the order of the hold
pub projects : Held → List FilePath
projects held = keys held
