-- ===== src/Prune/Grace.antt =====
-- prune.py: the grace period, and the verdict on a row at a cold start.
use rag_search_engine.Prelude.{
  ℕ, ◌≡◌, ◌≢◌, refl, Bool, true, false, ◌||◌, Option, none, some, List, [], ◌∷◌, member, distinct,
  keys, lookup, erase, filter, leb, if◌then◌else◌, nat_discrete, arith, inl, inr, Bool-cases,
  lookup-erase, member-sort,
}
use rag_search_engine.Paths.{FilePath, path_discrete, key_le}
use rag_search_engine.FileSystem.{FileSystem}
use rag_search_engine.Entry.{ProjectEntry}
use rag_search_engine.Prune.{
  parents, first_existing, deleted, ancestor_verdict, verdict, Pending, Pruner, due_keys,
  erase_each, take_due,
}

-- The grace period of the path is over.
abbrev pub is_over : ℕ → Option ℕ → Bool
is_over now none = false
is_over now (some due) = leb due now

lookup-erase_each :
    (k : FilePath) (ks : List FilePath) (pending : Pending)
    → lookup k (erase_each ks pending) ≡ (if member k ks then none else lookup k pending)
lookup-erase_each k [] pending = refl
lookup-erase_each k (x ∷ ks) pending =
    ground (arith, lookup-erase_each k ks (erase x pending), lookup-erase x k pending)

member-filter-keys :
    {V : Type 0} (q : FilePath × V → Bool) (k : FilePath) (l : List (FilePath × V))
    → member k (keys l) ≡ false
    → (member k (keys (filter q l)) ≡ false) × (lookup k l ≡ none)
member-filter-keys q k [] m = (refl, refl)
member-filter-keys q k ((i, v) ∷ l) m = ground (arith, member-filter-keys q k l)

member-due_keys :
    (now : ℕ) (k : FilePath) (pending : Pending)
    → distinct (keys pending) ≡ true
    → member k (due_keys now pending) ≡ is_over now (lookup k pending)
member-due_keys now k [] d = refl
member-due_keys now k ((i, due) ∷ pending) d =
    ground (arith, member-due_keys now k pending, member-filter-keys (λ e. leb e.1 now) k pending)

-- A deletion is taken exactly if its grace period is over; then it waits no longer, and else it
-- waits as before.
pub take_due_lem :
    (now : ℕ) (p : Pruner) (k : FilePath)
    → distinct (keys p.gone) ≡ true
    → (member k (take_due now p).0 ≡ is_over now (lookup k p.gone))
      × (lookup k (take_due now p).2.gone
          ≡ (if is_over now (lookup k p.gone) then none else lookup k p.gone))
unfolding take_due
take_due_lem now p k d = ground (
  arith,
  member-sort key_le k (due_keys now p.gone),
  member-due_keys now k p.gone d,
  lookup-erase_each k (due_keys now p.gone) p.gone,
)

first_existing_lem :
    (fs : FileSystem) (ps : List FilePath) (a : FilePath)
    → first_existing fs ps ≡ some a
    → (member a ps ≡ true) × (fs.exists a ≡ true)
first_existing_lem fs [] a h = cc
first_existing_lem fs (p ∷ ps) a h = ground (arith, first_existing_lem fs ps a)

ancestor_verdict_lem :
    (fs : FileSystem) (dev : ℕ) (ps : List FilePath) (o : Option FilePath)
    → first_existing fs ps ≡ o
    → ancestor_verdict fs dev o ≡ deleted
    → (a : FilePath) × (member a ps ≡ true) × (fs.exists a ≡ true) × (fs.device a ≡ dev) × (dev ≢ 0)
ancestor_verdict_lem fs dev ps none e h = cc
ancestor_verdict_lem fs dev ps (some a) e h =
    let (m, x) = first_existing_lem fs ps a e in
    (a, m, x, ground (arith, h), λ z. ground (arith, h, z))

-- A row is called deleted only where its path is gone and one of the path's parents is there, on
-- the very device that the row was enrolled with: an unmounted volume, whose mount point another
-- device answers for, is never called deleted, nor is a row without a device.
pub verdict_deleted_lem :
    (fs : FileSystem) (e : ProjectEntry)
    → verdict fs e ≡ deleted
    → (fs.exists e.path ≡ false)
      × ((a : FilePath) × (member a (parents e.path) ≡ true)
          × (fs.exists a ≡ true)
          × (fs.device a ≡ e.dev)
          × (e.dev ≢ 0))
unfolding verdict
verdict_deleted_lem fs e h = elim (Bool-cases (fs.exists e.path || fs.is_symlink e.path)) [
  | inl t ↦ ground (arith, t, h)
  | inr f ↦ (
    ground (arith, f),
    ancestor_verdict_lem fs e.dev (parents e.path) (first_existing fs (parents e.path)) refl
        (ground (arith, f, h)),
  )
]
