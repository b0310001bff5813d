-- ===== src/Registry.antt =====
-- registry.py: the rows by resolved path, and the operations that change them under the lock.
-- Each operation here is the body of one `with _mutate() as rows` block; `Registry/Disk` is the
-- file that the block reads and writes.
pub mod Lookups
pub mod Valid
pub mod Disk
pub mod Forget
pub mod Enclosing
pub mod Devices
pub mod Reach
use rag_search_engine.Prelude.{
  ℕ, String, Bool, true, false, not, ◌&&◌, ◌||◌, Option, none, some, List, [], ◌∷◌, ◌++◌, map, leb,
  ltb, nat_discrete, lookup, insert, erase, keys, member, any, filter, dedup, sort, ◌==◌,
  if◌then◌else◌, ◌+◌,
}
use rag_search_engine.Paths.{FilePath, path_discrete, is_relative_to, len_str, key_le}
use rag_search_engine.FileSystem.{FileSystem}
use rag_search_engine.Entry.{ProjectEntry, blank, orphaned}

-- `dict[str, ProjectEntry]`
abbrev pub Rows : Type 0
Rows = List (FilePath × ProjectEntry)

-- `rows.get(key) or ProjectEntry(path=key)`
abbrev pub entry_or_blank : FilePath → Option ProjectEntry → ProjectEntry
entry_or_blank key none = blank key
entry_or_blank key (some e) = e

-- The second claim of a row: `root` joins its roots, once, and never claims itself.
abbrev pub add_root : FilePath → Option FilePath → List FilePath → List FilePath
add_root key none roots = roots
add_root key (some root) roots =
    if not (root == key) && not (member root roots) then roots ++ root ∷ [] else roots

-- `[r for r in entry.roots if r != root]`
abbrev pub drop_root : Option FilePath → List FilePath → List FilePath
drop_root none roots = roots
drop_root (some root) roots = filter (λ r. not (r == root)) roots

module _ (fs : FileSystem) where
  abbrev pub resolve? : Option FilePath → Option FilePath
  resolve? none = none
  resolve? (some p) = some (fs.resolve p)

  abbrev pub claimed : FilePath → Bool → Option FilePath → ProjectEntry → ProjectEntry
  claimed key direct root e = record e {
    direct = direct || e.direct;
    roots = add_root key (resolve? root) e.roots;
    enabled = true;
    dev = if fs.device key == 0 then e.dev else fs.device key;
  }

  unfoldable pub claim : FilePath → Bool → Option FilePath → Rows → Rows × ProjectEntry
  claim path direct root rows =
      let key = fs.resolve path in
      let entry = claimed key direct root (entry_or_blank key (lookup key rows)) in
      (insert key entry rows, entry)

  abbrev pub released : Bool → Option FilePath → ProjectEntry → ProjectEntry
  released direct root e = record e {
    direct = not direct && e.direct;
    roots = drop_root (resolve? root) e.roots;
  }

  -- The rows, and whether the row was removed outright.
  abbrev pub release_row :
      FilePath → Bool → Option FilePath → Option ProjectEntry → Rows → Rows × Bool
  release_row key direct root none rows = (rows, false)
  release_row key direct root (some e) rows =
      let entry = released direct root e in
      if orphaned entry then (erase key rows, true) else (insert key entry rows, false)

  unfoldable pub release : FilePath → Bool → Option FilePath → Rows → Rows × Bool
  release path direct root rows =
      let key = fs.resolve path in release_row key direct root (lookup key rows) rows

-- forget: one row against the set of targets: `none` where it goes.
abbrev pub forgotten : List FilePath → ProjectEntry → Option ProjectEntry
forgotten targets e =
    if any (λ r. member r targets) e.roots
    then (let entry = record e { roots = filter (λ r. not (member r targets)) e.roots } in
        if orphaned entry then none else some entry)
    else some e

-- `del rows[key]` for each target, then the loop over the rows that are left.
abbrev pub without_targets : List FilePath → Rows → Rows
without_targets targets [] = []
without_targets targets ((k, e) ∷ rows) =
    if member k targets then without_targets targets rows else (k, e) ∷ without_targets targets rows

abbrev keep_row : FilePath → Option ProjectEntry → Rows → Rows
keep_row k none rows = rows
keep_row k (some e) rows = (k, e) ∷ rows

abbrev pub without_orphans : List FilePath → Rows → Rows
without_orphans targets [] = []
without_orphans targets ((k, e) ∷ rows) =
    keep_row k (forgotten targets e) (without_orphans targets rows)

abbrev note_released : FilePath → Option ProjectEntry → List FilePath → List FilePath
note_released k none l = k ∷ l
note_released k (some e) l = l

abbrev pub released_keys : List FilePath → Rows → List FilePath
released_keys targets [] = []
released_keys targets ((k, e) ∷ rows) =
    note_released k (forgotten targets e) (released_keys targets rows)

-- The rows left, the targets that had a row, and the rows that went because nothing claimed them.
unfoldable pub forget : FileSystem → List FilePath → Rows → Rows × List FilePath × List FilePath
forget fs paths rows =
    let targets = map fs.resolve paths in
    let left = without_targets targets rows in
    (
      without_orphans targets left,
      sort key_le (dedup (filter (λ t. member t (keys rows)) targets)),
      sort key_le (released_keys targets left),
    )

-- A row that can be given the device it was never given.
abbrev pub needs_device : FileSystem → FilePath → ProjectEntry → Bool
needs_device fs key e = e.dev == 0 && fs.occupied e.path

abbrev pub device_candidates : FileSystem → Rows → List FilePath
device_candidates fs [] = []
device_candidates fs ((k, e) ∷ rows) =
    if needs_device fs k e then k ∷ device_candidates fs rows else device_candidates fs rows

-- One round of the loop of `record_devices`.
abbrev pub fill_row : FileSystem → FilePath → Option ProjectEntry → Rows → Rows × Bool
fill_row fs key none rows = (rows, false)
fill_row fs key (some e) rows =
    if e.dev == 0 && not (fs.device key == 0)
    then (insert key (record e { dev = fs.device key }) rows, true)
    else (rows, false)

abbrev pub fill_devices : FileSystem → List FilePath → Rows → Rows × List FilePath
fill_devices fs [] rows = (rows, [])
fill_devices fs (key ∷ candidates) rows =
    let (rows', done) = fill_row fs key (lookup key rows) rows in
    let (rows'', filled) = fill_devices fs candidates rows' in
    (rows'', if done then key ∷ filled else filled)

-- `snapshot` is what `load` read before the lock, `rows` what the lock finds.
unfoldable pub record_devices : FileSystem → Rows → Rows → Rows × List FilePath
record_devices fs snapshot rows = fill_devices fs (device_candidates fs snapshot) rows

-- `rows[key]` changed in place, where there is such a row
abbrev pub modify : FilePath → (ProjectEntry → ProjectEntry) → Rows → Rows
modify key f [] = []
modify key f ((k, e) ∷ rows) = if k == key then (k, f e) ∷ rows else (k, e) ∷ modify key f rows

abbrev pub failed : String → ℕ → ProjectEntry → ProjectEntry
failed message now e = record e {
  last_error = some message;
  last_error_at = some now;
  error_total = e.error_total + 1;
}

module _ (fs : FileSystem) where
  unfoldable pub set_enabled : FilePath → Bool → Rows → Rows
  set_enabled path enabled = modify (fs.resolve path) (λ e. record e { enabled = enabled })

  -- `fields` is what the `setattr` loop assigns.
  unfoldable pub update : FilePath → (ProjectEntry → ProjectEntry) → Rows → Rows
  update path fields = modify (fs.resolve path) fields

  unfoldable pub record_error : FilePath → String → ℕ → Rows → Rows
  record_error path message now = modify (fs.resolve path) (failed message now)

  unfoldable pub get : FilePath → Rows → Option ProjectEntry
  get path rows = lookup (fs.resolve path) rows

abbrev pub entries : Rows → List ProjectEntry
entries [] = []
entries ((k, e) ∷ rows) = e ∷ entries rows

unfoldable pub enabled_projects : Rows → List ProjectEntry
enabled_projects rows = filter (λ e. e.enabled) (entries rows)

-- `max(l, key=...)`: the first of the largest
abbrev pub max_by {ℓ} : {A : Type ℓ} → (A → ℕ) → A → List A → A
max_by size best [] = best
max_by size best (x ∷ xs) = max_by size (if ltb (size best) (size x) then x else best) xs

abbrev pub max_by? {ℓ} : {A : Type ℓ} → (A → ℕ) → List A → Option A
max_by? size [] = none
max_by? size (x ∷ xs) = some (max_by size x xs)

-- The paths of the enabled rows that are `target` or hold it.
abbrev pub owning : FilePath → List ProjectEntry → List FilePath
owning target [] = []
owning target (e ∷ l) =
    if e.enabled && is_relative_to target e.path then e.path ∷ owning target l else owning target l

unfoldable pub enclosing : FileSystem → FilePath → Rows → Option FilePath
enclosing fs path rows = max_by? len_str (owning (fs.resolve path) (entries rows))
