-- ===== src/Registry/Devices.antt =====
-- registry.py: `record_devices`, the backfill of the device numbers.
use rag_search_engine.Prelude.{
  ◌≡◌, refl, Bool, true, false, not, ◌&&◌, Option, none, some, List, [], ◌∷◌, nat_discrete, lookup,
  keys, member, distinct, ◌==◌, if◌then◌else◌, arith, lookup-insert, member-keys, Option-cases,
}
use rag_search_engine.Paths.{FilePath, path_discrete}
use rag_search_engine.FileSystem.{FileSystem}
use rag_search_engine.Entry.{ProjectEntry}
use rag_search_engine.Registry.{
  Rows, needs_device, device_candidates, fill_devices, fill_row, record_devices,
}

module _ (fs : FileSystem) (k : FilePath) where
  -- The row after the backfill, where its key is a candidate or not.
  abbrev pub filled : Bool → Option ProjectEntry → Option ProjectEntry
  filled named none = none
  filled named (some e) =
      if named && (e.dev == 0) && not (fs.device k == 0)
      then some (record e { dev = fs.device k })
      else some e

  lookup-fill_row :
      (key : FilePath) (o : Option ProjectEntry) (rows : Rows)
      → lookup key rows ≡ o
      → lookup k (fill_row fs key o rows).0 ≡ filled (k == key) (lookup k rows)
  lookup-fill_row key none rows h = ground (arith, Option-cases (lookup k rows))
  lookup-fill_row key (some e) rows h =
      ground (arith, lookup-insert key k (record e { dev = fs.device key }) rows)

  lookup-fill_devices :
      (cs : List FilePath) (rows : Rows)
      → lookup k (fill_devices fs cs rows).0 ≡ filled (member k cs) (lookup k rows)
  lookup-fill_devices [] rows = ground arith
  lookup-fill_devices (c ∷ cs) rows = ground (
    arith,
    lookup-fill_devices cs (fill_row fs c (lookup c rows) rows).0,
    lookup-fill_row c (lookup c rows) rows refl,
  )

  abbrev pub is_candidate : Option ProjectEntry → Bool
  is_candidate none = false
  is_candidate (some e) = needs_device fs k e

  device_candidates-keys :
      (snapshot : Rows)
      → member k (keys snapshot) ≡ false
      → member k (device_candidates fs snapshot) ≡ false
  device_candidates-keys [] h = refl
  device_candidates-keys ((i, e) ∷ snapshot) h = ground (arith, device_candidates-keys snapshot)

  member-device_candidates :
      (snapshot : Rows)
      → distinct (keys snapshot) ≡ true
      → member k (device_candidates fs snapshot) ≡ is_candidate (lookup k snapshot)
  member-device_candidates [] h = refl
  member-device_candidates ((i, e) ∷ snapshot) h = ground (
    arith,
    member-device_candidates snapshot,
    member-keys k snapshot,
    device_candidates-keys snapshot,
  )

  -- The backfill gives a row its device exactly where the row had none, both in the snapshot and
  -- under the lock, its directory was occupied when the snapshot was read, and the file system
  -- answers for it now. Of such a row it changes only the device, and of the others nothing.
  pub lookup-record_devices :
      (snapshot rows : Rows)
      → distinct (keys snapshot) ≡ true
      → lookup k (record_devices fs snapshot rows).0
        ≡ filled (is_candidate (lookup k snapshot)) (lookup k rows)
  unfolding record_devices
  lookup-record_devices snapshot rows h = ground (
    arith,
    lookup-fill_devices (device_candidates fs snapshot) rows,
    member-device_candidates snapshot h,
  )
