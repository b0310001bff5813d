-- ===== src/IndexProject/Contracts.antt =====
-- index.py and indexwrite.py: the rowid contract through a pass, whatever comes of it.
use rag_search_engine.Prelude.{
  ℕ, String, ◌≡◌, Bool, Option, none, some, List, [], ◌∷◌, Bool-cases, inl, inr, Option-cases,
  if◌then◌else◌,
}
use rag_search_engine.Projcfg.{ProjectConfig}
use rag_search_engine.Text.{Library}
use rag_search_engine.Discover.{FileMeta, Folder, Limits}
use rag_search_engine.Store.{Store, delete_files, orphans, file_digests, file_langs}
use rag_search_engine.Store.Contract.{IsSound, delete_files-IsSound}
use rag_search_engine.Store.Written.{IsFresh, upsert_file-IsSound}
use rag_search_engine.Store.History.{set_langs-IsSound, set_meta-IsSound, wipe-IsSound, orphans_lem}
use rag_search_engine.Pass.{
  Stamp, stamp, stamped, incompatible, Engine, Prepared, info_of, write_one, write_each,
  write_files,
}
use rag_search_engine.IndexProject.{
  Project, rebuild, is_widened, stale, relabelled, relang, work, sealed, carry_out, pass,
  index_project,
}
use rag_search_engine.IndexProject.Batches.{ready_files, kept_of, write_files_lem}

relabelled-IsSound :
    (pairs : List (String × String)) (s : Store) → IsSound s → IsSound (relabelled pairs s).0
relabelled-IsSound [] s h = h
relabelled-IsSound (p ∷ pairs) s h = set_langs-IsSound (p ∷ pairs) s h

rebuild-IsSound : (c : Stamp) (s : Store) → IsSound s → IsSound (rebuild c s).0
rebuild-IsSound c s h = elim (Option-cases (incompatible c s)) [
  | inl e ↦ rw (e, rebuild) h
  | inr (reason, e) ↦ rw (e, rebuild) (wipe-IsSound s)
]

module _ (engine : Engine) (new : IsFresh engine.fresh) where
  write_each-IsSound :
      (ps : List Prepared) (s : Store) → IsSound s → IsSound (write_each engine ps s)
  write_each-IsSound [] s h = h
  write_each-IsSound (p ∷ ps) s h = write_each-IsSound ps (write_one engine p s) (
      upsert_file-IsSound engine.fresh engine.identifier_tokens new (info_of p.meta) p.chunks
        p.vectors s h)

  write_files-IsSound :
      (metas : List FileMeta) (s : Store) → IsSound s → IsSound (write_files engine metas s).0.store
  write_files-IsSound metas s h =
      rw (write_files_lem engine metas s).1
        (write_each-IsSound (kept_of (ready_files engine metas).1 (ready_files engine metas).0) s h)

  module _ (c : Stamp) where
    sealed-IsSound :
        (signature : String) (now : ℕ) (s : Store) → IsSound s → IsSound (sealed c signature now s)
    unfolding stamp
    sealed-IsSound signature now s h =
        set_meta-IsSound _ (stamp c s) (set_meta-IsSound (stamped c) s h)

    carry_out-IsSound :
        (signature : String) (now : ℕ) (rebuilt : Option String) (widened : Bool) (relabelled : ℕ)
        (s : Store) (todo : Option (List FileMeta × List String))
        → IsSound s
        → IsSound (carry_out c engine signature now rebuilt widened relabelled s todo).0
    carry_out-IsSound signature now rebuilt widened relabelled s none h = h
    carry_out-IsSound signature now rebuilt widened relabelled s (some (write, delete)) h =
        let w = write_files engine write (delete_files delete s).0 in
        let g =
          write_files-IsSound write (delete_files delete s).0 (delete_files-IsSound delete s h) in
        elim (Bool-cases w.1) [
          | inl t ↦ rw t (sealed-IsSound signature now w.0.store g)
          | inr f ↦ rw f g
        ]

    module _ (lib : Library) (limits : Limits) where
      pass-IsSound :
          (folder : Folder) (cfg : ProjectConfig) (signature : String) (now : ℕ)
          (paths : Option (List String)) (s : Store)
          → IsSound s
          → IsSound (pass lib limits engine c folder cfg signature now paths s).0
      unfolding relang
      pass-IsSound folder cfg signature now paths s h =
          let s1 = (rebuild c s).0 in
          let s2 = (relang lib s1).0 in
          carry_out-IsSound signature now (rebuild c s).1 (is_widened signature s1)
            (relang lib s1).1 s2
            (work lib limits folder cfg (file_digests s2)
              (if is_widened signature s1 then none else paths))
            (relabelled-IsSound (stale lib (file_langs s1)) s1 (rebuild-IsSound c s h))

-- A pass keeps the rowid contract and leaves no orphan in the index or among the vectors, whatever
-- it is asked for, whatever stands on the disk, and also where it raises, at any point; SQLite
-- picks no row id that its table holds.
pub index_project-IsSound :
    (lib : Library) (limits : Limits) (engine : Engine) (c : Stamp) (project : Project)
    (paths : Option (List String)) (s : Store)
    → IsFresh engine.fresh
    → IsSound s
    → IsSound (index_project lib limits engine c project paths s).0
      × (orphans (index_project lib limits engine c project paths s).0 ≡ (0, 0))
unfolding index_project
index_project-IsSound lib limits engine c project paths s new h =
    let g : IsSound (index_project lib limits engine c project paths s).0 =
      elim (Bool-cases project.is_dir) [
        | inr f ↦ rw f h
        | inl t ↦ elim (Option-cases project.config) [
          | inl e ↦ rw (t, e) h
          | inr ((cfg, signature), e) ↦
              rw (t, e)
                (pass-IsSound engine new c lib limits project.folder cfg signature project.now paths
                  s h)
        ]
      ] in
    (g, orphans_lem (index_project lib limits engine c project paths s).0 g)
