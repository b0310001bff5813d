-- ===== src/IndexProject/Reconciles.antt =====
-- index.py: a pass makes the store's digests those of the disk.
use rag_search_engine.Prelude.{
  ℕ, String, ◌≡◌, refl, ap, ◌∙◌, Bool, true, false, has, Option, none, some, List, [], ◌∷◌, map,
  All, member, lookup, string_discrete, Bool-cases, Option-cases, inl, inr, if◌then◌else◌,
}
use rag_search_engine.Projcfg.{ProjectConfig}
use rag_search_engine.Text.{Text, Library}
use rag_search_engine.Chunk.{is_blank, embed_text}
use rag_search_engine.Discover.{
  FileMeta, Folder, Limits, read, candidates, compare_each, gone, differs, changed,
}
use rag_search_engine.Discover.Candidates.{read-rel}
use rag_search_engine.Discover.Changed.{
  overlaid, sha_of, reconciled, compare_each-none, compare_each-some,
}
use rag_search_engine.Store.{Chunk, Vector, Store, set_meta, file_digests, delete_files}
use rag_search_engine.Store.Digests.{lookup-delete_files, lookup-upsert_file}
use rag_search_engine.Pass.{
  Stamp, stamp, Engine, Prepared, ready, embedding, prepare, info_of, write_one, write_each,
  write_files,
}
use rag_search_engine.IndexProject.{
  Project, rebuild, is_widened, relang, work, sealed, report_of, carry_out, pass, index_project,
}
use rag_search_engine.IndexProject.Batches.{ready_files, ready_files-ready, write_files_lem}

abbrev pub metas_of : List Prepared → List FileMeta
metas_of [] = []
metas_of (p ∷ ps) = p.meta ∷ metas_of ps

abbrev pub IsText : FileMeta → Type 0
IsText m = is_blank m.text ≡ false

-- The splitter finds a chunk in every text that is not blank, and the embedder embeds it.
pub record IsWorking (engine : Engine) : Type 0 where
  pub chunks :
      (text : Text) (rel : String)
      → is_blank text ≡ false
      → (c : Chunk) × ((cs : List Chunk) × (engine.chunk_text text rel ≡ some (c ∷ cs)))
  pub embeds : (texts : List Text) → (v : ℕ → Vector) × (engine.embed texts ≡ some v)

module _ (engine : Engine) where
  lookup-write_each :
      (q : String) (ps : List Prepared) (s : Store)
      → lookup q (file_digests (write_each engine ps s))
        ≡ overlaid q (metas_of ps) (lookup q (file_digests s))
  lookup-write_each q [] s = refl
  lookup-write_each q (p ∷ ps) s =
      lookup-write_each q ps (write_one engine p s)
      ∙ ap (overlaid q (metas_of ps)) (
          lookup-upsert_file engine.fresh engine.identifier_tokens (info_of p.meta) p.chunks
            (some p.vectors) q s)

  module _ (v : IsWorking engine) where
    prepare-ready :
        (m : FileMeta) → IsText m → (p : Prepared) × ((prepare engine m ≡ ready p) × (p.meta ≡ m))
    prepare-ready m t =
        let (c, (cs, e)) = v.chunks m.text m.rel t in
        let (vectors, f) = v.embeds (map embed_text (c ∷ cs)) in
        (
          record { meta = m; chunks = c ∷ cs; vectors = vectors },
          (rw (e, f, prepare, embedding) refl, refl),
        )

    ready_files_done :
        (metas : List FileMeta)
        → All IsText metas
        → ((ready_files engine metas).1 ≡ true) × (metas_of (ready_files engine metas).0 ≡ metas)
    ready_files_done [] t = (refl, refl)
    ready_files_done (m ∷ metas) t =
        let (p, (e, f)) = prepare-ready m t.0 in
        let r = ready_files_done metas t.1 in
        rw (ready_files-ready engine m metas p e, f, r.1) (r.0, refl)

    -- Every file is written, and its digest with it.
    pub write_files_done :
        (metas : List FileMeta) (s : Store)
        → All IsText metas
        → ((write_files engine metas s).1 ≡ true)
          × ((q : String)
              → lookup q (file_digests (write_files engine metas s).0.store)
                ≡ overlaid q metas (lookup q (file_digests s)))
    write_files_done metas s t =
        let r = ready_files_done metas t in
        let w = write_files_lem engine metas s in
        (
          w.0 ∙ r.0,
          λ q. rw (w.1, r.0) (lookup-write_each q (ready_files engine metas).0 s ∙ rw r.1 refl),
        )

module _ (lib : Library) (limits : Limits) where
  pub changed-some :
      (folder : Folder) (cfg : ProjectConfig) (known : List (String × String))
      (present : List String)
      → candidates lib limits folder cfg ≡ some present
      → changed lib limits folder cfg known
        ≡ some (
          (compare_each lib limits folder known present).0,
          gone known (compare_each lib limits folder known present).1,
        )
  unfolding changed
  changed-some folder cfg known present f = rw (f, changed) refl

  pub compare_each-IsText :
      (folder : Folder) (known : List (String × String)) (present : List String)
      → All IsText (compare_each lib limits folder known present).0
  compare_each-IsText folder known [] = tt
  compare_each-IsText folder known (rel ∷ present) =
      let rest = compare_each-IsText folder known present in
      elim (Option-cases (read lib limits folder rel)) [
        | inl e ↦ rw (compare_each-none lib limits folder known rel present e) rest
        | inr (m, e) ↦ elim (Bool-cases (differs (lookup rel known) m.sha256)) [
          | inl d ↦
              rw (compare_each-some lib limits folder known rel present m e, d)
                ((read-rel lib limits folder rel m e).1, rest)
          | inr d ↦ rw (compare_each-some lib limits folder known rel present m e, d) rest
        ]
      ]

  module _ (engine : Engine) (c : Stamp) where
    -- The store as it is when the work is looked for.
    abbrev pub prepared_store : Store → Store
    prepared_store s = (relang lib (rebuild c s).0).0

    pub carry_out-done :
        (signature : String) (now : ℕ) (rebuilt : Option String) (widened : Bool) (relabelled : ℕ)
        (s : Store) (write : List FileMeta) (delete : List String)
        → (write_files engine write (delete_files delete s).0).1 ≡ true
        → carry_out c engine signature now rebuilt widened relabelled s (some (write, delete))
          ≡ report_of c signature now rebuilt widened relabelled
              (delete_files delete s).1
              (write_files engine write (delete_files delete s).0).0
    carry_out-done signature now rebuilt widened relabelled s write delete f = rw f refl

    pub index_project-pass :
        (project : Project) (cfg : ProjectConfig) (signature : String)
        (paths : Option (List String)) (s : Store)
        → project.is_dir ≡ true
        → project.config ≡ some (cfg, signature)
        → index_project lib limits engine c project paths s
          ≡ pass lib limits engine c project.folder cfg signature project.now paths s
    unfolding index_project
    index_project-pass project cfg signature paths s d e = rw (d, e) refl

    -- What a pass with work to do leaves behind.
    pub carry_out-digests :
        (signature : String) (now : ℕ) (rebuilt : Option String) (widened : Bool) (relabelled : ℕ)
        (s : Store) (write : List FileMeta) (delete : List String)
        → IsWorking engine
        → All IsText write
        → (has
              (carry_out c engine signature now rebuilt widened relabelled s
                (some (write, delete))).1
            ≡ true)
          × ((q : String)
              → lookup q (
                  file_digests
                    (carry_out c engine signature now rebuilt widened relabelled s
                      (some (write, delete))).0)
                ≡ overlaid q write (if member q delete then none else lookup q (file_digests s)))
    unfolding set_meta stamp
    carry_out-digests signature now rebuilt widened relabelled s write delete v t =
        let r = write_files_done engine v write (delete_files delete s).0 t in
        let e = carry_out-done signature now rebuilt widened relabelled s write delete r.0 in
        (rw e refl, λ q. rw e (r.1 q ∙ ap (overlaid q write) (lookup-delete_files delete q s)))

    -- The work of a pass over a whole project, whether it is widened or not.
    work-whole :
        (folder : Folder) (cfg : ProjectConfig) (known : List (String × String)) (b : Bool)
        (present : List String)
        → candidates lib limits folder cfg ≡ some present
        → work lib limits folder cfg known (if b then none else none)
          ≡ some (
            (compare_each lib limits folder known present).0,
            gone known (compare_each lib limits folder known present).1,
          )
    work-whole folder cfg known true present f = changed-some folder cfg known present f
    work-whole folder cfg known false present f = changed-some folder cfg known present f

    -- It comes to its end, with a store that is stamped and has the signature.
    pub index_project-sealed :
        (project : Project) (cfg : ProjectConfig) (signature : String) (present : List String)
        (s : Store)
        → project.is_dir ≡ true
        → project.config ≡ some (cfg, signature)
        → candidates lib limits project.folder cfg ≡ some present
        → IsWorking engine
        → (t : Store) × ((index_project lib limits engine c project none s).0
            ≡ sealed c signature project.now t)
    index_project-sealed project cfg signature present s d e f v =
        let s2 = prepared_store s in
        let known = file_digests s2 in
        let widened = is_widened signature (rebuild c s).0 in
        let out = compare_each lib limits project.folder known present in
        let delete = gone known out.1 in
        let cleared = (delete_files delete s2).0 in
        let r =
          write_files_done engine v out.0 cleared
            (compare_each-IsText project.folder known present) in
        (
          (write_files engine out.0 cleared).0.store,
          rw
              (
                index_project-pass project cfg signature none s d e,
                work-whole project.folder cfg known widened present f,
                r.0,
              )
              refl,
        )

    -- A pass over a whole project leaves, for every path, the digest of what is there on disk, if
    -- the path is a candidate that can be read as text, and no digest else; whatever the store
    -- held before. It ends with a report. The config can be read, the root is a directory that may
    -- be indexed, every text that is not blank has a chunk and the embedder does not raise.
    pub index_project_lem :
        (project : Project) (cfg : ProjectConfig) (signature : String) (present : List String)
        (s : Store) (q : String)
        → project.is_dir ≡ true
        → project.config ≡ some (cfg, signature)
        → candidates lib limits project.folder cfg ≡ some present
        → IsWorking engine
        → (has (index_project lib limits engine c project none s).1 ≡ true)
          × (lookup q (file_digests (index_project lib limits engine c project none s).0)
              ≡ (if member q present then sha_of (read lib limits project.folder q) else none))
    index_project_lem project cfg signature present s q d e f v =
        let s2 = prepared_store s in
        let known = file_digests s2 in
        let widened = is_widened signature (rebuild c s).0 in
        let out = compare_each lib limits project.folder known present in
        let r =
          carry_out-digests signature project.now (rebuild c s).1 widened
            (relang lib (rebuild c s).0).1 s2 out.0 (gone known out.1) v
            (compare_each-IsText project.folder known present) in
        rw
          (
            index_project-pass project cfg signature none s d e,
            work-whole project.folder cfg known widened present f,
          )
          (r.0, r.1 q ∙ reconciled lib limits project.folder known q present)
