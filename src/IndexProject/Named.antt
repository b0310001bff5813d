-- ===== src/IndexProject/Named.antt =====
-- index.py: a pass over named paths, as the watcher asks for it.
use rag_search_engine.Prelude.{
  String, ◌≡◌, refl, ◌∙◌, true, false, not, ◌&&◌, has, Option, none, some, List, [], ◌∷◌, map, All,
  member, lookup, keys, member-filter, member-keys, string_discrete, arith, Option-cases, inl, inr,
  if◌then◌else◌,
}
use rag_search_engine.Projcfg.{ProjectConfig}
use rag_search_engine.Text.{Library}
use rag_search_engine.Discover.{FileMeta, Folder, Limits, read}
use rag_search_engine.Discover.Candidates.{read-rel}
use rag_search_engine.Discover.Changed.{overlaid, sha_of, renewed}
use rag_search_engine.Store.{Store, file_digests}
use rag_search_engine.Pass.{Stamp, incompatible, Engine}
use rag_search_engine.IndexProject.{
  Project, rebuild, is_widened, relang, read_each, lost, pass, index_project,
}
use rag_search_engine.IndexProject.Reconciles.{
  IsText, IsWorking, index_project-pass, carry_out-digests,
}
use rag_search_engine.IndexProject.Repeats.{lookup-relang}

module _ (lib : Library) (limits : Limits) (folder : Folder) where
  read_each-none :
      (p : String) (paths : List String)
      → read lib limits folder p ≡ none
      → read_each lib limits folder (p ∷ paths) ≡ read_each lib limits folder paths
  read_each-none p paths e = rw (e, read_each) refl

  read_each-some :
      (p : String) (paths : List String) (m : FileMeta)
      → read lib limits folder p ≡ some m
      → read_each lib limits folder (p ∷ paths) ≡ m ∷ read_each lib limits folder paths
  read_each-some p paths m e = rw (e, read_each) refl

  read_each-IsText : (paths : List String) → All IsText (read_each lib limits folder paths)
  read_each-IsText [] = tt
  read_each-IsText (p ∷ paths) = elim (Option-cases (read lib limits folder p)) [
    | inl e ↦ rw (read_each-none p paths e) (read_each-IsText paths)
    | inr (m, e) ↦
        rw (read_each-some p paths m e)
          ((read-rel lib limits folder p m e).1, read_each-IsText paths)
  ]

  overlaid-read_each :
      (q : String) (paths : List String) (was : Option String)
      → overlaid q (read_each lib limits folder paths) was
        ≡ (if member q paths then renewed was (read lib limits folder q) else was)
  overlaid-read_each q [] was = refl
  overlaid-read_each q (p ∷ paths) was = elim (Option-cases (read lib limits folder p)) [
    | inl e ↦ rw (read_each-none p paths e) (ground (arith, e, overlaid-read_each q paths was))
    | inr (m, e) ↦ rw (read_each-some p paths m e) (
        ground (
          arith,
          e,
          (read-rel lib limits folder p m e).0,
          overlaid-read_each q paths was,
          overlaid-read_each q paths (some m.sha256),
        ))
  ]

  member-read_each :
      (q : String) (paths : List String)
      → member q (map (λ m. m.rel) (read_each lib limits folder paths))
        ≡ (member q paths && has (read lib limits folder q))
  member-read_each q [] = refl
  member-read_each q (p ∷ paths) = elim (Option-cases (read lib limits folder p)) [
    | inl e ↦ rw (read_each-none p paths e) (ground (arith, e, member-read_each q paths))
    | inr (m, e) ↦
        rw (read_each-some p paths m e)
          (ground (arith, e, (read-rel lib limits folder p m e).0, member-read_each q paths))
  ]

  renew_named :
      (q : String) (paths : List String) (known : List (String × String))
      → overlaid q (read_each lib limits folder paths) (
          if member q (lost lib limits (read_each lib limits folder paths) known paths)
          then none
          else lookup q known)
        ≡ (if member q paths then sha_of (read lib limits folder q) else lookup q known)
  renew_named q paths known =
      let write = read_each lib limits folder paths in
      ground (
        arith,
        overlaid-read_each q paths
            (if member q (lost lib limits write known paths) then none else lookup q known),
        member-read_each q paths,
        member-filter q (λ p. not (member p (map (λ m. m.rel) write)) && member p (keys known))
            paths,
        member-keys q known,
      )

module _ (lib : Library) (limits : Limits) (engine : Engine) (c : Stamp) where
  -- A pass over named paths leaves, for each of them, the digest of what is there on disk, if it
  -- can be read as text, and none else, and changes the digest of no other path; the store is
  -- compatible with the settings and has the config's signature, and the config can be read, the
  -- root is a directory, every text that is not blank has a chunk and the embedder does not raise.
  pub index_project-named :
      (project : Project) (cfg : ProjectConfig) (signature : String) (paths : List String)
      (s : Store) (q : String)
      → project.is_dir ≡ true
      → project.config ≡ some (cfg, signature)
      → incompatible c s ≡ none
      → is_widened signature s ≡ false
      → IsWorking engine
      → (has (index_project lib limits engine c project (some paths) s).1 ≡ true)
        × (lookup q (file_digests (index_project lib limits engine c project (some paths) s).0) ≡ (
            if member q paths
            then sha_of (read lib limits project.folder q)
            else lookup q (file_digests s)))
  index_project-named project cfg signature paths s q d e i w v =
      let s2 = (relang lib s).0 in
      let known = file_digests s2 in
      let write = read_each lib limits project.folder paths in
      let re : rebuild c s ≡ (s, none) = rw (i, rebuild) refl in
      let r =
        carry_out-digests lib limits engine c signature project.now none false (relang lib s).1 s2
          write (lost lib limits write known paths) v
          (read_each-IsText lib limits project.folder paths) in
      rw
        (
          index_project-pass lib limits engine c project cfg signature (some paths) s d e,
          re,
          w,
          pass,
        )
        (
          r.0,
          r.1 q
              ∙ renew_named lib limits project.folder q paths known
              ∙ rw (lookup-relang lib limits q s) refl,
        )
