-- ===== src/IndexProject/Refuses.antt =====
-- index.py: what a pass never does to the files of a store.
use rag_search_engine.Prelude.{
  ℕ, String, ◌≡◌, refl, ◌∙◌, Bool, true, false, not, ◌||◌, has, none, some, List, member, lookup,
  arith, Bool-cases, inl, inr, Option-cases, string_discrete, if◌then◌else◌,
}
use rag_search_engine.Glob.{codes}
use rag_search_engine.Projcfg.{ProjectConfig}
use rag_search_engine.Text.{Library}
use rag_search_engine.Filters.{is_secret_path, is_image_path, is_binary_ext}
use rag_search_engine.Discover.{Folder, Limits, candidates, changed}
use rag_search_engine.Discover.Candidates.{candidates_lem}
use rag_search_engine.Store.{Store, file_digests}
use rag_search_engine.Pass.{Stamp, incompatible, Engine}
use rag_search_engine.IndexProject.{Project, rebuild, is_widened, relang, work, pass, index_project}
use rag_search_engine.IndexProject.Reconciles.{IsWorking, index_project_lem}
use rag_search_engine.IndexProject.Repeats.{lookup-relang}

module _ (lib : Library) (limits : Limits) (engine : Engine) (c : Stamp) where
  -- After a pass over a whole project no file whose name is that of a secret, an image or a binary
  -- is in the store, whatever the config includes and whatever the store held before. The config
  -- can be read, the root is a directory that may be indexed, every text that is not blank has a
  -- chunk and the embedder does not raise.
  pub index_project-safe :
      (project : Project) (cfg : ProjectConfig) (signature : String) (present : List String)
      (s : Store) (q : String)
      → project.is_dir ≡ true
      → project.config ≡ some (cfg, signature)
      → candidates lib limits project.folder cfg ≡ some present
      → IsWorking engine
      → (is_secret_path lib.lower (codes q)
          || (is_image_path lib.lower (codes q) || is_binary_ext lib.lower (codes q)))
        ≡ true
      → lookup q (file_digests (index_project lib limits engine c project none s).0) ≡ none
  index_project-safe project cfg signature present s q d e f v r =
      let b = (candidates_lem lib limits project.folder cfg present q f).1.1 in
      let m : member q present ≡ false = ground (arith, r, b) in
      (index_project_lem lib limits engine c project cfg signature present s q d e f v).1
      ∙ rw m refl

  forbidden-changed :
      (folder : Folder) (cfg : ProjectConfig) (known : List (String × String)) (b : Bool)
      → folder.forbidden ≡ true
      → work lib limits folder cfg known (if b then none else none) ≡ none
  unfolding candidates changed
  forbidden-changed folder cfg known true h = rw h refl
  forbidden-changed folder cfg known false h = rw h refl

  pass-forbidden :
      (folder : Folder) (cfg : ProjectConfig) (signature : String) (now : ℕ) (s : Store)
      → folder.forbidden ≡ true
      → incompatible c s ≡ none
      → pass lib limits engine c folder cfg signature now none s ≡ ((relang lib s).0, none)
  pass-forbidden folder cfg signature now s h i =
      let re : rebuild c s ≡ (s, none) = rw (i, rebuild) refl in
      rw
        (
          re,
          forbidden-changed folder cfg (file_digests (relang lib s).0) (is_widened signature s) h,
          pass,
        )
        refl

  -- A project whose directory is gone, whose config cannot be read or whose root may not be indexed
  -- loses nothing to a pass over the whole of it: the pass raises, and every path has the digest
  -- that it had, if the store is compatible with the settings.
  pub index_project-refused :
      (project : Project) (s : Store) (q : String)
      → (not project.is_dir || (not (has project.config) || project.folder.forbidden)) ≡ true
      → incompatible c s ≡ none
      → ((index_project lib limits engine c project none s).1 ≡ none)
        × (lookup q (file_digests (index_project lib limits engine c project none s).0)
            ≡ lookup q (file_digests s))
  unfolding index_project
  index_project-refused project s q h i = elim (Bool-cases project.is_dir) [
    | inr f ↦ rw f (refl, refl)
    | inl t ↦ elim (Option-cases project.config) [
      | inl e ↦ rw (t, e) (refl, refl)
      | inr ((cfg, signature), e) ↦
          let b : project.folder.forbidden ≡ true = ground (arith, h, t, e) in
          rw (t, e, pass-forbidden project.folder cfg signature project.now s b i)
            (refl, lookup-relang lib limits q s)
    ]
  ]
