-- ===== src/Registry/Reach.antt =====
-- registry.py: every sequence of changes to projects.json, each under the lock, from no file at all.
use rag_search_engine.Prelude.{
  ℕ, String, ◌≡◌, refl, ◌∙◌, Bool, true, Option, none, some, List, [], ◌∷◌, All,
}
use rag_search_engine.Paths.{FilePath, path_discrete}
use rag_search_engine.FileSystem.{FileSystem}
use rag_search_engine.Registry.{Rows, claim, release, forget, set_enabled, record_error}
use rag_search_engine.Registry.Valid.{
  IsValid, gives_reason, claim-IsValid, release-IsValid, forget-IsValid, set_enabled-IsValid,
  record_error-IsValid,
}
use rag_search_engine.Registry.Disk.{
  RegistryFile, missing, unreadable, read_unlocked, write_unlocked, mutate, reread_rows,
  reread_rows-IsValid,
}

-- One `with _mutate() as rows` block.
pub data Change : Type 0 where
  claim_it : FilePath → Bool → Option FilePath → Change
  release_it : FilePath → Bool → Option FilePath → Change
  forget_them : List FilePath → Change
  enable_it : FilePath → Bool → Change
  fail_it : FilePath → String → ℕ → Change

module _ (fs : FileSystem) where
  unfoldable pub apply : Change → Rows → Rows × Unit {0}
  apply (claim_it path direct root) rows = ((claim fs path direct root rows).0, tt)
  apply (release_it path direct root) rows = ((release fs path direct root rows).0, tt)
  apply (forget_them paths) rows = ((forget fs paths rows).0, tt)
  apply (enable_it path on) rows = (set_enabled fs path on rows, tt)
  apply (fail_it path message now) rows = (record_error fs path message now rows, tt)

  -- A claim says why the row exists, as every caller's does.
  abbrev pub IsReasoned : Change → Type 0
  IsReasoned (claim_it path direct root) = gives_reason fs path direct root ≡ true
  IsReasoned _ = Unit

  apply-IsValid :
      (c : Change) (rows : Rows) → IsReasoned c → IsValid rows → IsValid (apply c rows).0
  unfolding apply
  apply-IsValid (claim_it path direct root) rows g v = claim-IsValid fs path direct root rows g v
  apply-IsValid (release_it path direct root) rows g v = release-IsValid fs path direct root rows v
  apply-IsValid (forget_them paths) rows g v = forget-IsValid fs paths rows v
  apply-IsValid (enable_it path on) rows g v = set_enabled-IsValid fs path on rows v
  apply-IsValid (fail_it path message now) rows g v =
      record_error-IsValid fs path message now rows v

  -- The changes one after the other, each reading what the one before it wrote.
  abbrev pub run : List Change → RegistryFile → Option RegistryFile
  run [] file = some file
  run (c ∷ cs) file = elim (mutate (apply c) file) [ none ↦ none | some (f, _) ↦ run cs f ]

  run-cons :
      (c : Change) (cs : List Change) (file : RegistryFile) (rows : Rows)
      → read_unlocked file ≡ some rows
      → run (c ∷ cs) file ≡ run cs (write_unlocked (apply c rows).0)
  unfolding mutate
  run-cons c cs file rows h = rw (h, run)

  run_from :
      (cs : List Change) (file : RegistryFile) (rows : Rows)
      → All IsReasoned cs
      → read_unlocked file ≡ some rows
      → IsValid rows
      → (f : RegistryFile) × (rows' : Rows) × (run cs file ≡ some f)
        × (read_unlocked f ≡ some rows')
        × IsValid rows'
  unfolding read_unlocked write_unlocked
  run_from [] file rows g h v = (file, rows, refl, h, v)
  run_from (c ∷ cs) file rows g h v =
      let next = (apply c rows).0 in
      let w = apply-IsValid c rows g.0 v in
      let (f, rows', r, h', v') =
        run_from cs (write_unlocked next) (reread_rows next) g.1 refl
          (reread_rows-IsValid next w) in
      (f, rows', run-cons c cs file rows h ∙ r, h', v')

  -- From no registry at all, any changes whose claims give a reason succeed, and leave a file that
  -- reads back as valid rows: one row for a path, under its own path, claimed by something, its
  -- roots other projects and each of them once.
  pub run-IsValid :
      (cs : List Change)
      → All IsReasoned cs
      → (f : RegistryFile) × (rows : Rows) × (run cs missing ≡ some f)
        × (read_unlocked f ≡ some rows)
        × IsValid rows
  unfolding read_unlocked
  run-IsValid cs g = run_from cs missing [] g refl (record { one_row = refl; row = λ k e h. cc })

  -- A registry that cannot be read is never written over: every change raises.
  pub run-unreadable : (c : Change) (cs : List Change) → run (c ∷ cs) unreadable ≡ none
  unfolding mutate read_unlocked
  run-unreadable c cs = refl
