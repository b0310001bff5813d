-- ===== src/IndexProject/Repeats.antt =====
-- index.py: a second pass over a project that did not change.
use rag_search_engine.Prelude.{
  ℕ, String, ◌≡◌, refl, ◌∙◌, Bool, true, false, not, none, some, List, [], ◌∷◌, filter, member,
  lookup, keys, dedup, member-dedup, member-keys, string_discrete, arith, Option-cases, inl, inr,
  if◌then◌else◌,
}
use rag_search_engine.Projcfg.{ProjectConfig}
use rag_search_engine.Text.{Library}
use rag_search_engine.Discover.{Folder, Limits, read, candidates, compare_each, gone, changed}
use rag_search_engine.Discover.Changed.{sha_of, member-seen, compare_each-none, compare_each-some}
use rag_search_engine.Store.{Store, file_digests, file_langs, delete_files, counts}
use rag_search_engine.Store.Digests.{lookup-set_langs}
use rag_search_engine.Pass.{Stamp, incompatible, Engine, Writer, write_files}
use rag_search_engine.IndexProject.{
  Report, Project, rebuild, is_widened, stale, relabelled, relang, sealed, report_of, pass,
  index_project,
}
use rag_search_engine.IndexProject.Stamps.{incompatible-sealed, is_widened-sealed}
use rag_search_engine.IndexProject.Reconciles.{
  index_project_lem, index_project-sealed, IsWorking, index_project-pass, changed-some,
}

filter-none :
    (p : String → Bool) (xs : List String)
    → ((x : String) → member x xs ≡ true → p x ≡ false)
    → filter p xs ≡ []
filter-none p [] h = refl
filter-none p (x ∷ xs) h =
    let here = h x (ground arith) in
    let rest = filter-none p xs (λ y m. h y (ground (arith, m))) in rw (here, rest) refl

lookup-relabelled :
    (q : String) (s : Store) (pairs : List (String × String))
    → lookup q (file_digests (relabelled pairs s).0) ≡ lookup q (file_digests s)
lookup-relabelled q s [] = refl
lookup-relabelled q s (p ∷ pairs) = lookup-set_langs (p ∷ pairs) q s

module _ (lib : Library) (limits : Limits) where
  -- The store holds the digest of every path that is listed.
  compare_each-same :
      (folder : Folder) (known : List (String × String)) (present : List String)
      → ((q : String)
          → member q present ≡ true
          → lookup q known ≡ sha_of (read lib limits folder q))
      → (compare_each lib limits folder known present).0 ≡ []
  compare_each-same folder known [] h = refl
  compare_each-same folder known (rel ∷ present) h =
      let here = h rel (ground arith) in
      let rest = compare_each-same folder known present (λ q m. h q (ground (arith, m))) in
      elim (Option-cases (read lib limits folder rel)) [
        | inl e ↦ rw (compare_each-none lib limits folder known rel present e) rest
        | inr (m, e) ↦
            let same : lookup rel known ≡ some m.sha256 = rw (here, e) refl in
            rw (compare_each-some lib limits folder known rel present m e, same)
              (ground (arith, rest))
      ]

  gone-nothing :
      (folder : Folder) (known : List (String × String)) (present : List String)
      → ((q : String)
          → lookup q known ≡ (if member q present then sha_of (read lib limits folder q) else none))
      → gone known (compare_each lib limits folder known present).1 ≡ []
  gone-nothing folder known present h =
      let seen = (compare_each lib limits folder known present).1 in
      let e : filter (λ q. not (member q seen)) (dedup (keys known)) ≡ [] =
        filter-none (λ q. not (member q seen)) (dedup (keys known))
          (λ q m. ground (
            arith,
            m,
            h q,
            member-dedup q (keys known),
            member-keys q known,
            member-seen lib limits folder known q present,
          )) in
      rw e refl

  pub lookup-relang :
      (q : String) (s : Store)
      → lookup q (file_digests (relang lib s).0) ≡ lookup q (file_digests s)
  unfolding relang
  lookup-relang q s = lookup-relabelled q s (stale lib (file_langs s))

  module _ (engine : Engine) (c : Stamp) where
    abbrev pub IsQuiet : Report → Type 0
    IsQuiet r = (r.written ≡ 0) × ((r.deleted ≡ 0) × ((r.rebuilt ≡ none) × (r.widened ≡ false)))

    -- Nothing to delete and nothing to write.
    idle_pass :
        (folder : Folder) (cfg : ProjectConfig) (signature : String) (now : ℕ) (s : Store)
        → incompatible c s ≡ none
        → is_widened signature s ≡ false
        → changed lib limits folder cfg (file_digests (relang lib s).0) ≡ some ([], [])
        → (r : Report) × (((pass lib limits engine c folder cfg signature now none s).1 ≡ some r)
            × IsQuiet r)
    unfolding delete_files write_files
    idle_pass folder cfg signature now s i w idle =
        let re : rebuild c s ≡ (s, none) = rw (i, rebuild) refl in
        let s2 = (relang lib s).0 in
        let writer : Writer = record { store = s2; committed = []; pending = []; written = 0 } in
        let e : pass lib limits engine c folder cfg signature now none s
            ≡ report_of c signature now none false (relang lib s).1 0 writer =
          rw (re, w, idle, pass) refl in
        let t = (counts (sealed c signature now s2)) in
        let r : Report = record {
          files = t.0;
          chunks = t.1;
          written = 0;
          deleted = 0;
          rebuilt = none;
          widened = false;
          relang = (relang lib s).1;
        } in
        (r, (rw e refl, (refl, (refl, (refl, refl)))))

    pass-IsQuiet :
        (folder : Folder) (cfg : ProjectConfig) (signature : String) (present : List String)
        (now : ℕ) (s : Store)
        → candidates lib limits folder cfg ≡ some present
        → incompatible c s ≡ none
        → is_widened signature s ≡ false
        → ((q : String)
            → lookup q (file_digests s)
              ≡ (if member q present then sha_of (read lib limits folder q) else none))
        → (r : Report) × (((pass lib limits engine c folder cfg signature now none s).1 ≡ some r)
            × IsQuiet r)
    pass-IsQuiet folder cfg signature present now s f i w h =
        let known = file_digests (relang lib s).0 in
        let k : (q : String)
            → lookup q known
              ≡ (if member q present then sha_of (read lib limits folder q) else none) =
          λ q. lookup-relang q s ∙ h q in
        let nothing = compare_each-same folder known present (λ q m. k q ∙ rw m refl) in
        let none_gone = gone-nothing folder known present k in
        let idle : changed lib limits folder cfg known ≡ some ([], []) =
          changed-some lib limits folder cfg known present f ∙ rw (nothing, none_gone) refl in
        idle_pass folder cfg signature now s i w idle

    -- Where a pass over a whole project is followed by another, and project, settings and config
    -- are still the same, the second writes nothing, deletes nothing, rebuilds nothing and is not
    -- widened. The config can be read, the root is a directory that may be indexed, every text
    -- that is not blank has a chunk and the embedder does not raise.
    pub index_project-again :
        (project : Project) (cfg : ProjectConfig) (signature : String) (present : List String)
        (later : ℕ) (s : Store)
        → project.is_dir ≡ true
        → project.config ≡ some (cfg, signature)
        → candidates lib limits project.folder cfg ≡ some present
        → IsWorking engine
        → (r : Report) × (((index_project lib limits engine c
                (record project { now = later })
                none
                (index_project lib limits engine c project none s).0).1
              ≡ some r)
            × IsQuiet r)
    index_project-again project cfg signature present later s d e f v =
        let s' = (index_project lib limits engine c project none s).0 in
        let end =
          index_project-sealed lib limits engine c project cfg signature present s d e f v in
        let i : incompatible c s' ≡ none =
          rw end.1 (incompatible-sealed c signature project.now end.0) in
        let w : is_widened signature s' ≡ false =
          rw end.1 (is_widened-sealed c signature project.now end.0) in
        let r = pass-IsQuiet project.folder cfg signature present later s' f i w (λ q.
          (index_project_lem lib limits engine c project cfg signature present s q d e f v).1) in
        rw
          (index_project-pass lib limits engine c (record project { now = later }) cfg signature
            none s' d e)
          r
