-- ===== src/IndexProject.antt =====
-- index.py: `index_project`, one pass over one project.
pub mod Batches
pub mod Reconciles
pub mod Stamps
pub mod Repeats
pub mod Refuses
pub mod Named
pub mod Contracts
use rag_search_engine.Prelude.{
  ℕ, String, Bool, true, false, not, ◌&&◌, Option, none, some, List, [], ◌∷◌, map, filter, member,
  lookup, keys, ◌==◌, if◌then◌else◌, string_discrete,
}
use rag_search_engine.Glob.{codes}
use rag_search_engine.Projcfg.{ProjectConfig}
use rag_search_engine.Text.{Library}
use rag_search_engine.Filters.{lang_of}
use rag_search_engine.Discover.{FileMeta, Folder, Limits, read, changed}
use rag_search_engine.Store.{
  Value, text, number, Store, get_meta, set_meta, file_digests, file_langs, set_langs, delete_files,
  counts, wipe,
}
use rag_search_engine.Pass.{Stamp, stamp, same_as, incompatible, Engine, Writer, write_files}

-- What a pass returns.
pub record Report : Type 0 where
  pub files : ℕ
  pub chunks : ℕ
  pub written : ℕ
  pub deleted : ℕ
  pub rebuilt : Option String
  pub widened : Bool
  pub relang : ℕ

-- `_index_project` after the config is read: the folder, the config with its signature, the clock.
pub record Project : Type 0 where
  pub is_dir : Bool
  pub folder : Folder
  -- `projcfg.effective` and `cfg.signature()`; nothing where it raises
  pub config : Option (ProjectConfig × String)
  pub now : ℕ

-- `if reason := store.incompatible(conn)`
abbrev pub rebuild : Stamp → Store → Store × Option String
rebuild c s = elim (incompatible c s) [ none ↦ (s, none) | some reason ↦ (wipe s, some reason) ]

-- `store.get_meta(conn, "config_signature") != signature`
abbrev pub is_widened : String → Store → Bool
is_widened signature s = not (same_as (get_meta s "config_signature") (text signature))

abbrev pub relabelled : List (String × String) → Store → Store × ℕ
relabelled [] s = (s, 0)
relabelled (p ∷ pairs) s = set_langs (p ∷ pairs) s

module _ (c : Stamp) where
  -- `store.stamp`, `store.set_meta` and the commit
  abbrev pub sealed : String → ℕ → Store → Store
  sealed signature now s =
      set_meta (("config_signature", text signature) ∷ ("indexed_at", number now) ∷ []) (stamp c s)

  abbrev pub report_of : String → ℕ → Option String → Bool → ℕ → ℕ → Writer → Store × Option Report
  report_of signature now rebuilt widened relabelled deleted w =
      let s = sealed signature now w.store in
      (
        s,
        some (record {
          files = (counts s).0;
          chunks = (counts s).1;
          written = w.written;
          deleted = deleted;
          rebuilt = rebuilt;
          widened = widened;
          relang = relabelled;
        }),
      )

  -- The deletions, the writes and the end of a pass, once it is known what there is to do.
  abbrev pub carry_out :
      Engine
      → String
      → ℕ
      → Option String
      → Bool
      → ℕ
      → Store
      → Option (List FileMeta × List String)
      → Store × Option Report
  carry_out engine signature now rebuilt widened relabelled s none = (s, none)
  carry_out engine signature now rebuilt widened relabelled s (some (write, delete)) =
      let (cleared, deleted) = delete_files delete s in
      let (w, finished) = write_files engine write cleared in
      if finished
      then report_of signature now rebuilt widened relabelled deleted w
      else (w.store, none)

module _ (lib : Library) where
  -- The (lang, path) pairs of `_relang`.
  abbrev pub stale : List (String × String) → List (String × String)
  stale [] = []
  stale ((path, was) ∷ l) =
      let fresh = lang_of lib.lower (codes path) in
      if not (fresh == was) then (fresh, path) ∷ stale l else stale l

  unfoldable pub relang : Store → Store × ℕ
  relang s = relabelled (stale (file_langs s)) s

  module _ (limits : Limits) where
    abbrev pub read_each : Folder → List String → List FileMeta
    read_each folder [] = []
    read_each folder (p ∷ paths) = elim (read lib limits folder p) [
      | none ↦ read_each folder paths
      | some m ↦ m ∷ read_each folder paths
    ]

    abbrev pub lost : List FileMeta → List (String × String) → List String → List String
    lost write known =
        filter (λ p. not (member p (map (λ m. m.rel) write)) && member p (keys known))

    -- What is written and what is deleted: of the whole project, or of the paths that are asked for.
    abbrev pub work :
        Folder
        → ProjectConfig
        → List (String × String)
        → Option (List String)
        → Option (List FileMeta × List String)
    work folder cfg known none = changed lib limits folder cfg known
    work folder cfg known (some paths) =
        let write = read_each folder paths in some (write, lost write known paths)

    module _ (engine : Engine) (c : Stamp) where
      -- The store that is left, and the report; no report where the pass raises.
      abbrev pub pass :
          Folder → ProjectConfig → String → ℕ → Option (List String) → Store → Store × Option Report
      pass folder cfg signature now paths s =
          let (s1, rebuilt) = rebuild c s in
          let widened = is_widened signature s1 in
          let (s2, relabelled) = relang s1 in
          carry_out c engine signature now rebuilt widened relabelled s2
            (work folder cfg (file_digests s2) (if widened then none else paths))

      unfoldable pub index_project : Project → Option (List String) → Store → Store × Option Report
      index_project project paths s =
          if project.is_dir
          then elim project.config [
            | none ↦ (s, none)
            | some (cfg, signature) ↦ pass project.folder cfg signature project.now paths s
          ]
          else (s, none)
