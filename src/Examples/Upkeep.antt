-- ===== src/Examples/Upkeep.antt =====
-- The theorems on configs, stores, connections and scopes, applied.
use rag_search_engine.Prelude.{
  ◌+◌, ◌*◌, ◌≤◌, ◌≡◌, refl, true, false, not, ◌&&◌, ◌||◌, List, [], ◌∷◌, any, all, member, keys,
  length, if◌then◌else◌, ◌==◌, string_discrete,
}
use rag_search_engine.Paths.{FilePath, path_discrete, is_relative_to}
use rag_search_engine.Registry.{claim}
use rag_search_engine.Projcfg.{
  strings, flag, Key, text, Section, section_of, raised, loaded, other_error, undecodable, mapping,
  sections, ProjectConfig, defaults, parse, ConfigFile, document, unreadable_config, load,
  effective,
}
use rag_search_engine.Projcfg.Effective.{some_root, escapes, IsUnion, effective_lem}
use rag_search_engine.Projcfg.Strict.{
  index_keys, federation_keys, is_known, only_keys, parse_strict,
}
use rag_search_engine.Reclaim.{Tree, claimed_stores, unclaimed, prunable_stores, refuse_on_shape}
use rag_search_engine.Reclaim.Prunable.{prunable_stores_lem}
use rag_search_engine.Conns.{Cache, reap_idle, open_count}
use rag_search_engine.Conns.Reap.{IsReaped, reap_idle_lem}
use rag_search_engine.Scope.{with_roots, branch, pinned, paths_of, enforce}
use rag_search_engine.Scope.Pin.{has_roots, enforce_lem}
use rag_search_engine.Examples.{app, lib, tool, files, rows}

abbrev raw : List (Key × Section)
raw =
    (
      text "index",
      mapping
          ((text "exclude", strings ("dist/*" ∷ [])) ∷ (text "respect_gitignore", flag false) ∷ []),
    )
    ∷ []

abbrev written : ProjectConfig
written = record defaults { exclude = "dist/*" ∷ []; respect_gitignore = false }

parse_strict_example :
    (all (is_known ("index" ∷ "federation" ∷ [])) (keys raw) ≡ true)
    × (only_keys index_keys (section_of "index" raw) ≡ true)
    × (only_keys federation_keys (section_of "federation" raw) ≡ true)
unfolding parse string_discrete
parse_strict_example = parse_strict raw written refl

-- The library's config is broken; the tool and the application have the same.
abbrev config_files : FilePath → ConfigFile
config_files p = if p == lib then unreadable_config else document (sections raw)

effective_lem_example :
    (cfg : ProjectConfig) × (effective config_files app (app ∷ lib ∷ tool ∷ []) ≡ (
      if some_root config_files app escapes (app ∷ lib ∷ tool ∷ [])
      then raised other_error
      else loaded cfg))
    × IsUnion config_files app (app ∷ lib ∷ tool ∷ []) written cfg
unfolding load parse string_discrete path_discrete
effective_lem_example = effective_lem config_files app (app ∷ lib ∷ tool ∷ []) written refl

-- With a root whose config is not UTF-8.
abbrev with_undecodable : FilePath → ConfigFile
with_undecodable p = if p == lib then undecodable else document (sections raw)

undecodable_root : effective with_undecodable app (app ∷ lib ∷ []) ≡ raised other_error
unfolding effective load parse string_discrete path_discrete
undecodable_root = refl

-- A store for each of the three projects, of which the tool has no row.
abbrev stores : Tree
stores = record {
  all_stores = ("idx" ∷ app) ∷ ("idx" ∷ lib) ∷ ("idx" ∷ tool) ∷ [];
  store_of = λ p. "idx" ∷ p;
  idle_for = λ p. true;
}

prunable_stores_lem_example :
    ((p : FilePath)
      → (member p (("idx" ∷ tool) ∷ [])
          ≡ (true && (not (member p (claimed_stores stores rows)) && member p stores.all_stores)))
        × (member p [] ≡ (
            false && (not (member p (claimed_stores stores rows)) && member p stores.all_stores))))
    × ((p : FilePath) → (member p (("idx" ∷ tool) ∷ []) || member p []) ≡ true → 1 ≤ length rows)
    × (false ≡ false
        → length (unclaimed stores (claimed_stores stores rows)) * 2 ≤ length stores.all_stores)
unfolding prunable_stores refuse_on_shape claim path_discrete
prunable_stores_lem_example = prunable_stores_lem stores rows false (("idx" ∷ tool) ∷ []) [] refl

-- One thread is in a session, one went quiet.
abbrev caches : List Cache
caches =
    record { conns = app ∷ lib ∷ []; last_used = 1; locked = true }
    ∷ record { conns = tool ∷ []; last_used = 2; locked = false }
    ∷ []

reap_idle_lem_example :
    IsReaped (λ p. true) 10 50 caches (reap_idle (λ p. true) 10 50 caches).0
    × (open_count (reap_idle (λ p. true) 10 50 caches).0 + (reap_idle (λ p. true) 10 50 caches).1
        ≡ open_count caches)
reap_idle_lem_example = reap_idle_lem (λ p. true) 10 50 caches

enforce_lem_example : enforce files true tool (pinned (branch true with_roots) (lib ∷ [])) ≡ (
    true
    && (has_roots with_roots
        && any (λ r. is_relative_to tool r || is_relative_to r tool) (paths_of files (lib ∷ []))))
enforce_lem_example = enforce_lem files true with_roots tool (lib ∷ [])
