-- ===== src/Projcfg/Effective.antt =====
-- projcfg.py: `effective` does not depend on the order of the roots.
use rag_search_engine.Prelude.{
  ◌≡◌, refl, if◌then◌else◌, Bool-cases, Option, String, Bool, true, false, not, ◌&&◌, ◌||◌, none,
  some, List, [], ◌∷◌, any, member, distinct, dedup, ascending, ascending-sort, arith, ◌==◌,
  string_discrete, member-append, member-sort, member-dedup, distinct-sort, distinct-dedup, inl,
  inr,
}
use rag_search_engine.Paths.{FilePath, path_discrete, text_le, text_le_total}
use rag_search_engine.Projcfg.{
  ProjectConfig, ConfigFile, Outcome, raised, loaded, config_error, other_error, load, next_parent,
  united_with, parents_of, excludes_of, united, effective,
}

abbrev pub passes_test : (ProjectConfig → Bool) → Outcome → Bool
passes_test q (raised e) = false
passes_test q (loaded c) = q c

abbrev pub escapes : Outcome → Bool
escapes (raised config_error) = false
escapes (raised other_error) = true
escapes (loaded c) = false

module _ (file : FilePath → ConfigFile) (project : FilePath) where
  -- Some claiming root other than the project has a config of which this holds.
  abbrev pub some_root : (Outcome → Bool) → List FilePath → Bool
  some_root q [] = false
  some_root q (root ∷ roots) = (not (root == project) && q (load (file root))) || some_root q roots

  add_loaded : Outcome → List ProjectConfig → List ProjectConfig
  add_loaded (raised e) cs = cs
  add_loaded (loaded c) cs = c ∷ cs

  -- The configs of the roots that load.
  loaded_of : List FilePath → List ProjectConfig
  loaded_of [] = []
  loaded_of (root ∷ roots) =
      let rest = loaded_of roots in
      if root == project then rest else add_loaded (load (file root)) rest

  abbrev parents_or_none : Bool → List ProjectConfig → Option (List ProjectConfig)
  parents_or_none b cs = if b then none else some cs

  next_parent-add_loaded :
      (o : Outcome) (b : Bool) (cs : List ProjectConfig)
      → next_parent file project o (parents_or_none b cs)
        ≡ parents_or_none (escapes o || b) (add_loaded o cs)
  unfolding add_loaded
  next_parent-add_loaded (raised config_error) b cs = refl
  next_parent-add_loaded (raised other_error) b cs = refl
  next_parent-add_loaded (loaded c) true cs = refl
  next_parent-add_loaded (loaded c) false cs = refl

  parents_of-loaded_of :
      (roots : List FilePath)
      → parents_of file project roots ≡ parents_or_none (some_root escapes roots) (loaded_of roots)
  unfolding loaded_of
  parents_of-loaded_of [] = refl
  parents_of-loaded_of (root ∷ roots) = elim (Bool-cases (root == project)) [
    | inl t ↦ rw t (parents_of-loaded_of roots)
    | inr f ↦
        rw (f, parents_of-loaded_of roots)
          (next_parent-add_loaded (load (file root)) (some_root escapes roots) (loaded_of roots))
  ]

  any-add_loaded :
      (q : ProjectConfig → Bool) (o : Outcome) (cs : List ProjectConfig)
      → any q (add_loaded o cs) ≡ (passes_test q o || any q cs)
  unfolding add_loaded
  any-add_loaded q (raised e) cs = refl
  any-add_loaded q (loaded c) cs = refl

  any-loaded_of :
      (q : ProjectConfig → Bool) (roots : List FilePath)
      → any q (loaded_of roots) ≡ some_root (passes_test q) roots
  unfolding loaded_of
  any-loaded_of q [] = refl
  any-loaded_of q (root ∷ roots) =
      ground (arith, any-add_loaded q (load (file root)) (loaded_of roots), any-loaded_of q roots)

  member-excludes_of :
      (x : String) (cs : List ProjectConfig)
      → member x (excludes_of file project cs) ≡ any (λ c. member x c.exclude) cs
  member-excludes_of x [] = refl
  member-excludes_of x (c ∷ cs) =
      ground
        (arith, member-append x c.exclude (excludes_of file project cs), member-excludes_of x cs)

  -- The union of the project's own config and of those of the other roots that load.
  pub record IsUnion (roots : List FilePath) (own cfg : ProjectConfig) : Type 0 where
    pub excludes_each :
        (x : String)
        → member x cfg.exclude
          ≡ (member x own.exclude || some_root (passes_test (λ c. member x c.exclude)) roots)
    pub one_each : distinct cfg.exclude ≡ true
    pub in_order : ascending text_le cfg.exclude ≡ true
    pub gitignore :
        cfg.respect_gitignore
        ≡ (own.respect_gitignore || some_root (passes_test (λ c. c.respect_gitignore)) roots)
    pub ignores :
        cfg.use_default_ignores
        ≡ (own.use_default_ignores || some_root (passes_test (λ c. c.use_default_ignores)) roots)
    pub own_include : cfg.include ≡ own.include
    pub own_federation : cfg.federation_exclude ≡ own.federation_exclude

  united-IsUnion :
      (roots : List FilePath) (own : ProjectConfig)
      → IsUnion roots own (united file project own (loaded_of roots))
  united-IsUnion roots own =
      let parents = loaded_of roots in
      let xs = excludes_of file project (own ∷ parents) in
      record {
        excludes_each = λ x. ground (
          arith,
          member-sort text_le x (dedup xs),
          member-dedup x xs,
          member-append x own.exclude (excludes_of file project parents),
          member-excludes_of x parents,
          any-loaded_of (λ c. member x c.exclude) roots,
        );
        one_each = distinct-sort text_le (dedup xs) (distinct-dedup xs);
        in_order = ascending-sort text_le text_le_total (dedup xs);
        gitignore = ground (arith, any-loaded_of (λ c. c.respect_gitignore) roots);
        ignores = ground (arith, any-loaded_of (λ c. c.use_default_ignores) roots);
        own_include = refl;
        own_federation = refl;
      }

  united_with-settled :
      (own : ProjectConfig) (b : Bool) (cs : List ProjectConfig)
      → united_with file project own (parents_or_none b cs)
        ≡ (if b then raised other_error else loaded (united file project own cs))
  united_with-settled own true cs = refl
  united_with-settled own false cs = refl

  -- Where the project's own config loads, `effective` raises exactly if some other claiming root's
  -- config raises an error that is no `ConfigError`, and raises such an error; a root's
  -- `ConfigError` is passed over. Else it returns the union: the excludes are those of the project
  -- and of every other claiming root whose config loads, sorted and each once; a flag is set
  -- exactly if one of these sets it; the includes and the federation's excludes are the project's
  -- own.
  pub effective_lem :
      (roots : List FilePath) (own : ProjectConfig)
      → load (file project) ≡ loaded own
      → (cfg : ProjectConfig) × (effective file project roots
          ≡ (if some_root escapes roots then raised other_error else loaded cfg))
        × IsUnion roots own cfg
  unfolding effective
  effective_lem roots own l = (
    united file project own (loaded_of roots),
    rw (l, parents_of-loaded_of roots)
        (united_with-settled own (some_root escapes roots) (loaded_of roots)),
    united-IsUnion roots own,
  )
