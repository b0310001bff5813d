-- ===== src/Discover.antt =====
-- discover.py: which files a project offers the indexer, and what they contain.
pub mod Candidates
pub mod Changed
use rag_search_engine.Prelude.{
  ℕ, ◌+◌, String, Bool, true, false, not, ◌&&◌, ◌||◌, Option, none, some, List, [], ◌∷◌, ◌≡◌,
  length, filter, member, lookup, keys, dedup, sort, leb, ltb, ◌==◌, if◌then◌else◌, string_discrete,
}
use rag_search_engine.Paths.{text_le}
use rag_search_engine.Glob.{codes}
use rag_search_engine.Projcfg.{ProjectConfig}
use rag_search_engine.Text.{Text, Library}
use rag_search_engine.Chunk.{is_blank, newlines}
use rag_search_engine.Filters.{
  matches_any, in_ignored_dir, is_ignored_name, is_secret_path, is_image_path, is_binary_ext,
  looks_binary, lang_of,
}
use rag_search_engine.Filters.Refused.{default_ignores}

pub record FileMeta : Type 0 where
  pub rel : String
  pub mtime : ℕ
  pub size : ℕ
  pub sha256 : String
  pub lang : String
  pub n_lines : ℕ
  pub text : Text

-- What a path is at the moment that it is asked for: nothing that can be looked at, a symbolic
-- link, something that is no file, or a file with its time and size, and its bytes if they can be
-- read.
pub data Node : Type 0 where
  vanished symlink no_file : Node
  regular : ℕ → ℕ → Option (List ℕ) → Node

-- A project's directory: whether it may be indexed at all, what `_git_files` and `_walked_files`
-- list, and what stands at a relative path.
pub record Folder : Type 0 where
  pub forbidden : Bool
  pub git_files : Option (List String)
  pub walked_files : List String
  pub node : String → Node

-- `config.MAX_FILE_BYTES` and `config.BINARY_SNIFF_BYTES`
pub record Limits : Type 0 where
  pub max_bytes : ℕ
  pub sniff_bytes : ℕ

-- No link, and a file that is not too large.
abbrev pub is_offered : Limits → Node → Bool
is_offered limits (regular mtime size raw) = not (ltb limits.max_bytes size)
is_offered limits _ = false

abbrev pub all_paths : Folder → ProjectConfig → List String
all_paths folder cfg = elim (if cfg.respect_gitignore then folder.git_files else none) [
  | some paths ↦ paths
  | none ↦ folder.walked_files
]

-- `known.get(rel) != meta.sha256`
abbrev pub differs : Option String → String → Bool
differs none sha256 = true
differs (some was) sha256 = not (was == sha256)

abbrev pub gone : List (String × String) → List String → List String
gone known seen = sort text_le (filter (λ rel. not (member rel seen)) (dedup (keys known)))

module _ (lib : Library) where
  unfoldable pub indexable : String → ProjectConfig → Bool
  indexable rel cfg =
      let path = codes rel in
      if cfg.use_default_ignores
        && (in_ignored_dir path
            || (is_ignored_name lib.lower path || matches_any path default_ignores))
      then false
      else if matches_any path cfg.exclude && not (matches_any path cfg.include)
      then false
      else if is_secret_path lib.lower path || is_image_path lib.lower path
      then false
      else not (is_binary_ext lib.lower path)

  module _ (limits : Limits) where
    abbrev pub kept : Folder → ProjectConfig → List String → List String
    kept folder cfg = filter (λ rel. indexable rel cfg && is_offered limits (folder.node rel))

    -- Nothing where it raises.
    unfoldable pub candidates : Folder → ProjectConfig → Option (List String)
    candidates folder cfg =
        if folder.forbidden
        then none
        else some (sort text_le (kept folder cfg (all_paths folder cfg)))

    -- `raw` of a file, as text that is worth indexing.
    abbrev pub meta_of : String → ℕ → ℕ → List ℕ → Option FileMeta
    meta_of rel mtime size raw =
        let text = lib.decode raw in
        let meta : FileMeta = record {
          rel = rel;
          mtime = mtime;
          size = size;
          sha256 = lib.digest raw;
          lang = lang_of lib.lower (codes rel);
          n_lines = newlines text + 1;
          text = text;
        } in
        if ltb limits.max_bytes (length raw) || looks_binary limits.sniff_bytes raw
        then none
        else if is_blank text
        then none
        else some meta

    abbrev pub read_node : String → Node → Option FileMeta
    read_node rel (regular mtime size (some raw)) =
        if ltb limits.max_bytes size then none else meta_of rel mtime size raw
    read_node rel _ = none

    unfoldable pub read : Folder → String → Option FileMeta
    read folder rel = read_node rel (folder.node rel)

    -- The loop: the files to write, and the paths that were seen.
    abbrev pub compare_each :
        Folder → List (String × String) → List String → List FileMeta × List String
    compare_each folder known [] = ([], [])
    compare_each folder known (rel ∷ present) =
        let (write, seen) = compare_each folder known present in
        elim (read folder rel) [
          | none ↦ (write, seen)
          | some meta ↦
              (if differs (lookup rel known) meta.sha256 then meta ∷ write else write, rel ∷ seen)
        ]

    unfoldable pub changed :
        Folder → ProjectConfig → List (String × String) → Option (List FileMeta × List String)
    changed folder cfg known = elim (candidates folder cfg) [
      | none ↦ none
      | some present ↦
          (let (write, seen) = compare_each folder known present in some (write, gone known seen))
    ]
