-- ===== src/Federation/Walk.antt =====
-- federation.py: the walk of a root's tree for links to other projects.
use rag_search_engine.Prelude.{
  ℕ, zero, suc, String, Bool, not, ◌&&◌, ◌||◌, Option, none, some, List, [], ◌∷◌, ◌++◌, member, any,
  if◌then◌else◌, string_discrete,
}
use rag_search_engine.Paths.{FilePath, is_relative_to, str, rel_str}
use rag_search_engine.FileSystem.{FileSystem}
use rag_search_engine.Glob.{fnmatch}

-- What `os.walk` lists under `dirnames`: directories, and links that lead to one. A link carries
-- what `resolve(strict=True)` answers, `none` where that raises.
mutual
  pub data Node : Type 0 where
    folder : Entries → Node
    link : Option FilePath → Node

  pub data Entries : Type 0 where
    nil : Entries
    entry : String → Node → Entries → Entries

abbrev pub max_depth : ℕ
max_depth = 4

abbrev pub skip_dirs : List String
skip_dirs = ".git" ∷ ".hg" ∷ ".svn" ∷ "node_modules" ∷ "vendor" ∷ "__pycache__" ∷ ".venv" ∷ []

-- Link path and target.
abbrev pub Links : Type 0
Links = List (FilePath × FilePath)

abbrev pub targets : Links → List FilePath
targets [] = []
targets ((l, t) ∷ ls) = t ∷ targets ls

module _ (fs : FileSystem) where
  unfoldable pub looks_like_a_project : FilePath → Bool
  looks_like_a_project path =
      fs.is_dir path && (fs.exists (path ++ ".git" ∷ []) || fs.occupied path)

-- Both the link below the root and the target are matched.
unfoldable pub excluded : FilePath → FilePath → List String → Bool
excluded rel target patterns = any (λ p. fnmatch (rel_str rel) p || fnmatch (str target) p) patterns

module _ (fs : FileSystem) (patterns : List String) (root : FilePath) where
  -- The tests between the link and `found[link] = target`; `rel` is the link below the root.
  unfoldable pub is_member : FilePath → FilePath → Bool
  is_member rel target =
      not (is_relative_to target root)
      && (not (excluded rel target patterns) && looks_like_a_project fs target)

  abbrev link_of : FilePath → Option FilePath → Links
  link_of rel none = []
  link_of rel (some target) = if is_member rel target then (root ++ rel, target) ∷ [] else []

  abbrev pub node_link : FilePath → String → Node → Links
  node_link here name (folder sub) = []
  node_link here name (link target) =
      if member name skip_dirs then [] else link_of (here ++ name ∷ []) target

  -- The links of one directory, `here` below the root.
  abbrev pub own_links : FilePath → Entries → Links
  own_links here nil = []
  own_links here (entry name node es) = node_link here name node ++ own_links here es

  abbrev pub node_below : (FilePath → Entries → Links) → FilePath → String → Node → Links
  node_below walk_in here name (link target) = []
  node_below walk_in here name (folder sub) =
      if member name skip_dirs then [] else walk_in (here ++ name ∷ []) sub

  abbrev pub links_below : (FilePath → Entries → Links) → FilePath → Entries → Links
  links_below walk_in here nil = []
  links_below walk_in here (entry name node es) =
      node_below walk_in here name node ++ links_below walk_in here es

  -- `os.walk` from `here` down; the number is how many levels may still be read.
  abbrev pub walk : ℕ → FilePath → Entries → Links
  walk zero here es = []
  walk (suc levels) here es = own_links here es ++ links_below (walk levels) here es

  unfoldable pub links : Entries → Links
  links es = walk max_depth [] es
