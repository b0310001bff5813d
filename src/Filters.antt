-- ===== src/Filters.antt =====
-- filters.py: what must not be indexed, and what it is when it is. A relative path is its text.
pub mod Refused
pub mod Languages
use rag_search_engine.Prelude.{
  ℕ, suc, String, ◌≡◌, refl, Bool, true, false, not, ◌&&◌, ◌||◌, Option, none, some, List, [], ◌∷◌,
  ◌++◌, any, take, drop, length, member, ◌==◌, ltb, if◌then◌else◌, nat_discrete, ◌+◌, ◌-◌,
}
use rag_search_engine.Paths.{FilePath, path_discrete, is_relative_to}
use rag_search_engine.Glob.{codes, fnmatch_codes}
use rag_search_engine.Whitespace.{text_discrete}
use rag_search_engine.Text.{Text, is_one_of, entry_of}
use rag_search_engine.Filters.Refused.{
  secret_names, secret_globs, secret_exempt, image_ext, binary_ext, ignore_dirs, ignore_names,
}
use rag_search_engine.Filters.Languages.{langs, filenames}

-- `text.split("/")`
abbrev pub segments : Text → List Text
segments [] = [] ∷ []
segments (c ∷ s) = elim (c == b'/') [
  | true ↦ [] ∷ segments s
  | false ↦ elim (segments s) [ [] ↦ (c ∷ []) ∷ [] | w ∷ ws ↦ (c ∷ w) ∷ ws ]
]

-- An empty segment and `.` are no parts of a path.
abbrev pub real_parts : List Text → List Text
real_parts [] = []
real_parts (w ∷ ws) = if w == [] || w == codes "." then real_parts ws else w ∷ real_parts ws

-- `Path(rel).parts`, of a relative path
unfoldable pub parts : Text → List Text
parts rel = real_parts (segments rel)

abbrev pub last_of : List Text → Text
last_of [] = []
last_of (w ∷ []) = w
last_of (w ∷ v ∷ ws) = last_of (v ∷ ws)

abbrev pub all_but_last : List Text → List Text
all_but_last [] = []
all_but_last (w ∷ []) = []
all_but_last (w ∷ v ∷ ws) = w ∷ all_but_last (v ∷ ws)

-- `Path(rel).name`
unfoldable pub name_of : Text → Text
name_of rel = last_of (parts rel)

-- `name.rfind(".")`
abbrev pub last_dot : Text → Option ℕ
last_dot [] = none
last_dot (c ∷ s) = elim (last_dot s) [
  | some i ↦ some (suc i)
  | none ↦ if c == b'.' then some 0 else none
]

-- `Path(rel).suffix`: none for a name that begins with its only dot or that ends with one.
unfoldable pub suffix_of : Text → Text
suffix_of rel =
    let name = name_of rel in
    elim (last_dot name) [
      | none ↦ []
      | some i ↦ if ltb 0 i && ltb (i + 1) (length name) then drop i name else []
    ]

abbrev pub matches_name : Text → List String → Bool
matches_name name = any (fnmatch_codes name)

unfoldable pub matches_any : Text → List String → Bool
matches_any rel = any (λ pat. fnmatch_codes rel pat || fnmatch_codes (rel ++ b'/' ∷ []) pat)

-- A NUL in the first bytes.
unfoldable pub looks_binary : ℕ → List ℕ → Bool
looks_binary sniffed head = member 0 (take sniffed head)

unfoldable pub in_ignored_dir : Text → Bool
in_ignored_dir rel = any (λ part. is_one_of part ignore_dirs) (all_but_last (parts rel))

-- `config.FORBIDDEN_ROOTS` and `config.FORBIDDEN_TREES` are `roots` and `trees`; a path is below a
-- tree if the tree is one of its parents.
unfoldable pub is_forbidden_root : List FilePath → List FilePath → FilePath → Bool
is_forbidden_root roots trees resolved =
    member resolved roots
    || any (λ tree. not (resolved == tree) && is_relative_to resolved tree) trees

module _ (lower : Text → Text) where
  unfoldable pub is_secret_path : Text → Bool
  is_secret_path path =
      let name = lower (name_of path) in
      if matches_name name secret_exempt
      then false
      else is_one_of name secret_names || matches_name name secret_globs

  unfoldable pub is_image_path : Text → Bool
  is_image_path path = is_one_of (lower (suffix_of path)) image_ext

  unfoldable pub is_binary_ext : Text → Bool
  is_binary_ext path = is_one_of (lower (suffix_of path)) binary_ext

  unfoldable pub is_ignored_name : Text → Bool
  is_ignored_name rel = is_one_of (lower (name_of rel)) ignore_names

  abbrev pub or_suffix : Text → Option String → String
  or_suffix path (some lang) = lang
  or_suffix path none = elim (entry_of (lower (suffix_of path)) langs) [
    | some lang ↦ lang
    | none ↦ ""
  ]

  -- No name of the table has the empty text for its language.
  unfoldable pub lang_of : Text → String
  lang_of path = or_suffix path (entry_of (lower (name_of path)) filenames)

small : Text → Text
small [] = []
small (c ∷ s) = (if ltb 64 c && ltb c 91 then c + 32 else c) ∷ small s

cmake_by_name : lang_of small (codes "src/CMakeLists.txt") ≡ "cmake"
unfolding lang_of small name_of parts suffix_of native.Mathlib.Decide.ℕ_discrete text_discrete
cmake_by_name = refl

nested_modules : in_ignored_dir (codes "packages/a/node_modules/x.js") ≡ true
unfolding in_ignored_dir parts native.Mathlib.Decide.ℕ_discrete text_discrete
nested_modules = refl
