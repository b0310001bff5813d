-- ===== src/Projcfg.antt =====
-- projcfg.py: the project's config, parsed strictly, and its union over the claiming roots. Of an
-- error only whether it is a `ConfigError`. What `read_text` and `yaml.safe_load` give is a
-- parameter, a `ConfigFile` with a `Document`.
pub mod Effective
pub mod Strict
use rag_search_engine.Prelude.{
  String, Bool, true, false, ◌||◌, Option, none, some, List, [], ◌∷◌, ◌++◌, any, member, dedup,
  sort, ◌==◌, if◌then◌else◌, string_discrete,
}
use rag_search_engine.Paths.{FilePath, path_discrete, text_le}

-- A value, a section and a document, as far as the tests tell them apart. A list of which an
-- element is no text is `odd`.
pub data Item : Type 0 where
  strings : List String → Item
  flag : Bool → Item
  odd : Item

-- A key of a mapping. Of a key that is no text, whether `difflib`, which `_suggest` calls, can
-- compare it; of a number, for one, it cannot, and raises a `TypeError`.
pub data Key : Type 0 where
  text : String → Key
  odd_key : Bool → Key

pub data Section : Type 0 where
  mapping : List (Key × Item) → Section
  no_mapping : Section

-- `no_yaml` raises a `YAMLError`, `no_value` another error, as the date 2026-13-01 does.
pub data Document : Type 0 where
  empty no_yaml no_value no_sections : Document
  sections : List (Key × Section) → Document

-- What is raised: a `ConfigError`, or an error that is none.
pub data Raised : Type 0 where
  config_error other_error : Raised

pub record ProjectConfig : Type 0 where
  pub exclude : List String
  pub include : List String
  pub respect_gitignore : Bool
  pub use_default_ignores : Bool
  pub federation_exclude : List String

-- `ProjectConfig()`
abbrev pub defaults : ProjectConfig
defaults = record {
  exclude = [];
  include = [];
  respect_gitignore = true;
  use_default_ignores = true;
  federation_exclude = [];
}

pub data Outcome : Type 0 where
  raised : Raised → Outcome
  loaded : ProjectConfig → Outcome

-- What the refusal of a key raises, whose text is `_suggest`.
abbrev pub unknown : Key → Raised
unknown (text key) = config_error
unknown (odd_key comparable) = if comparable then config_error else other_error

-- `_strings` and `_flag`, and what is set with what they return
abbrev pub with_strings : (List String → ProjectConfig) → Item → Outcome
with_strings put (strings l) = loaded (put l)
with_strings put _ = raised config_error

abbrev pub with_flag : (Bool → ProjectConfig) → Item → Outcome
with_flag put (flag b) = loaded (put b)
with_flag put _ = raised config_error

abbrev pub set_index : String → Item → ProjectConfig → Outcome
set_index key v cfg =
    if key == "exclude"
    then with_strings (λ l. record cfg { exclude = l }) v
    else if key == "include"
    then with_strings (λ l. record cfg { include = l }) v
    else if key == "respect_gitignore"
    then with_flag (λ b. record cfg { respect_gitignore = b }) v
    else if key == "use_default_ignores"
    then with_flag (λ b. record cfg { use_default_ignores = b }) v
    else raised config_error

abbrev pub set_federation : String → Item → ProjectConfig → Outcome
set_federation key v cfg =
    if key == "exclude"
    then with_strings (λ l. record cfg { federation_exclude = l }) v
    else raised config_error

abbrev pub set_key :
    (String → Item → ProjectConfig → Outcome) → Key → Item → ProjectConfig → Outcome
set_key set (text key) v cfg = set key v cfg
set_key set (odd_key comparable) v cfg = raised (unknown (odd_key comparable))

abbrev pub and_then : Outcome → (ProjectConfig → Outcome) → Outcome
and_then (raised e) f = raised e
and_then (loaded cfg) f = f cfg

-- The loop over the keys of one section.
abbrev pub read_items :
    (String → Item → ProjectConfig → Outcome) → List (Key × Item) → ProjectConfig → Outcome
read_items set [] cfg = loaded cfg
read_items set ((key, v) ∷ items) cfg =
    and_then (set_key set key v cfg) (λ cfg'. read_items set items cfg')

abbrev pub read_section :
    (String → Item → ProjectConfig → Outcome) → Option Section → ProjectConfig → Outcome
read_section set none cfg = loaded cfg
read_section set (some no_mapping) cfg = raised config_error
read_section set (some (mapping items)) cfg = read_items set items cfg

abbrev pub is_section : Key → Bool
is_section (text s) = member s ("index" ∷ "federation" ∷ [])
is_section (odd_key comparable) = false

-- The loop over the sections: what it raises.
abbrev pub refusal : List (Key × Section) → Option Raised
refusal [] = none
refusal ((key, s) ∷ raw) =
    let rest = refusal raw in if is_section key then rest else some (unknown key)

-- `raw.get(section)`
abbrev pub is_key : String → Key → Bool
is_key name (text s) = name == s
is_key name (odd_key comparable) = false

abbrev pub section_of : String → List (Key × Section) → Option Section
section_of name [] = none
section_of name ((key, s) ∷ raw) =
    let rest = section_of name raw in if is_key name key then some s else rest

unfoldable pub parse : Document → Outcome
parse empty = loaded defaults
parse no_yaml = raised config_error
parse no_value = raised other_error
parse no_sections = raised config_error
parse (sections raw) = elim (refusal raw) [
  | some e ↦ raised e
  | none ↦
      and_then (read_section set_index (section_of "index" raw) defaults)
        (λ cfg. read_section set_federation (section_of "federation" raw) cfg)
]

-- `.coderag.yaml` of a project: absent, with the retired file there or not; not readable; no UTF-8;
-- or read.
pub data ConfigFile : Type 0 where
  absent : Bool → ConfigFile
  unreadable_config undecodable : ConfigFile
  document : Document → ConfigFile

unfoldable pub load : ConfigFile → Outcome
load (absent retired) = if retired then raised config_error else loaded defaults
load unreadable_config = raised config_error
-- A `UnicodeDecodeError` is no `OSError`.
load undecodable = raised other_error
load (document doc) = parse doc

module _ (file : FilePath → ConfigFile) (project : FilePath) where
  -- The loop over the roots: the configs that are united with the project's own, in their order,
  -- or nothing where a root's config raises what is no `ConfigError`.
  abbrev pub next_parent : Outcome → Option (List ProjectConfig) → Option (List ProjectConfig)
  next_parent (raised config_error) rest = rest
  next_parent (raised other_error) rest = none
  next_parent (loaded parent) none = none
  next_parent (loaded parent) (some parents) = some (parent ∷ parents)

  abbrev pub parents_of : List FilePath → Option (List ProjectConfig)
  parents_of [] = some []
  parents_of (root ∷ roots) =
      let rest = parents_of roots in
      if root == project then rest else next_parent (load (file root)) rest

  abbrev pub excludes_of : List ProjectConfig → List String
  excludes_of [] = []
  excludes_of (c ∷ cs) = c.exclude ++ excludes_of cs

  abbrev pub united : ProjectConfig → List ProjectConfig → ProjectConfig
  united own parents = record {
    exclude = sort text_le (dedup (excludes_of (own ∷ parents)));
    include = own.include;
    respect_gitignore = any (λ c. c.respect_gitignore) (own ∷ parents);
    use_default_ignores = any (λ c. c.use_default_ignores) (own ∷ parents);
    federation_exclude = own.federation_exclude;
  }

  abbrev pub united_with : ProjectConfig → Option (List ProjectConfig) → Outcome
  united_with own none = raised other_error
  united_with own (some parents) = loaded (united own parents)

  unfoldable pub effective : List FilePath → Outcome
  effective roots = and_then (load (file project)) (λ own. united_with own (parents_of roots))
