-- ===== src/Projcfg/Strict.antt =====
-- projcfg.py: `parse` ignores nothing.
use rag_search_engine.Prelude.{
  ◌≡◌, refl, ◌⊎◌, String, Bool, true, false, Option, none, some, List, [], ◌∷◌, all, member, keys,
  arith, string_discrete, Option-cases, inl, inr,
}
use rag_search_engine.Projcfg.{
  Key, text, odd_key, Raised, Outcome, raised, loaded, set_key, refusal, section_of, Item, Section,
  mapping, no_mapping, sections, ProjectConfig, defaults, set_index, set_federation, read_items,
  read_section, parse,
}

-- `_INDEX_KEYS` and `_FEDERATION_KEYS`
abbrev pub index_keys : List String
index_keys = "exclude" ∷ "include" ∷ "respect_gitignore" ∷ "use_default_ignores" ∷ []

abbrev pub federation_keys : List String
federation_keys = "exclude" ∷ []

-- The key is a text, and one of these.
abbrev pub is_known : List String → Key → Bool
is_known known (text key) = member key known
is_known known (odd_key comparable) = false

abbrev is_loaded : Outcome → Bool
is_loaded (raised e) = false
is_loaded (loaded cfg) = true

Outcome-cases :
    (o : Outcome) → ((e : Raised) × (o ≡ raised e)) ⊎ ((c : ProjectConfig) × (o ≡ loaded c))
Outcome-cases (raised e) = inl (e, refl)
Outcome-cases (loaded c) = inr (c, refl)

-- Every key of the section, if it is there and is a mapping, is one of these.
abbrev pub only_keys : List String → Option Section → Bool
only_keys known none = true
only_keys known (some no_mapping) = false
only_keys known (some (mapping items)) = all (is_known known) (keys items)

set_index-known :
    (key : String) (v : Item) (cfg : ProjectConfig)
    → is_loaded (set_index key v cfg) ≡ true
    → member key index_keys ≡ true
set_index-known key v cfg h = ground (arith, h)

set_federation-known :
    (key : String) (v : Item) (cfg : ProjectConfig)
    → is_loaded (set_federation key v cfg) ≡ true
    → member key federation_keys ≡ true
set_federation-known key v cfg h = ground (arith, h)

module _ (set : String → Item → ProjectConfig → Outcome) (known : List String)
    (knows : (key : String) (v : Item) (cfg : ProjectConfig)
      → is_loaded (set key v cfg) ≡ true
      → member key known ≡ true) where
  set_key-known :
      (key : Key) (v : Item) (cfg : ProjectConfig)
      → is_loaded (set_key set key v cfg) ≡ true
      → is_known known key ≡ true
  set_key-known (text key) v cfg h = knows key v cfg h
  set_key-known (odd_key comparable) v cfg h = cc

  read_items-known :
      (items : List (Key × Item)) (cfg : ProjectConfig)
      → is_loaded (read_items set items cfg) ≡ true
      → all (is_known known) (keys items) ≡ true
  read_items-known [] cfg h = refl
  read_items-known ((key, v) ∷ items) cfg h = elim (Outcome-cases (set_key set key v cfg)) [
    | inl (r, e) ↦ ground (arith, e, h)
    | inr (c, e) ↦
        ground (arith, e, h, set_key-known key v cfg (ground (arith, e)), read_items-known items c)
  ]

  read_section-known :
      (s : Option Section) (cfg : ProjectConfig)
      → is_loaded (read_section set s cfg) ≡ true
      → only_keys known s ≡ true
  read_section-known none cfg h = refl
  read_section-known (some no_mapping) cfg h = cc
  read_section-known (some (mapping items)) cfg h = read_items-known items cfg h

refusal-none :
    (raw : List (Key × Section))
    → refusal raw ≡ none
    → all (is_known ("index" ∷ "federation" ∷ [])) (keys raw) ≡ true
refusal-none [] h = refl
refusal-none ((key, s) ∷ raw) h = ground (arith, h, refusal-none raw)

-- A document that parses has no unknown section, its sections are mappings, and no section has an
-- unknown key.
pub parse_strict :
    (raw : List (Key × Section)) (cfg : ProjectConfig)
    → parse (sections raw) ≡ loaded cfg
    → (all (is_known ("index" ∷ "federation" ∷ [])) (keys raw) ≡ true)
      × (only_keys index_keys (section_of "index" raw) ≡ true)
      × (only_keys federation_keys (section_of "federation" raw) ≡ true)
unfolding parse
parse_strict raw cfg h = elim (Option-cases (refusal raw)) [
  | inr (e, r) ↦ ground (arith, r, h)
  | inl r ↦ elim (Outcome-cases (read_section set_index (section_of "index" raw) defaults)) [
    | inl (x, e) ↦ ground (arith, r, e, h)
    | inr (c, e) ↦ (
      refusal-none raw r,
      read_section-known set_index index_keys set_index-known (section_of "index" raw) defaults
          (ground (arith, e)),
      read_section-known set_federation federation_keys set_federation-known
          (section_of "federation" raw) c (ground (arith, r, e, h)),
    )
  ]
]
