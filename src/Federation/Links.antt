-- ===== src/Federation/Links.antt =====
-- federation.py: the walk finds exactly the member links of the tree.
use rag_search_engine.Prelude.{
  ℕ, zero, suc, ◌≤◌, String, ◌≡◌, refl, ◌≢◌, ◌⊎◌, inl, inr, true, false, none, some, List, [], ◌∷◌,
  ◌++◌, length, In, In-append, In-append_left, In-append_right, member, arith, Bool-cases, of_empty,
  string_discrete,
}
use mathlib.Core.List.{append_assoc}
use rag_search_engine.Paths.{FilePath}
use rag_search_engine.FileSystem.{FileSystem}
use rag_search_engine.Federation.Walk.{
  Node, folder, link, Entries, nil, entry, max_depth, skip_dirs, is_member, Links, node_link,
  own_links, node_below, links_below, walk, links,
}

-- The tree holds, at the path `rel` below the directory, a link that leads to `target`, and no
-- directory on the way nor the link itself has one of the names that are skipped.
pub data Leads (target : FilePath) : Entries → FilePath → Type 0 where
  first :
      {es : Entries} (name : String)
      → member name skip_dirs ≡ false
      → Leads target (entry name (link (some target)) es) (name ∷ [])
  behind :
      {es : Entries} {rel : FilePath} (name : String) (node : Node)
      → Leads target es rel
      → Leads target (entry name node es) rel
  inside :
      {es : Entries} {sub : Entries} {rel : FilePath} (name : String)
      → member name skip_dirs ≡ false
      → Leads target sub rel
      → Leads target (entry name (folder sub) es) (name ∷ rel)

not_here : {target : FilePath} {es : Entries} {rel : FilePath} → Leads target es rel → rel ≢ []
not_here (first name s) = λ e. cc
not_here (behind name node ld) = not_here ld
not_here (inside name s ld) = λ e. cc

module _ (fs : FileSystem) (patterns : List String) (root : FilePath) where
  -- The link of a member that the walk of `levels` levels from `here` has to find.
  pub record IsLinkOf (levels : ℕ) (here : FilePath) (es : Entries) (l : FilePath × FilePath)
      : Type 0 where
    pub rel : FilePath
    pub leads : Leads l.1 es rel
    pub at : l.0 ≡ root ++ (here ++ rel)
    pub passes : is_member fs patterns root (here ++ rel) l.1 ≡ true
    pub shallow : length rel ≤ levels

  node_link_sound :
      (here : FilePath) (name : String) (node : Node) (l : FilePath × FilePath)
      → In l (node_link fs patterns root here name node)
      → (node ≡ link (some l.1))
        × (member name skip_dirs ≡ false)
        × (l.0 ≡ root ++ (here ++ name ∷ []))
        × (is_member fs patterns root (here ++ name ∷ []) l.1 ≡ true)
  node_link_sound here name (folder sub) l m = elim m [ ]
  node_link_sound here name (link none) l m = ground arith
  node_link_sound here name (link (some target)) l m = ground arith

  leads_first :
      (name : String) (node : Node) (es : Entries) (target : FilePath)
      → node ≡ link (some target)
      → member name skip_dirs ≡ false
      → Leads target (entry name node es) (name ∷ [])
  leads_first name node es target e s = rw e (first name s)

  -- A later entry of the directory does not hide a link.
  later :
      (levels : ℕ) (dir : FilePath) (name : String) (node : Node) (es : Entries)
      (l : FilePath × FilePath)
      → IsLinkOf levels dir es l
      → IsLinkOf levels dir (entry name node es) l
  later levels dir name node es l r = record {
    rel = r.rel;
    leads = behind name node r.leads;
    at = r.at;
    passes = r.passes;
    shallow = r.shallow;
  }

  own_links_sound :
      (levels : ℕ) (dir : FilePath) (es : Entries) (l : FilePath × FilePath)
      → In l (own_links fs patterns root dir es)
      → IsLinkOf (suc levels) dir es l
  own_links_sound levels dir nil l m = elim m [ ]
  own_links_sound levels dir (entry name node es) l m =
      elim (In-append l (node_link fs patterns root dir name node) _ m) [
        | inl own ↦
            let (e, s, a, p) = node_link_sound dir name node l own in
            record {
              rel = name ∷ [];
              leads = leads_first name node es l.1 e s;
              at = a;
              passes = p;
              shallow = omega arith;
            }
        | inr more ↦ later (suc levels) dir name node es l (own_links_sound levels dir es l more)
      ]

  abbrev IsSound : ℕ → (FilePath → Entries → Links) → Type 0
  IsSound levels walk_in =
      (dir : FilePath) (es : Entries) (l : FilePath × FilePath)
      → In l (walk_in dir es)
      → IsLinkOf levels dir es l

  deeper :
      (levels : ℕ) (dir : FilePath) (name : String) (sub es : Entries) (l : FilePath × FilePath)
      → member name skip_dirs ≡ false
      → IsLinkOf levels (dir ++ name ∷ []) sub l
      → IsLinkOf (suc levels) dir (entry name (folder sub) es) l
  deeper levels dir name sub es l s r =
      let e : (dir ++ name ∷ []) ++ r.rel ≡ dir ++ name ∷ r.rel =
        append_assoc dir (name ∷ []) r.rel in
      record {
        rel = name ∷ r.rel;
        leads = inside name s r.leads;
        at = rw (← e) r.at;
        passes = rw (← e) r.passes;
        shallow = let h = r.shallow in omega arith;
      }

  node_below_sound :
      (levels : ℕ) (walk_in : FilePath → Entries → Links) (dir : FilePath) (name : String)
      (node : Node) (es : Entries) (l : FilePath × FilePath)
      → IsSound levels walk_in
      → In l (node_below fs patterns root walk_in dir name node)
      → IsLinkOf (suc levels) dir (entry name node es) l
  node_below_sound levels walk_in dir name (link target) es l sound m = elim m [ ]
  node_below_sound levels walk_in dir name (folder sub) es l sound m =
      elim (Bool-cases (member name skip_dirs)) [
        | inl s ↦ of_empty (rw s at m)
        | inr s ↦ deeper levels dir name sub es l s (sound (dir ++ name ∷ []) sub l (rw s at m))
      ]

  links_below_sound :
      (levels : ℕ) (walk_in : FilePath → Entries → Links) (dir : FilePath) (es : Entries)
      (l : FilePath × FilePath)
      → IsSound levels walk_in
      → In l (links_below fs patterns root walk_in dir es)
      → IsLinkOf (suc levels) dir es l
  links_below_sound levels walk_in dir nil l sound m = elim m [ ]
  links_below_sound levels walk_in dir (entry name node es) l sound m =
      elim (In-append l (node_below fs patterns root walk_in dir name node) _ m) [
        | inl own ↦ node_below_sound levels walk_in dir name node es l sound own
        | inr more ↦
            later (suc levels) dir name node es l
              (links_below_sound levels walk_in dir es l sound more)
      ]

  walk-IsSound : (levels : ℕ) → IsSound levels (walk fs patterns root levels)
  walk-IsSound zero dir es l m = elim m [ ]
  walk-IsSound (suc levels) dir es l m =
      elim (In-append l (own_links fs patterns root dir es) _ m) [
        | inl own ↦ own_links_sound levels dir es l own
        | inr below ↦
            links_below_sound levels (walk fs patterns root levels) dir es l (walk-IsSound levels)
              below
      ]

  place : FilePath → FilePath → FilePath → FilePath × FilePath
  place dir rel target = (root ++ (dir ++ rel), target)

  abbrev IsComplete : ℕ → (FilePath → Entries → Links) → Type 0
  IsComplete levels walk_in =
      (dir : FilePath) (es : Entries) (rel target : FilePath)
      → Leads target es rel
      → length rel ≤ levels
      → is_member fs patterns root (dir ++ rel) target ≡ true
      → In (place dir rel target) (walk_in dir es)

  node_link_complete :
      (dir : FilePath) (name : String) (target : FilePath)
      → member name skip_dirs ≡ false
      → is_member fs patterns root (dir ++ name ∷ []) target ≡ true
      → In (place dir (name ∷ []) target) (node_link fs patterns root dir name (link (some target)))
  unfolding place
  node_link_complete dir name target s p = rw (s, p) (inl refl)

  node_below_complete :
      (levels : ℕ) (walk_in : FilePath → Entries → Links) (dir : FilePath) (name : String)
      (sub : Entries) (rel target : FilePath)
      → IsComplete levels walk_in
      → member name skip_dirs ≡ false
      → Leads target sub rel
      → length rel ≤ levels
      → is_member fs patterns root (dir ++ name ∷ rel) target ≡ true
      → In
          (place dir (name ∷ rel) target)
          (node_below fs patterns root walk_in dir name (folder sub))
  unfolding place
  node_below_complete levels walk_in dir name sub rel target ih s ld h p =
      let e : (dir ++ name ∷ []) ++ rel ≡ dir ++ name ∷ rel = append_assoc dir (name ∷ []) rel in
      rw (s, ← e) (ih (dir ++ name ∷ []) sub rel target ld h (rw e p))

  level_complete :
      (levels : ℕ) (walk_in : FilePath → Entries → Links) (dir : FilePath) {target : FilePath}
      {es : Entries} {rel : FilePath}
      → IsComplete levels walk_in
      → Leads target es rel
      → length rel ≤ suc levels
      → is_member fs patterns root (dir ++ rel) target ≡ true
      → In (place dir rel target) (own_links fs patterns root dir es)
        ⊎ In (place dir rel target) (links_below fs patterns root walk_in dir es)
  level_complete levels walk_in dir {target} ih (first name s) h p =
      inl (In-append_left _ _ _ (node_link_complete dir name target s p))
  level_complete levels walk_in dir ih (behind name node ld) h p =
      elim (level_complete levels walk_in dir ih ld h p) [
        | inl own ↦ inl (In-append_right _ (node_link fs patterns root dir name node) _ own)
        | inr below ↦
            inr (In-append_right _ (node_below fs patterns root walk_in dir name node) _ below)
      ]
  level_complete levels walk_in dir {target} ih (inside {sub = sub} {rel = rel} name s ld) h p =
      inr (
        In-append_left _ _ _
          (node_below_complete levels walk_in dir name sub rel target ih s ld (omega arith) p))

  walk-IsComplete : (levels : ℕ) → IsComplete levels (walk fs patterns root levels)
  walk-IsComplete zero dir es (x ∷ rel) target ld h p = absurd (omega arith)
  walk-IsComplete zero dir es [] target ld h p = absurd (not_here ld refl)
  walk-IsComplete (suc levels) dir es rel target ld h p =
      elim (level_complete levels (walk fs patterns root levels) dir (walk-IsComplete levels) ld h
        p) [
          | inl own ↦ In-append_left _ _ _ own
          | inr below ↦ In-append_right _ (own_links fs patterns root dir es) _ below
        ]

  -- Every link that the walk of a root reports stands in its tree, at most `max_depth` levels down,
  -- under no name that is skipped, and passes the tests: it leads outside the root, to a project,
  -- and no exclude denies it.
  pub links_sound :
      (es : Entries) (l : FilePath × FilePath)
      → In l (links fs patterns root es)
      → IsLinkOf max_depth [] es l
  unfolding links
  links_sound es l m = walk-IsSound max_depth [] es l m

  -- And no such link is missed.
  pub links_complete :
      (es : Entries) (rel target : FilePath)
      → Leads target es rel
      → length rel ≤ max_depth
      → is_member fs patterns root rel target ≡ true
      → In (root ++ rel, target) (links fs patterns root es)
  unfolding links place
  links_complete es rel target ld h p = walk-IsComplete max_depth [] es rel target ld h p
