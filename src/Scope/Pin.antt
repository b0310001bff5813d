-- ===== src/Scope/Pin.antt =====
-- scope.py: what is let through.
use rag_search_engine.Prelude.{
  ◌≡◌, Bool, true, false, ◌&&◌, ◌||◌, some, List, [], ◌∷◌, any, arith, inl, inr, Option-cases,
}
use rag_search_engine.Paths.{FilePath, path_discrete, is_relative_to, is_relative_to_refl}
use rag_search_engine.FileSystem.{FileSystem}
use rag_search_engine.Registry.{Rows, enclosing}
use rag_search_engine.Registry.Enclosing.{enclosing-some}
use rag_search_engine.Federation.Claims.{IsResolved}
use rag_search_engine.Scope.{
  Capabilities, with_roots, branch, pinned, paths_of, enclosing_or, default_root, enforce,
}

-- The client has the roots capability.
abbrev pub has_roots : Capabilities → Bool
has_roots with_roots = true
has_roots _ = false

module _ (fs : FileSystem) (rows : Rows) where
  enclosing-is_relative_to :
      (pin t : FilePath)
      → IsResolved fs pin
      → enclosing fs pin rows ≡ some t
      → is_relative_to pin t ≡ true
  enclosing-is_relative_to pin t r e = ground (arith, r, (enclosing-some fs pin rows t e).0)

  enclosing_or-related :
      (pin t : FilePath)
      → IsResolved fs pin
      → enclosing_or pin (enclosing fs pin rows) ≡ t
      → is_relative_to pin t ≡ true
  enclosing_or-related pin t r e = elim (Option-cases (enclosing fs pin rows)) [
    | inl n ↦ ground (arith, n, e, is_relative_to_refl pin)
    | inr (p, s) ↦ ground (arith, s, e, enclosing-is_relative_to pin p r s)
  ]

  -- Where resolving the first root a second time changes nothing, the root that a call without one
  -- is given is let through: `enforce` does not refuse what `default_root` answers, with the flag
  -- or without.
  pub enforce-default_root :
      (required : Bool) (root : FilePath) (roots : List FilePath) (t : FilePath)
      → IsResolved fs (fs.resolve root)
      → default_root fs (root ∷ roots) rows ≡ some t
      → enforce fs required t (root ∷ roots) ≡ true
  unfolding default_root enforce
  enforce-default_root required root roots t r e =
      ground (arith, enclosing_or-related (fs.resolve root) t r (ground (arith, e)))

-- Under the flag a target is let through exactly if the client speaks the revision that carries
-- roots, has the capability, and answered with a root that contains the target or lies in it.
pub enforce_lem :
    (fs : FileSystem) (era : Bool) (caps : Capabilities) (target : FilePath)
    (answer : List FilePath)
    → enforce fs true target (pinned (branch era caps) answer) ≡ (
        era
        && (has_roots caps
            && any (λ r. is_relative_to target r || is_relative_to r target) (paths_of fs answer)))
unfolding enforce pinned branch
enforce_lem fs era caps target [] = ground arith
enforce_lem fs era caps target (root ∷ roots) = ground arith
