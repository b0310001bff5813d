-- ===== src/Scope.antt =====
-- scope.py: the caller's workspace as the boundary on which root may be named.
pub mod Pin
use rag_search_engine.Prelude.{
  Bool, true, false, not, ◌&&◌, ◌||◌, Option, none, some, List, [], ◌∷◌, ◌++◌, map, any, ◌==◌,
  if◌then◌else◌,
}
use rag_search_engine.Paths.{FilePath, path_discrete, is_relative_to}
use rag_search_engine.FileSystem.{FileSystem}
use rag_search_engine.Entry.{is_empty}
use rag_search_engine.Registry.{Rows, enclosing}

-- The branch that the pin takes: the revision carries roots or not, and the capabilities are
-- absent, there without roots, or there with them.
pub data Capabilities : Type 0 where
  no_capabilities without_roots with_roots : Capabilities

pub data Branch : Type 0 where
  legacy_path below_era no_caps asked : Branch

unfoldable pub branch : Bool → Capabilities → Branch
branch false no_capabilities = legacy_path
branch false _ = below_era
branch true with_roots = asked
branch true _ = no_caps

-- The roots of a call: what the client answers, where it was asked.
unfoldable pub pinned : Branch → List FilePath → List FilePath
pinned asked answer = answer
pinned _ answer = []

-- The roots as registry keys.
abbrev pub paths_of : FileSystem → List FilePath → List FilePath
paths_of fs roots = map fs.resolve roots

abbrev pub enclosing_or : FilePath → Option FilePath → FilePath
enclosing_or pin none = pin
enclosing_or pin (some root) = root

-- `none` is the `ScopeError`.
unfoldable pub default_root : FileSystem → List FilePath → Rows → Option FilePath
default_root fs [] rows = none
default_root fs (root ∷ roots) rows =
    let pin = fs.resolve root in some (enclosing_or pin (enclosing fs pin rows))

-- Whether the search ran in a project other than the checkout that the caller is in.
unfoldable pub has_note : FileSystem → FilePath → List FilePath → Bool
has_note fs target [] = false
has_note fs target (root ∷ roots) =
    let pin = fs.resolve root in
    not (pin == target) && is_relative_to pin target && fs.exists (pin ++ ".git" ∷ [])

-- The two refusals: false is the `ScopeError`. `required` is `REQUIRE_CLIENT_ROOTS`.
abbrev pub require_pin : Bool → List FilePath → Bool
require_pin required roots = not (is_empty roots && required)

unfoldable pub enforce : FileSystem → Bool → FilePath → List FilePath → Bool
enforce fs required target roots =
    let rs = paths_of fs roots in
    require_pin required rs
    && (is_empty rs || any (λ r. is_relative_to target r || is_relative_to r target) rs)
