-- ===== src/Examples/Members.antt =====
-- The theorems on a root and its members, applied.
use rag_search_engine.Prelude.{
  String, ◌≡◌, ◌≢◌, refl, arith, true, false, ◌||◌, none, some, List, [], ◌∷◌, lookup, member, In,
  any, distinct, ◌==◌, if◌then◌else◌, string_discrete,
}
use rag_search_engine.Paths.{FilePath, path_discrete}
use rag_search_engine.Registry.{Rows, get, claim, enabled_projects}
use rag_search_engine.Registry.Lookups.{left_of}
use rag_search_engine.Federation.{
  Disk, excluded_members, holds, discover, register, release_gone, unregister, unit, roots_of,
  sweep, excludes,
}
use rag_search_engine.Federation.Walk.{
  nil, max_depth, is_member, links, looks_like_a_project, excluded,
}
use rag_search_engine.Federation.Links.{
  Leads, first, behind, inside, IsLinkOf, links_sound, links_complete,
}
use rag_search_engine.Federation.Claims.{is_member_row, is_root_row}
use rag_search_engine.Federation.Release.{freed, release_gone_lem, unregister_lem}
use rag_search_engine.Federation.Register.{register_lem}
use rag_search_engine.Federation.Sweep.{Holds, sweep_keeps_claims}
use rag_search_engine.Federation.Unit.{belongs, reached_by, unit_lem}
use rag_search_engine.Examples.{app, lib, files, tree, disk, rows, rows-IsValid}

leads_lib : Leads lib tree ("deps" ∷ "lib" ∷ [])
unfolding string_discrete
leads_lib = behind "src" _ (inside "deps" refl (first "lib" refl))

lib-is_member : is_member files [] app ("deps" ∷ "lib" ∷ []) lib ≡ true
unfolding is_member looks_like_a_project excluded string_discrete
lib-is_member = refl

links_complete_example : In ("home" ∷ "app" ∷ "deps" ∷ "lib" ∷ [], lib) (links files [] app tree)
links_complete_example =
    links_complete files [] app tree ("deps" ∷ "lib" ∷ []) lib leads_lib (omega arith) lib-is_member

links_sound_example :
    IsLinkOf files [] app max_depth [] tree ("home" ∷ "app" ∷ "deps" ∷ "lib" ∷ [], lib)
links_sound_example =
    links_sound files [] app tree ("home" ∷ "app" ∷ "deps" ∷ "lib" ∷ [], lib)
      (links_complete files [] app tree ("deps" ∷ "lib" ∷ []) lib leads_lib (omega arith)
        lib-is_member)

release_gone_lem_example :
    (out : Rows × List FilePath) × (release_gone disk app rows ≡ some out)
    × ((k : FilePath)
        → lookup k out.0 ≡ (
            if member k (discover disk app [])
            then lookup k rows
            else freed files app refl (lookup k rows)))
unfolding path_discrete claim
release_gone_lem_example =
    release_gone_lem disk app refl [] rows refl rows-IsValid.one_row (refl, (refl, tt))

unregister_lem_example :
    (holds app (lookup lib (unregister files app rows).0) ≡ false)
    × (lookup lib (unregister files app rows).0 ≡ (
        if app == lib
        then left_of files app true none (freed files app refl (lookup lib rows))
        else freed files app refl (lookup lib rows)))
unfolding path_discrete claim
unregister_lem_example =
    unregister_lem files app refl rows lib rows-IsValid.one_row (refl, (refl, tt))

register_lem_example :
    (out : Rows × List FilePath) × (register disk app [] ≡ some out)
    × (out.1 ≡ discover disk app [])
    × (is_root_row (lookup app out.0) ≡ true)
    × ((k : FilePath)
        → k ≢ app
        → is_member_row app (lookup k out.0) ≡ (member k out.1 || is_member_row app (lookup k [])))
register_lem_example = register_lem disk app refl [] [] (λ rel target ld. refl) refl

unit_lem_example :
    (distinct (unit files lib rows) ≡ true)
    × ((p : FilePath)
        → member p (unit files lib rows) ≡ (
            belongs files rows rows-IsValid lib p
            || any
                (λ q. reached_by files rows rows-IsValid p (get files q rows))
                (roots_of files (get files lib rows))))
unit_lem_example = unit_lem files rows rows-IsValid (λ q. refl) lib

-- The disk after the link was removed.
abbrev bare : Disk
bare = record { fs = files; tree = λ p. nil; config = λ p. excludes [] }

nothing_denied :
    (patterns : List String)
    → bare.config app ≡ excludes patterns
    → member lib (excluded_members bare app patterns) ≡ false
unfolding excluded_members
nothing_denied [] c = refl
nothing_denied (p ∷ ps) c = cc

sweep_keeps_claims_example : Holds files app lib (sweep bare 9 rows).0
unfolding path_discrete claim enabled_projects
sweep_keeps_claims_example =
    sweep_keeps_claims bare (λ root rel target ld. refl) app lib nothing_denied 9 rows refl
