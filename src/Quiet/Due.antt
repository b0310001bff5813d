-- ===== src/Quiet/Due.antt =====
-- quiet.py: `due` takes the projects whose countdown has expired, and no other.
use rag_search_engine.Prelude.{
  ℕ, ◌≡◌, refl, Bool, true, false, ◌&&◌, Option, none, some, List, [], ◌∷◌, any, has, member,
  distinct, lookup, erase, filter, keys, leb, ◌==◌, if◌then◌else◌, inl, inr, Option-cases, arith,
  lookup-erase,
}
use rag_search_engine.Paths.{FilePath, path_discrete}
use rag_search_engine.Quiet.{HeldJob, Held, Taken, taken, release, take_each, due}

-- A job of this project was taken.
abbrev pub took : FilePath → List Taken → Bool
took p ts = any (λ t. t.project == p) ts

abbrev pub expired : ℕ → Option HeldJob → Bool
expired now none = false
expired now (some h) = leb h.ready_at now

pub release-none :
    (k : FilePath) (held : Held) → lookup k held ≡ none → release k held ≡ (none, held)
unfolding release
release-none k held e = rw (e, release)

pub release-some :
    (k : FilePath) (held : Held) (x : HeldJob)
    → lookup k held ≡ some x
    → release k held ≡ (some (taken k x), erase k held)
unfolding release
release-some k held x e = rw (e, release)

took-take_each :
    (p : FilePath) (ks : List FilePath) (held : Held)
    → took p (take_each ks held).0 ≡ (member p ks && has (lookup p held))
took-take_each p [] held = refl
took-take_each p (k ∷ ks) held = elim (Option-cases (lookup k held)) [
  | inl e ↦
      let r = release-none k held e in
      rw (r, take_each) (ground (arith, e, took-take_each p ks held))
  | inr (x, e) ↦
      let r = release-some k held x e in
      rw (r, take_each)
        (ground (arith, e, lookup-erase k p held, took-take_each p ks (erase k held)))
]

lookup-take_each :
    (p : FilePath) (ks : List FilePath) (held : Held)
    → lookup p (take_each ks held).1 ≡ (if member p ks then none else lookup p held)
lookup-take_each p [] held = refl
lookup-take_each p (k ∷ ks) held = elim (Option-cases (lookup k held)) [
  | inl e ↦
      let r = release-none k held e in
      rw (r, take_each) (ground (arith, e, lookup-take_each p ks held))
  | inr (x, e) ↦
      let r = release-some k held x e in
      rw (r, take_each)
        (ground (arith, e, lookup-erase k p held, lookup-take_each p ks (erase k held)))
]

absent-filter :
    (now : ℕ) (p : FilePath) (held : Held)
    → member p (keys held) ≡ false
    → (member p (keys (filter (λ e. leb e.1.ready_at now) held)) ≡ false) × (lookup p held ≡ none)
absent-filter now p [] m = (refl, refl)
absent-filter now p ((k, h) ∷ held) m = ground (arith, m, absent-filter now p held)

ready-expired :
    (now : ℕ) (p : FilePath) (held : Held)
    → distinct (keys held) ≡ true
    → member p (keys (filter (λ e. leb e.1.ready_at now) held)) ≡ expired now (lookup p held)
ready-expired now p [] d = refl
ready-expired now p ((k, h) ∷ held) d =
    ground (arith, d, ready-expired now p held, absent-filter now p held)

-- With one entry for a project at most, a project's job is taken exactly if its countdown has
-- expired; then nothing is held for it any more, and else its entry is as it was.
pub due-takes :
    (now : ℕ) (p : FilePath) (held : Held)
    → distinct (keys held) ≡ true
    → (took p (due now held).0 ≡ expired now (lookup p held))
      × (lookup p (due now held).1 ≡ (if expired now (lookup p held) then none else lookup p held))
unfolding due
due-takes now p held d =
    let ready = keys (filter (λ e. leb e.1.ready_at now) held) in
    ground (
      arith,
      took-take_each p ready held,
      lookup-take_each p ready held,
      ready-expired now p held d,
    )
