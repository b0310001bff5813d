-- ===== src/Reclaim/Prunable.antt =====
-- disk.py: no verdict of the shape that wiped the fleet, and no store of a row.
use rag_search_engine.Prelude.{
  ◌*◌, ◌≤◌, ◌≡◌, refl, Bool, true, false, not, ◌&&◌, ◌||◌, some, List, [], ◌∷◌, inl, inr, length,
  member, filter, arith, Bool-cases, member-filter, member-sort,
}
use rag_search_engine.Paths.{FilePath, path_discrete, path_le}
use rag_search_engine.Entry.{is_empty}
use rag_search_engine.Registry.{Rows}
use rag_search_engine.Reclaim.{Tree, claimed_stores, unclaimed, refuse_on_shape, prunable_stores}

is_empty_of_member : (p : FilePath) (xs : List FilePath) → member p xs ≡ true → is_empty xs ≡ false
is_empty_of_member p [] h = cc
is_empty_of_member p (x ∷ xs) h = refl

module _ (t : Tree) (rows : Rows) where
  member-unclaimed :
      (p : FilePath)
      → member p (unclaimed t (claimed_stores t rows))
        ≡ (not (member p (claimed_stores t rows)) && member p t.all_stores)
  member-unclaimed p =
      let q : FilePath → Bool = λ x. not (member x (claimed_stores t rows)) in
      ground (arith, member-sort path_le p (filter q t.all_stores), member-filter p q t.all_stores)

  member-idle :
      (p : FilePath)
      → member p (filter t.idle_for (unclaimed t (claimed_stores t rows)))
        ≡ (t.idle_for p && (not (member p (claimed_stores t rows)) && member p t.all_stores))
  member-idle p =
      ground (
        arith,
        member-filter p t.idle_for (unclaimed t (claimed_stores t rows)),
        member-unclaimed p,
      )

  member-busy :
      (p : FilePath)
      → member p (
          filter
            (λ x. not (member x (filter t.idle_for (unclaimed t (claimed_stores t rows)))))
            (unclaimed t (claimed_stores t rows)))
        ≡ (not (t.idle_for p) && (not (member p (claimed_stores t rows)) && member p t.all_stores))
  member-busy p =
      let found = unclaimed t (claimed_stores t rows) in
      ground (
        arith,
        member-filter p (λ x. not (member x (filter t.idle_for found))) found,
        member-idle p,
        member-unclaimed p,
      )

module _ (t : Tree) (rows : Rows) (force : Bool) (idle busy : List FilePath) where
  -- Where `prunable_stores` answers, each store is listed as idle exactly if it is idle and no row
  -- claims it, and as busy exactly if it is not idle and no row claims it. If a store is listed,
  -- there is a row; an empty registry gets an answer only where no store is listed. Without force
  -- at most half of the stores have no row.
  pub prunable_stores_lem :
      prunable_stores t force rows ≡ some (idle, busy)
      → ((p : FilePath)
          → (member p idle
              ≡ (t.idle_for p && (not (member p (claimed_stores t rows)) && member p t.all_stores)))
            × (member p busy ≡ (
                not (t.idle_for p)
                && (not (member p (claimed_stores t rows)) && member p t.all_stores))))
        × ((p : FilePath) → (member p idle || member p busy) ≡ true → 1 ≤ length rows)
        × (force ≡ false → length (unclaimed t (claimed_stores t rows)) * 2 ≤ length t.all_stores)
  unfolding prunable_stores refuse_on_shape
  prunable_stores_lem h =
      let found = unclaimed t (claimed_stores t rows) in
      let idles = filter t.idle_for found in
      elim (Bool-cases (refuse_on_shape t found (length rows) force)) [
        | inl r ↦ ground (arith, r, h)
        | inr r ↦
            let i : idle ≡ idles = ground (arith, r, h) in
            let b : busy ≡ filter (λ p. not (member p idles)) found = ground (arith, r, h) in
            (
              λ p. (rw i (member-idle t rows p), rw b (member-busy t rows p)),
              λ p m.
                  let q : member p found ≡ true = ground (
                    arith,
                    m,
                    i,
                    b,
                    member-filter p t.idle_for found,
                    member-filter p (λ x. not (member x idles)) found,
                  ) in
                  ground (arith, r, is_empty_of_member p found q),
              λ n. ground (arith, r, n),
            )
      ]
