-- ===== src/Health/Pages.antt =====
-- health.py: which failures page, over two checks one after the other.
use rag_search_engine.Prelude.{
  ℕ, ◌≡◌, refl, String, Bool, true, false, ◌&&◌, ◌||◌, Option, none, some, List, [], ◌∷◌, member,
  filter, dedup, arith, string_discrete, member-sort, member-dedup, member-filter,
}
use rag_search_engine.Paths.{text_le}
use rag_search_engine.Health.{
  Body, History, Reply, pages, is_ok, reply_of, previous, not_draining, stalled, proven,
  failing_now, stuck_now, check,
}

-- The failures that a reply pages for.
abbrev pub paged : Reply → List String
paged (pages is) = is
paged _ = []

module _ (stuck : ℕ) (digits : ℕ → String) where
  member-proven :
      (i : String) (body : Body) (was : History)
      → member i (proven stuck digits body was)
        ≡ (stalled stuck digits body was && member i (not_draining ∷ []))
  member-proven i body was = ground arith

  member-stuck_now :
      (i : String) (body : Body) (was : History)
      → member i (stuck_now stuck digits body was) ≡ (
          (member i was.failing || member i (proven stuck digits body was))
          && member i (failing_now stuck digits body was))
  unfolding stuck_now
  member-stuck_now i body was =
      let q : String → Bool =
        λ x. member x was.failing || member x (proven stuck digits body was) in
      ground (
        arith,
        member-sort text_le i (dedup (filter q (failing_now stuck digits body was))),
        member-dedup i (filter q (failing_now stuck digits body was)),
        member-filter i q (failing_now stuck digits body was),
      )

  paged-reply_of : (xs ys : List String) → paged (reply_of xs ys) ≡ xs
  paged-reply_of [] [] = refl
  paged-reply_of [] (y ∷ ys) = refl
  paged-reply_of (x ∷ xs) ys = refl

  -- Of two checks one after the other that both get an answer, the second pages for exactly what
  -- fails at it and failed at the first, and for a queue that is deep and no shallower than at the
  -- first.
  pub paged-check :
      (i : String) (first second : Body) (file : Option History)
      → member i
          (paged (check stuck digits (some second) (check stuck digits (some first) file).1).0)
        ≡ ((member i (failing_now stuck digits first (previous file))
              || (stalled stuck digits second (record {
                failing = failing_now stuck digits first (previous file);
                queue_depth = some first.queue_depth;
              })
                  && member i (not_draining ∷ [])))
            && member i (
                failing_now stuck digits second (record {
                  failing = failing_now stuck digits first (previous file);
                  queue_depth = some first.queue_depth;
                })))
  unfolding check
  paged-check i first second file =
      let was : History = record {
        failing = failing_now stuck digits first (previous file);
        queue_depth = some first.queue_depth;
      } in
      ground (
        arith,
        paged-reply_of (stuck_now stuck digits second was) (failing_now stuck digits second was),
        member-stuck_now i second was,
        member-proven i second was,
      )

  filter_nothing :
      (q : String → Bool) (xs : List String) → ((x : String) → q x ≡ false) → filter q xs ≡ []
  filter_nothing q [] h = refl
  filter_nothing q (x ∷ xs) h = ground (arith, h x, filter_nothing q xs h)

  is_ok-reply_of : (ys : List String) → is_ok (reply_of [] ys) ≡ true
  is_ok-reply_of [] = refl
  is_ok-reply_of (y ∷ ys) = refl

  nothing_stuck :
      (body : Body) → stuck_now stuck digits body (record { failing = []; queue_depth = none }) ≡ []
  unfolding stuck_now
  nothing_stuck body =
      let was : History = record { failing = []; queue_depth = none } in
      let n =
        filter_nothing (λ i. member i was.failing || member i (proven stuck digits body was))
          (failing_now stuck digits body was) (λ i. ground (arith, member-proven i body was)) in
      rw n

  -- A check without a history that can be read never pages, whatever fails.
  pub is_ok-check : (body : Body) → is_ok (check stuck digits (some body) none).0 ≡ true
  unfolding check
  is_ok-check body =
      let n = nothing_stuck body in
      let was : History = record { failing = []; queue_depth = none } in
      rw n (is_ok-reply_of (failing_now stuck digits body was))
