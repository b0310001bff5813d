-- ===== src/IndexProject/Batches.antt =====
-- indexwrite.py: `_write_files`, which commits every 64 files, against writing one by one.
use rag_search_engine.Prelude.{
  ℕ, suc, ◌+◌, ◌*◌, ◌/◌, ◌<◌, ◌≡◌, ◌⊎◌, refl, sym, ap, ◌∙◌, Bool, true, false, List, [], ◌∷◌, ◌++◌,
  length, take, leb, arith, Bool-cases, inl, inr, length-append,
}
use rag_search_engine.Discover.{FileMeta}
use rag_search_engine.Store.{Store}
use rag_search_engine.Pass.{
  Engine, Prepared, Preparation, raises, no_chunks, ready, Writer, batch_files, prepare, write_one,
  write_each, flushed, put, write_from, write_files,
}

append_assoc : {A : Type 0} (xs ys zs : List A) → (xs ++ ys) ++ zs ≡ xs ++ (ys ++ zs)
append_assoc [] ys zs = refl
append_assoc (x ∷ xs) ys zs = rw (append_assoc xs ys zs) refl

append-nil : {A : Type 0} (xs : List A) → xs ++ [] ≡ xs
append-nil [] = refl
append-nil (x ∷ xs) = rw (append-nil xs) refl

take-append :
    {A : Type 0} (n : ℕ) (xs ys : List A) → take (length xs + n) (xs ++ ys) ≡ xs ++ take n ys
take-append n [] ys = let e : 0 + n ≡ n = omega arith in rw e refl
take-append n (x ∷ xs) ys =
    let e : suc (length xs) + n ≡ suc (length xs + n) = omega arith in
    rw e (rw (take-append n xs ys) refl)

Preparation-split :
    (o : Preparation) → (o ≡ raises) ⊎ ((o ≡ no_chunks) ⊎ ((p : Prepared) × (o ≡ ready p)))
Preparation-split raises = inl refl
Preparation-split no_chunks = inr (inl refl)
Preparation-split (ready p) = inr (inr (p, refl))

-- Of `k` files that got ready, those in full batches.
abbrev pub in_batches : ℕ → ℕ
in_batches k = batch_files * (k / batch_files)

-- What is written of the files that got ready.
abbrev pub kept_of : Bool → List Prepared → List Prepared
kept_of true ps = ps
kept_of false ps = take (in_batches (length ps)) ps

more_batches : (k : ℕ) → in_batches (batch_files + k) ≡ batch_files + in_batches k
more_batches k = omega arith

module _ (engine : Engine) where
  -- The files that get ready before one raises, and whether none does.
  abbrev pub ready_files : List FileMeta → List Prepared × Bool
  ready_files [] = ([], true)
  ready_files (m ∷ metas) = elim (prepare engine m) [
    | raises ↦ ([], false)
    | no_chunks ↦ ready_files metas
    | ready p ↦ (let (ps, done) = ready_files metas in (p ∷ ps, done))
  ]

  pub write_each-append :
      (ps qs : List Prepared) (s : Store)
      → write_each engine (ps ++ qs) s ≡ write_each engine qs (write_each engine ps s)
  write_each-append [] qs s = refl
  write_each-append (p ∷ ps) qs s = write_each-append ps qs (write_one engine p s)

  kept_of-full :
      (done : Bool) (ps qs : List Prepared) (s : Store)
      → length ps ≡ batch_files
      → write_each engine (kept_of done qs) (write_each engine ps s)
        ≡ write_each engine (kept_of done (ps ++ qs)) s
  kept_of-full true ps qs s e = sym (write_each-append ps qs s)
  kept_of-full false ps qs s e =
      let n : in_batches (length (ps ++ qs)) ≡ length ps + in_batches (length qs) =
        omega (arith, e, length-append ps qs, more_batches (length qs)) in
      rw (n, take-append (in_batches (length qs)) ps qs)
        (sym (write_each-append ps (take (in_batches (length qs)) qs) s))

  flushed-store :
      (ps : List Prepared) (w : Writer) → (flushed engine ps w).store ≡ write_each engine ps w.store
  flushed-store [] w = refl
  flushed-store (p ∷ ps) w = refl

  flushed-written :
      (ps : List Prepared) (w : Writer) → (flushed engine ps w).written ≡ w.written + length ps
  flushed-written [] w = omega arith
  flushed-written (p ∷ ps) w = refl

  -- A full batch is written out.
  batch_of : List Prepared → Writer → Writer
  batch_of ps w = record {
    store = write_each engine ps w.store;
    committed = write_each engine ps w.store ∷ w.committed;
    pending = [];
    written = w.written + length ps;
  }

  flushed-batch :
      (ps : List Prepared) (p : Prepared) (w : Writer)
      → flushed engine (ps ++ p ∷ []) w ≡ batch_of (ps ++ p ∷ []) w
  unfolding batch_of
  flushed-batch [] p w = refl
  flushed-batch (x ∷ ps) p w = refl

  put-full :
      (p : Prepared) (w : Writer)
      → leb batch_files (length (w.pending ++ p ∷ [])) ≡ true
      → put engine p w ≡ batch_of (w.pending ++ p ∷ []) w
  unfolding batch_of
  put-full p w h = rw h (flushed-batch w.pending p (record w { pending = w.pending ++ p ∷ [] }))

  put-room :
      (p : Prepared) (w : Writer)
      → leb batch_files (length (w.pending ++ p ∷ [])) ≡ false
      → put engine p w ≡ record w { pending = w.pending ++ p ∷ [] }
  put-room p w h = rw h refl

  write_from-raises :
      (m : FileMeta) (metas : List FileMeta) (w : Writer)
      → prepare engine m ≡ raises
      → write_from engine (m ∷ metas) w ≡ (w, false)
  write_from-raises m metas w e = rw (e, write_from) refl

  write_from-no_chunks :
      (m : FileMeta) (metas : List FileMeta) (w : Writer)
      → prepare engine m ≡ no_chunks
      → write_from engine (m ∷ metas) w ≡ write_from engine metas w
  write_from-no_chunks m metas w e = rw (e, write_from) refl

  write_from-ready :
      (m : FileMeta) (metas : List FileMeta) (w : Writer) (p : Prepared)
      → prepare engine m ≡ ready p
      → write_from engine (m ∷ metas) w ≡ write_from engine metas (put engine p w)
  write_from-ready m metas w p e = rw (e, write_from) refl

  Preparation-cases :
      (m : FileMeta)
      → (prepare engine m ≡ raises)
        ⊎ ((prepare engine m ≡ no_chunks) ⊎ ((p : Prepared) × (prepare engine m ≡ ready p)))
  Preparation-cases m = Preparation-split (prepare engine m)

  -- The loop from a writer with less than a batch pending.
  IsBatched : List FileMeta → Writer → Type 0
  IsBatched metas w =
      ((write_from engine metas w).1 ≡ (ready_files metas).1)
      × ((write_from engine metas w).0.store
          ≡ write_each engine (kept_of (ready_files metas).1 (w.pending ++ (ready_files metas).0))
              w.store)

  IsBatched-same :
      (metas : List FileMeta) (v w : Writer) → v ≡ w → IsBatched metas v → IsBatched metas w
  IsBatched-same metas v w e h = rw (← e) h

  ready_files-raises :
      (m : FileMeta) (metas : List FileMeta)
      → prepare engine m ≡ raises
      → ready_files (m ∷ metas) ≡ ([], false)
  ready_files-raises m metas e = rw (e, ready_files) refl

  ready_files-no_chunks :
      (m : FileMeta) (metas : List FileMeta)
      → prepare engine m ≡ no_chunks
      → ready_files (m ∷ metas) ≡ ready_files metas
  ready_files-no_chunks m metas e = rw (e, ready_files) refl

  pub ready_files-ready :
      (m : FileMeta) (metas : List FileMeta) (p : Prepared)
      → prepare engine m ≡ ready p
      → ready_files (m ∷ metas) ≡ (p ∷ (ready_files metas).0, (ready_files metas).1)
  ready_files-ready m metas p e = rw (e, ready_files) refl

  IsBatched-put :
      (metas : List FileMeta) (p : Prepared) (w : Writer)
      → length w.pending < batch_files
      → IsBatched metas (put engine p w)
      → ((write_from engine metas (put engine p w)).1 ≡ (ready_files metas).1)
        × ((write_from engine metas (put engine p w)).0.store
            ≡ write_each engine
                (kept_of (ready_files metas).1 (w.pending ++ (p ∷ (ready_files metas).0)))
                w.store)
  unfolding IsBatched batch_of
  IsBatched-put metas p w l h =
      let rs = (ready_files metas).0 in
      let a = append_assoc w.pending (p ∷ []) rs in
      let n = length-append w.pending (p ∷ []) in
      elim (Bool-cases (leb batch_files (length (w.pending ++ p ∷ [])))) [
        | inl t ↦
            let e : length (w.pending ++ p ∷ []) ≡ batch_files = ground (arith, l, t, n) in
            let h' : IsBatched metas (batch_of (w.pending ++ p ∷ []) w) =
              IsBatched-same metas (put engine p w) (batch_of (w.pending ++ p ∷ []) w)
                (put-full p w t) h in
            rw (put-full p w t) (
              h'.0,
              h'.1
                  ∙ kept_of-full (ready_files metas).1 (w.pending ++ p ∷ []) rs w.store e
                  ∙ ap (λ l. write_each engine (kept_of (ready_files metas).1 l) w.store) a,
            )
        | inr f ↦
            let w' = record w { pending = w.pending ++ p ∷ [] } in
            let h' : IsBatched metas w' =
              IsBatched-same metas (put engine p w) w' (put-room p w f) h in
            rw (put-room p w f)
              (h'.0, h'.1 ∙ ap (λ l. write_each engine (kept_of (ready_files metas).1 l) w.store) a)
      ]

  put-fits :
      (p : Prepared) (w : Writer)
      → length w.pending < batch_files
      → length (put engine p w).pending < batch_files
  unfolding batch_of
  put-fits p w l = elim (Bool-cases (leb batch_files (length (w.pending ++ p ∷ [])))) [
    | inl t ↦ rw (put-full p w t) (omega arith)
    | inr f ↦ rw (put-room p w f) (ground (arith, f))
  ]

  write_from-IsBatched :
      (metas : List FileMeta) (w : Writer) → length w.pending < batch_files → IsBatched metas w
  unfolding IsBatched
  write_from-IsBatched [] w l = (refl, rw (append-nil w.pending) (flushed-store w.pending w))
  write_from-IsBatched (m ∷ metas) w l = elim (Preparation-split (prepare engine m)) [
    | inl e ↦
        let none_full : in_batches (length w.pending) ≡ 0 = omega (arith, l) in
        rw
          (
            write_from-raises m metas w e,
            ready_files-raises m metas e,
            append-nil w.pending,
            none_full,
          )
          (refl, refl)
    | inr (inl e) ↦
        rw (write_from-no_chunks m metas w e, ready_files-no_chunks m metas e)
          (write_from-IsBatched metas w l)
    | inr (inr (p, e)) ↦
        rw (write_from-ready m metas w p e, ready_files-ready m metas p e)
          (IsBatched-put metas p w l (write_from-IsBatched metas (put engine p w) (put-fits p w l)))
  ]

  -- Committing in batches of 64 writes what writing the files one by one does, where no file
  -- raises; and where one does, exactly the full batches of those that got ready before it.
  pub write_files_lem :
      (metas : List FileMeta) (s : Store)
      → ((write_files engine metas s).1 ≡ (ready_files metas).1)
        × ((write_files engine metas s).0.store
            ≡ write_each engine (kept_of (ready_files metas).1 (ready_files metas).0) s)
  unfolding write_files IsBatched
  write_files_lem metas s =
      write_from-IsBatched metas (record { store = s; committed = []; pending = []; written = 0 })
        (omega arith)
