-- ===== src/Store/Digests.antt =====
-- store.py: what the operations do to the digests, which are the whole of the change diff.
use rag_search_engine.Prelude.{
  ℕ, ◌+◌, String, ◌≡◌, refl, ap, ◌∙◌, false, not, Option, none, some, List, [], ◌∷◌, ◌++◌, map,
  filter, member, lookup, ◌==◌, string_discrete, arith, if◌then◌else◌,
}
use rag_search_engine.Text.{Text}
use rag_search_engine.Store.{
  Chunk, FileInfo, FileRow, Vector, Store, digests_of, file_digests, relabel, relabel_all,
  set_langs, insert_file, insert_chunk, insert_chunks, nth, delete_files, upsert_file,
}
use rag_search_engine.Store.Contract.{delete_files-eq}

lookup-digests_of-filter :
    (paths : List String) (q : String) (fs : List FileRow)
    → lookup q (digests_of (filter (λ f. not (member f.info.path paths)) fs))
      ≡ (if member q paths then none else lookup q (digests_of fs))
lookup-digests_of-filter paths q [] = ground arith
lookup-digests_of-filter paths q (f ∷ fs) = ground (arith, lookup-digests_of-filter paths q fs)

pub lookup-delete_files :
    (paths : List String) (q : String) (s : Store)
    → lookup q (file_digests (delete_files paths s).0)
      ≡ (if member q paths then none else lookup q (file_digests s))
unfolding delete_files
lookup-delete_files [] q s = refl
lookup-delete_files (p ∷ ps) q s =
    ap (λ t. lookup q (file_digests t)) (delete_files-eq p ps s)
    ∙ lookup-digests_of-filter (p ∷ ps) q s.files

lookup-digests_of-append :
    (q : String) (f : FileRow) (fs : List FileRow)
    → lookup q (digests_of fs) ≡ none
    → lookup q (digests_of (fs ++ f ∷ [])) ≡ (if f.info.path == q then some f.info.sha256 else none)
lookup-digests_of-append q f [] h = refl
lookup-digests_of-append q f (g ∷ fs) h = ground (arith, h, lookup-digests_of-append q f fs)

lookup-digests_of-other :
    (q : String) (f : FileRow) (fs : List FileRow)
    → (f.info.path == q) ≡ false
    → lookup q (digests_of (fs ++ f ∷ [])) ≡ lookup q (digests_of fs)
lookup-digests_of-other q f [] h = ground (arith, h)
lookup-digests_of-other q f (g ∷ fs) h = ground (arith, h, lookup-digests_of-other q f fs)

lookup-relabel :
    (lang path q : String) (fs : List FileRow)
    → lookup q (digests_of (relabel lang path fs)) ≡ lookup q (digests_of fs)
lookup-relabel lang path q [] = refl
lookup-relabel lang path q (f ∷ fs) = ground (arith, lookup-relabel lang path q fs)

lookup-relabel_all :
    (pairs : List (String × String)) (q : String) (fs : List FileRow)
    → lookup q (digests_of (relabel_all pairs fs)) ≡ lookup q (digests_of fs)
lookup-relabel_all [] q fs = refl
lookup-relabel_all ((lang, path) ∷ pairs) q fs =
    lookup-relabel_all pairs q (relabel lang path fs) ∙ lookup-relabel lang path q fs

pub lookup-set_langs :
    (pairs : List (String × String)) (q : String) (s : Store)
    → lookup q (file_digests (set_langs pairs s).0) ≡ lookup q (file_digests s)
unfolding set_langs
lookup-set_langs pairs q s = lookup-relabel_all pairs q s.files

module _ (fresh : List ℕ → ℕ) (identifier_tokens : Text → Text) where
  pub files-insert_chunks :
      (file_id i : ℕ) (cs : List Chunk) (e : Option (ℕ → Vector)) (s : Store)
      → (insert_chunks fresh identifier_tokens file_id i cs e s).files ≡ s.files
  files-insert_chunks file_id i [] e s = refl
  files-insert_chunks file_id i (c ∷ cs) e s =
      files-insert_chunks file_id (i + 1) cs e
        (insert_chunk fresh identifier_tokens file_id c (nth i e) s)

  -- Writing a file sets its digest and changes no other.
  pub lookup-upsert_file :
      (info : FileInfo) (cs : List Chunk) (e : Option (ℕ → Vector)) (q : String) (s : Store)
      → lookup q (file_digests (upsert_file fresh identifier_tokens info cs e s).0)
        ≡ (if info.path == q then some info.sha256 else lookup q (file_digests s))
  unfolding upsert_file
  lookup-upsert_file info cs e q s =
      let cleared = (delete_files (info.path ∷ []) s).0 in
      let id = fresh (map (λ f. f.id) cleared.files) in
      let f : FileRow = record { id = id; info = info } in
      rw (files-insert_chunks id 0 cs e (insert_file id info cleared)) (
        ground (
          arith,
          lookup-delete_files (info.path ∷ []) q s,
          lookup-digests_of-append q f cleared.files,
          lookup-digests_of-other q f cleared.files,
        ))
