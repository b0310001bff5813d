-- ===== src/IndexProject/Stamps.antt =====
-- store.py: the stamp of a store, and whether the settings have changed since.
use rag_search_engine.Prelude.{
  ℕ, String, ◌≡◌, refl, ◌∙◌, Bool, true, false, not, ◌&&◌, has, Option, none, some, List, [], ◌∷◌,
  all, lookup, insert, lookup-insert, ◌==◌, string_discrete, nat_discrete, arith, if◌then◌else◌,
}
use rag_search_engine.Store.{Value, text, number, flag, Store, put_all, get_meta, set_meta}
use rag_search_engine.Pass.{Stamp, stamped, stamp, same_value, same_as, first_changed, incompatible}
use rag_search_engine.IndexProject.{is_widened, sealed}

-- The value that a key has once the pairs are set, one after the other.
abbrev newest : String → List (String × Value) → Option Value → Option Value
newest k [] was = was
newest k ((j, v) ∷ pairs) was = newest k pairs (if j == k then some v else was)

lookup-put_all :
    (k : String) (pairs meta : List (String × Value))
    → lookup k (put_all pairs meta) ≡ newest k pairs (lookup k meta)
lookup-put_all k [] meta = refl
lookup-put_all k ((j, v) ∷ pairs) meta =
    lookup-put_all k pairs (insert j v meta) ∙ rw (lookup-insert j k v meta) refl

-- The settings are the same.
abbrev pub same_stamp : Stamp → Stamp → Bool
same_stamp a b =
    a.embed_model == b.embed_model
    && (a.embed_dims == b.embed_dims
        && (a.chunk_chars == b.chunk_chars
            && (a.chunk_overlap == b.chunk_overlap
                && (same_value (flag a.chunk_header_path) (flag b.chunk_header_path)
                    && (same_value (flag a.chunk_md_splitter) (flag b.chunk_md_splitter)
                        && a.chunk_algo == b.chunk_algo)))))

has-first_changed :
    (s : Store) (l : List (String × Value))
    → has (first_changed s l) ≡ not (all (λ p. same_as (get_meta s p.0) p.1) l)
has-first_changed s [] = refl
has-first_changed s ((k, v) ∷ l) = ground (arith, has-first_changed s l)

-- What the store says of the settings that it was written under.
record IsStamped (a : Stamp) (s : Store) : Type 0 where
  model : get_meta s "embed_model" ≡ some (text a.embed_model)
  dims : get_meta s "embed_dims" ≡ some (number a.embed_dims)
  chars : get_meta s "chunk_chars" ≡ some (number a.chunk_chars)
  overlap : get_meta s "chunk_overlap" ≡ some (number a.chunk_overlap)
  header_path : get_meta s "chunk_header_path" ≡ some (flag a.chunk_header_path)
  md_splitter : get_meta s "chunk_md_splitter" ≡ some (flag a.chunk_md_splitter)
  algo : get_meta s "chunk_algo" ≡ some (number a.chunk_algo)

not_has : {A : Type 0} (o : Option A) → has o ≡ false → o ≡ none
not_has none h = refl
not_has (some a) h = cc

has-incompatible :
    (a b : Stamp) (s : Store) → IsStamped a s → has (incompatible b s) ≡ not (same_stamp a b)
unfolding incompatible
has-incompatible a b s h =
    let f = has-first_changed s (stamped b) in
    rw (h.model, incompatible)
      (f
        ∙ rw (h.model, h.dims, h.chars, h.overlap, h.header_path, h.md_splitter, h.algo)
            (ground arith))

stamp-IsStamped : (a : Stamp) (s : Store) → IsStamped a (stamp a s)
unfolding stamp set_meta string_discrete
stamp-IsStamped a s =
    let g : (k : String) → get_meta (stamp a s) k ≡ newest k (stamped a) (get_meta s k) =
      λ k. lookup-put_all k (stamped a) s.meta in
    record {
      model = g "embed_model";
      dims = g "embed_dims";
      chars = g "chunk_chars";
      overlap = g "chunk_overlap";
      header_path = g "chunk_header_path";
      md_splitter = g "chunk_md_splitter";
      algo = g "chunk_algo";
    }

-- A store that was stamped under some settings is incompatible with the settings of another run
-- exactly if one of them differs.
pub incompatible-stamp :
    (a b : Stamp) (s : Store) → has (incompatible b (stamp a s)) ≡ not (same_stamp a b)
incompatible-stamp a b s = has-incompatible a b (stamp a s) (stamp-IsStamped a s)

same_stamp_refl : (a : Stamp) → same_stamp a a ≡ true
same_stamp_refl a = ground arith

abbrev marks : String → ℕ → List (String × Value)
marks signature now = ("config_signature", text signature) ∷ ("indexed_at", number now) ∷ []

sealed-IsStamped :
    (a : Stamp) (signature : String) (now : ℕ) (s : Store) → IsStamped a (sealed a signature now s)
unfolding set_meta string_discrete
sealed-IsStamped a signature now s =
    let h = stamp-IsStamped a s in
    let g : (k : String)
        → get_meta (sealed a signature now s) k
          ≡ newest k (marks signature now) (get_meta (stamp a s) k) =
      λ k. lookup-put_all k (marks signature now) (stamp a s).meta in
    record {
      model = g "embed_model" ∙ h.model;
      dims = g "embed_dims" ∙ h.dims;
      chars = g "chunk_chars" ∙ h.chars;
      overlap = g "chunk_overlap" ∙ h.overlap;
      header_path = g "chunk_header_path" ∙ h.header_path;
      md_splitter = g "chunk_md_splitter" ∙ h.md_splitter;
      algo = g "chunk_algo" ∙ h.algo;
    }

-- A pass leaves a store that the same settings find compatible, and under the signature.
pub incompatible-sealed :
    (c : Stamp) (signature : String) (now : ℕ) (s : Store)
    → incompatible c (sealed c signature now s) ≡ none
incompatible-sealed c signature now s =
    let h = has-incompatible c c (sealed c signature now s) (sealed-IsStamped c signature now s) in
    not_has (incompatible c (sealed c signature now s)) (h ∙ rw (same_stamp_refl c) refl)

get_meta-sealed :
    (c : Stamp) (signature : String) (now : ℕ) (s : Store)
    → get_meta (sealed c signature now s) "config_signature" ≡ some (text signature)
unfolding set_meta string_discrete
get_meta-sealed c signature now s =
    lookup-put_all "config_signature" (marks signature now) (stamp c s).meta

pub is_widened-sealed :
    (c : Stamp) (signature : String) (now : ℕ) (s : Store)
    → is_widened signature (sealed c signature now s) ≡ false
is_widened-sealed c signature now s = rw (get_meta-sealed c signature now s) (ground arith)
