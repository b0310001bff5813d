-- ===== src/Examples/Passes.antt =====
-- The theorems on a pass, at a project of one source file and one file of secrets.
use rag_search_engine.Prelude.{
  String, ◌≡◌, refl, true, false, ◌&&◌, ◌||◌, has, Option, none, some, [], ◌∷◌, member, ascending,
  lookup, if◌then◌else◌, string_discrete,
}
use rag_search_engine.Paths.{text_le}
use rag_search_engine.Glob.{codes, fnmatch_codes}
use rag_search_engine.Projcfg.{defaults}
use rag_search_engine.Filters.{
  is_secret_path, is_image_path, is_binary_ext, name_of, suffix_of, parts, matches_any,
  in_ignored_dir, is_ignored_name,
}
use rag_search_engine.Whitespace.{text_discrete}
use rag_search_engine.Discover.{
  FileMeta, Node, vanished, regular, Folder, Limits, indexable, is_offered, all_paths, candidates,
  read,
}
use rag_search_engine.Discover.Candidates.{candidates_lem}
use rag_search_engine.Discover.Changed.{sha_of}
use rag_search_engine.Store.{text, Store, empty_store, orphans, file_digests}
use rag_search_engine.Store.Contract.{IsSound, empty_store-IsSound}
use rag_search_engine.Pass.{Stamp, incompatible, Engine, write_each, write_files}
use rag_search_engine.IndexProject.{Report, Project, is_widened, index_project}
use rag_search_engine.IndexProject.Batches.{ready_files, kept_of, write_files_lem}
use rag_search_engine.IndexProject.Reconciles.{IsWorking, index_project_lem}
use rag_search_engine.IndexProject.Repeats.{IsQuiet, index_project-again}
use rag_search_engine.IndexProject.Named.{index_project-named}
use rag_search_engine.IndexProject.Contracts.{index_project-IsSound}
use rag_search_engine.IndexProject.Refuses.{index_project-safe, index_project-refused}
use rag_search_engine.Examples.Stores.{
  next_id, next_id-IsFresh, as_it_is, chunk_of, numbered, library_ex,
}

abbrev limits_ex : Limits
limits_ex = record { max_bytes = 100; sniff_bytes = 10 }

abbrev stamp_ex : Stamp
stamp_ex = record {
  embed_model = "m";
  embed_dims = 768;
  chunk_chars = 2000;
  chunk_overlap = 0;
  chunk_header_path = true;
  chunk_md_splitter = false;
  chunk_algo = 3;
}

abbrev engine_ex : Engine
engine_ex = record {
  fresh = next_id;
  identifier_tokens = as_it_is;
  chunk_text = λ text rel. some (chunk_of rel ∷ []);
  embed = λ texts. some numbered;
}

engine_ex-IsWorking : IsWorking engine_ex
engine_ex-IsWorking = record {
  chunks = λ text rel b. (chunk_of rel, ([], refl));
  embeds = λ texts. (numbered, refl);
}

abbrev source : Node
source = regular 7 3 (some (codes "x=1"))

abbrev node_ex : String → Node
node_ex rel = if member rel ("a.py" ∷ ".env" ∷ []) then source else vanished

abbrev folder_ex : Folder
folder_ex = record {
  forbidden = false;
  git_files = some ("a.py" ∷ ".env" ∷ []);
  walked_files = [];
  node = node_ex;
}

abbrev project_ex : Project
project_ex = record { is_dir = true; folder = folder_ex; config = some (defaults, "s"); now = 5 }

candidates_ex : candidates library_ex limits_ex folder_ex defaults ≡ some ("a.py" ∷ [])
unfolding candidates indexable is_secret_path is_image_path is_binary_ext name_of suffix_of parts
    matches_any string_discrete in_ignored_dir is_ignored_name fnmatch_codes text_discrete
    native.Mathlib.Decide.ℕ_discrete
candidates_ex = refl

secret_ex :
    (is_secret_path library_ex.lower (codes ".env")
      || (is_image_path library_ex.lower (codes ".env")
          || is_binary_ext library_ex.lower (codes ".env")))
    ≡ true
unfolding is_secret_path is_image_path is_binary_ext name_of suffix_of parts fnmatch_codes
    text_discrete native.Mathlib.Decide.ℕ_discrete
secret_ex = refl

-- A pass on an empty store, and what it leaves.
abbrev passed : Store × Option Report
passed = index_project library_ex limits_ex engine_ex stamp_ex project_ex none empty_store

candidates_lem_example :
    (ascending text_le ("a.py" ∷ []) ≡ true)
    × ((member {A = String} ".env" ("a.py" ∷ []) ≡ (
          indexable library_ex ".env" defaults
          && is_offered limits_ex (folder_ex.node ".env")
          && member ".env" (all_paths folder_ex defaults)))
        × (((is_secret_path library_ex.lower (codes ".env")
                || (is_image_path library_ex.lower (codes ".env")
                    || is_binary_ext library_ex.lower (codes ".env")))
              && member {A = String} ".env" ("a.py" ∷ []))
            ≡ false))
candidates_lem_example =
    candidates_lem library_ex limits_ex folder_ex defaults ("a.py" ∷ []) ".env" candidates_ex

abbrev meta_ex : String → FileMeta
meta_ex rel = record {
  rel = rel;
  mtime = 7;
  size = 3;
  sha256 = "long";
  lang = "python";
  n_lines = 1;
  text = codes "x=1";
}

write_files_lem_example :
    ((write_files engine_ex (meta_ex "a.py" ∷ meta_ex "b.py" ∷ []) empty_store).1
      ≡ (ready_files engine_ex (meta_ex "a.py" ∷ meta_ex "b.py" ∷ [])).1)
    × ((write_files engine_ex (meta_ex "a.py" ∷ meta_ex "b.py" ∷ []) empty_store).0.store
        ≡ write_each engine_ex
            (kept_of
              (ready_files engine_ex (meta_ex "a.py" ∷ meta_ex "b.py" ∷ [])).1
              (ready_files engine_ex (meta_ex "a.py" ∷ meta_ex "b.py" ∷ [])).0)
            empty_store)
write_files_lem_example =
    write_files_lem engine_ex (meta_ex "a.py" ∷ meta_ex "b.py" ∷ []) empty_store

index_project_lem_example :
    (has passed.1 ≡ true)
    × (lookup "a.py" (file_digests passed.0) ≡ (
        if member {A = String} "a.py" ("a.py" ∷ [])
        then sha_of (read library_ex limits_ex folder_ex "a.py")
        else none))
index_project_lem_example =
    index_project_lem library_ex limits_ex engine_ex stamp_ex project_ex defaults "s" ("a.py" ∷ [])
      empty_store "a.py" refl refl candidates_ex engine_ex-IsWorking

index_project-again_example :
    (r : Report) × (((index_project library_ex limits_ex engine_ex stamp_ex
          (record project_ex { now = 9 })
          none
          passed.0).1
        ≡ some r)
      × IsQuiet library_ex limits_ex engine_ex stamp_ex r)
index_project-again_example =
    index_project-again library_ex limits_ex engine_ex stamp_ex project_ex defaults "s"
      ("a.py" ∷ []) 9 empty_store refl refl candidates_ex engine_ex-IsWorking

index_project-safe_example : lookup ".env" (file_digests passed.0) ≡ none
index_project-safe_example =
    index_project-safe library_ex limits_ex engine_ex stamp_ex project_ex defaults "s" ("a.py" ∷ [])
      empty_store ".env" refl refl candidates_ex engine_ex-IsWorking secret_ex

new-compatible : incompatible stamp_ex empty_store ≡ none
unfolding incompatible
new-compatible = refl

-- The directory is gone.
abbrev detached : Project
detached = record project_ex { is_dir = false }

index_project-refused_example :
    ((index_project library_ex limits_ex engine_ex stamp_ex detached none empty_store).1 ≡ none)
    × (lookup "a.py" (
          file_digests
            (index_project library_ex limits_ex engine_ex stamp_ex detached none empty_store).0)
        ≡ lookup "a.py" (file_digests empty_store))
index_project-refused_example =
    index_project-refused library_ex limits_ex engine_ex stamp_ex detached empty_store "a.py" refl
      new-compatible

index_project-IsSound_example :
    IsSound
      (index_project library_ex limits_ex engine_ex stamp_ex project_ex
        (some ("a.py" ∷ []))
        empty_store).0
    × (orphans
          (index_project library_ex limits_ex engine_ex stamp_ex project_ex
            (some ("a.py" ∷ []))
            empty_store).0
        ≡ (0, 0))
index_project-IsSound_example =
    index_project-IsSound library_ex limits_ex engine_ex stamp_ex project_ex (some ("a.py" ∷ []))
      empty_store next_id-IsFresh empty_store-IsSound

-- A store that an earlier pass under the same config has left behind, without any file.
abbrev signed : Store
signed = record empty_store { meta = ("config_signature", text "s") ∷ [] }

signed-compatible : incompatible stamp_ex signed ≡ none
unfolding incompatible string_discrete
signed-compatible = refl

signed-kept : is_widened "s" signed ≡ false
unfolding string_discrete
signed-kept = refl

index_project-named_example :
    (has
        (index_project library_ex limits_ex engine_ex stamp_ex project_ex
          (some ("a.py" ∷ []))
          signed).1
      ≡ true)
    × (lookup "b.md" (
          file_digests
            (index_project library_ex limits_ex engine_ex stamp_ex project_ex
              (some ("a.py" ∷ []))
              signed).0)
        ≡ (if member {A = String} "b.md" ("a.py" ∷ [])
            then sha_of (read library_ex limits_ex folder_ex "b.md")
            else lookup "b.md" (file_digests signed)))
index_project-named_example =
    index_project-named library_ex limits_ex engine_ex stamp_ex project_ex defaults "s"
      ("a.py" ∷ []) signed "b.md" refl refl signed-compatible signed-kept engine_ex-IsWorking
