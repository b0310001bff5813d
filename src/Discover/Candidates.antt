-- ===== src/Discover/Candidates.antt =====
-- discover.py: `indexable`, `candidates` and `read`.
use rag_search_engine.Prelude.{
  String, ◌≡◌, true, false, ◌&&◌, ◌||◌, none, some, List, member, ascending, ascending-sort,
  member-filter, member-sort, string_discrete, arith,
}
use rag_search_engine.Paths.{text_le, text_le_total}
use rag_search_engine.Glob.{codes}
use rag_search_engine.Projcfg.{ProjectConfig}
use rag_search_engine.Text.{Library}
use rag_search_engine.Chunk.{is_blank}
use rag_search_engine.Filters.{is_secret_path, is_image_path, is_binary_ext}
use rag_search_engine.Discover.{
  FileMeta, Node, vanished, symlink, no_file, regular, Folder, Limits, indexable, is_offered, kept,
  all_paths, candidates, read_node, read,
}

module _ (lib : Library) where
  -- No config makes a file of secrets, an image or a binary indexable.
  indexable-safe :
      (rel : String) (cfg : ProjectConfig)
      → indexable lib rel cfg ≡ true
      → (is_secret_path lib.lower (codes rel) ≡ false)
        × ((is_image_path lib.lower (codes rel) ≡ false)
            × (is_binary_ext lib.lower (codes rel) ≡ false))
  unfolding indexable
  indexable-safe rel cfg h = (ground (arith, h), (ground (arith, h), ground (arith, h)))

  module _ (limits : Limits) where
    member-candidates :
        (folder : Folder) (cfg : ProjectConfig) (present : List String) (rel : String)
        → candidates lib limits folder cfg ≡ some present
        → member rel present ≡ (
            indexable lib rel cfg
            && is_offered limits (folder.node rel)
            && member rel (all_paths folder cfg))
    unfolding candidates
    member-candidates folder cfg present rel h = ground (
      arith,
      h,
      member-sort text_le rel (kept lib limits folder cfg (all_paths folder cfg)),
      member-filter rel (λ r. indexable lib r cfg && is_offered limits (folder.node r))
          (all_paths folder cfg),
    )

    ascending-candidates :
        (folder : Folder) (cfg : ProjectConfig) (present : List String)
        → candidates lib limits folder cfg ≡ some present
        → ascending text_le present ≡ true
    unfolding candidates
    ascending-candidates folder cfg present h = ground (
      arith,
      h,
      ascending-sort text_le text_le_total (kept lib limits folder cfg (all_paths folder cfg)),
    )

    -- The candidates are in order, and a path is one of them exactly if it is listed, passes the
    -- filters and is a file of a size that is allowed; a path that names a secret, an image or a
    -- binary is none, whatever the config says.
    pub candidates_lem :
        (folder : Folder) (cfg : ProjectConfig) (present : List String) (rel : String)
        → candidates lib limits folder cfg ≡ some present
        → (ascending text_le present ≡ true)
          × ((member rel present ≡ (
                indexable lib rel cfg
                && is_offered limits (folder.node rel)
                && member rel (all_paths folder cfg)))
              × (((is_secret_path lib.lower (codes rel)
                      || (is_image_path lib.lower (codes rel)
                          || is_binary_ext lib.lower (codes rel)))
                    && member rel present)
                  ≡ false))
    candidates_lem folder cfg present rel h =
        let m = member-candidates folder cfg present rel h in
        (ascending-candidates folder cfg present h, (m, ground (arith, m, indexable-safe rel cfg)))

    read_node-rel :
        (rel : String) (n : Node) (m : FileMeta)
        → read_node lib limits rel n ≡ some m
        → (m.rel ≡ rel) × (is_blank m.text ≡ false)
    read_node-rel rel vanished m e = cc
    read_node-rel rel symlink m e = cc
    read_node-rel rel no_file m e = cc
    read_node-rel rel (regular mtime size none) m e = cc
    read_node-rel rel (regular mtime size (some raw)) m e = (ground (arith, e), ground (arith, e))

    pub read-rel :
        (folder : Folder) (rel : String) (m : FileMeta)
        → read lib limits folder rel ≡ some m
        → (m.rel ≡ rel) × (is_blank m.text ≡ false)
    unfolding read
    read-rel folder rel m e = read_node-rel rel (folder.node rel) m e
