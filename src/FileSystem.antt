-- ===== src/FileSystem.antt =====
-- What the program asks of the file system: `pathlib` and `os.stat`, at one moment.
use rag_search_engine.Prelude.{ℕ, Bool}
use rag_search_engine.Paths.{FilePath}

pub record FileSystem : Type 0 where
  -- `Path(p).expanduser().resolve()`
  pub resolve : FilePath → FilePath
  pub exists : FilePath → Bool
  pub is_symlink : FilePath → Bool
  pub is_dir : FilePath → Bool
  -- `any(path.iterdir())`, false where that raises
  pub occupied : FilePath → Bool
  -- `path.stat().st_dev`, 0 where that raises
  pub device : FilePath → ℕ
