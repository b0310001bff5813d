-- ===== src/Filters/Refused.antt =====
-- filters.py and ignores.py: the tables of names, suffixes and patterns that are refused.
use rag_search_engine.Prelude.{String, List, [], ◌∷◌}

-- `_SECRET_NAMES`
abbrev pub secret_names : List String
secret_names =
    ".env" ∷ ".flaskenv" ∷ ".envrc" ∷ ".netrc" ∷ "_netrc" ∷ ".pgpass" ∷ ".htpasswd" ∷ ".npmrc"
    ∷ ".pypirc" ∷ ".s3cfg" ∷ ".dockercfg" ∷ ".git-credentials" ∷ ".terraformrc" ∷ "credentials"
    ∷ "credentials.json" ∷ "service-account.json" ∷ "google-services.json" ∷ "sftp-config.json"
    ∷ "master.key" ∷ "secring.gpg" ∷ "terraform.tfvars" ∷ ".bash_history" ∷ ".zsh_history"
    ∷ ".mysql_history" ∷ ".psql_history" ∷ ".irb_history" ∷ ".node_repl_history" ∷ ".byebug_history"
    ∷ ".lein-repl-history" ∷ ".rhistory" ∷ "id_rsa" ∷ "id_dsa" ∷ "id_ecdsa" ∷ "id_ed25519"
    ∷ "secrets.yaml" ∷ "secrets.yml" ∷ "secrets.json" ∷ []

-- `_SECRET_GLOBS`
abbrev pub secret_globs : List String
secret_globs =
    ".env.*" ∷ "*.env" ∷ "*.env.*" ∷ "*-env" ∷ "*-env.*" ∷ "env-*" ∷ "*.env-*" ∷ "*.pem" ∷ "*.key"
    ∷ "*.pfx" ∷ "*.p12" ∷ "*.jks" ∷ "*.keystore" ∷ "*.ovpn" ∷ "*.kdb" ∷ "*.kdbx" ∷ "*.psafe3"
    ∷ "*.keychain" ∷ "*.keyring" ∷ "*.asc" ∷ "*.gpg" ∷ "*_rsa" ∷ "*_dsa" ∷ "*_ecdsa" ∷ "*_ed25519"
    ∷ "*.ppk" ∷ "*.secret.exs" ∷ "*secret*.json" ∷ "*credential*.json" ∷ []

-- `_SECRET_EXEMPT`
abbrev pub secret_exempt : List String
secret_exempt =
    "*.example" ∷ "*.sample" ∷ "*.template" ∷ "*.dist" ∷ "*-example" ∷ "*-sample" ∷ "*-template"
    ∷ "*-dist" ∷ []

-- `_IMAGE_EXT`
abbrev pub image_ext : List String
image_ext =
    ".svg" ∷ ".svgz" ∷ ".png" ∷ ".apng" ∷ ".jpg" ∷ ".jpeg" ∷ ".jpe" ∷ ".jfif" ∷ ".gif" ∷ ".bmp"
    ∷ ".dib" ∷ ".ico" ∷ ".cur" ∷ ".webp" ∷ ".tiff" ∷ ".avif" ∷ ".heic" ∷ ".heif" ∷ ".jp2" ∷ ".jxl"
    ∷ ".tga" ∷ ".exr" ∷ ".hdr" ∷ ".pbm" ∷ ".pgm" ∷ ".ppm" ∷ ".pnm" ∷ ".xbm" ∷ ".xpm" ∷ ".raw" ∷ []

-- `_BINARY_EXT`
abbrev pub binary_ext : List String
binary_ext =
    ".pdf" ∷ ".zip" ∷ ".gz" ∷ ".bz2" ∷ ".xz" ∷ ".7z" ∷ ".rar" ∷ ".tar" ∷ ".jar" ∷ ".war" ∷ ".tgz"
    ∷ ".txz" ∷ ".zst" ∷ ".iso" ∷ ".dmg" ∷ ".deb" ∷ ".rpm" ∷ ".msi" ∷ ".cab" ∷ ".gem" ∷ ".whl"
    ∷ ".nupkg" ∷ ".so" ∷ ".dylib" ∷ ".dll" ∷ ".exe" ∷ ".bin" ∷ ".o" ∷ ".a" ∷ ".class" ∷ ".pyc"
    ∷ ".pyo" ∷ ".ko" ∷ ".la" ∷ ".lo" ∷ ".dex" ∷ ".pdb" ∷ ".ilk" ∷ ".exp" ∷ ".rlib" ∷ ".pyd" ∷ ".pyz"
    ∷ ".beam" ∷ ".ez" ∷ ".hi" ∷ ".hie" ∷ ".wasm" ∷ ".ptx" ∷ ".cubin" ∷ ".fatbin" ∷ ".apk" ∷ ".aab"
    ∷ ".aar" ∷ ".ipa" ∷ ".unitypackage" ∷ ".mp3" ∷ ".mp4" ∷ ".avi" ∷ ".mov" ∷ ".mkv" ∷ ".wav"
    ∷ ".flac" ∷ ".ogg" ∷ ".webm" ∷ ".m4a" ∷ ".m4v" ∷ ".aac" ∷ ".opus" ∷ ".aiff" ∷ ".wmv" ∷ ".flv"
    ∷ ".mpg" ∷ ".mpeg" ∷ ".3gp" ∷ ".mid" ∷ ".midi" ∷ ".woff" ∷ ".woff2" ∷ ".ttf" ∷ ".ttc" ∷ ".otf"
    ∷ ".eot" ∷ ".icns" ∷ ".lnk" ∷ ".doc" ∷ ".docx" ∷ ".xls" ∷ ".xlsx" ∷ ".ppt" ∷ ".pptx" ∷ ".odt"
    ∷ ".ods" ∷ ".odp" ∷ ".rtf" ∷ ".epub" ∷ ".mobi" ∷ ".djvu" ∷ ".ps" ∷ ".eps" ∷ ".db" ∷ ".sqlite"
    ∷ ".sqlite3" ∷ ".accdb" ∷ ".mdb" ∷ ".parquet" ∷ ".orc" ∷ ".avro" ∷ ".feather" ∷ ".arrow"
    ∷ ".onnx" ∷ ".safetensors" ∷ ".pt" ∷ ".pth" ∷ ".ckpt" ∷ ".h5" ∷ ".npy" ∷ ".npz" ∷ ".gguf"
    ∷ ".ggml" ∷ ".hdf5" ∷ ".pkl" ∷ ".joblib" ∷ ".tflite" ∷ ".mlmodel" ∷ ".img" ∷ ".vmdk" ∷ ".qcow2"
    ∷ ".vdi" ∷ ".psd" ∷ ".xcf" ∷ ".ai" ∷ ".sketch" ∷ ".fig" ∷ ".blend" ∷ ".fbx" ∷ ".stl" ∷ ".pcap"
    ∷ ".der" ∷ []

-- `ignores.IGNORE_DIRS`
abbrev pub ignore_dirs : List String
ignore_dirs =
    ".git" ∷ ".svn" ∷ ".hg" ∷ ".bzr" ∷ "node_modules" ∷ "bower_components" ∷ "jspm_packages"
    ∷ "web_modules" ∷ ".pnp" ∷ ".next" ∷ ".nuxt" ∷ ".svelte-kit" ∷ ".astro" ∷ ".angular" ∷ ".output"
    ∷ ".turbo" ∷ ".nx" ∷ ".vite" ∷ ".parcel-cache" ∷ ".nyc_output" ∷ ".serverless" ∷ ".docusaurus"
    ∷ ".vuepress" ∷ ".vitepress" ∷ ".vercel" ∷ ".netlify" ∷ "__pycache__" ∷ ".venv" ∷ "venv"
    ∷ ".tox" ∷ ".nox" ∷ ".mypy_cache" ∷ ".ruff_cache" ∷ ".pytest_cache" ∷ ".pytype" ∷ ".hypothesis"
    ∷ ".ipynb_checkpoints" ∷ ".eggs" ∷ "htmlcov" ∷ ".scrapy" ∷ "cython_debug" ∷ "__pypackages__"
    ∷ "target" ∷ ".gradle" ∷ ".mvn" ∷ ".kotlin" ∷ "obj" ∷ "CMakeFiles" ∷ "_deps" ∷ ".bundle"
    ∷ ".yardoc" ∷ ".build" ∷ "DerivedData" ∷ ".dart_tool" ∷ "_build" ∷ ".elixir_ls"
    ∷ ".externalNativeBuild" ∷ ".cxx" ∷ "captures" ∷ "dist-newstyle" ∷ ".stack-work" ∷ "elm-stuff"
    ∷ ".zig-cache" ∷ "zig-out" ∷ ".direnv" ∷ ".terraform" ∷ ".vagrant" ∷ "_site" ∷ ".jekyll-cache"
    ∷ ".sass-cache" ∷ "dist" ∷ "build" ∷ "coverage" ∷ "vendor" ∷ ".idea" ∷ ".vs" ∷ "__MACOSX" ∷ []

-- `ignores.IGNORE_NAMES`
abbrev pub ignore_names : List String
ignore_names =
    "package-lock.json" ∷ "npm-shrinkwrap.json" ∷ "yarn.lock" ∷ "pnpm-lock.yaml" ∷ "bun.lock"
    ∷ "deno.lock" ∷ "composer.lock" ∷ "gemfile.lock" ∷ "poetry.lock" ∷ "pdm.lock" ∷ "uv.lock"
    ∷ "pipfile.lock" ∷ "go.sum" ∷ "flake.lock" ∷ "package.resolved" ∷ "packages.lock.json"
    ∷ ".terraform.lock.hcl" ∷ "gradlew" ∷ "gradlew.bat" ∷ "mvnw" ∷ "mvnw.cmd" ∷ []

-- `ignores.DEFAULT_IGNORES`
abbrev pub default_ignores : List String
default_ignores =
    "*.min.js" ∷ "*.min.css" ∷ "*-min.js" ∷ "*-min.css" ∷ "*.map" ∷ "*.tsbuildinfo" ∷ "*.pb.go"
    ∷ "*_grpc.pb.go" ∷ "*.pb.cc" ∷ "*.pb.h" ∷ "*_pb2.py" ∷ "*_pb2.pyi" ∷ "*_pb2_grpc.py"
    ∷ "*.g.dart" ∷ "*.freezed.dart" ∷ "*.Designer.cs" ∷ "*.g.cs" ∷ "*.lock" ∷ "*.ipynb" ∷ "*.csv"
    ∷ "*.tsv" ∷ []
