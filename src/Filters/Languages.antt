-- ===== src/Filters/Languages.antt =====
-- filters.py: the language of a suffix and of a whole name.
use rag_search_engine.Prelude.{String, List, [], ◌∷◌}

-- `LANGS`
abbrev pub langs : List (String × String)
langs =
    (".py", "python")
    ∷ (".pyi", "python")
    ∷ (".js", "javascript")
    ∷ (".mjs", "javascript")
    ∷ (".cjs", "javascript")
    ∷ (".jsx", "javascript")
    ∷ (".ts", "typescript")
    ∷ (".tsx", "typescript")
    ∷ (".mts", "typescript")
    ∷ (".cts", "typescript")
    ∷ (".vue", "vue")
    ∷ (".svelte", "svelte")
    ∷ (".php", "php")
    ∷ (".go", "go")
    ∷ (".rs", "rust")
    ∷ (".java", "java")
    ∷ (".kt", "kotlin")
    ∷ (".kts", "kotlin")
    ∷ (".groovy", "groovy")
    ∷ (".gradle", "groovy")
    ∷ (".rb", "ruby")
    ∷ (".rake", "ruby")
    ∷ (".c", "c")
    ∷ (".h", "c")
    ∷ (".cc", "cpp")
    ∷ (".cpp", "cpp")
    ∷ (".cxx", "cpp")
    ∷ (".hpp", "cpp")
    ∷ (".hh", "cpp")
    ∷ (".hxx", "cpp")
    ∷ (".cs", "csharp")
    ∷ (".fs", "fsharp")
    ∷ (".fsx", "fsharp")
    ∷ (".fsi", "fsharp")
    ∷ (".vb", "vbnet")
    ∷ (".swift", "swift")
    ∷ (".scala", "scala")
    ∷ (".sc", "scala")
    ∷ (".sh", "shell")
    ∷ (".bash", "shell")
    ∷ (".zsh", "shell")
    ∷ (".ksh", "shell")
    ∷ (".fish", "fish")
    ∷ (".ps1", "powershell")
    ∷ (".psm1", "powershell")
    ∷ (".psd1", "powershell")
    ∷ (".bat", "batchfile")
    ∷ (".cmd", "batchfile")
    ∷ (".sql", "sql")
    ∷ (".html", "html")
    ∷ (".htm", "html")
    ∷ (".xhtml", "html")
    ∷ (".css", "css")
    ∷ (".scss", "css")
    ∷ (".sass", "css")
    ∷ (".less", "css")
    ∷ (".styl", "css")
    ∷ (".json", "json")
    ∷ (".json5", "json")
    ∷ (".jsonc", "json")
    ∷ (".jsonl", "json")
    ∷ (".yaml", "yaml")
    ∷ (".yml", "yaml")
    ∷ (".toml", "toml")
    ∷ (".ini", "ini")
    ∷ (".cfg", "ini")
    ∷ (".conf", "ini")
    ∷ (".properties", "ini")
    ∷ (".editorconfig", "ini")
    ∷ (".cnf", "ini")
    ∷ (".service", "ini")
    ∷ (".socket", "ini")
    ∷ (".target", "ini")
    ∷ (".timer", "ini")
    ∷ (".mount", "ini")
    ∷ (".network", "ini")
    ∷ (".container", "ini")
    ∷ (".neon", "neon")
    ∷ (".xml", "xml")
    ∷ (".xsd", "xml")
    ∷ (".xsl", "xml")
    ∷ (".xslt", "xml")
    ∷ (".plist", "xml")
    ∷ (".md", "markdown")
    ∷ (".mdx", "markdown")
    ∷ (".markdown", "markdown")
    ∷ (".rst", "docs")
    ∷ (".txt", "docs")
    ∷ (".adoc", "docs")
    ∷ (".org", "docs")
    ∷ (".tex", "tex")
    ∷ (".tf", "terraform")
    ∷ (".tfvars", "terraform")
    ∷ (".hcl", "hcl")
    ∷ (".nix", "nix")
    ∷ (".bicep", "bicep")
    ∷ (".jsonnet", "jsonnet")
    ∷ (".libsonnet", "jsonnet")
    ∷ (".lua", "lua")
    ∷ (".ex", "elixir")
    ∷ (".exs", "elixir")
    ∷ (".erl", "erlang")
    ∷ (".hrl", "erlang")
    ∷ (".dart", "dart")
    ∷ (".r", "r")
    ∷ (".m", "objc")
    ∷ (".mm", "objc")
    ∷ (".pl", "perl")
    ∷ (".pm", "perl")
    ∷ (".t", "perl")
    ∷ (".proto", "proto")
    ∷ (".hs", "haskell")
    ∷ (".lhs", "haskell")
    ∷ (".ml", "ocaml")
    ∷ (".mli", "ocaml")
    ∷ (".elm", "elm")
    ∷ (".clj", "clojure")
    ∷ (".cljs", "clojure")
    ∷ (".cljc", "clojure")
    ∷ (".edn", "clojure")
    ∷ (".jl", "julia")
    ∷ (".zig", "zig")
    ∷ (".nim", "nim")
    ∷ (".nims", "nim")
    ∷ (".cr", "crystal")
    ∷ (".hx", "haxe")
    ∷ (".cls", "apex")
    ∷ (".trigger", "apex")
    ∷ (".res", "rescript")
    ∷ (".graphql", "graphql")
    ∷ (".gql", "graphql")
    ∷ (".sol", "solidity")
    ∷ (".glsl", "glsl")
    ∷ (".vert", "glsl")
    ∷ (".frag", "glsl")
    ∷ (".comp", "glsl")
    ∷ (".hlsl", "hlsl")
    ∷ (".wgsl", "wgsl")
    ∷ (".cu", "cuda")
    ∷ (".cuh", "cuda")
    ∷ (".v", "verilog")
    ∷ (".sv", "systemverilog")
    ∷ (".svh", "systemverilog")
    ∷ (".vhd", "vhdl")
    ∷ (".vhdl", "vhdl")
    ∷ (".f90", "fortran")
    ∷ (".f95", "fortran")
    ∷ (".f03", "fortran")
    ∷ (".for", "fortran")
    ∷ (".adb", "ada")
    ∷ (".ads", "ada")
    ∷ (".pas", "pascal")
    ∷ (".pp", "pascal")
    ∷ (".feature", "gherkin")
    ∷ (".puml", "plantuml")
    ∷ (".dot", "dot")
    ∷ (".cmake", "cmake")
    ∷ (".erb", "erb")
    ∷ (".haml", "haml")
    ∷ (".slim", "slim")
    ∷ (".pug", "pug")
    ∷ (".hbs", "handlebars")
    ∷ (".mustache", "handlebars")
    ∷ (".ejs", "ejs")
    ∷ (".j2", "jinja")
    ∷ (".jinja", "jinja")
    ∷ (".jinja2", "jinja")
    ∷ (".twig", "twig")
    ∷ (".liquid", "liquid")
    ∷ (".blade", "blade")
    ∷ (".astro", "astro")
    ∷ (".patch", "diff")
    ∷ (".diff", "diff")
    ∷ []

-- `FILENAMES`
abbrev pub filenames : List (String × String)
filenames =
    ("dockerfile", "dockerfile")
    ∷ ("containerfile", "dockerfile")
    ∷ ("makefile", "make")
    ∷ ("gnumakefile", "make")
    ∷ ("cmakelists.txt", "cmake")
    ∷ ("build", "bazel")
    ∷ ("build.bazel", "bazel")
    ∷ ("workspace", "bazel")
    ∷ ("workspace.bazel", "bazel")
    ∷ ("module.bazel", "bazel")
    ∷ ("gemfile", "ruby")
    ∷ ("rakefile", "ruby")
    ∷ ("podfile", "ruby")
    ∷ ("fastfile", "ruby")
    ∷ ("capfile", "ruby")
    ∷ ("guardfile", "ruby")
    ∷ ("vagrantfile", "ruby")
    ∷ ("brewfile", "ruby")
    ∷ ("cpanfile", "perl")
    ∷ ("jenkinsfile", "groovy")
    ∷ ("tiltfile", "starlark")
    ∷ ("pkgbuild", "shell")
    ∷ ("artisan", "php")
    ∷ ("justfile", "just")
    ∷ ("procfile", "yaml")
    ∷ []

-- `DOC_LANGS`
abbrev pub doc_langs : List String
doc_langs = "markdown" ∷ "docs" ∷ "html" ∷ "xml" ∷ []
