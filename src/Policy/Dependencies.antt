-- ===== src/Policy/Dependencies.antt =====
-- The dependency manifests and lockfiles that src/leftovers/policy.py knows by name or by pattern.
use leftovers.Base.{String, List, [], ◌∷◌}

abbrev pub dependency_files : List String
dependency_files =
    "Package.resolved" ∷ "Package.swift" ∷ "Pipfile" ∷ "package.json" ∷ "package-lock.json"
    ∷ "npm-shrinkwrap.json" ∷ "pnpm-lock.yaml" ∷ "pnpm-workspace.yaml" ∷ "yarn.lock" ∷ "bun.lock"
    ∷ "bun.lockb" ∷ "deno.json" ∷ "deno.jsonc" ∷ "deno.lock" ∷ "poetry.lock" ∷ "pdm.lock"
    ∷ "pylock.toml" ∷ "uv.lock" ∷ "Pipfile.lock" ∷ "pyproject.toml" ∷ "requirements.txt"
    ∷ "requirements-dev.txt" ∷ "requirements.in" ∷ "requirements-dev.in" ∷ "setup.py" ∷ "setup.cfg"
    ∷ "Cargo.toml" ∷ "Cargo.lock" ∷ "go.mod" ∷ "go.sum" ∷ "go.work" ∷ "go.work.sum" ∷ "Gemfile"
    ∷ "Gemfile.lock" ∷ "Podfile" ∷ "Podfile.lock" ∷ "composer.json" ∷ "composer.lock" ∷ "pom.xml"
    ∷ "build.gradle" ∷ "build.gradle.kts" ∷ "settings.gradle" ∷ "settings.gradle.kts"
    ∷ "gradle.lockfile" ∷ "gradle-wrapper.properties" ∷ "libs.versions.toml" ∷ "mix.exs"
    ∷ "mix.lock" ∷ "pubspec.yaml" ∷ "pubspec.lock" ∷ "packages.lock.json"
    ∷ "Directory.Packages.props" ∷ "Directory.Build.props" ∷ "Directory.Build.targets"
    ∷ "packages.config" ∷ "global.json" ∷ "nuget.config" ∷ "flake.nix" ∷ "flake.lock"
    ∷ "environment.yml" ∷ "environment.yaml" ∷ "conda-lock.yml" ∷ "conda-lock.yaml" ∷ "deps.edn"
    ∷ "bb.edn" ∷ "project.clj" ∷ "build.boot" ∷ "shadow-cljs.edn" ∷ "vcpkg.json"
    ∷ "vcpkg-configuration.json" ∷ "conanfile.txt" ∷ "conanfile.py" ∷ "conan.lock"
    ∷ "paket.dependencies" ∷ "paket.lock" ∷ "CPANfile" ∷ "CPANfile.snapshot" ∷ "cpanfile"
    ∷ "Cartfile" ∷ "Cartfile.resolved" ∷ "Mintfile" ∷ "MODULE.bazel" ∷ "MODULE.bazel.lock"
    ∷ "WORKSPACE" ∷ "WORKSPACE.bazel" ∷ "build.sbt" ∷ "renv.lock" ∷ "Project.toml" ∷ "Manifest.toml"
    ∷ "stack.yaml" ∷ "stack.yaml.lock" ∷ "cabal.project" ∷ "cabal.project.freeze" ∷ "package.yaml"
    ∷ "elm.json" ∷ "rebar.config" ∷ "rebar.lock" ∷ "erlang.mk" ∷ "bower.json" ∷ "Gopkg.toml"
    ∷ "Gopkg.lock" ∷ "glide.yaml" ∷ "glide.lock" ∷ []

abbrev pub dependency_file_patterns : List String
dependency_file_patterns =
    "*.csproj" ∷ "*.fsproj" ∷ "*.vbproj" ∷ "*.cabal" ∷ "*.gemspec" ∷ "*.nuspec" ∷ "*.podspec"
    ∷ "*.sbt" ∷ "Gemfile.*" ∷ "requirements*.txt" ∷ "requirements*.in" ∷ "constraints*.txt"
    ∷ "constraints*.in" ∷ []

abbrev pub dependency_path_patterns : List String
dependency_path_patterns =
    "requirements/*.txt" ∷ "requirements/*.in" ∷ "**/requirements/*.txt" ∷ "**/requirements/*.in"
    ∷ "constraints/*.txt" ∷ "constraints/*.in" ∷ "**/constraints/*.txt" ∷ "**/constraints/*.in"
    ∷ "project/build.properties" ∷ "project/plugins.sbt" ∷ "**/project/build.properties"
    ∷ "**/project/plugins.sbt" ∷ "vendor/modules.txt" ∷ "**/vendor/modules.txt"
    ∷ "vendor/vendor.json" ∷ "**/vendor/vendor.json" ∷ []
