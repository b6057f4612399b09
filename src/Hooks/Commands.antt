-- ===== src/Hooks/Commands.antt =====
-- The command lines of hooks.py, after the path of the tool, and the constants that they are made of.
use security_toolchain.Prelude.{
  Bool, not, ◌&&◌, Option, none, some, List, [], ◌∷◌, ◌++◌, map, Text, text, ◌==◌, text_eq,
  if◌then◌else◌,
}
use security_toolchain.Str.{join}
use security_toolchain.Gate.Baseline.{Env, env_or}
use security_toolchain.Changed.Event.{zero_sha}

-- DEFAULT_SKIP_DIRS of repo.py
abbrev pub default_skip_dirs : List Text
default_skip_dirs =
    text ".git"
    ∷ text "node_modules"
    ∷ text ".venv"
    ∷ text "venv"
    ∷ text ".pixi"
    ∷ text "mojo_env"
    ∷ text "mojo_build"
    ∷ text "dist"
    ∷ text "build"
    ∷ text ".next"
    ∷ text ".turbo"
    ∷ text "vendor"
    ∷ text ".cache"
    ∷ text "__pycache__"
    ∷ text ".mypy_cache"
    ∷ text ".ruff_cache"
    ∷ text ".pytest_cache"
    ∷ []

-- OPENGREP_TEST_PATH_GLOBS
abbrev pub test_path_globs : List Text
test_path_globs =
    text "**/tests/**"
    ∷ text "**/test/**"
    ∷ text "**/__tests__/**"
    ∷ text "**/test_*.py"
    ∷ text "**/*_test.py"
    ∷ text "**/conftest.py"
    ∷ text "**/*.test.ts"
    ∷ text "**/*.test.tsx"
    ∷ text "**/*.spec.ts"
    ∷ text "**/*.spec.tsx"
    ∷ text "**/*.test.js"
    ∷ text "**/*.spec.js"
    ∷ text "**/testdata/**"
    ∷ text "**/fixtures/**"
    ∷ []

-- `opengrep_excludes`
unfoldable pub opengrep_excludes : Bool → List Text
opengrep_excludes scan_tests =
    if not scan_tests then default_skip_dirs ++ test_path_globs else default_skip_dirs

-- `for x in xs: cmd += [flag, x]`
unfoldable pub options : Text → List Text → List Text
options flag [] = []
options flag (x ∷ xs) = flag ∷ x ∷ options flag xs

-- The command of `opengrep` up to the patterns.
unfoldable pub opengrep_start : Text → List Text
opengrep_start report =
    text "scan"
    ∷ text "--quiet"
    ∷ text "--no-rewrite-rule-ids"
    ∷ text "--timeout"
    ∷ text "10"
    ∷ text "--timeout-threshold"
    ∷ text "3"
    ∷ text "--max-target-bytes"
    ∷ text "1000000"
    ∷ text "--sarif-output"
    ∷ report
    ∷ []

-- `cmd += targets if targets is not None else ["."]`
unfoldable pub target_arguments : Option (List Text) → List Text
target_arguments none = text "." ∷ []
target_arguments (some targets) = targets

-- What the targets of `opengrep` come after.
unfoldable pub opengrep_flags : Text → Bool → List Text → List Text → List Text
unfolding opengrep_start options opengrep_excludes
opengrep_flags report scan_tests configs exclude_rules =
    opengrep_start report
    ++ (options (text "--exclude") (opengrep_excludes scan_tests)
        ++ (text "--force-exclude"
            ∷ (options (text "--config") configs ++ options (text "--exclude-rule") exclude_rules)))

unfoldable pub opengrep_command :
    Text → Bool → List Text → List Text → Option (List Text) → List Text
unfolding opengrep_flags target_arguments
opengrep_command report scan_tests configs exclude_rules targets =
    opengrep_flags report scan_tests configs exclude_rules ++ target_arguments targets

-- `push_log_opts`
unfoldable pub push_log_opts : Env → Text
push_log_opts env =
    let from = env_or env (text "PRE_COMMIT_FROM_REF") [] in
    let named = env_or env (text "PRE_COMMIT_TO_REF") [] in
    let to = if named == [] then text "HEAD" else named in
    if not (from == []) && not (from == zero_sha)
    then from ++ (text ".." ++ to)
    else to ++ text " --not --remotes"

-- `common` in `gitleaks`
gitleaks_common : Text → Text → Text → List Text
gitleaks_common config root report =
    text "--no-banner"
    ∷ text "--redact"
    ∷ text "--exit-code"
    ∷ text "1"
    ∷ text "-c"
    ∷ config
    ∷ text "-i"
    ∷ root
    ∷ text "-f"
    ∷ text "json"
    ∷ text "-r"
    ∷ report
    ∷ []

-- The command of `gitleaks`; `none` is an unknown scope.
unfoldable pub gitleaks_command : Env → Text → Text → Text → Text → Option Text → Option (List Text)
unfolding gitleaks_common push_log_opts
gitleaks_command env config root report scope log_opts =
    let common = gitleaks_common config root report in
    let opts : Text = elim log_opts [
      | none ↦ push_log_opts env
      | some given ↦ if given == [] then push_log_opts env else given
    ] in
    if scope == text "staged"
    then some (text "git" ∷ text "--pre-commit" ∷ text "--staged" ∷ common ++ (root ∷ []))
    else if scope == text "push"
    then some (text "git" ∷ text "--log-opts" ∷ opts ∷ common ++ (root ∷ []))
    else if scope == text "dir"
    then some (text "dir" ∷ root ∷ common)
    else none

-- The command of `osv`.
unfoldable pub osv_command : Text → Text → Option Text → Bool → List Text
unfolding options
osv_command root report config offline =
    (text "scan"
      ∷ text "source"
      ∷ text "--recursive"
      ∷ text "--format"
      ∷ text "json"
      ∷ text "--output-file"
      ∷ report
      ∷ text "--verbosity"
      ∷ text "error"
      ∷ [])
    ++ (options (text "--experimental-exclude") default_skip_dirs
        ++ (elim config [ none ↦ [] | some c ↦ text "--config" ∷ c ∷ [] ]
            ++ ((if offline then text "--offline-vulnerabilities" ∷ [] else []) ++ (root ∷ []))))

-- The command of `trivy`.
unfoldable pub trivy_command : Text → Text → Option Text → Option Text → List Text
unfolding join
trivy_command root report ignore config =
    (text "config"
      ∷ text "--quiet"
      ∷ text "--format"
      ∷ text "sarif"
      ∷ text "--output"
      ∷ report
      ∷ text "--severity"
      ∷ text "HIGH,CRITICAL"
      ∷ text "--exit-code"
      ∷ text "0"
      ∷ text "--skip-dirs"
      ∷ join (text ",") (map (λ d. text "**/" ++ d) default_skip_dirs)
      ∷ [])
    ++ (elim ignore [ none ↦ [] | some i ↦ text "--ignorefile" ∷ i ∷ [] ]
        ++ (elim config [ none ↦ [] | some c ↦ text "--config" ∷ c ∷ [] ] ++ (root ∷ [])))
