-- ===== src/Tests/Cli.antt =====
-- The theorem about a local hook at a repository without baselines.
use security_toolchain.Prelude.{◌≡◌, true, none, some, List, [], text}
use security_toolchain.Prelude.Result.{Result, ok}
use security_toolchain.Gate.Finding.{Finding, ratchet}
use security_toolchain.Ci.Gate.{Repo}
use security_toolchain.Ci.Run.Verdict.{tool_fails}
use security_toolchain.Cli.{Raised, hook, main}
use security_toolchain.Cli.Status.{main-hook}

abbrev bare : Repo
bare = λ path. none

abbrev clean : Result Raised (List Finding)
clean = ok []

main-hook_example :
    (main (hook (text "gitleaks") bare clean) ≡ some 1
      → (fs : List Finding) × (clean ≡ ok fs)
        × (tool_fails bare ratchet (text "gitleaks", fs) ≡ true))
    × ((fs : List Finding)
        → clean ≡ ok fs
        → tool_fails bare ratchet (text "gitleaks", fs) ≡ true
        → main (hook (text "gitleaks") bare clean) ≡ some 1)
main-hook_example = main-hook (text "gitleaks") bare clean
