-- ===== src/Ci/Gate.antt =====
-- `gate_findings` of ci.py, and `baseline_path` of repo.py. The repository is what its files hold,
-- by their paths below its root.
pub mod ZeroTolerance
use security_toolchain.Prelude.{
  Bool, true, false, Option, none, some, List, [], ◌++◌, Text, text, ◌==◌, text_eq, if◌then◌else◌,
}
use security_toolchain.Gate.Finding.{Finding, GateResult, evaluate, ratchet}
use security_toolchain.Gate.Baseline.{read_baseline}

-- The texts of the regular files.
abbrev pub Repo : Type 0
Repo = Text → Option Text

unfoldable pub baseline_path : Text → Text
baseline_path tool = text "security/baseline/" ++ (tool ++ text ".txt")

-- gitleaks has no baseline file: in ratchet mode nothing is known, otherwise nothing is judged.
unfoldable pub baseline_for : Repo → Text → Text → Option (List Text)
unfolding baseline_path read_baseline
baseline_for repo tool mode =
    if tool == text "gitleaks"
    then (if mode == ratchet then some [] else none)
    else read_baseline (repo (baseline_path tool))

unfoldable pub gate_findings : Text → Repo → List Finding → Text → GateResult
unfolding baseline_for evaluate
gate_findings tool repo findings mode = evaluate tool findings (baseline_for repo tool mode) mode
