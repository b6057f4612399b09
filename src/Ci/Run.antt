-- ===== src/Ci/Run.antt =====
-- `run_ci` of ci.py, up to what it prints: the notes, the summary and the outputs of the step are left
-- out, and so are the report files that it hands to code scanning. A scanner of hooks.py is what it
-- returns or raises.
pub mod Verdict
use security_toolchain.Prelude.{
  ℕ, Bool, true, false, not, ◌&&◌, ◌||◌, Option, none, some, List, [], ◌∷◌, ◌++◌, map, Text, text,
  ◌==◌, text_eq, leb, if◌then◌else◌, contains,
}
use security_toolchain.Prelude.Result.{Result, ok, err, ◌>>=◌, require}
use security_toolchain.Gate.Finding.{Finding, GateResult, exit_code, keys, ratchet, advisory}
use security_toolchain.Gate.Baseline.{RuntimeError, Env, write_baseline}
use security_toolchain.Changed.Lists.{
  Changed, everything, files, is_all, any_match, opengrep_targets,
}
use security_toolchain.Changed.Patterns.{is_manifest, is_infrastructure}
use security_toolchain.Ci.Gate.{Repo, baseline_path, gate_findings}

pub data CiError : Type 0 where
  bad_mode : CiError
  scan_failed : Text → CiError
  outside_actions : CiError

pub record Scanners : Type 0 where
  pub gitleaks : Result CiError (List Finding)
  pub opengrep : Option (List Text) → Result CiError (List Finding)
  pub osv : Result CiError (List Finding)
  pub trivy : Result CiError (List Finding)

-- What the file system says of a path, the environment, and the versions in the lock.
pub record Host : Type 0 where
  pub is_file : Text → Bool
  pub env : Env
  pub tool_version : Text → Text

-- `all_findings`, in the order of the scans.
abbrev pub Found : Type 0
Found = List (Text × List Finding)

-- One scanner's findings under its name, where it runs.
unfoldable pub scan : Bool → Text → Result CiError (List Finding) → Result CiError Found
scan true tool result = do fs ← result; ok ((tool, fs) ∷ [])
scan false tool result = ok []

-- `targets is not None and not targets`
unfoldable pub nothing_to_scan : Option (List Text) → Bool
nothing_to_scan none = false
nothing_to_scan (some []) = true
nothing_to_scan (some (p ∷ ps)) = false

-- The four scans.
unfoldable pub scan_all : Host → Scanners → Changed → List Text → Result CiError Found
unfolding scan opengrep_targets any_match contains nothing_to_scan
scan_all host scanners changed tools = do
  secrets ← scan (contains tools (text "gitleaks")) (text "gitleaks") scanners.gitleaks
  let targets = opengrep_targets changed host.is_file
  code ←
      scan (contains tools (text "opengrep") && not (nothing_to_scan targets)) (text "opengrep")
        (scanners.opengrep targets)
  packages ←
      scan (contains tools (text "osv") && any_match changed is_manifest) (text "osv") scanners.osv
  deployed ←
      scan (contains tools (text "trivy") && any_match changed is_infrastructure) (text "trivy")
        scanners.trivy
  ok (secrets ++ (code ++ (packages ++ deployed)))

-- The result of each tool that ran.
unfoldable pub judge : Repo → Text → Found → List GateResult
unfolding gate_findings
judge repo mode [] = []
judge repo mode ((tool, fs) ∷ found) = gate_findings tool repo fs mode ∷ judge repo mode found

-- max((r.exit_code for r in results), default=0)
unfoldable pub max_exit : List GateResult → ℕ
unfolding exit_code
max_exit [] = 0
max_exit (r ∷ rs) = let rest = max_exit rs in if leb rest (exit_code r) then exit_code r else rest

unfoldable pub found_of : Text → Found → Option (List Finding)
found_of tool [] = none
found_of tool ((name, fs) ∷ found) = if name == tool then some fs else found_of tool found

-- The repository with one file more or another text in it.
unfoldable pub with_file : Repo → Text → Text → Repo
with_file repo path content = λ p. if p == path then some content else repo p

-- LOCK_TOOL_NAME
unfoldable pub lock_tool_name : Text → Text
lock_tool_name tool = if tool == text "osv" then text "osv-scanner" else tool

written : Repo → Text → Result RuntimeError Text → Result CiError Repo
unfolding with_file
written repo path (ok content) = ok (with_file repo path content)
written repo path (err e) = err outside_actions

write_one : Host → Text → Option (List Finding) → Repo → Result CiError Repo
unfolding write_baseline baseline_path lock_tool_name written
write_one host tool none repo = ok repo
write_one host tool (some fs) repo =
    written repo (baseline_path tool)
      (write_baseline host.env tool (host.tool_version (lock_tool_name tool)) (keys fs))

-- The loop that writes the measured baselines.
unfoldable pub write_measured : Host → Found → List Text → Repo → Result CiError Repo
unfolding write_one found_of
write_measured host found [] repo = ok repo
write_measured host found (tool ∷ tools) repo = do
  next ← write_one host tool (found_of tool found) repo
  write_measured host found tools next

abbrev pub measured_tools : List Text
measured_tools = text "opengrep" ∷ text "osv" ∷ text "trivy" ∷ []

pub record Run : Type 0 where
  pub status : ℕ
  pub results : List GateResult
  pub found : Found
  pub repo : Repo

-- The end of `run_ci`.
unfoldable pub finish : Host → Bool → List GateResult → Found → Repo → Result CiError Run
unfolding max_exit write_measured
finish host false results found repo =
    ok (record { status = max_exit results; results = results; found = found; repo = repo })
finish host true results found repo = do
  repo' ← write_measured host found measured_tools repo
  ok (record { status = 0; results = results; found = found; repo = repo' })

-- `run_ci`, on the repository that it starts from.
unfoldable pub run_ci :
    Host → Scanners → Text → Changed → List Text → Bool → Repo → Result CiError Run
unfolding is_all scan_all judge finish
run_ci host scanners mode changed tools measure repo = do
  _ ← require (mode == advisory || mode == ratchet) bad_mode
  let scope = if measure && not (is_all changed) then everything else changed
  found ← scan_all host scanners scope tools
  finish host measure (judge repo mode found) found repo
