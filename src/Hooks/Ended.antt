-- ===== src/Hooks/Ended.antt =====
-- What a scanner of hooks.py has run when it returns.
use security_toolchain.Prelude.{
  ℕ, ◌≡◌, refl, inl, inr, Bool, true, false, not, Option, List, [], ◌∷◌, Text, text, if◌then◌else◌,
  Bool-cases,
}
use security_toolchain.Prelude.Result.{Result, ok, ◌>>=◌, require, bind-eq-ok}
use security_toolchain.Gate.Host.{Host}
use security_toolchain.Gate.Finding.{Finding}
use security_toolchain.Hooks.Commands.{
  opengrep_command, gitleaks_command, osv_command, trivy_command,
}
use security_toolchain.Hooks.Scans.{
  HookError, no_packs, Process, Machine, expects, run, command_or, gitleaks_config, join_path,
  gitleaks, opengrep_configs, no_target, is_empty, opengrep, optional_file, osv_offline,
  osv_exit_no_packages, osv, trivy,
}

-- A call of one of the four scanners.
pub data Call : Type 0 where
  gitleaks_call : (root scope report : Text) → Option Text → Call
  opengrep_call : (overlay : Text) → Option (List Text) → (report : Text) → Bool → Call
  osv_call trivy_call : (root report : Text) → Call

unfoldable pub scan : Machine → Host → Call → Result HookError (List Finding)
unfolding gitleaks opengrep osv trivy
scan machine host (gitleaks_call root scope report log_opts) =
    gitleaks machine host root scope report log_opts
scan machine host (opengrep_call overlay targets report scan_tests) =
    opengrep machine host overlay targets report scan_tests
scan machine host (osv_call root report) = osv machine host root report
scan machine host (trivy_call root report) = trivy machine host root report

unfoldable pub tool_of : Call → Text
tool_of (gitleaks_call root scope report log_opts) = text "gitleaks"
tool_of (opengrep_call overlay targets report scan_tests) = text "opengrep"
tool_of (osv_call root report) = text "osv-scanner"
tool_of (trivy_call root report) = text "trivy"

-- The exit codes that the scan accepts.
unfoldable pub codes_of : Call → List ℕ
codes_of (gitleaks_call root scope report log_opts) = 0 ∷ 1 ∷ []
codes_of (opengrep_call overlay targets report scan_tests) = 0 ∷ 1 ∷ []
codes_of (osv_call root report) = 0 ∷ 1 ∷ 128 ∷ []
codes_of (trivy_call root report) = 0 ∷ []

-- The call asks for given files, and none is given.
unfoldable pub has_nothing : Call → Bool
unfolding no_target
has_nothing (opengrep_call overlay targets report scan_tests) = no_target targets
has_nothing _ = false

-- The command with which a call starts its tool.
unfoldable pub command_of : Machine → Call → Result HookError (List Text)
unfolding command_or gitleaks_command gitleaks_config opengrep_configs opengrep_command osv_command
    trivy_command optional_file join_path osv_offline
command_of machine (gitleaks_call root scope report log_opts) =
    command_or
      (gitleaks_command machine.env (gitleaks_config machine root) root report scope log_opts)
command_of machine (opengrep_call overlay targets report scan_tests) = do
  (configs, rules) ← opengrep_configs machine overlay
  ok (opengrep_command report scan_tests configs rules targets)
command_of machine (osv_call root report) = ok (
    osv_command root report (optional_file machine (join_path root (text "osv-scanner.toml")))
      (osv_offline machine))
command_of machine (trivy_call root report) = ok (
    trivy_command root report (optional_file machine (join_path root (text ".trivyignore")))
      (optional_file machine (join_path root (text "trivy.yaml"))))

-- The tool of the call is found, and its run with the command of the call ends with an accepted code.
pub record HasRun (machine : Machine) (call : Call) : Type 0 where
  pub exe : Text
  pub variables : List (Text × Text)
  pub command : List Text
  pub found : machine.path_of_tool (tool_of call) ≡ ok exe
  pub started : command_of machine call ≡ ok command
  pub ended : expects (codes_of call) (machine.execute variables exe command).code ≡ true

run-expects :
    (machine : Machine) (codes : List ℕ) (variables : List (Text × Text)) (exe : Text)
    (command : List Text) {process : Process}
    → run machine codes variables exe command ≡ ok process
    → expects codes (machine.execute variables exe command).code ≡ true
unfolding run
run-expects machine codes variables exe command h =
    elim (Bool-cases (expects codes (machine.execute variables exe command).code)) [
      | inl good ↦ good
      | inr bad ↦ absurd (cc (rw (bad) at h))
    ]

gitleaks-HasRun :
    (machine : Machine) (host : Host) (root scope report : Text) (log_opts : Option Text)
    {fs : List Finding}
    → gitleaks machine host root scope report log_opts ≡ ok fs
    → HasRun machine (gitleaks_call root scope report log_opts)
unfolding gitleaks tool_of codes_of command_of
gitleaks-HasRun machine host root scope report log_opts h =
    let (exe, h1, e1) = bind-eq-ok (machine.path_of_tool (text "gitleaks")) _ h in
    let (command, h2, e2) =
      bind-eq-ok
        (command_or
          (gitleaks_command machine.env (gitleaks_config machine root) root report scope log_opts))
        _ h1 in
    let (process, h3, e3) = bind-eq-ok (run machine (0 ∷ 1 ∷ []) [] exe command) _ h2 in
    record {
      exe = exe;
      variables = [];
      command = command;
      found = e1;
      started = e2;
      ended = run-expects machine (0 ∷ 1 ∷ []) [] exe command e3;
    }

opengrep-HasRun :
    (machine : Machine) (host : Host) (overlay : Text) (targets : Option (List Text))
    (report : Text) (scan_tests : Bool) {fs : List Finding}
    → no_target targets ≡ false
    → opengrep machine host overlay targets report scan_tests ≡ ok fs
    → HasRun machine (opengrep_call overlay targets report scan_tests)
unfolding opengrep tool_of codes_of command_of
opengrep-HasRun machine host overlay targets report scan_tests something h =
    let h0 = rw (something) at h in
    let (exe, h1, e1) = bind-eq-ok (machine.path_of_tool (text "opengrep")) _ h0 in
    let ((configs, rules), h2, e2) = bind-eq-ok (opengrep_configs machine overlay) _ h1 in
    let (_, h3, e3) = bind-eq-ok (require (not (is_empty configs)) no_packs) _ h2 in
    let command = opengrep_command report scan_tests configs rules targets in
    let (process, h4, e4) = bind-eq-ok (run machine (0 ∷ 1 ∷ []) [] exe command) _ h3 in
    record {
      exe = exe;
      variables = [];
      command = command;
      found = e1;
      started = rw (e2) refl;
      ended = run-expects machine (0 ∷ 1 ∷ []) [] exe command e4;
    }

osv-HasRun :
    (machine : Machine) (host : Host) (root report : Text) {fs : List Finding}
    → osv machine host root report ≡ ok fs
    → HasRun machine (osv_call root report)
unfolding osv tool_of codes_of command_of
osv-HasRun machine host root report h =
    let (exe, h1, e1) = bind-eq-ok (machine.path_of_tool (text "osv-scanner")) _ h in
    let command =
      osv_command root report (optional_file machine (join_path root (text "osv-scanner.toml")))
        (osv_offline machine) in
    let codes = 0 ∷ 1 ∷ osv_exit_no_packages ∷ [] in
    let (process, h2, e2) = bind-eq-ok (run machine codes [] exe command) _ h1 in
    record {
      exe = exe;
      variables = [];
      command = command;
      found = e1;
      started = refl;
      ended = run-expects machine codes [] exe command e2;
    }

trivy-HasRun :
    (machine : Machine) (host : Host) (root report : Text) {fs : List Finding}
    → trivy machine host root report ≡ ok fs
    → HasRun machine (trivy_call root report)
unfolding trivy tool_of codes_of command_of
trivy-HasRun machine host root report h =
    let (exe, h1, e1) = bind-eq-ok (machine.path_of_tool (text "trivy")) _ h in
    let command =
      trivy_command root report (optional_file machine (join_path root (text ".trivyignore")))
        (optional_file machine (join_path root (text "trivy.yaml"))) in
    let variables : List (Text × Text) =
      if machine.offline then (text "TRIVY_SKIP_CHECK_UPDATE", text "true") ∷ [] else [] in
    let (process, h2, e2) = bind-eq-ok (run machine (0 ∷ []) variables exe command) _ h1 in
    record {
      exe = exe;
      variables = variables;
      command = command;
      found = e1;
      started = refl;
      ended = run-expects machine (0 ∷ []) variables exe command e2;
    }

-- A scanner returns findings, and no error, only if its tool was found, the tool was run with the
-- scanner's command, and it ended with one of the codes that the scan accepts; the one exception is a
-- call for given files where none is given.
pub scan-HasRun :
    (machine : Machine) (host : Host) (call : Call) {fs : List Finding}
    → has_nothing call ≡ false
    → scan machine host call ≡ ok fs
    → HasRun machine call
unfolding scan has_nothing
scan-HasRun machine host (gitleaks_call root scope report log_opts) something h =
    gitleaks-HasRun machine host root scope report log_opts h
scan-HasRun machine host (opengrep_call overlay targets report scan_tests) something h =
    opengrep-HasRun machine host overlay targets report scan_tests something h
scan-HasRun machine host (osv_call root report) something h = osv-HasRun machine host root report h
scan-HasRun machine host (trivy_call root report) something h =
    trivy-HasRun machine host root report h
