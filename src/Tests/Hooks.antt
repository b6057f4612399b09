-- ===== src/Tests/Hooks.antt =====
-- A machine on which gitleaks finds nothing, and a command of opengrep.
use security_toolchain.Prelude.{
  contains, ◌⊎◌, ◌≡◌, refl, true, false, none, some, [], ◌∷◌, ◌++◌, ◌==◌, List, Text, text, text_eq,
  nat_eq, any, if◌then◌else◌, pos, All,
}
use security_toolchain.Prelude.Result.{ok, err}
use security_toolchain.Json.{arr, nil, end}
use security_toolchain.Hooks.Commands.{options, opengrep_command, target_arguments}
use security_toolchain.Hooks.Excludes.{has_option, excluded, opengrep_command-excludes}
use security_toolchain.Hooks.Scans.{Machine, toolchain_error, exited}
use security_toolchain.Hooks.Ended.{Call, gitleaks_call, opengrep_call, osv_call, scan, HasRun}
use security_toolchain.Changed.Lists.{everything}
use security_toolchain.Ci.Gate.{Repo, gate_findings}
use security_toolchain.Ci.Run as CiRun
use security_toolchain.Ci.Scans.{Job, scanners_of}
use security_toolchain.Ci.Scans.Ran.{calls_of, run_ci-HasRun}
use security_toolchain.Cli.{main}
use security_toolchain.Cli.Commands.{
  gitleaks_staged, opengrep_changed, osv_scan, command, call_of, gate_name,
}
use security_toolchain.Cli.Commands.Ran.{IsPassed, HasNoFile, command-IsPassed}
use security_toolchain.Tests.Reports.{host}

opengrep_command-excludes_example :
    let command =
      opengrep_command (text "r") true (text "rules" ∷ []) [] (some (text "a.py" ∷ [])) in
    All (λ pattern. has_option (text "--exclude") pattern command ≡ true) (excluded true)
    × (before : List Text) × (command
        ≡ before
          ++ ((text "--force-exclude"
                ∷ (options (text "--config") (text "rules" ∷ [])
                    ++ options (text "--exclude-rule") []))
              ++ target_arguments (some (text "a.py" ∷ []))))
opengrep_command-excludes_example =
    opengrep_command-excludes (text "r") true (text "rules" ∷ []) [] (some (text "a.py" ∷ []))

-- Gitleaks finds nothing, and osv-scanner ends with 127.
abbrev machine : Machine
machine = record {
  path_of_tool = λ tool. ok (text "/bin/" ++ tool);
  path_of_rules = err toolchain_error;
  is_file = λ path. false;
  is_dir = λ path. false;
  local_rules = [];
  overlays = end;
  env = λ name. none;
  offline = false;
  execute = λ variables exe command.
      if exe == text "/bin/gitleaks"
      then record { code = pos 0; report = some (text "[]") }
      else record { code = pos 127; report = none };
  loads = λ content. ok (arr nil);
  dumps = λ value. [];
  data_dir = text "/data";
}

abbrev dir_scan : Call
dir_scan = gitleaks_call (text "/repo") (text "dir") (text "/tmp/r") none

scanned : scan machine host dir_scan ≡ ok []
unfolding scan any
scanned = refl

crashed : scan machine host (osv_call (text "/repo") (text "/tmp/r")) ≡ err exited
unfolding scan any
crashed = refl

abbrev job : Job
job = record {
  root = text "/repo";
  overlay = text "site";
  out_dir = text "/out";
  scan_tests = false;
}

abbrev ci_host : CiRun.Host
ci_host = record { is_file = λ path. true; env = λ name. none; tool_version = λ tool. text "1" }

abbrev only_gitleaks : List Text
only_gitleaks = text "gitleaks" ∷ []

abbrev no_repo : Repo
no_repo = λ path. none

abbrev green : CiRun.Run
green = record {
  status = 0;
  results = gate_findings (text "gitleaks") no_repo [] (text "ratchet") ∷ [];
  found = (text "gitleaks", []) ∷ [];
  repo = no_repo;
}

passed :
    CiRun.run_ci ci_host
      (scanners_of machine host job)
      (text "ratchet")
      everything
      only_gitleaks
      false
      no_repo
    ≡ ok green
unfolding CiRun.run_ci scanners_of contains any
passed = refl

run_ci-HasRun_example :
    All
      (HasRun machine)
      (calls_of ci_host job (if false then everything else everything) only_gitleaks)
run_ci-HasRun_example =
    run_ci-HasRun ci_host machine host job (text "ratchet") everything only_gitleaks false no_repo
      passed

staged_passes :
    main (command machine host no_repo (text "/repo") (text "/tmp/r") gitleaks_staged) ≡ some 0
unfolding main command contains any
staged_passes = refl

osv_fails : main (command machine host no_repo (text "/repo") (text "/tmp/r") osv_scan) ≡ some 2
unfolding main command contains any
osv_fails = refl

-- A given file is looked for below the root.
below_the_root :
    call_of
      (λ path. path == text "/repo/a.py")
      (text "/repo")
      (text "/tmp/r")
      (opengrep_changed (text "site") false (text "a.py" ∷ text "b.py" ∷ []))
    ≡ some (opengrep_call (text "site") (some (text "a.py" ∷ [])) (text "/tmp/r") false)
unfolding call_of
below_the_root = refl

command-IsPassed_example :
    HasNoFile machine.is_file (text "/repo") gitleaks_staged
    ⊎ ((call : Call) × (call_of machine.is_file (text "/repo") (text "/tmp/r") gitleaks_staged
          ≡ some call)
        × IsPassed machine host no_repo (gate_name gitleaks_staged) call)
command-IsPassed_example =
    command-IsPassed machine host no_repo (text "/repo") (text "/tmp/r") gitleaks_staged
      staged_passes
