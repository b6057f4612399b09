-- ===== src/Cli/Commands.antt =====
-- The hook commands of cli.py, on a machine of hooks.py. The report is the temporary file that
-- `_tmp_report` makes, and the root is what `_root` finds.
pub mod Ran
use security_toolchain.Prelude.{
  ℕ, ℤ, Bool, true, false, Option, none, some, List, [], ◌∷◌, Text, text, keep, if◌then◌else◌,
}
use security_toolchain.Prelude.Result.{Result, ok, err, ◌>>=◌}
use security_toolchain.Gate.Host.{Host}
use security_toolchain.Gate.Finding.{Finding}
use security_toolchain.Ci.Gate.{Repo}
use security_toolchain.Overlay.{ScanError, no_key, no_fuel}
use security_toolchain.Hooks.Scans.{
  HookError, toolchain_error, unknown_scope, exited, no_packs, bad_overlay, malformed, Machine,
  actionlint, join_path,
}
use security_toolchain.Hooks.Ended.{Call, gitleaks_call, opengrep_call, osv_call, trivy_call, scan}
use security_toolchain.Cli.{Raised, scan_error, hook}
use security_toolchain.Cli as Cli

pub data Command : Type 0 where
  gitleaks_staged gitleaks_dir osv_scan trivy_config : Command
  gitleaks_push : (log_opts : Option Text) → Command
  opengrep_changed : (overlay : Text) → (scan_tests : Bool) → (files : List Text) → Command
  opengrep_full : (overlay : Text) → (scan_tests : Bool) → Command

-- `existing_files` of repo.py: the given paths that are files below the root.
unfoldable pub existing_files : (Text → Bool) → (root : Text) → List Text → List Text
unfolding keep join_path
existing_files is_file root paths = keep (λ path. is_file (join_path root path)) paths

-- The tool under whose name the findings are gated.
unfoldable pub gate_name : Command → Text
gate_name gitleaks_staged = text "gitleaks"
gate_name gitleaks_dir = text "gitleaks"
gate_name osv_scan = text "osv"
gate_name trivy_config = text "trivy"
gate_name (gitleaks_push log_opts) = text "gitleaks"
gate_name (opengrep_changed overlay scan_tests fs) = text "opengrep"
gate_name (opengrep_full overlay scan_tests) = text "opengrep"

-- No file is left of the files that are named.
unfoldable pub changed_call : Text → Text → Bool → List Text → Option Call
changed_call report overlay scan_tests [] = none
changed_call report overlay scan_tests (f ∷ fs) =
    some (opengrep_call overlay (some (f ∷ fs)) report scan_tests)

-- The call of a scanner that a command makes, if it makes one.
unfoldable pub call_of : (Text → Bool) → (root report : Text) → Command → Option Call
unfolding existing_files changed_call
call_of is_file root report gitleaks_staged = some (gitleaks_call root (text "staged") report none)
call_of is_file root report gitleaks_dir = some (gitleaks_call root (text "dir") report none)
call_of is_file root report osv_scan = some (osv_call root report)
call_of is_file root report trivy_config = some (trivy_call root report)
call_of is_file root report (gitleaks_push log_opts) =
    some (gitleaks_call root (text "push") report log_opts)
call_of is_file root report (opengrep_changed overlay scan_tests fs) =
    changed_call report overlay scan_tests (existing_files is_file root fs)
call_of is_file root report (opengrep_full overlay scan_tests) =
    some (opengrep_call overlay none report scan_tests)

-- How an error of hooks.py reaches `main`: a ReportError is a ValueError, which passes through.
unfoldable pub raised_as : HookError → Raised
raised_as toolchain_error = Cli.toolchain_error
raised_as unknown_scope = scan_error
raised_as exited = scan_error
raised_as no_packs = scan_error
raised_as (bad_overlay no_key) = Cli.other
raised_as (bad_overlay no_fuel) = Cli.other
raised_as (bad_overlay _) = scan_error
raised_as (malformed e) = Cli.other

unfoldable pub as_cli : Result HookError (List Finding) → Result Raised (List Finding)
unfolding raised_as
as_cli (ok fs) = ok fs
as_cli (err e) = err (raised_as e)

unfoldable pub command_on : Machine → Host → Repo → Text → Option Call → Result Raised ℕ
unfolding hook as_cli scan
command_on machine host repo name none = ok 0
command_on machine host repo name (some call) = hook name repo (as_cli (scan machine host call))

-- The function that `main` calls for a hook command.
unfoldable pub command : Machine → Host → Repo → (root report : Text) → Command → Result Raised ℕ
unfolding command_on call_of gate_name
command machine host repo root report c =
    command_on machine host repo (gate_name c) (call_of machine.is_file root report c)

-- `cmd_actionlint`
unfoldable pub cmd_actionlint : Machine → (root : Text) → List Text → Result HookError ℤ
unfolding actionlint existing_files
cmd_actionlint machine root fs = actionlint machine (existing_files machine.is_file root fs)

-- `cmd_verify_toolchain`, from the problems that verify_repo finds.
unfoldable pub cmd_verify_toolchain : {Problem : Type 0} → List Problem → ℕ
cmd_verify_toolchain [] = 0
cmd_verify_toolchain (p ∷ ps) = 1
