-- ===== src/Ci/Scans.antt =====
-- The scans of `run_ci`, as it calls hooks.py.
pub mod Ran
use security_toolchain.Prelude.{
  Bool, true, false, not, ◌&&◌, none, Option, List, [], ◌∷◌, ◌++◌, Text, text, text_eq,
  if◌then◌else◌, contains,
}
use security_toolchain.Prelude.Result.{Result, ok, err}
use security_toolchain.Gate.Host.{Host}
use security_toolchain.Changed.Lists.{Changed, any_match, opengrep_targets}
use security_toolchain.Changed.Patterns.{is_manifest, is_infrastructure}
use security_toolchain.Hooks.Scans.{HookError, Machine, join_path}
use security_toolchain.Hooks.Ended.{Call, gitleaks_call, opengrep_call, osv_call, trivy_call, scan}
use security_toolchain.Ci.Run.{CiError, scan_failed, Scanners, nothing_to_scan}

-- What a run scans with: the arguments that run_ci hands to hooks.py.
pub record Job : Type 0 where
  pub root : Text
  pub overlay : Text
  pub out_dir : Text
  pub scan_tests : Bool

unfoldable pub as_ci : {A : Type 0} → Text → Result HookError A → Result CiError A
as_ci tool (ok a) = ok a
as_ci tool (err e) = err (scan_failed tool)

unfoldable pub gitleaks_of : Job → Call
unfolding join_path
gitleaks_of job =
    gitleaks_call job.root (text "dir") (join_path job.out_dir (text "gitleaks.json")) none

unfoldable pub opengrep_of : Job → Option (List Text) → Call
unfolding join_path
opengrep_of job targets =
    opengrep_call job.overlay targets (join_path job.out_dir (text "opengrep.sarif")) job.scan_tests

unfoldable pub osv_of : Job → Call
unfolding join_path
osv_of job = osv_call job.root (join_path job.out_dir (text "osv.json"))

unfoldable pub trivy_of : Job → Call
unfolding join_path
trivy_of job = trivy_call job.root (join_path job.out_dir (text "trivy.sarif"))

-- The four scanners on a machine.
unfoldable pub scanners_of : Machine → Host → Job → Scanners
unfolding as_ci scan gitleaks_of opengrep_of osv_of trivy_of
scanners_of machine host job = record {
  gitleaks = as_ci (text "gitleaks") (scan machine host (gitleaks_of job));
  opengrep = λ targets. as_ci (text "opengrep") (scan machine host (opengrep_of job targets));
  osv = as_ci (text "osv") (scan machine host (osv_of job));
  trivy = as_ci (text "trivy") (scan machine host (trivy_of job));
}
