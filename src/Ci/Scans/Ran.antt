-- ===== src/Ci/Scans/Ran.antt =====
-- The scanners that a run of `run_ci` has run.
use security_toolchain.Prelude.{
  ◌≡◌, refl, Bool, true, false, not, ◌&&◌, ◌||◌, none, some, Option, List, [], ◌∷◌, ◌++◌, Text,
  text, ◌==◌, text_eq, if◌then◌else◌, contains, All, All-append, arith,
}
use security_toolchain.Prelude.Result.{Result, ok, err, require, bind-eq-ok}
use security_toolchain.Gate.Finding.{advisory, ratchet}
use security_toolchain.Gate.Host.{Host}
use security_toolchain.Changed.Lists.{Changed, everything, is_all, any_match, opengrep_targets}
use security_toolchain.Changed.Patterns.{is_manifest, is_infrastructure}
use security_toolchain.Hooks.Scans.{HookError, Machine, no_target}
use security_toolchain.Hooks.Ended.{Call, has_nothing, HasRun, scan-HasRun}
use security_toolchain.Hooks.Ended as Ended
use security_toolchain.Ci.Gate.{Repo}
use security_toolchain.Ci.Run.{
  CiError, bad_mode, Scanners, nothing_to_scan, scan, scan_all, finish, judge, Run, Found, run_ci,
}
use security_toolchain.Ci.Run as CiRun
use security_toolchain.Ci.Scans.{
  Job, as_ci, gitleaks_of, opengrep_of, osv_of, trivy_of, scanners_of,
}

abbrev when : Bool → Call → List Call
when true call = call ∷ []
when false call = []

-- The calls of a run with these tools on this scope.
unfoldable pub calls_of : CiRun.Host → Job → Changed → List Text → List Call
unfolding opengrep_targets any_match nothing_to_scan is_manifest is_infrastructure gitleaks_of
    opengrep_of osv_of trivy_of
calls_of host job scope tools =
    let targets = opengrep_targets scope host.is_file in
    when (contains tools (text "gitleaks")) (gitleaks_of job)
    ++ (when (contains tools (text "opengrep") && not (nothing_to_scan targets))
          (opengrep_of job targets)
        ++ (when (contains tools (text "osv") && any_match scope is_manifest) (osv_of job)
            ++ when (contains tools (text "trivy") && any_match scope is_infrastructure)
                (trivy_of job)))

as_ci-ok :
    {A : Type 0} (tool : Text) (r : Result HookError A) {a : A}
    → as_ci tool r ≡ ok a
    → (b : A) × (r ≡ ok b)
unfolding as_ci
as_ci-ok tool (ok b) h = (b, refl)
as_ci-ok tool (err e) h = absurd (cc)

when-HasRun :
    (machine : Machine) (host : Host) (asked : Bool) (tool : Text) (call : Call) {found : Found}
    → (asked ≡ true → has_nothing call ≡ false)
    → scan asked tool (as_ci tool (Ended.scan machine host call)) ≡ ok found
    → All (HasRun machine) (when asked call)
unfolding scan
when-HasRun machine host false tool call some_target h = tt
when-HasRun machine host true tool call some_target h =
    let (fs, h1, e) = bind-eq-ok (as_ci tool (Ended.scan machine host call)) _ h in
    let (fs', returned) = as_ci-ok tool (Ended.scan machine host call) e in
    (scan-HasRun machine host call (some_target refl) returned, tt)

nothing_to_scan-no_target :
    (targets : Option (List Text)) → nothing_to_scan targets ≡ no_target targets
unfolding nothing_to_scan no_target
nothing_to_scan-no_target none = refl
nothing_to_scan-no_target (some []) = refl
nothing_to_scan-no_target (some (t ∷ ts)) = refl

opengrep-some_target :
    (asked : Bool) (job : Job) (targets : Option (List Text))
    → (asked && not (nothing_to_scan targets)) ≡ true
    → has_nothing (opengrep_of job targets) ≡ false
unfolding has_nothing opengrep_of
opengrep-some_target asked job targets h = ground (arith, nothing_to_scan-no_target targets)

whole_tree :
    (job : Job)
    → (has_nothing (gitleaks_of job) ≡ false)
      × (has_nothing (osv_of job) ≡ false)
      × (has_nothing (trivy_of job) ≡ false)
unfolding has_nothing gitleaks_of osv_of trivy_of
whole_tree job = (refl, refl, refl)

scan_all-HasRun :
    (host : CiRun.Host) (machine : Machine) (readers : Host) (job : Job) (scope : Changed)
    (tools : List Text) {found : Found}
    → scan_all host (scanners_of machine readers job) scope tools ≡ ok found
    → All (HasRun machine) (calls_of host job scope tools)
unfolding scan_all scanners_of calls_of
scan_all-HasRun host machine readers job scope tools h =
    let targets = opengrep_targets scope host.is_file in
    let run_of : Call → Text → Result CiError _ =
      λ call tool. as_ci tool (Ended.scan machine readers call) in
    let secrets = contains tools (text "gitleaks") in
    let code = contains tools (text "opengrep") && not (nothing_to_scan targets) in
    let packages = contains tools (text "osv") && any_match scope is_manifest in
    let deployed = contains tools (text "trivy") && any_match scope is_infrastructure in
    let (_, h1, e1) =
      bind-eq-ok (scan secrets (text "gitleaks") (run_of (gitleaks_of job) (text "gitleaks"))) _
        h in
    let (_, h2, e2) =
      bind-eq-ok (scan code (text "opengrep") (run_of (opengrep_of job targets) (text "opengrep")))
        _ h1 in
    let (_, h3, e3) =
      bind-eq-ok (scan packages (text "osv") (run_of (osv_of job) (text "osv"))) _ h2 in
    let (_, h4, e4) =
      bind-eq-ok (scan deployed (text "trivy") (run_of (trivy_of job) (text "trivy"))) _ h3 in
    let P = HasRun machine in
    let (some_tree, some_packages, some_infrastructure) = whole_tree job in
    All-append P (when secrets (gitleaks_of job)) _
      (when-HasRun machine readers secrets (text "gitleaks") (gitleaks_of job) (λ _. some_tree) e1)
      (All-append P (when code (opengrep_of job targets)) _
        (when-HasRun machine readers code (text "opengrep") (opengrep_of job targets)
          (opengrep-some_target (contains tools (text "opengrep")) job targets) e2)
        (All-append P (when packages (osv_of job)) _
          (when-HasRun machine readers packages (text "osv") (osv_of job) (λ _. some_packages) e3)
          (when-HasRun machine readers deployed (text "trivy") (trivy_of job)
            (λ _. some_infrastructure) e4)))

-- Where run_ci returns, green or red, each scanner that its tools and its scope ask for was started: its
-- tool was found, the run of the tool with the scanner's command ended, and its exit code is one that
-- the scan accepts (gitleaks and opengrep 0 or 1, osv-scanner 0, 1 or 128, trivy 0). So a missing tool
-- or any other exit code makes run_ci raise; an error that ends with an accepted code is not told
-- apart from a scan here.
pub run_ci-HasRun :
    (host : CiRun.Host) (machine : Machine) (readers : Host) (job : Job) (mode : Text)
    (changed : Changed) (tools : List Text) (measure : Bool) (repo : Repo) {r : Run}
    → run_ci host (scanners_of machine readers job) mode changed tools measure repo ≡ ok r
    → All
        (HasRun machine)
        (calls_of host job (if measure && not (is_all changed) then everything else changed) tools)
unfolding run_ci
run_ci-HasRun host machine readers job mode changed tools measure repo h =
    let (_, h1, e1) = bind-eq-ok (require (mode == advisory || mode == ratchet) bad_mode) _ h in
    let scope = if measure && not (is_all changed) then everything else changed in
    let (found, h2, e2) =
      bind-eq-ok (scan_all host (scanners_of machine readers job) scope tools) _ h1 in
    scan_all-HasRun host machine readers job scope tools e2
