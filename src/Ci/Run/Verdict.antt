-- ===== src/Ci/Run/Verdict.antt =====
-- The exit code of a whole run.
use security_toolchain.Prelude.{
  ◌≡◌, refl, ◌∙◌, ap, sym, Bool, true, false, not, ◌&&◌, ◌||◌, List, [], ◌∷◌, Text, text, ◌==◌,
  text_eq, if◌then◌else◌, any, arith, contains, contains-nil, any_mono, ◌++◌,
}
use security_toolchain.Prelude.Result.{Result, ok, err, require, bind-eq-ok}
use security_toolchain.Gate.Finding.{Finding, blocking, ratchet, advisory}
use security_toolchain.Gate.Evaluate.{is_new, fails, exit_code-evaluate}
use security_toolchain.Changed.Lists.{Changed, everything, is_all, any_match, opengrep_targets}
use security_toolchain.Changed.Patterns.{is_manifest, is_infrastructure}
use security_toolchain.Ci.Gate.{Repo, baseline_for, gate_findings}
use security_toolchain.Ci.Run.{
  CiError, bad_mode, Scanners, Host, Found, nothing_to_scan, scan, scan_all, judge, max_exit,
  write_measured, measured_tools, Run, finish, run_ci,
}

-- A tool's findings fail against the baseline that the repository has for it.
abbrev pub tool_fails : Repo → Text → Text × List Finding → Bool
tool_fails repo mode entry = fails entry.1 (baseline_for repo entry.0 mode) mode

max_exit-judge :
    (repo : Repo) (mode : Text) (found : Found)
    → max_exit (judge repo mode found) ≡ (if any (tool_fails repo mode) found then 1 else 0)
unfolding max_exit judge any gate_findings
max_exit-judge repo mode [] = refl
max_exit-judge repo mode ((tool, fs) ∷ found) =
    rw
      (
        max_exit-judge repo mode found,
        exit_code-evaluate tool fs (baseline_for repo tool mode) mode,
      )
      (ground arith)

returned : {A : Type 0} → A → Result CiError A → A
returned otherwise (ok r) = r
returned otherwise (err e) = otherwise

ok-injective : {A : Type 0} {a b : A} → Path (Result CiError A) (ok a) (ok b) → a ≡ b
unfolding returned
ok-injective {a = a} e = ap (returned a) e

finish-verdict :
    (host : Host) (measure : Bool) (repo : Repo) (mode : Text) (found : Found) {r : Run}
    → finish host measure (judge repo mode found) found repo ≡ ok r
    → (r.found ≡ found)
      × (r.status ≡ (if not measure && any (tool_fails repo mode) found then 1 else 0))
unfolding finish
finish-verdict host false repo mode found h =
    let e = ok-injective h in
    (sym (ap (λ x. x.found) e), sym (ap (λ x. x.status) e) ∙ max_exit-judge repo mode found)
finish-verdict host true repo mode found h =
    let (repo', h1, e1) = bind-eq-ok (write_measured host found measured_tools repo) _ h in
    let e = ok-injective h1 in (sym (ap (λ x. x.found) e), sym (ap (λ x. x.status) e))

-- A run that ends has exit code 1 exactly when it does not measure baselines and some scanner that
-- ran has a blocking finding that the repository's baseline for it lacks, in ratchet mode and with a
-- baseline there; otherwise its exit code is 0.
pub run_ci_verdict :
    (host : Host) (scanners : Scanners) (mode : Text) (changed : Changed) (tools : List Text)
    (measure : Bool) (repo : Repo) {r : Run}
    → run_ci host scanners mode changed tools measure repo ≡ ok r
    → r.status ≡ (if not measure && any (tool_fails repo mode) r.found then 1 else 0)
unfolding run_ci
run_ci_verdict host scanners mode changed tools measure repo {r} h =
    let (_, h1, e1) = bind-eq-ok (require (mode == advisory || mode == ratchet) bad_mode) _ h in
    let scope = if measure && not (is_all changed) then everything else changed in
    let (found, h2, e2) = bind-eq-ok (scan_all host scanners scope tools) _ h1 in
    let (same, verdict) = finish-verdict host measure repo mode found h2 in
    verdict
    ∙ ap (λ all_found. if not measure && any (tool_fails repo mode) all_found then 1 else 0)
        (sym same)

scan-asked :
    {asked : Bool} {result : Result CiError (List Finding)} {fs : List Finding} (tool : Text)
    → asked ≡ true
    → result ≡ ok fs
    → scan asked tool result ≡ ok ((tool, fs) ∷ [])
unfolding scan
scan-asked tool a e = rw (a, e) refl

-- The secrets come first.
scan_all-gitleaks :
    (host : Host) (scanners : Scanners) (scope : Changed) (tools : List Text) (fs : List Finding)
    {found : Found}
    → contains tools (text "gitleaks") ≡ true
    → scanners.gitleaks ≡ ok fs
    → scan_all host scanners scope tools ≡ ok found
    → (rest : Found) × (found ≡ (text "gitleaks", fs) ∷ rest)
unfolding scan_all scan
scan_all-gitleaks host scanners scope tools fs asked e h =
    let targets = opengrep_targets scope host.is_file in
    let (secrets, h0, e0) =
      bind-eq-ok (scan (contains tools (text "gitleaks")) (text "gitleaks") scanners.gitleaks) _
        h in
    let (code, h1, e1) =
      bind-eq-ok
        (scan (contains tools (text "opengrep") && not (nothing_to_scan targets)) (text "opengrep")
          (scanners.opengrep targets))
        _ h0 in
    let (packages, h2, e2) =
      bind-eq-ok
        (scan (contains tools (text "osv") && any_match scope is_manifest) (text "osv")
          scanners.osv)
        _ h1 in
    let (deployed, h3, e3) =
      bind-eq-ok
        (scan (contains tools (text "trivy") && any_match scope is_infrastructure) (text "trivy")
          scanners.trivy)
        _ h2 in
    let first = sym (ok-injective (sym (scan-asked (text "gitleaks") asked e) ∙ e0)) in
    (
      code ++ (packages ++ deployed),
      sym (ok-injective h3) ∙ ap (λ x. x ++ (code ++ (packages ++ deployed))) first,
    )

gitleaks-fails :
    (repo : Repo) (fs : List Finding)
    → any blocking fs ≡ true
    → tool_fails repo ratchet (text "gitleaks", fs) ≡ true
unfolding baseline_for
gitleaks-fails repo fs secret =
    ground (arith, any_mono blocking (is_new []) (λ f. ground (arith, contains-nil f.key)) fs)

-- Where gitleaks runs in ratchet mode without measuring, and has found a blocking secret, a run that
-- ends fails: no baseline in the repository and no other scanner changes that.
pub run_ci-gitleaks :
    (host : Host) (scanners : Scanners) (changed : Changed) (tools : List Text) (repo : Repo)
    (fs : List Finding) {r : Run}
    → contains tools (text "gitleaks") ≡ true
    → scanners.gitleaks ≡ ok fs
    → any blocking fs ≡ true
    → run_ci host scanners ratchet changed tools false repo ≡ ok r
    → r.status ≡ 1
unfolding run_ci any
run_ci-gitleaks host scanners changed tools repo fs asked e secret h =
    let (found, h1, e1) = bind-eq-ok (scan_all host scanners changed tools) _ h in
    let (same, verdict) = finish-verdict host false repo ratchet found h1 in
    let (rest, first) = scan_all-gitleaks host scanners changed tools fs asked e e1 in
    let failing : any (tool_fails repo ratchet) ((text "gitleaks", fs) ∷ rest) ≡ true =
      rw (gitleaks-fails repo fs secret) refl in
    verdict
    ∙ ap (λ x. if any (tool_fails repo ratchet) x then 1 else 0) first
    ∙ ap (λ b. if b then 1 else 0) failing
