-- ===== src/Ci/Gate/ZeroTolerance.antt =====
-- gitleaks and `gate_findings` of ci.py.
use security_toolchain.Prelude.{
  ◌≡◌, refl, ◌∙◌, some, List, [], ◌∷◌, All, Text, text, text_eq, arith, if◌then◌else◌, any,
  contains-nil, ℕ,
}
use security_toolchain.Prelude.Result.{ok}
use security_toolchain.Json.{Json, Py}
use security_toolchain.Gate.Host.{Host}
use security_toolchain.Gate.Finding.{Finding, exit_code, blocking, ratchet}
use security_toolchain.Gate.Evaluate.{is_new, exit_code-evaluate}
use security_toolchain.Gate.Reports.Gitleaks.{parse_gitleaks_json}
use security_toolchain.Gate.Reports.Gitleaks.Severity.{IsCritical, parse_gitleaks_json-IsCritical}
use security_toolchain.Ci.Gate.{Repo, gate_findings}

-- 0 for no finding, 1 for any.
abbrev pub some_found : List Finding → ℕ
some_found [] = 0
some_found (f ∷ fs) = 1

any-critical :
    (fs : List Finding) → All IsCritical fs → (if any (is_new []) fs then 1 else 0) ≡ some_found fs
unfolding any blocking
any-critical [] h = refl
any-critical (f ∷ fs) (h, hs) = ground (arith, contains-nil f.key)

-- In ratchet mode a gitleaks report that is read fails the gate exactly when it has a finding,
-- whatever files the repository holds.
pub gitleaks_zero_tolerance :
    (host : Host) (loads : Text → Py Json) (content : Text) (repo : Repo) {fs : List Finding}
    → parse_gitleaks_json host loads content ≡ ok fs
    → exit_code (gate_findings (text "gitleaks") repo fs ratchet) ≡ some_found fs
unfolding gate_findings
gitleaks_zero_tolerance host loads content repo {fs} h =
    exit_code-evaluate (text "gitleaks") fs (some []) ratchet
    ∙ any-critical fs (parse_gitleaks_json-IsCritical host loads content h)
