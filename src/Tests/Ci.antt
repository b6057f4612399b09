-- ===== src/Tests/Ci.antt =====
-- A run of `run_ci` and a resolution of an overlay, with the theorems about them.
use security_toolchain.Prelude.{
  ℕ, ◌↔◌, ◌≡◌, refl, true, false, none, List, [], ◌∷◌, Text, text, any, contains, text_eq,
  if◌then◌else◌, not, ◌&&◌,
}
use security_toolchain.Prelude.Result.{ok, err}
use security_toolchain.Json.{Json, Fields, str, arr, nil, cons, obj, end, field, or_else}
use security_toolchain.Gate.Finding.{Finding, critical, blocking, ratchet}
use security_toolchain.Gate.Reports.Trivy.Dedupe.{IsDistinct}
use security_toolchain.Changed.Lists.{everything}
use security_toolchain.Ci.Gate.{Repo, gate_findings}
use security_toolchain.Ci.Run.{scan_failed, Scanners, Host, Run, run_ci}
use security_toolchain.Ci.Run.Verdict.{tool_fails, run_ci_verdict, run_ci-gitleaks}
use security_toolchain.Overlay.{resolve_overlay}
use security_toolchain.Overlay.Reached.{packs_kind, rules_kind, IsOffered}
use security_toolchain.Overlay.Exact.{resolve_overlay-IsOffered}
use security_toolchain.Overlay.Terminates.{Ends, resolve_overlay-Ends}

abbrev secret : Finding
secret = record {
  tool = text "gitleaks";
  key = text "generic :: a.py :: 3";
  severity = critical;
  path = text "a.py";
  line = none;
  message = text "m";
  rule = text "generic";
  extra = [];
}

list_of : Text → Json
list_of name = arr (cons (str name) nil)

-- Two overlays that extend each other.
cyclic : Fields
unfolding list_of
cyclic =
    field (text "base")
      (obj (
        field (text "extends") (list_of (text "web"))
          (field (text "packs") (list_of (text "p")) end)))
      (field (text "web")
        (obj (
          field (text "extends") (list_of (text "base"))
            (field (text "packs") (list_of (text "p")) end)))
        end)

cyclic-resolved : resolve_overlay cyclic (text "web") ≡ ok (text "p" ∷ [], [])
unfolding resolve_overlay cyclic or_else any
cyclic-resolved = refl

resolve_overlay-Ends_example :
    Ends (λ found. IsDistinct found.0 × IsDistinct found.1) (resolve_overlay cyclic (text "web"))
resolve_overlay-Ends_example = resolve_overlay-Ends cyclic (text "web")

resolve_overlay-IsOffered_example :
    ((contains (text "p" ∷ []) (text "p") ≡ true)
      ↔ IsOffered cyclic (text "web") packs_kind (text "p"))
    × ((contains [] (text "p") ≡ true) ↔ IsOffered cyclic (text "web") rules_kind (text "p"))
resolve_overlay-IsOffered_example =
    resolve_overlay-IsOffered cyclic (text "web") (text "p" ∷ []) [] cyclic-resolved (text "p")

abbrev empty_repo : Repo
empty_repo = λ path. none

abbrev scanners : Scanners
scanners = record {
  gitleaks = ok (secret ∷ []);
  opengrep = λ targets. ok [];
  osv = ok [];
  trivy = err (scan_failed (text "trivy"));
}

abbrev host : Host
host = record { is_file = λ path. true; env = λ name. none; tool_version = λ tool. text "1" }

abbrev asked : List Text
asked = text "gitleaks" ∷ text "opengrep" ∷ text "osv" ∷ []

abbrev result : ℕ → Text → Run
result code mode = record {
  status = code;
  results =
      gate_findings (text "gitleaks") empty_repo (secret ∷ []) mode
      ∷ gate_findings (text "opengrep") empty_repo [] mode
      ∷ gate_findings (text "osv") empty_repo [] mode
      ∷ [];
  found = (text "gitleaks", secret ∷ []) ∷ (text "opengrep", []) ∷ (text "osv", []) ∷ [];
  repo = empty_repo;
}

ratchet-run : run_ci host scanners ratchet everything asked false empty_repo ≡ ok (result 1 ratchet)
unfolding run_ci any
ratchet-run = refl

run_ci_verdict_example :
    (result 1 ratchet).status
    ≡ (if not false && any (tool_fails empty_repo ratchet) (result 1 ratchet).found then 1 else 0)
run_ci_verdict_example =
    run_ci_verdict host scanners ratchet everything asked false empty_repo ratchet-run

run_ci-gitleaks_example : (result 1 ratchet).status ≡ 1
unfolding contains any blocking
run_ci-gitleaks_example =
    run_ci-gitleaks host scanners everything asked empty_repo (secret ∷ []) refl refl refl
      ratchet-run
