-- ===== src/Tests/Reports.antt =====
-- The report readers at concrete reports.
use security_toolchain.Prelude.{
  ◌≡◌, refl, none, some, List, [], ◌∷◌, Text, text, text_eq, pos, ℕ, contains, any, arith,
  if◌then◌else◌, leb, ◌-◌, ◌&&◌,
}
use security_toolchain.Prelude.Result.{ok, err}
use security_toolchain.Str.Space.{is_space}
use security_toolchain.Json.{
  Json, null, int, str, arr, obj, nil, cons, end, field, Py, value_error, attribute_error,
}
use security_toolchain.Json.Outcomes.{Raises-ok}
use security_toolchain.Gate.Host.{
  Host, no_digit, digit_only, decimal, Digit, number, whole, raises_type_error,
}
use security_toolchain.Gate.Finding.{Finding, keys, critical, high, medium, exit_code, ratchet}
use security_toolchain.Gate.Reports.Shape.{report_shape, report_error, other}
use security_toolchain.Gate.Reports.Opengrep.{parse_opengrep_sarif}
use security_toolchain.Gate.Reports.Opengrep.Errors.{IsReportFailure, parse_opengrep_sarif_errors}
use security_toolchain.Gate.Reports.Trivy.{parse_trivy_sarif, trivy_results}
use security_toolchain.Gate.Reports.Trivy.Dedupe.{IsDistinct, parse_trivy_sarif-keys}
use security_toolchain.Gate.Reports.Osv.{pick_advisory_id, stripped_ids}
use security_toolchain.Gate.Reports.Osv.Advisory.{pick_advisory_id_ext}
use security_toolchain.Gate.Reports.Gitleaks.{parse_gitleaks_json}
use security_toolchain.Ci.Gate.{gate_findings}
use security_toolchain.Ci.Gate.ZeroTolerance.{gitleaks_zero_tolerance}

-- ASCII digits, the superscript two, and `float` of one text.
abbrev digit_of : ℕ → Digit
digit_of c =
    if leb b'0' c && leb c b'9'
    then decimal (c - b'0')
    else if leb c 0xB1
    then no_digit
    else digit_only

abbrev pub host : Host
host = record {
  digit = digit_of;
  to_float = λ v. elim v [ str s ↦ number (whole 8) | _ ↦ raises_type_error ];
  relative_to_root = none;
  show = λ v. text "?";
}

abbrev one : Json → Json
one x = arr (cons x nil)

abbrev location : Json → Json
location region = obj (
    field (text "physicalLocation")
      (obj (
        field (text "artifactLocation") (obj (field (text "uri") (str (text "./a.py")) end))
          (field (text "region") region end)))
      end)

abbrev result_at : Json → Json
result_at region = obj (
    field (text "ruleId") (str (text "tmp.opengrep-rules-0123456789ab.x.y")) (
      field (text "level") (str (text "error"))
        (field (text "locations") (one (location region)) end)))

abbrev report_at : Json → Json
report_at region =
    obj (field (text "runs") (one (obj (field (text "results") (one (result_at region)) end))) end)

abbrev region_at : Json → Json
region_at start = obj (
    field (text "startLine") start
      (field (text "snippet") (obj (field (text "text") (str (text "a  =  1")) end)) end))

parse_opengrep_sarif_runs :
    parse_opengrep_sarif host (report_at (region_at (int (pos 3))))
    ≡ ok (
        record {
          tool = text "opengrep";
          key = text "x.y :: a.py :: a = 1";
          severity = high;
          path = text "a.py";
          line = some (pos 3);
          message = [];
          rule = text "x.y";
          extra = [];
        }
        ∷ [])
unfolding parse_opengrep_sarif
parse_opengrep_sarif_runs = refl

-- A start line that is a text of a superscript is no number, and `int` raises.
superscript_line :
    report_shape (parse_opengrep_sarif host) (ok (report_at (region_at (str (0xB2 ∷ [])))))
    ≡ err (other value_error)
unfolding report_shape parse_opengrep_sarif
superscript_line = refl

malformed_run :
    report_shape
      (parse_opengrep_sarif host)
      (ok (obj (field (text "runs") (one (int (pos 1))) end)))
    ≡ err (report_error attribute_error)
unfolding report_shape parse_opengrep_sarif
malformed_run = refl

parse_opengrep_sarif_errors_example : IsReportFailure host (report_error attribute_error)
unfolding report_shape parse_opengrep_sarif
parse_opengrep_sarif_errors_example =
    parse_opengrep_sarif_errors host (ok (obj (field (text "runs") (one (int (pos 1))) end)))
      (report_error attribute_error) (Raises-ok _) refl

abbrev trivy_result : Json
trivy_result = obj (
    field (text "ruleId") (str (text "AVD-1"))
      (field (text "locations") (one (location (obj end))) end))

abbrev trivy_report : Json
trivy_report = obj (
    field (text "runs")
      (one (obj (field (text "results") (arr (cons trivy_result (cons trivy_result nil))) end)))
      end)

abbrev trivy_finding : Finding
trivy_finding = record {
  tool = text "trivy";
  key = text "AVD-1 :: a.py";
  severity = medium;
  path = text "a.py";
  line = none;
  message = [];
  rule = text "AVD-1";
  extra = [];
}

parse_trivy_sarif-keys_example :
    (fs : List Finding) × (parse_trivy_sarif host trivy_report ≡ ok fs)
    × IsDistinct (keys fs)
    × ((k : Text) → contains (keys fs) k ≡ contains (keys (trivy_finding ∷ trivy_finding ∷ [])) k)
unfolding trivy_results
parse_trivy_sarif-keys_example = parse_trivy_sarif-keys host trivy_report refl

abbrev aliases : List Json
aliases = str (text "CVE-2024-1") ∷ str (text " GHSA-b ") ∷ null ∷ str (text "GHSA-a") ∷ []

abbrev aliases_again : List Json
aliases_again =
    str (text "GHSA-a") ∷ str (text "GHSA-b") ∷ str (text "GHSA-a") ∷ str (text "CVE-2024-1") ∷ []

pick_advisory_id_runs : pick_advisory_id aliases ≡ text "GHSA-a"
unfolding pick_advisory_id is_space
pick_advisory_id_runs = refl

pick_advisory_id_ext_example : pick_advisory_id aliases ≡ pick_advisory_id aliases_again
unfolding stripped_ids is_space contains any
pick_advisory_id_ext_example = pick_advisory_id_ext aliases aliases_again (λ k. ground arith)

-- A decoder that knows one report.
abbrev loads : Text → Py Json
loads s = ok (
    one (obj (field (text "RuleID") (str (text "aws")) (field (text "File") (str (text "k")) end))))

abbrev secret : Finding
secret = record {
  tool = text "gitleaks";
  key = text "k:aws:?";
  severity = critical;
  path = text "k";
  line = none;
  message = text "aws: (secret redacted)";
  rule = text "aws";
  extra = [];
}

gitleaks_zero_tolerance_example :
    exit_code
      (gate_findings (text "gitleaks") (λ path. some (text "k:aws:?")) (secret ∷ []) ratchet)
    ≡ 1
unfolding parse_gitleaks_json is_space
gitleaks_zero_tolerance_example =
    gitleaks_zero_tolerance host loads (text "[...]") (λ path. some (text "k:aws:?")) refl
