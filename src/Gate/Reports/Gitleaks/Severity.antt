-- ===== src/Gate/Reports/Gitleaks/Severity.antt =====
-- Every secret blocks.
use security_toolchain.Prelude.{◌≡◌, ◌==◌, inl, inr, List, [], All, Text, text_eq, Bool-cases}
use security_toolchain.Prelude.Result.{ok}
use security_toolchain.Json.{Json, Py, iterate, or_else, empty_arr}
use security_toolchain.Json.Outcomes.{Returns, Returns-ok, Returns-bind, Returns-map_each}
use security_toolchain.Str.Strip.{strip}
use security_toolchain.Gate.Host.{Host}
use security_toolchain.Gate.Finding.{Finding, critical}
use security_toolchain.Gate.Reports.Gitleaks.{gitleaks_item, parse_gitleaks_json}

abbrev pub IsCritical : Finding → Type 0
IsCritical f = f.severity ≡ critical

gitleaks_item-IsCritical :
    (host : Host) (item : Json) → Returns IsCritical (gitleaks_item host item)
unfolding gitleaks_item
gitleaks_item-IsCritical host item = search (Returns-bind, Returns-ok) depth 20

parse-Returns :
    (host : Host) (loads : Text → Py Json) (content : Text)
    → Returns (All IsCritical) (parse_gitleaks_json host loads content)
unfolding parse_gitleaks_json
parse-Returns host loads content = elim (Bool-cases (strip content == [])) [
  | inl blank ↦ rw blank (Returns-ok [] tt)
  | inr filled ↦ rw filled (
      Returns-bind (loads (strip content)) _ λ report.
        Returns-bind (iterate (or_else report empty_arr)) _
          λ items. Returns-map_each (gitleaks_item host) items (gitleaks_item-IsCritical host))
]

-- Every finding of a gitleaks report is CRITICAL.
pub parse_gitleaks_json-IsCritical :
    (host : Host) (loads : Text → Py Json) (content : Text) {fs : List Finding}
    → parse_gitleaks_json host loads content ≡ ok fs
    → All IsCritical fs
parse_gitleaks_json-IsCritical host loads content {fs} h =
    (parse-Returns host loads content).at fs h
