-- ===== src/Gate/Reports/Trivy.antt =====
-- `parse_trivy_sarif` of gate.py, on a decoded report.
pub mod Dedupe
use security_toolchain.Prelude.{
  Bool, true, false, Option, none, some, List, [], ◌∷◌, ◌++◌, Text, text, text_eq, if◌then◌else◌,
  contains,
}
use security_toolchain.Prelude.Result.{Result, ok, err, ◌>>=◌}
use security_toolchain.Json.{
  Json, null, str, obj, Py, empty_obj, empty_arr, truthy, or_else, get, iterate, first, Dict,
  dict_get, map_each, flat_each, index_by_id,
}
use security_toolchain.Gate.Host.{Host, Score}
use security_toolchain.Gate.Finding.{Finding, post_init}
use security_toolchain.Gate.Fields.{
  norm_field, rel, line, identifier, score_of, severity_from_score,
}
use security_toolchain.Gate.Reports.Opengrep.{one_empty}

-- `float(score_text) if score_text is not None else None`
score_or_none : Host → Json → Py (Option Score)
unfolding score_of
score_or_none host null = ok none
score_or_none host v = score_of host v

-- `title or res.get("message", {}).get("text", "")`
message_of : Json → Json → Py Json
unfolding truthy get
message_of title res =
    if truthy title
    then ok title
    else do message ← get res (text "message") empty_obj; get message (text "text") (str [])

trivy_result : Host → Dict → Json → Py Finding
unfolding identifier score_or_none message_of severity_from_score one_empty get or_else first
    dict_get rel norm_field line post_init
trivy_result host rules res = do
  raw_id ← get res (text "ruleId") (str [])
  rule_id ← identifier raw_id
  rule ← dict_get rules raw_id empty_obj
  properties ← get rule (text "properties") null
  score_text ← get (or_else properties empty_obj) (text "security-severity") null
  score ← score_or_none host score_text
  locations ← get res (text "locations") null
  location ← first (or_else locations one_empty)
  physical ← get location (text "physicalLocation") empty_obj
  artifact ← get physical (text "artifactLocation") empty_obj
  reported ← get artifact (text "uri") (str [])
  uri ← rel host reported
  raw_region ← get physical (text "region") empty_obj
  let region = or_else raw_region empty_obj
  short ← get rule (text "shortDescription") null
  title ← get (or_else short empty_obj) (text "text") (str [])
  start_line ← get region (text "startLine") null
  number ← line host start_line
  message ← message_of title res
  shown_message ← norm_field 300 message
  ok (
      post_init (record {
        tool = text "trivy";
        key = rule_id ++ (text " :: " ++ uri);
        severity = severity_from_score score;
        path = uri;
        line = number;
        message = shown_message;
        rule = rule_id;
        extra = [];
      }))

trivy_run : Host → Json → Py (List Finding)
unfolding trivy_result get or_else iterate index_by_id map_each
trivy_run host run = do
  tool ← get run (text "tool") empty_obj
  driver ← get tool (text "driver") empty_obj
  listed ← get (or_else driver empty_obj) (text "rules") empty_arr
  rule_list ← iterate listed
  rules ← index_by_id rule_list
  results ← get run (text "results") empty_arr
  all_results ← iterate results
  map_each (trivy_result host rules) all_results

-- The loop over `out`, with the keys that were seen.
unfoldable pub dedupe : List Text → List Finding → List Finding
unfolding contains
dedupe seen [] = []
dedupe seen (f ∷ fs) = elim (contains seen f.key) [
  | true ↦ dedupe seen fs
  | false ↦ f ∷ dedupe (f.key ∷ seen) fs
]

-- `out` before the last loop: one finding for each result.
unfoldable pub trivy_results : Host → Json → Py (List Finding)
unfolding trivy_run get iterate flat_each
trivy_results host report = do
  runs ← get report (text "runs") empty_arr
  all_runs ← iterate runs
  flat_each (trivy_run host) all_runs

unfoldable pub parse_trivy_sarif : Host → Json → Py (List Finding)
unfolding trivy_results dedupe
parse_trivy_sarif host report = do out ← trivy_results host report; ok (dedupe [] out)
