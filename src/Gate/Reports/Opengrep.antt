-- ===== src/Gate/Reports/Opengrep.antt =====
-- `parse_opengrep_sarif` of gate.py, on a decoded report.
pub mod Errors
use security_toolchain.Prelude.{
  ℕ, zero, suc, ◌≡◌, Bool, true, false, not, ◌&&◌, ◌||◌, Option, none, some, List, [], ◌∷◌, ◌++◌,
  Text, text, ltb, leb, nat_beq, ◌==◌, text_eq, if◌then◌else◌, any,
}
use security_toolchain.Prelude.Result.{Result, ok, err, ◌>>=◌}
use security_toolchain.Json.{
  Json, null, str, arr, obj, end, nil, cons, Items, Fields, Py, type_error, empty_obj, empty_arr,
  truthy, or_else, get, iterate, first, hashable, Dict, dict_get, map_each, flat_each, index_by_id,
}
use security_toolchain.Str.{starts_with, upper}
use security_toolchain.Gate.Host.{Host}
use security_toolchain.Gate.Finding.{Finding, Severity, low, medium, high, post_init}
use security_toolchain.Gate.Fields.{norm_field, rel, line, shown}

is_lower_hex : ℕ → Bool
is_lower_hex c = leb b'0' c && leb c b'9' || leb b'a' c && leb c b'f'

-- `[0-9a-f]{n}\.`, and what follows it
after_hex : ℕ → Text → Option Text
unfolding is_lower_hex
after_hex zero [] = none
after_hex zero (c ∷ s) = if nat_beq c b'.' then some s else none
after_hex (suc n) [] = none
after_hex (suc n) (c ∷ s) = if is_lower_hex c then after_hex n s else none

-- the text t, and what follows it
after_text : Text → Text → Option Text
after_text [] s = some s
after_text (b ∷ t) [] = none
after_text (b ∷ t) (a ∷ s) = if nat_beq a b then after_text t s else none

after_marker : Text → Option Text
unfolding after_text after_hex
after_marker s = elim (after_text (text "opengrep-rules-") s) [
  | none ↦ none
  | some r ↦ after_hex 12 r
]

-- `^.*?` passes over no line end, and stops at the first marker.
unfoldable pub after_prefix : Text → Option Text
unfolding after_marker
after_prefix [] = after_marker []
after_prefix (c ∷ s) = elim (after_marker (c ∷ s)) [
  | some r ↦ some r
  | none ↦ if nat_beq c 10 then none else after_prefix s
]

normal_id : Text → Text
unfolding after_prefix
normal_id s = elim (after_prefix s) [ some r ↦ r | none ↦ s ]

-- `normalize_opengrep_rule_id`
unfoldable pub normalize_opengrep_rule_id : Json → Py Text
unfolding normal_id
normalize_opengrep_rule_id (str s) = ok (normal_id s)
normalize_opengrep_rule_id _ = err type_error

level_severity : Text → Severity
level_severity level =
    if level == text "error"
    then high
    else if level == text "warning"
    then medium
    else if level == text "note"
    then low
    else medium

-- {"error": "HIGH", ...}.get(level, "MEDIUM")
unfoldable pub severity_of_level : Json → Py Severity
unfolding level_severity hashable
severity_of_level (str s) = ok (level_severity s)
severity_of_level v = if hashable v then ok medium else err type_error

unfoldable pub is_low_confidence_tag : Host → Json → Bool
unfolding upper shown
is_low_confidence_tag host t = upper (shown host t) == text "LOW CONFIDENCE"

-- A HIGH result of a rule that is tagged as low confidence is MEDIUM; other tags are not read.
demote_tagged : Host → Severity → Json → Py Severity
unfolding iterate is_low_confidence_tag any
demote_tagged host high tags = do
  ts ← iterate tags
  ok (if any (is_low_confidence_tag host) ts then medium else high)
demote_tagged host severity tags = ok severity

-- [{}]
unfoldable pub one_empty : Json
one_empty = arr (cons (obj end) nil)

-- `res.get("level") or (meta.get("defaultConfiguration") or {}).get("level", "warning")`: the
-- rule's own configuration is read only where the result has no level.
level_of : Json → Json → Py Json
unfolding truthy get or_else
level_of own meta = if truthy own then ok own else do
  configuration ← get meta (text "defaultConfiguration") null
  get (or_else configuration empty_obj) (text "level") (str (text "warning"))

opengrep_result : Host → Dict → Json → Py Finding
unfolding normalize_opengrep_rule_id level_of severity_of_level demote_tagged one_empty get or_else
    first dict_get rel norm_field line post_init
opengrep_result host rules res = do
  raw_id ← get res (text "ruleId") (str [])
  rule ← normalize_opengrep_rule_id raw_id
  meta ← dict_get rules raw_id empty_obj
  own_level ← get res (text "level") null
  level ← level_of own_level meta
  severity ← severity_of_level level
  properties ← get meta (text "properties") null
  tags ← get (or_else properties empty_obj) (text "tags") null
  judged ← demote_tagged host severity (or_else tags empty_arr)
  locations ← get res (text "locations") null
  location ← first (or_else locations one_empty)
  physical ← get location (text "physicalLocation") empty_obj
  artifact ← get physical (text "artifactLocation") empty_obj
  reported ← get artifact (text "uri") (str [])
  uri ← rel host reported
  raw_region ← get physical (text "region") empty_obj
  let region = or_else raw_region empty_obj
  raw_snippet ← get region (text "snippet") null
  snippet_text ← get (or_else raw_snippet empty_obj) (text "text") (str [])
  snippet ← norm_field 100 snippet_text
  start_line ← get region (text "startLine") null
  number ← line host start_line
  message ← get res (text "message") empty_obj
  message_text ← get message (text "text") (str [])
  shown_message ← norm_field 300 message_text
  ok (
      post_init (record {
        tool = text "opengrep";
        key = rule ++ (text " :: " ++ (uri ++ (text " :: " ++ snippet)));
        severity = judged;
        path = uri;
        line = number;
        message = shown_message;
        rule = rule;
        extra = [];
      }))

opengrep_run : Host → Json → Py (List Finding)
unfolding opengrep_result get or_else iterate index_by_id map_each
opengrep_run host run = do
  tool ← get run (text "tool") empty_obj
  driver ← get tool (text "driver") empty_obj
  listed ← get (or_else driver empty_obj) (text "rules") empty_arr
  rule_list ← iterate listed
  rules ← index_by_id rule_list
  results ← get run (text "results") empty_arr
  all_results ← iterate results
  map_each (opengrep_result host rules) all_results

unfoldable pub parse_opengrep_sarif : Host → Json → Py (List Finding)
unfolding opengrep_run get iterate flat_each
parse_opengrep_sarif host report = do
  runs ← get report (text "runs") empty_arr
  all_runs ← iterate runs
  flat_each (opengrep_run host) all_runs
