-- ===== src/Gate/Reports/Gitleaks.antt =====
-- `parse_gitleaks_json` of gate.py; `loads` is the JSON decoder.
pub mod Severity
use security_toolchain.Prelude.{
  Bool, true, false, not, Option, none, some, List, [], ◌∷◌, ◌++◌, Text, text, ◌==◌, text_eq,
  if◌then◌else◌,
}
use security_toolchain.Prelude.Result.{Result, ok, err, ◌>>=◌}
use security_toolchain.Str.Strip.{strip}
use security_toolchain.Json.{
  Json, null, str, Py, attribute_error, empty_arr, truthy, or_else, get, iterate, map_each,
}
use security_toolchain.Gate.Host.{Host}
use security_toolchain.Gate.Finding.{Finding, critical, post_init}
use security_toolchain.Gate.Fields.{rel, line, shown, identifier}
use security_toolchain.Gate.Whitespace.{norm_ws}

-- (x or "").strip()
stripped : Json → Py Text
unfolding truthy strip
stripped (str s) = ok (strip s)
stripped v = if truthy v then err attribute_error else ok []

gitleaks_item : Host → Json → Py Finding
unfolding get identifier rel stripped shown line norm_ws post_init
gitleaks_item host item = do
  raw_rule ← get item (text "RuleID") (str [])
  rule_id ← identifier raw_rule
  raw_file ← get item (text "File") (str [])
  file ← rel host raw_file
  raw_fingerprint ← get item (text "Fingerprint") null
  own ← stripped raw_fingerprint
  start_line ← get item (text "StartLine") null
  let fingerprint =
      if not (own == [])
      then own
      else file ++ (text ":" ++ (rule_id ++ (text ":" ++ shown host start_line)))
  number ← line host start_line
  description ← get item (text "Description") (str [])
  ok (
      post_init (record {
        tool = text "gitleaks";
        key = fingerprint;
        severity = critical;
        path = file;
        line = number;
        message =
            norm_ws 300
              (rule_id ++ (text ": " ++ (shown host description ++ text " (secret redacted)")));
        rule = rule_id;
        extra = [];
      }))

unfoldable pub parse_gitleaks_json : Host → (Text → Py Json) → Text → Py (List Finding)
unfolding gitleaks_item strip or_else iterate map_each
parse_gitleaks_json host loads content = if strip content == [] then ok [] else do
  report ← loads (strip content)
  items ← iterate (or_else report empty_arr)
  map_each (gitleaks_item host) items
