-- ===== src/Gate/Reports/Osv.antt =====
-- `_pick_advisory_id` and `parse_osv_json` of gate.py, on a decoded report.
pub mod Advisory
use security_toolchain.Prelude.{
  Bool, true, false, not, ◌&&◌, ◌||◌, Option, none, some, List, [], ◌∷◌, ◌++◌, map, Text, text,
  ◌==◌, text_eq, if◌then◌else◌, keep,
}
use security_toolchain.Prelude.Result.{Result, ok, err, ◌>>=◌}
use security_toolchain.Prelude.Sorting.{sorted_set}
use security_toolchain.Str.{starts_with}
use security_toolchain.Str.Strip.{strip}
use security_toolchain.Json.{
  Json, null, str, arr, obj, field, end, cons, nil, of_list, Py, empty_obj, empty_arr, or_else, get,
  iterate, Dict, dict_get, flat_each, map_each, index_by_id,
}
use security_toolchain.Gate.Host.{Host, Score}
use security_toolchain.Gate.Finding.{Finding, post_init}
use security_toolchain.Gate.Fields.{norm_field, rel, shown, score_of, severity_from_score}
use security_toolchain.Gate.Whitespace.{norm_ws}

-- [i.strip() for i in ids if isinstance(i, str) and i.strip()]
unfoldable pub stripped_ids : List Json → List Text
unfolding strip
stripped_ids [] = []
stripped_ids (str s ∷ ids) =
    let rest = stripped_ids ids in if not (strip s == []) then strip s ∷ rest else rest
stripped_ids (_ ∷ ids) = stripped_ids ids

unfoldable pub head : List Text → Option Text
head [] = none
head (x ∷ xs) = some x

-- The first of the sorted identifiers: that of the sorted set.
unfoldable pub least : List Text → Option Text
unfolding sorted_set head
least ids = head (sorted_set ids)

unfoldable pub starting : Text → List Text → List Text
unfolding keep starts_with
starting prefix = keep (λ i. starts_with i prefix)

-- A GHSA id if there is one, else a CVE id, else any.
unfoldable pub prefer : Option Text → Option Text → Option Text → Text
prefer (some ghsa) _ _ = ghsa
prefer none (some cve) _ = cve
prefer none none (some any_id) = any_id
prefer none none none = text "UNKNOWN"

unfoldable pub pick : List Text → Text
unfolding least starting prefer
pick ids =
    prefer (least (starting (text "GHSA-") ids)) (least (starting (text "CVE-") ids)) (least ids)

unfoldable pub pick_advisory_id : List Json → Text
unfolding stripped_ids pick
pick_advisory_id ids = pick (stripped_ids ids)

-- `float(x) if x not in (None, "") else None`
score_or_none : Host → Json → Py (Option Score)
unfolding score_of
score_or_none host null = ok none
score_or_none host (str []) = ok none
score_or_none host v = score_of host v

-- (vulns.get(i) or {}).get(name)
vulnerability_field : Dict → Text → Json → Py Json
unfolding dict_get or_else get
vulnerability_field vulns name i = do
  found ← dict_get vulns i null
  get (or_else found empty_obj) name null

aliases_of : Dict → Json → Py (List Json)
unfolding vulnerability_field or_else iterate
aliases_of vulns i = do
  aliases ← vulnerability_field vulns (text "aliases") i
  iterate (or_else aliases empty_arr)

-- for i in ids: summary = (vulns.get(i) or {}).get("summary") or summary
summary_of : Dict → Json → List Json → Py Json
unfolding vulnerability_field or_else
summary_of vulns summary [] = ok summary
summary_of vulns summary (i ∷ ids) = do
  found ← vulnerability_field vulns (text "summary") i
  summary_of vulns (or_else found summary) ids

osv_group : Host → Text → Text → Dict → Json → Py Finding
unfolding get or_else iterate flat_each aliases_of pick_advisory_id score_or_none summary_of shown
    norm_ws severity_from_score post_init
osv_group host source coord vulns group = do
  listed ← get group (text "ids") null
  ids ← iterate (or_else listed empty_arr)
  aliases ← flat_each (aliases_of vulns) ids
  let advisory = pick_advisory_id (ids ++ aliases)
  score_text ← get group (text "max_severity") null
  score ← score_or_none host score_text
  summary ← summary_of vulns (str []) ids
  ok (
      post_init (record {
        tool = text "osv";
        key = coord ++ (text " :: " ++ advisory);
        severity = severity_from_score score;
        path = source;
        line = none;
        message =
            norm_ws 300 (coord ++ (text ": " ++ (advisory ++ (text " " ++ shown host summary))));
        rule = advisory;
        extra = [];
      }))

-- [{"ids": list(vulns), "max_severity": None}]
default_groups : Dict → Json
default_groups vulns = arr (
    cons
      (obj (
        field (text "ids") (arr (of_list (map (λ e. e.0) vulns)))
          (field (text "max_severity") null end)))
      nil)

osv_package : Host → Text → Json → Py (List Finding)
unfolding osv_group get or_else iterate index_by_id shown default_groups map_each
osv_package host source pkg = do
  package_info ← get pkg (text "package") null
  let info = or_else package_info empty_obj
  ecosystem ← get info (text "ecosystem") (str (text "?"))
  name ← get info (text "name") (str (text "?"))
  version ← get info (text "version") (str (text "?"))
  let coord =
      shown host ecosystem ++ (text "/" ++ (shown host name ++ (text "@" ++ shown host version)))
  listed ← get pkg (text "vulnerabilities") empty_arr
  vulnerabilities ← iterate (or_else listed empty_arr)
  vulns ← index_by_id vulnerabilities
  groups ← get pkg (text "groups") null
  all_groups ← iterate (or_else groups (default_groups vulns))
  map_each (osv_group host source coord vulns) all_groups

osv_source : Host → Json → Py (List Finding)
unfolding osv_package get or_else rel iterate flat_each
osv_source host result = do
  raw_source ← get result (text "source") null
  path ← get (or_else raw_source empty_obj) (text "path") (str [])
  source ← rel host path
  listed ← get result (text "packages") empty_arr
  packages ← iterate (or_else listed empty_arr)
  flat_each (osv_package host source) packages

unfoldable pub parse_osv_json : Host → Json → Py (List Finding)
unfolding osv_source get or_else iterate flat_each
parse_osv_json host report = do
  listed ← get report (text "results") empty_arr
  results ← iterate (or_else listed empty_arr)
  flat_each (osv_source host) results
