-- ===== src/Gate/Sarif/Drop.antt =====
-- `drop_audit_results`
use security_toolchain.Prelude.{
  ℕ, ◌-◌, Bool, not, List, [], ◌∷◌, text, ◌==◌, text_eq, nat_eq, if◌then◌else◌, length,
}
use security_toolchain.Prelude.Result.{ok, err, ◌>>=◌}
use security_toolchain.Json.{
  Json, str, arr, obj, Py, type_error, Dict, empty_obj, empty_arr, get, or_else, iterate, dict_get,
  put, hashable, of_list,
}
use security_toolchain.Gate.Host.{Host}
use security_toolchain.Gate.Sarif.Low.{
  is_low_confidence_rule, set_field, rewrite_items, rewrite_field,
}
use security_toolchain.Gate.Sarif.Demote.{sum}

-- {r.get("id", ""): r for r in rules}, into the dict that is built so far.
unfoldable pub index_rules : Dict → List Json → Py Dict
unfolding get hashable put
index_rules d [] = ok d
index_rules d (rule ∷ rules) = do
  id ← get rule (text "id") (str [])
  if hashable id then index_rules (put id rule d) rules else err type_error

-- The rules of a run, by their id.
unfoldable pub rules_of : Json → Py Dict
unfolding get or_else iterate index_rules
rules_of run = do
  tool ← get run (text "tool") empty_obj
  driver ← get tool (text "driver") empty_obj
  listed ← get (or_else driver empty_obj) (text "rules") empty_arr
  rules ← iterate (or_else listed empty_arr)
  index_rules [] rules

-- The test of the loop over the results.
unfoldable pub is_kept : Host → Dict → Json → Py Bool
unfolding get dict_get is_low_confidence_rule
is_kept host rules res = do
  id ← get res (text "ruleId") (str [])
  meta ← dict_get rules id empty_obj
  low ← is_low_confidence_rule host id meta
  ok (not low)

-- The loop that fills `kept`.
unfoldable pub keep_each : (Json → Py Bool) → List Json → Py (List Json)
keep_each test [] = ok []
keep_each test (res ∷ results) = do
  stays ← test res
  kept ← keep_each test results
  ok (if stays then res ∷ kept else kept)

-- run["results"] = kept
unfoldable pub with_results : Json → List Json → Json
unfolding set_field
with_results (obj fs) kept = obj (set_field (text "results") (arr (of_list kept)) fs)
with_results run kept = run

-- One run, and how many results it loses.
unfoldable pub drop_run : Host → Json → Py (Json × ℕ)
unfolding rules_of get or_else iterate is_kept keep_each with_results
drop_run host run = do
  rules ← rules_of run
  raw ← get run (text "results") empty_arr
  results ← iterate (or_else raw empty_arr)
  kept ← keep_each (is_kept host rules) results
  ok (
    if length kept == length results then run else with_results run kept,
    length results - length kept,
  )

-- `drop_audit_results`: the report that the file holds afterwards, and the count. A report from which
-- nothing is dropped is not written.
unfoldable pub drop_audit_results : Host → Json → Py (Json × ℕ)
unfolding rewrite_field rewrite_items drop_run sum
drop_audit_results host report = do
  (changed, counts) ← rewrite_field (text "runs") empty_arr (rewrite_items (drop_run host)) report
  ok (if sum counts == 0 then report else changed, sum counts)
