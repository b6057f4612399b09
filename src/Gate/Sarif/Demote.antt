-- ===== src/Gate/Sarif/Demote.antt =====
-- `demote_low_confidence_levels`
use security_toolchain.Prelude.{
  ℕ, ◌+◌, Bool, true, false, not, ◌&&◌, Option, none, some, List, [], ◌∷◌, text, ◌==◌, text_eq,
  nat_eq, if◌then◌else◌, any,
}
use security_toolchain.Prelude.Result.{ok, err, ◌>>=◌}
use security_toolchain.Json.{
  Json, Fields, null, str, obj, Py, attribute_error, type_error, empty_obj, empty_arr, get,
  hashable, same_key, find_field, or_default,
}
use security_toolchain.Gate.Host.{Host}
use security_toolchain.Gate.Sarif.Low.{
  is_low_confidence_rule, set_field, rewrite_items, rewrite_field, rewrite_or,
}

-- x == "error"
is_error : Json → Bool
is_error (str s) = s == text "error"
is_error _ = false

-- cfg["level"] = "warning" of a configuration with level error, and whether it was one.
demote_level : Json → Py (Json × Bool)
unfolding is_error find_field or_default set_field
demote_level (obj fs) =
    if is_error (or_default (find_field (text "level") fs) null)
    then ok (obj (set_field (text "level") (str (text "warning")) fs), true)
    else ok (obj fs, false)
demote_level _ = err attribute_error

-- What a rule adds to `low_rules` and `default_demoted`.
pub record Mark : Type 0 where
  pub id : Json
  pub low : Bool
  pub defaulted : Bool

-- rule.setdefault("defaultConfiguration", {})
set_default : Option Json → Fields → Py (Json × Bool)
unfolding demote_level set_field
set_default none fs = do
  (configuration, demoted) ← demote_level empty_obj
  ok (obj (set_field (text "defaultConfiguration") configuration fs), demoted)
set_default (some v) fs = do
  (configuration, demoted) ← demote_level v
  ok (obj (set_field (text "defaultConfiguration") configuration fs), demoted)

demote_configuration : Json → Py (Json × Bool)
unfolding set_default find_field
demote_configuration (obj fs) = set_default (find_field (text "defaultConfiguration") fs) fs
demote_configuration _ = err attribute_error

-- One round of the loop over the rules.
unfoldable pub demote_rule : Host → Json → Py (Json × Mark)
unfolding get is_low_confidence_rule hashable demote_configuration
demote_rule host rule = do
  id ← get rule (text "id") (str [])
  low ← is_low_confidence_rule host id rule
  if not low
      then ok (rule, record { id = id; low = false; defaulted = false })
      else if not (hashable id)
      then err type_error
      else (do
        (rule', demoted) ← demote_configuration rule
        ok (rule', record { id = id; low = true; defaulted = demoted }))

-- `rid in low_rules`, `rid in default_demoted`
unfoldable pub marked : (Mark → Bool) → Json → List Mark → Bool
unfolding any same_key
marked test id marks = any (λ m. test m && same_key m.id id) marks

has_level : Option Json → Bool
has_level none = false
has_level (some v) = true

demote_found : List Mark → Json → Fields → Json × ℕ
unfolding is_error find_field or_default set_field has_level marked
demote_found marks id fs =
    if not (marked (λ m. m.low) id marks)
    then (obj fs, 0)
    else if is_error (or_default (find_field (text "level") fs) null)
    then (obj (set_field (text "level") (str (text "warning")) fs), 1)
    else if not (has_level (find_field (text "level") fs)) && marked (λ m. m.defaulted) id marks
    then (obj fs, 1)
    else (obj fs, 0)

-- One round of the loop over the results: how many it demotes.
unfoldable pub demote_result : List Mark → Json → Py (Json × ℕ)
unfolding hashable demote_found find_field or_default
demote_result marks (obj fs) =
    let id = or_default (find_field (text "ruleId") fs) null in
    if hashable id then ok (demote_found marks id fs) else err type_error
demote_result marks _ = err attribute_error

unfoldable pub sum : List ℕ → ℕ
sum [] = 0
sum (n ∷ ns) = n + sum ns

-- The rules of a run, at run["tool"]["driver"]["rules"].
unfoldable pub rewrite_rules : {A : Type 0} → (Json → Py (Json × A)) → Json → Py (Json × List A)
unfolding rewrite_field rewrite_or rewrite_items
rewrite_rules f run =
    rewrite_field (text "tool") empty_obj
      (rewrite_field (text "driver") empty_obj (
        rewrite_or empty_obj
          (rewrite_field (text "rules") empty_arr (rewrite_or empty_arr (rewrite_items f)))))
      run

-- One run.
unfoldable pub demote_run : Host → Json → Py (Json × ℕ)
unfolding rewrite_rules demote_rule rewrite_field rewrite_or rewrite_items demote_result sum
demote_run host run = do
  (with_rules, marks) ← rewrite_rules (demote_rule host) run
  (with_results, counts) ←
      rewrite_field (text "results") empty_arr
        (rewrite_or empty_arr (rewrite_items (demote_result marks))) with_rules
  ok (with_results, sum counts)

-- `demote_low_confidence_levels`: the report that the file holds afterwards, and the count. A report in
-- which nothing is demoted is not written.
unfoldable pub demote_low_confidence_levels : Host → Json → Py (Json × ℕ)
unfolding rewrite_field rewrite_items demote_run sum
demote_low_confidence_levels host report = do
  (changed, counts) ← rewrite_field (text "runs") empty_arr (rewrite_items (demote_run host)) report
  ok (if sum counts == 0 then report else changed, sum counts)
