-- ===== src/Tests/Sarif.antt =====
-- A SARIF with one result of an audit rule and one of another rule.
use security_toolchain.Prelude.{◌≡◌, refl, [], ◌∷◌, List, Text, text, text_eq, nat_eq, any}
use security_toolchain.Prelude.Result.{ok}
use security_toolchain.Json.{Json, str, arr, obj, nil, cons, end, field, or_else}
use security_toolchain.Gate.Sarif.Drop.{drop_audit_results}
use security_toolchain.Gate.Sarif.Demote.{demote_low_confidence_levels}
use security_toolchain.Gate.Sarif.DropAgain.{drop_audit_results_again}
use security_toolchain.Tests.Reports.{host}

abbrev result_of : Text → Json
result_of rule =
    obj (field (text "ruleId") (str rule) (field (text "level") (str (text "error")) end))

abbrev sarif : List Json → Json
sarif [] =
    obj (field (text "runs") (arr (cons (obj (field (text "results") (arr nil) end)) nil)) end)
sarif (x ∷ xs) = obj (
    field (text "runs")
      (arr (
        cons
          (obj (
            field (text "results") (arr (cons x (elim xs [ [] ↦ nil | y ∷ ys ↦ cons y nil ]))) end))
          nil))
      end)

abbrev both : Json
both = sarif (result_of (text "python.x-audit") ∷ result_of (text "python.sqli") ∷ [])

abbrev only : Json
only = sarif (result_of (text "python.sqli") ∷ [])

dropped : drop_audit_results host both ≡ ok (only, 1)
unfolding drop_audit_results or_else any
dropped = refl

-- A run that names no low-confidence rule.
demoted_count : demote_low_confidence_levels host only ≡ ok (only, 0)
unfolding demote_low_confidence_levels or_else any
demoted_count = refl

-- A run that names an audit rule whose default level is an error, and a result of it without a level.
abbrev audit_run : Text → Json
audit_run level = obj (
    field (text "runs")
      (arr (
        cons
          (obj (
            field (text "tool")
              (obj (
                field (text "driver")
                  (obj (
                    field (text "rules")
                      (arr (
                        cons
                          (obj (
                            field (text "id") (str (text "go.audit.x")) (
                              field (text "defaultConfiguration")
                                (obj (field (text "level") (str level) end)) end)))
                          nil))
                      end))
                  end))
              (field (text "results")
                (arr (cons (obj (field (text "ruleId") (str (text "go.audit.x")) end)) nil)) end)))
          nil))
      end)

demoted_default :
    demote_low_confidence_levels host (audit_run (text "error"))
    ≡ ok (audit_run (text "warning"), 1)
unfolding demote_low_confidence_levels or_else any
demoted_default = refl

drop_audit_results_again_example : drop_audit_results host only ≡ ok (only, 0)
drop_audit_results_again_example = drop_audit_results_again host both only 1 dropped
