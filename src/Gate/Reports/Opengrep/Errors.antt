-- ===== src/Gate/Reports/Opengrep/Errors.antt =====
-- What `parse_opengrep_sarif` raises.
use security_toolchain.Prelude.{
  ℕ, ◌≡◌, refl, ◌⊎◌, inl, inr, Option, none, some, [], ◌∷◌, Text, ◌+◌, ◌*◌, subst,
}
use security_toolchain.Prelude.Result.{ok, err, ◌>>=◌}
use security_toolchain.Json.{
  Json, null, int, str, Py, PyError, attribute_error, type_error, key_error, value_error,
  recursion_error, runtime_error, index_error, overflow_error, truthy, Dict, or_else, first,
}
use security_toolchain.Json.Outcomes.{
  Raises, Raises-ok, Raises-err, Raises-bind, Raises-if, IsShapeOr, IsShape, Raises-first,
  raises_rules,
}
use security_toolchain.Gate.Host.{
  Resolved, below, elsewhere, symlink_loop, Host, Digit, decimal, no_digit, digit_only,
}
use security_toolchain.Gate.Finding.{Severity, high}
use security_toolchain.Gate.Fields.{
  last_candidate, below_root, bare_path, rel_below, rel_text, norm_field, rel, line, int_of,
  line_of_text,
}
use security_toolchain.Gate.Reports.Shape.{
  ReadError, report_error, other, report_shape, reported, convert,
}
use security_toolchain.Gate.Reports.Opengrep.{
  normalize_opengrep_rule_id, severity_of_level, demote_tagged, level_of, one_empty,
  opengrep_result, opengrep_run, parse_opengrep_sarif,
}

ruleset leaf_rules = (raises_rules, Raises-err, tt)

Raises-normalize :
    {Loop : Type 0} (v : Json) → Raises (IsShapeOr Loop) (normalize_opengrep_rule_id v)
unfolding normalize_opengrep_rule_id
Raises-normalize (str s) = Raises-ok _
Raises-normalize null = Raises-err type_error tt
Raises-normalize _ = Raises-err type_error tt

pub Raises-norm_field :
    {Loop : Type 0} (limit : ℕ) (v : Json) → Raises (IsShapeOr Loop) (norm_field limit v)
unfolding norm_field
Raises-norm_field limit (str s) = Raises-ok _
Raises-norm_field limit null = Raises-ok _
Raises-norm_field limit _ = search leaf_rules

Resolved-cases :
    (r : Resolved) → ((path : Text) × (r ≡ below path)) ⊎ (r ≡ elsewhere) ⊎ (r ≡ symlink_loop)
Resolved-cases (below path) = inl (path, refl)
Resolved-cases elsewhere = inr (inl refl)
Resolved-cases symlink_loop = inr (inr refl)

-- A candidate resolves into a loop of symbolic links.
abbrev pub HasLoop : Host → Type 0
HasLoop host =
    (resolve : Text → Resolved) × (candidate : Text) × (host.relative_to_root ≡ some resolve)
    × (resolve candidate ≡ symlink_loop)

module _ {Loop : Type 0} (resolve : Text → Resolved)
    (loops : (c : Text) → resolve c ≡ symlink_loop → Loop) where
  Raises-last_candidate :
      (r : Resolved) → (r ≡ symlink_loop → Loop) → Raises (IsShapeOr Loop) (last_candidate r)
  unfolding last_candidate
  Raises-last_candidate (below path) h = Raises-ok _
  Raises-last_candidate elsewhere h = Raises-ok _
  Raises-last_candidate symlink_loop h = Raises-err runtime_error (h refl)

  Raises-below_root : (uri : Text) → Raises (IsShapeOr Loop) (below_root resolve uri)
  unfolding below_root
  Raises-below_root uri = elim (Resolved-cases (resolve uri)) [
    | inl (path, e) ↦ rw (e, below_root) (Raises-ok _)
    | inr (inl e) ↦ rw (e, below_root) (Raises-last_candidate _ (loops _))
    | inr (inr e) ↦ rw (e, below_root) (Raises-err runtime_error (loops uri e))
  ]

Raises-rel_below :
    {Loop : Type 0} (root : Option (Text → Resolved)) (uri : Text)
    → ((resolve : Text → Resolved) (c : Text)
        → root ≡ some resolve
        → resolve c ≡ symlink_loop
        → Loop)
    → Raises (IsShapeOr Loop) (rel_below uri root)
unfolding rel_below
Raises-rel_below none uri h = Raises-ok _
Raises-rel_below (some resolve) uri h =
    Raises-bind (below_root resolve uri) _
      (Raises-below_root resolve (λ c e. h resolve c refl e) uri) λ found. Raises-ok _

Raises-rel_text :
    (host : Host) (s : Text) → Raises (IsShapeOr (HasLoop host)) (rel_text host.relative_to_root s)
unfolding rel_text
Raises-rel_text host s =
    Raises-rel_below host.relative_to_root (bare_path s) λ resolve c e l. (resolve, c, e, l)

pub Raises-rel : (host : Host) (v : Json) → Raises (IsShapeOr (HasLoop host)) (rel host v)
unfolding rel truthy
Raises-rel host (str s) = Raises-rel_text host s
Raises-rel host null = Raises-rel_text host []
Raises-rel host v =
    Raises-if (truthy v) _ _ (λ _. Raises-err attribute_error tt) (λ _. Raises-rel_text host [])

Digit-cases : (d : Digit) → ((n : ℕ) × (d ≡ decimal n)) ⊎ (d ≡ no_digit) ⊎ (d ≡ digit_only)
Digit-cases no_digit = inr (inl refl)
Digit-cases digit_only = inr (inr refl)
Digit-cases (decimal n) = inl (n, refl)

Raises-int_of :
    {Loop : Type 0} (digit : ℕ → Digit) (n : ℕ) (s : Text)
    → Raises (IsShapeOr Loop) (int_of digit n s)
unfolding int_of
Raises-int_of digit n [] = Raises-ok n
Raises-int_of digit n (c ∷ s) = elim (Digit-cases (digit c)) [
  | inl (d, e) ↦ rw (e, int_of) (Raises-int_of digit (n * 10 + d) s)
  | inr (inl e) ↦ rw (e, int_of) (Raises-err value_error tt)
  | inr (inr e) ↦ rw (e, int_of) (Raises-err value_error tt)
]

Raises-line_of_text :
    {Loop : Type 0} (digit : ℕ → Digit) (s : Text) → Raises (IsShapeOr Loop) (line_of_text digit s)
unfolding line_of_text
Raises-line_of_text digit [] = Raises-ok none
Raises-line_of_text digit (c ∷ s) = search (leaf_rules, Raises-int_of) depth 9

pub Raises-line : {Loop : Type 0} (host : Host) (v : Json) → Raises (IsShapeOr Loop) (line host v)
unfolding line
Raises-line host (int n) = Raises-ok _
Raises-line host (str s) = Raises-line_of_text host.digit s
Raises-line host _ = Raises-ok _

Raises-severity_of_level :
    {Loop : Type 0} (v : Json) → Raises (IsShapeOr Loop) (severity_of_level v)
unfolding severity_of_level
Raises-severity_of_level (str s) = Raises-ok _
Raises-severity_of_level _ = search leaf_rules

Raises-demote_tagged :
    {Loop : Type 0} (host : Host) (s : Severity) (tags : Json)
    → Raises (IsShapeOr Loop) (demote_tagged host s tags)
unfolding demote_tagged
Raises-demote_tagged host high tags = search leaf_rules
Raises-demote_tagged host _ tags = Raises-ok _

Raises-level_of : {Loop : Type 0} (own meta : Json) → Raises (IsShapeOr Loop) (level_of own meta)
unfolding level_of
Raises-level_of own meta = search leaf_rules

pub Raises-location :
    {Loop : Type 0} (locations : Json)
    → Raises (IsShapeOr Loop) (first (or_else locations one_empty))
unfolding one_empty truthy
Raises-location locations = Raises-first locations one_empty refl

ruleset opengrep_rules = (
  raises_rules, Raises-normalize, Raises-norm_field, Raises-rel, Raises-line,
  Raises-severity_of_level, Raises-demote_tagged, Raises-level_of, Raises-location,
)

Raises-opengrep_result :
    (host : Host) (rules : Dict) (res : Json)
    → Raises (IsShapeOr (HasLoop host)) (opengrep_result host rules res)
unfolding opengrep_result
Raises-opengrep_result host rules res = search opengrep_rules depth 60

Raises-opengrep_run :
    (host : Host) (run : Json) → Raises (IsShapeOr (HasLoop host)) (opengrep_run host run)
unfolding opengrep_run
Raises-opengrep_run host run = search (opengrep_rules, Raises-opengrep_result) depth 30

Raises-parse :
    (host : Host) (report : Json)
    → Raises (IsShapeOr (HasLoop host)) (parse_opengrep_sarif host report)
unfolding parse_opengrep_sarif
Raises-parse host report = search (opengrep_rules, Raises-opengrep_run) depth 12

-- The ways in which a decorated reader fails.
abbrev pub IsReportFailure : Host → ReadError → Type 0
IsReportFailure host (report_error e) = IsShape e
IsReportFailure host (other value_error) = Unit
IsReportFailure host (other runtime_error) = HasLoop host
IsReportFailure host (other _) = ⊥

module _ (host : Host) where
  reported-IsReportFailure :
      (e : PyError) → IsShapeOr (HasLoop host) e → IsReportFailure host (reported e)
  unfolding reported
  reported-IsReportFailure attribute_error h = tt
  reported-IsReportFailure type_error h = tt
  reported-IsReportFailure key_error h = tt
  reported-IsReportFailure recursion_error h = tt
  reported-IsReportFailure value_error h = tt
  reported-IsReportFailure runtime_error h = h
  reported-IsReportFailure index_error h = h
  reported-IsReportFailure overflow_error h = h

  convert-err :
      {A : Type 0} (m : Py A) (e : ReadError)
      → Raises (IsShapeOr (HasLoop host)) m
      → convert m ≡ err e
      → IsReportFailure host e
  unfolding convert
  convert-err (ok a) e hm h = cc
  convert-err (err x) e hm h =
      subst (IsReportFailure host) {x = reported x} (cc) (reported-IsReportFailure x (hm.at x refl))

-- Whatever JSON value an Opengrep report decodes to, its reader returns findings, or fails with a
-- `ReportError` for a value of the wrong shape, with a plain `ValueError`, or with the `RuntimeError`
-- of a path that resolves into a loop of symbolic links where there is one, and in no other way, if
-- decoding itself fails by such an error at most.
pub parse_opengrep_sarif_errors :
    (host : Host) (loaded : Py Json) (e : ReadError)
    → Raises (IsShapeOr (HasLoop host)) loaded
    → report_shape (parse_opengrep_sarif host) loaded ≡ err e
    → IsReportFailure host e
unfolding report_shape
parse_opengrep_sarif_errors host loaded e hl h =
    convert-err host (loaded >>= parse_opengrep_sarif host) e
      (Raises-bind loaded _ hl (Raises-parse host)) h
