-- ===== src/Gate/Sarif/DropAgain.antt =====
-- `drop_audit_results` on a report that it has already gone through.
use security_toolchain.Prelude.{
  ℕ, ◌-◌, ◌≡◌, refl, ◌∙◌, ap, sym, subst, inl, inr, Bool, true, List, [], ◌∷◌, text, ◌==◌, text_eq,
  nat_eq, if◌then◌else◌, arith, Bool-cases, length,
}
use security_toolchain.Prelude.Result.{ok, bind-eq-ok, ok-injective}
use security_toolchain.Json.{
  Json, Fields, null, bool, int, frac, str, arr, obj, Py, attribute_error, Dict, empty_arr, get,
  or_else, or_default, truthy, iterate, find_field, of_list,
}
use security_toolchain.Gate.Host.{Host}
use security_toolchain.Gate.Sarif.Low.{set_field, rewrite_each, rewrite_items, rewrite_field}
use security_toolchain.Gate.Sarif.Demote.{sum}
use security_toolchain.Gate.Sarif.Drop.{
  rules_of, is_kept, keep_each, with_results, drop_run, drop_audit_results,
}
use security_toolchain.Gate.Sarif.Settles.{
  FieldAgain, RaisesOnText, Each, to_list-of_list, rewrite_items-Settles, rewrite_field-settles,
  find_field-set_field,
}

-- Nothing more is dropped.
abbrev Nothing : ℕ → ℕ → Type 0
Nothing n m = m ≡ 0

keep_each_again :
    (test : Json → Py Bool) (xs ks : List Json)
    → keep_each test xs ≡ ok ks
    → keep_each test ks ≡ ok ks
unfolding keep_each
keep_each_again test [] ks e = subst (λ l. keep_each test l ≡ ok l) (ok-injective e) refl
keep_each_again test (x ∷ xs) ks e =
    let (stays, e1, d1) = bind-eq-ok (test x) _ e in
    let (kept, e2, d2) = bind-eq-ok (keep_each test xs) _ e1 in
    let again = keep_each_again test xs kept d2 in
    subst (λ l. keep_each test l ≡ ok l) (ok-injective e2)
      (elim (Bool-cases stays) [
        | inl true_stays ↦ rw (true_stays) (rw (d1, true_stays, again) refl)
        | inr gone ↦ rw (gone) again
      ])

iterate-kept : (kept : List Json) → iterate (or_else (arr (of_list kept)) empty_arr) ≡ ok kept
unfolding iterate or_else truthy
iterate-kept [] = refl
iterate-kept (x ∷ xs) = ap (λ l. ok (x ∷ l)) (to_list-of_list xs)

rules_of-results :
    (v : Json) (fs : Fields) → rules_of (obj (set_field (text "results") v fs)) ≡ rules_of (obj fs)
unfolding rules_of get
rules_of-results v fs = rw (find_field-set_field (text "results") v fs (text "tool")) refl

abbrev RunAgain : Host → Json × ℕ → Type 0
RunAgain host p = (m : ℕ) × (drop_run host p.0 ≡ ok (p.0, m)) × (m ≡ 0)

count_again : (n : ℕ) → ((n == n) ≡ true) × (n - n ≡ 0)
count_again n = (ground arith, omega arith)

-- A run with the kept results in place of its own.
drop_run-kept :
    (host : Host) (fs : Fields) (rules : Dict) (results kept : List Json)
    → rules_of (obj fs) ≡ ok rules
    → keep_each (is_kept host rules) results ≡ ok kept
    → drop_run host (with_results (obj fs) kept) ≡ ok (with_results (obj fs) kept, 0)
unfolding drop_run with_results get
drop_run-kept host fs rules results kept e k =
    let items : iterate (if truthy (arr (of_list kept)) then arr (of_list kept) else empty_arr)
        ≡ ok kept =
      iterate-kept kept in
    rw
      (
        rules_of-results (arr (of_list kept)) fs,
        e,
        find_field-set_field (text "results") (arr (of_list kept)) fs (text "results"),
      )
      (rw
        (
          items,
          keep_each_again (is_kept host rules) results kept k,
          (count_again (length kept)).0,
          (count_again (length kept)).1,
        )
        refl)

drop_run-obj :
    (host : Host) (v : Json) (p : Json × ℕ) → drop_run host v ≡ ok p → (fs : Fields) × (v ≡ obj fs)
unfolding drop_run rules_of get
drop_run-obj host (obj fs) p e = (fs, refl)
drop_run-obj host null p e = absurd (cc)
drop_run-obj host (bool b) p e = absurd (cc)
drop_run-obj host (int n) p e = absurd (cc)
drop_run-obj host (frac s) p e = absurd (cc)
drop_run-obj host (str s) p e = absurd (cc)
drop_run-obj host (arr xs) p e = absurd (cc)

kept-RunAgain :
    (host : Host) (fs : Fields) (rules : Dict) (results kept : List Json)
    → drop_run host (obj fs)
      ≡ ok (
        if length kept == length results then obj fs else with_results (obj fs) kept,
        length results - length kept,
      )
    → rules_of (obj fs) ≡ ok rules
    → keep_each (is_kept host rules) results ≡ ok kept
    → RunAgain host (
      if length kept == length results then obj fs else with_results (obj fs) kept,
      length results - length kept,
    )
kept-RunAgain host fs rules results kept whole e k =
    elim (Bool-cases (length kept == length results)) [
      | inl same ↦ rw (same) (length results - length kept, rw (same) at whole, ground arith)
      | inr fewer ↦ rw (fewer) (0, drop_run-kept host fs rules results kept e k, refl)
    ]

obj-RunAgain :
    (host : Host) (fs : Fields) (p : Json × ℕ) → drop_run host (obj fs) ≡ ok p → RunAgain host p
unfolding drop_run
obj-RunAgain host fs p e =
    let (rules, e1, d1) = bind-eq-ok (rules_of (obj fs)) _ e in
    let raw = or_default (find_field (text "results") fs) empty_arr in
    let (results, e3, d3) = bind-eq-ok (iterate (if truthy raw then raw else empty_arr)) _ e1 in
    let (kept, e4, d4) = bind-eq-ok (keep_each (is_kept host rules) results) _ e3 in
    subst (RunAgain host) (ok-injective e4)
      (kept-RunAgain host fs rules results kept (e ∙ sym e4) d1 d4)

run-RunAgain : (host : Host) (v : Json) (p : Json × ℕ) → drop_run host v ≡ ok p → RunAgain host p
run-RunAgain host v p e =
    let (fs, same) = drop_run-obj host v p e in
    obj-RunAgain host fs p (subst (λ x. drop_run host x ≡ ok p) same e)

drop_run-stops : (host : Host) → RaisesOnText (drop_run host)
unfolding drop_run rules_of get
drop_run-stops host s = (attribute_error, refl)

sum-Nothing : (ns ms : List ℕ) → Each Nothing ns ms → sum ms ≡ 0
unfolding sum
sum-Nothing [] [] h = refl
sum-Nothing [] (m ∷ ms) h = absurd h
sum-Nothing (n ∷ ns) [] h = absurd h
sum-Nothing (n ∷ ns) (m ∷ ms) (z, zs) = omega (arith, sum-Nothing ns ms zs)

runs-again :
    (host : Host) (report : Json) (p : Json × List ℕ)
    → rewrite_field (text "runs") empty_arr (rewrite_items (drop_run host)) report ≡ ok p
    → FieldAgain
        (Each Nothing)
        (rewrite_field (text "runs") empty_arr (rewrite_items (drop_run host)))
        p
unfolding rewrite_items iterate rewrite_each
runs-again host report p e =
    rewrite_field-settles (Each Nothing) (text "runs") empty_arr (rewrite_items (drop_run host))
      (rewrite_items-Settles Nothing (drop_run host) (λ v v' n h. run-RunAgain host v (v', n) h)
        (drop_run-stops host))
      (λ q h. subst (λ (x : Json × List ℕ). Each Nothing x.1 x.1) (ok-injective h) tt) report p e

abbrev DropsNothing : Host → Json × ℕ → Type 0
DropsNothing host p = drop_audit_results host p.0 ≡ ok (p.0, 0)

-- A SARIF that drop_audit_results has gone through is left as it is by a second run, which counts
-- nothing; so the function is idempotent, also on a report that it did not have to change.
pub drop_audit_results_again :
    (host : Host) (report after : Json) (n : ℕ)
    → drop_audit_results host report ≡ ok (after, n)
    → drop_audit_results host after ≡ ok (after, 0)
unfolding drop_audit_results
drop_audit_results_again host report after n e =
    let ((changed, counts), e1, d1) =
      bind-eq-ok (rewrite_field (text "runs") empty_arr (rewrite_items (drop_run host)) report) _
        e in
    let (ms, again, rs) = runs-again host report (changed, counts) d1 in
    subst (DropsNothing host) (ok-injective e1) (elim (Bool-cases (sum counts == 0)) [
      | inl none_dropped ↦
          let zero_count : sum counts ≡ 0 = ground arith in
          rw (none_dropped) (rw (d1, zero_count) refl)
      | inr some_dropped ↦ rw (some_dropped) (rw (again, sum-Nothing counts ms rs) refl)
    ])
