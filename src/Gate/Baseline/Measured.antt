-- ===== src/Gate/Baseline/Measured.antt =====
-- The baseline of a run, and the gate on the findings of the same run.
use security_toolchain.Prelude.{
  ◌≡◌, refl, ◌∙◌, true, false, not, some, List, [], Text, text, text_eq, arith, any, keep, contains,
  any-eq-false, keep-eq-nil, All, ◌∷◌, contains-cons, text_beq_refl,
}
use security_toolchain.Prelude.Result.{ok}
use security_toolchain.Prelude.Sorting.{sorted_set, contains-sorted_set}
use security_toolchain.Str.Lines.{IsLine}
use security_toolchain.Gate.Finding.{Finding, exit_code, evaluate, keys}
use security_toolchain.Gate.Evaluate.{is_new, exit_code-evaluate, evaluate_selects}
use security_toolchain.Gate.Baseline.{
  Env, env_or, run_url, read_baseline, render_baseline, write_baseline,
}
use security_toolchain.Gate.Baseline.RoundTrip.{CanStore, read_baseline-render_baseline}

-- Nothing is new against a baseline that has every key.
any-is_new :
    (baseline : List Text) (fs : List Finding)
    → ((k : Text) → contains (keys fs) k ≡ true → contains baseline k ≡ true)
    → any (is_new baseline) fs ≡ false
unfolding any
any-is_new baseline [] h = refl
any-is_new baseline (f ∷ fs) h = ground (
  arith,
  h f.key,
  contains-cons f.key (keys fs) f.key,
  text_beq_refl f.key,
  any-is_new baseline fs (λ k m. h k (rw contains-cons (ground arith))),
)

stale : (fs : List Finding) → keep (λ k. not (contains (keys fs) k)) (sorted_set (keys fs)) ≡ []
stale fs =
    keep-eq-nil _ (sorted_set (keys fs))
      (any-eq-false _ (sorted_set (keys fs)) λ k m. ground (arith, contains-sorted_set (keys fs) k))

passes_sorted :
    (tool : Text) (fs : List Finding) (mode : Text)
    → let r = evaluate tool fs (some (sorted_set (keys fs))) mode in
      (exit_code r ≡ 0) × (r.new ≡ []) × (r.fixed ≡ [])
passes_sorted tool fs mode =
    let baseline = sorted_set (keys fs) in
    let none_new = any-is_new baseline fs (λ k m. contains-sorted_set (keys fs) k ∙ m) in
    (
      exit_code-evaluate tool fs (some baseline) mode ∙ ground arith,
      (evaluate_selects tool fs baseline mode).0 ∙ keep-eq-nil (is_new baseline) fs none_new,
      unfold evaluate sorted_set in rw (stale fs),
    )

written :
    (env : Env) (tool version : Text) (ks : List Text) {content : Text}
    → write_baseline env tool version ks ≡ ok content
    → content
      ≡ render_baseline tool version
          (env_or env (text "GITHUB_SHA") (text "unknown"))
          (run_url env)
          ks
unfolding write_baseline
written env tool version ks h = ground arith

-- When a run on Actions writes the baseline of its findings, then the same findings pass the gate
-- against the file in either mode (none is new, and no entry of the baseline is to be taken out), if
-- every key can be stored (it is not empty, has no line boundary, no space at its end and no # at its
-- start) and the tool, its version, the commit and the run's url hold no line boundary.
pub write_baseline_passes :
    (env : Env) (tool version : Text) (fs : List Finding) (mode : Text) {content : Text}
    → write_baseline env tool version (keys fs) ≡ ok content
    → IsLine tool
    → IsLine version
    → IsLine (env_or env (text "GITHUB_SHA") (text "unknown"))
    → IsLine (run_url env)
    → All CanStore (keys fs)
    → let r = evaluate tool fs (read_baseline (some content)) mode in
      (exit_code r ≡ 0) × (r.new ≡ []) × (r.fixed ≡ [])
write_baseline_passes env tool version fs mode {content} h a b c d stored =
    rw
      (
        written env tool version (keys fs) h,
        read_baseline-render_baseline tool version _ _ (keys fs) a b c d stored,
      )
      (passes_sorted tool fs mode)
