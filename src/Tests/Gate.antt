-- ===== src/Tests/Gate.antt =====
-- gate.py at concrete findings and baselines.
use security_toolchain.Prelude.{
  ◌≡◌, refl, ◌+◌, ◌≤◌, true, not, ◌&&◌, none, some, List, [], ◌∷◌, ◌++◌, Text, text, ◌==◌, text_eq,
  if◌then◌else◌, keep, contains, length, All, any,
}
use security_toolchain.Prelude.Result.{err}
use security_toolchain.Prelude.Sorting.{sorted_set, IsAscending}
use security_toolchain.Str.{starts_with}
use security_toolchain.Str.Space.{is_space, is_break}
use security_toolchain.Str.Strip.{rstrip}
use security_toolchain.Gate.Whitespace.{norm_ws, norm_ws_idem}
use security_toolchain.Gate.Finding.{
  Finding, Severity, low, high, critical, evaluate, exit_code, keys, ratchet, advisory, post_init,
  blocking,
}
use security_toolchain.Gate.Evaluate.{
  is_new, evaluate_counts_each, evaluate_selects, exit_code-evaluate, evaluate_fixed,
  exit_code-grow,
}
use security_toolchain.Gate.Baseline.{
  Env, read_baseline, render_baseline, write_baseline, outside_github_actions, is_comment,
}
use security_toolchain.Gate.Baseline.RoundTrip.{
  CanStore, can_store, read_baseline-render_baseline, read_baseline-CanStore,
}
use security_toolchain.Gate.Baseline.Measured.{write_baseline_passes}

abbrev finding : Text → Severity → Finding
finding key severity = record {
  tool = text "osv";
  key = key;
  severity = severity;
  path = text "uv.lock";
  line = none;
  message = text "m";
  rule = text "r";
  extra = [];
}

abbrev found : List Finding
found = finding (text "b") high ∷ finding (text "a") critical ∷ finding (text "c") low ∷ []

abbrev baseline : List Text
baseline = text "z" ∷ text "a" ∷ text "x" ∷ []

norm_ws_runs : norm_ws 8 (text "  a \t b c   d  ") ≡ text "a b c d"
unfolding norm_ws
norm_ws_runs = refl

norm_ws_cuts : norm_ws 4 (text "foo bar") ≡ text "foo"
unfolding norm_ws
norm_ws_cuts = refl

post_init_trims : (post_init (finding (text "r :: p :: ") high)).key ≡ text "r :: p ::"
unfolding post_init
post_init_trims = refl

evaluate_runs : evaluate (text "osv") found (some baseline) ratchet ≡ record {
  tool = text "osv";
  mode = ratchet;
  baseline_present = true;
  new = finding (text "b") high ∷ [];
  known = finding (text "a") critical ∷ [];
  fixed = text "x" ∷ text "z" ∷ [];
  ignored_low = 1;
}
unfolding evaluate
evaluate_runs = refl

advisory_passes : exit_code (evaluate (text "osv") found (some baseline) advisory) ≡ 0
unfolding evaluate exit_code
advisory_passes = refl

norm_ws_idem_example : norm_ws 4 (norm_ws 4 (text "foo bar")) ≡ norm_ws 4 (text "foo bar")
norm_ws_idem_example = norm_ws_idem 4 (text "foo bar")

evaluate_counts_each_example :
    let r = evaluate (text "osv") found (some baseline) ratchet in
    length r.new + length r.known + r.ignored_low ≡ 3
evaluate_counts_each_example = evaluate_counts_each (text "osv") found (some baseline) ratchet

evaluate_selects_example :
    let r = evaluate (text "osv") found (some baseline) ratchet in
    (r.new ≡ keep (is_new baseline) found)
    × (r.known ≡ keep (λ f. contains baseline f.key) found)
    × (r.baseline_present ≡ true)
evaluate_selects_example = evaluate_selects (text "osv") found baseline ratchet

exit_code-evaluate_example : exit_code (evaluate (text "osv") found (some baseline) ratchet) ≡ 1
unfolding contains any blocking
exit_code-evaluate_example = exit_code-evaluate (text "osv") found (some baseline) ratchet

evaluate_fixed_example :
    let r = evaluate (text "osv") found (some baseline) ratchet in
    IsAscending r.fixed
    × ((k : Text) → contains r.fixed k ≡ (contains baseline k && not (contains (keys found) k)))
evaluate_fixed_example = evaluate_fixed (text "osv") found baseline ratchet

exit_code-grow_example :
    exit_code (evaluate (text "osv") found (some baseline) ratchet)
    ≤ exit_code (evaluate (text "osv") found (some []) ratchet)
unfolding contains any
exit_code-grow_example = exit_code-grow (text "osv") found [] baseline ratchet (λ k m. absurd (cc))

found_stored : All CanStore (keys found)
unfolding any is_break rstrip is_space is_comment starts_with
found_stored = (refl, (refl, (refl, tt)))

read-render_example :
    read_baseline
      (some (render_baseline (text "osv") (text "2.0") (text "abc") (text "unknown") (keys found)))
    ≡ some (sorted_set (keys found))
unfolding any is_break
read-render_example =
    read_baseline-render_baseline (text "osv") (text "2.0") (text "abc") (text "unknown")
      (keys found) refl refl refl refl found_stored

abbrev small_file : Text
small_file = text "# tool: osv" ++ (10 ∷ text "a b  " ++ (10 ∷ []))

small_file_keys : read_baseline (some small_file) ≡ some (text "a b" ∷ [])
unfolding read_baseline
small_file_keys = refl

read_baseline-CanStore_example : can_store (text "a b") ≡ true
unfolding read_baseline contains any
read_baseline-CanStore_example =
    read_baseline-CanStore small_file {keys = text "a b" ∷ []} refl (text "a b") refl

abbrev on_actions : Env
on_actions name = if name == text "GITHUB_ACTIONS" then some (text "True") else none

write_baseline_refuses :
    write_baseline (λ name. none) (text "osv") (text "2.0") [] ≡ err outside_github_actions
unfolding write_baseline
write_baseline_refuses = refl

write_baseline_passes_example :
    let r =
      evaluate
        (text "osv")
        found
        (read_baseline (
          some (
            render_baseline
              (text "osv")
              (text "2.0")
              (text "unknown")
              (text "unknown")
              (keys found))))
        ratchet in
    (exit_code r ≡ 0) × (r.new ≡ []) × (r.fixed ≡ [])
unfolding write_baseline any is_break
write_baseline_passes_example =
    write_baseline_passes on_actions (text "osv") (text "2.0") found ratchet refl refl refl refl
      refl found_stored
