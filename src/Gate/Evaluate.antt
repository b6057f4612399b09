-- ===== src/Gate/Evaluate.antt =====
-- What `evaluate` and `exit_code` of gate.py decide.
use security_toolchain.Prelude.{
  ◌+◌, ◌≤◌, ◌≡◌, refl, Bool, true, false, not, ◌&&◌, Option, none, some, List, [], ◌∷◌, Text, ◌==◌,
  text_eq, arith, if◌then◌else◌, any, keep, contains, length, any-keep, any_mono, any_congr,
  contains-keep, ◌∙◌,
}
use security_toolchain.Prelude.Sorting.{sorted_set-IsAscending, contains-sorted_set, IsAscending}
use security_toolchain.Gate.Finding.{Finding, blocking, exit_code, keys, split, evaluate, ratchet}

module _ (baseline : List Text) where
  -- A finding whose key the baseline lacks, and which is high enough to block.
  abbrev pub is_new : Finding → Bool
  is_new f = not (contains baseline f.key) && blocking f

  new-split : (fs : List Finding) → (split baseline fs).new ≡ keep is_new fs
  unfolding split keep
  new-split [] = refl
  new-split (f ∷ fs) = ground (arith, new-split fs)

  known-split :
      (fs : List Finding) → (split baseline fs).known ≡ keep (λ f. contains baseline f.key) fs
  unfolding split keep
  known-split [] = refl
  known-split (f ∷ fs) = ground (arith, known-split fs)

  split_total :
      (fs : List Finding)
      → length (split baseline fs).new + length (split baseline fs).known + (split baseline fs).low
        ≡ length fs
  unfolding split
  split_total [] = omega arith
  split_total (f ∷ fs) = ground (arith, split_total fs)

length-keep-not :
    (p : Finding → Bool) (fs : List Finding)
    → length (keep p fs) + length (keep (λ f. not (p f)) fs) ≡ length fs
unfolding keep
length-keep-not p [] = omega arith
length-keep-not p (f ∷ fs) = ground (arith, length-keep-not p fs)

-- Whatever the baseline and the mode, each finding is counted once: as new, as known or as below
-- the threshold.
pub evaluate_counts_each :
    (tool : Text) (fs : List Finding) (baseline : Option (List Text)) (mode : Text)
    → let r = evaluate tool fs baseline mode in
      length r.new + length r.known + r.ignored_low ≡ length fs
unfolding evaluate
evaluate_counts_each tool fs none mode = omega (arith, length-keep-not blocking fs)
evaluate_counts_each tool fs (some baseline) mode = split_total baseline fs

-- Against a baseline, the new findings are exactly the blocking ones whose key it lacks, and the
-- known ones exactly those whose key it has, both in the order in which they were found.
pub evaluate_selects :
    (tool : Text) (fs : List Finding) (baseline : List Text) (mode : Text)
    → let r = evaluate tool fs (some baseline) mode in
      (r.new ≡ keep (is_new baseline) fs)
      × (r.known ≡ keep (λ f. contains baseline f.key) fs)
      × (r.baseline_present ≡ true)
unfolding evaluate
evaluate_selects tool fs baseline mode = (new-split baseline fs, known-split baseline fs, refl)

-- The verdict, told from the inputs alone.
abbrev pub fails : List Finding → Option (List Text) → Text → Bool
fails fs none mode = false
fails fs (some baseline) mode = mode == ratchet && any (is_new baseline) fs

any-blocking-new :
    (baseline : List Text) (fs : List Finding)
    → any blocking (keep (is_new baseline) fs) ≡ any (is_new baseline) fs
any-blocking-new baseline fs =
    any-keep blocking (is_new baseline) fs
    ∙ any_congr (λ f. is_new baseline f && blocking f) (is_new baseline) (λ f. ground arith) fs

-- The gate fails exactly when the mode is ratchet, there is a baseline, and some finding blocks
-- whose key the baseline lacks; otherwise the exit code is 0.
pub exit_code-evaluate :
    (tool : Text) (fs : List Finding) (baseline : Option (List Text)) (mode : Text)
    → exit_code (evaluate tool fs baseline mode) ≡ (if fails fs baseline mode then 1 else 0)
unfolding exit_code evaluate
exit_code-evaluate tool fs none mode = ground arith
exit_code-evaluate tool fs (some baseline) mode =
    rw (new-split baseline fs, any-blocking-new baseline fs) (ground arith)

-- The keys to take out of the baseline: in ascending order, each once, and exactly those that the
-- baseline has and no finding carries.
pub evaluate_fixed :
    (tool : Text) (fs : List Finding) (baseline : List Text) (mode : Text)
    → let r = evaluate tool fs (some baseline) mode in
      IsAscending r.fixed
      × ((k : Text) → contains r.fixed k ≡ (contains baseline k && not (contains (keys fs) k)))
unfolding evaluate
evaluate_fixed tool fs baseline mode =
    let gone = λ (k : Text). not (contains (keys fs) k) in
    (
      sorted_set-IsAscending (keep gone baseline),
      λ k. contains-sorted_set (keep gone baseline) k ∙ contains-keep gone baseline k,
    )

-- A baseline that has every key of another one never turns a pass into a failure.
pub exit_code-grow :
    (tool : Text) (fs : List Finding) (smaller larger : List Text) (mode : Text)
    → ((k : Text) → contains smaller k ≡ true → contains larger k ≡ true)
    → exit_code (evaluate tool fs (some larger) mode)
      ≤ exit_code (evaluate tool fs (some smaller) mode)
exit_code-grow tool fs smaller larger mode h =
    rw (exit_code-evaluate, exit_code-evaluate)
      (ground (arith, any_mono (is_new larger) (is_new smaller) (λ f. ground (arith, h f.key)) fs))
