-- ===== src/Hooks/Excludes.antt =====
-- What the command of `opengrep` keeps out of a scan.
use security_toolchain.Prelude.{
  ◌≡◌, refl, ◌∙◌, ap, sym, Bool, true, false, ◌&&◌, ◌||◌, Option, List, [], ◌∷◌, ◌++◌, Text, text,
  ◌==◌, text_eq, text_beq_refl, All, arith,
}
use mathlib.Core.List.{append_assoc}
use security_toolchain.Hooks.Commands.{
  default_skip_dirs, test_path_globs, opengrep_excludes, options, opengrep_start, opengrep_flags,
  target_arguments, opengrep_command,
}

starts_with_pair : Text → Text → List Text → Bool
starts_with_pair flag x (a ∷ b ∷ rest) = a == flag && b == x
starts_with_pair flag x _ = false

-- The arguments name x right after the flag.
unfoldable pub has_option : Text → Text → List Text → Bool
unfolding starts_with_pair
has_option flag x [] = false
has_option flag x (a ∷ rest) = starts_with_pair flag x (a ∷ rest) || has_option flag x rest

has_option-later :
    (flag x : Text) (before after : List Text)
    → has_option flag x after ≡ true
    → has_option flag x (before ++ after) ≡ true
unfolding has_option
has_option-later flag x [] after h = h
has_option-later flag x (a ∷ before) after h =
    ground (arith, has_option-later flag x before after h)

All-imp : (P Q : Text → Type 0) (xs : List Text) → ((x : Text) → P x → Q x) → All P xs → All Q xs
All-imp P Q [] f h = tt
All-imp P Q (x ∷ xs) f (h, hs) = (f x h, All-imp P Q xs f hs)

options-All :
    (flag : Text) (xs after : List Text)
    → All (λ x. has_option flag x (options flag xs ++ after) ≡ true) xs
unfolding options has_option starts_with_pair
options-All flag [] after = tt
options-All flag (x ∷ xs) after = (
  rw (text_beq_refl flag, text_beq_refl x) refl,
  All-imp (λ y. has_option flag y (options flag xs ++ after) ≡ true)
      (λ y. has_option flag y (flag ∷ x ∷ (options flag xs ++ after)) ≡ true) xs
      (λ y. has_option-later flag y (flag ∷ x ∷ []) (options flag xs ++ after))
      (options-All flag xs after),
)

-- The patterns that a run of opengrep has to exclude.
abbrev pub excluded : Bool → List Text
excluded true = default_skip_dirs
excluded false = default_skip_dirs ++ test_path_globs

excludes-excluded : (scan_tests : Bool) → opengrep_excludes scan_tests ≡ excluded scan_tests
unfolding opengrep_excludes
excludes-excluded true = refl
excludes-excluded false = refl

flags-split :
    (report : Text) (scan_tests : Bool) (configs rules : List Text) (targets : Option (List Text))
    → opengrep_command report scan_tests configs rules targets
      ≡ opengrep_start report
        ++ (options (text "--exclude") (excluded scan_tests)
            ++ ((text "--force-exclude"
                  ∷ (options (text "--config") configs ++ options (text "--exclude-rule") rules))
                ++ target_arguments targets))
unfolding opengrep_command opengrep_flags
flags-split report scan_tests configs rules targets =
    let late =
      text "--force-exclude"
      ∷ (options (text "--config") configs ++ options (text "--exclude-rule") rules) in
    rw
      (
        excludes-excluded scan_tests,
        append_assoc (opengrep_start report)
            (options (text "--exclude") (excluded scan_tests) ++ late) (target_arguments targets),
        append_assoc (options (text "--exclude") (excluded scan_tests)) late
            (target_arguments targets),
      )
      refl

-- Every command of opengrep names each skipped directory, and each test path unless tests are to be
-- scanned, as an exclusion, and it ends in the flag that makes these hold for files that are named, the
-- configurations, the excluded rules and the targets, in this order.
pub opengrep_command-excludes :
    (report : Text) (scan_tests : Bool) (configs rules : List Text) (targets : Option (List Text))
    → let command = opengrep_command report scan_tests configs rules targets in
      All (λ pattern. has_option (text "--exclude") pattern command ≡ true) (excluded scan_tests)
      × (before : List Text) × (command
          ≡ before
            ++ ((text "--force-exclude"
                  ∷ (options (text "--config") configs ++ options (text "--exclude-rule") rules))
                ++ target_arguments targets))
opengrep_command-excludes report scan_tests configs rules targets =
    let late =
      (text "--force-exclude"
        ∷ (options (text "--config") configs ++ options (text "--exclude-rule") rules))
      ++ target_arguments targets in
    let patterns = excluded scan_tests in
    let split = flags-split report scan_tests configs rules targets in
    (
      All-imp
          (λ p.
            has_option (text "--exclude") p (options (text "--exclude") patterns ++ late) ≡ true)
          (λ p.
            has_option (text "--exclude") p
              (opengrep_command report scan_tests configs rules targets)
            ≡ true)
          patterns
          (λ p h.
            ap (has_option (text "--exclude") p) split
            ∙ has_option-later (text "--exclude") p (opengrep_start report)
                (options (text "--exclude") patterns ++ late) h)
          (options-All (text "--exclude") patterns late),
      opengrep_start report ++ options (text "--exclude") patterns,
      split ∙ sym (append_assoc (opengrep_start report) (options (text "--exclude") patterns) late),
    )
