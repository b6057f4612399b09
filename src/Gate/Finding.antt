-- ===== src/Gate/Finding.antt =====
-- The data of gate.py: severities, `Finding`, `GateResult` with its two derived properties, and
-- `evaluate`. A severity is one of the four that the parsers write; the sort key of an unknown
-- one (0) has no value to stand for. A Python set of keys is a list that is read by `in` only.
use security_toolchain.Prelude.{
  ℕ, ℤ, ◌+◌, Bool, true, false, not, ◌||◌, Option, none, some, List, [], ◌∷◌, map, Text, text, leb,
  ◌==◌, text_eq, if◌then◌else◌, any, keep, contains, length,
}
use security_toolchain.Prelude.Sorting.{sorted_set}
use security_toolchain.Str.Space.{is_space}
use security_toolchain.Str.Strip.{strip}

pub data Severity : Type 0 where
  low medium high critical : Severity

-- SEVERITY_ORDER
abbrev pub severity_order : Severity → ℕ
severity_order low = 1
severity_order medium = 2
severity_order high = 3
severity_order critical = 4

-- BLOCKING_MIN
abbrev pub blocking_min : Severity
blocking_min = high

pub record Finding : Type 0 where
  pub tool : Text
  pub key : Text
  pub severity : Severity
  pub path : Text
  pub line : Option ℤ
  pub message : Text
  pub rule : Text
  pub extra : List (Text × Text)

-- `__post_init__`: the key that a constructed finding carries.
unfoldable pub post_init : Finding → Finding
unfolding strip is_space
post_init f = record f { key = strip f.key }

unfoldable pub blocking : Finding → Bool
blocking f = leb (severity_order blocking_min) (severity_order f.severity)

pub record GateResult : Type 0 where
  pub tool : Text
  pub mode : Text
  pub baseline_present : Bool
  pub new : List Finding
  pub known : List Finding
  pub fixed : List Text
  pub ignored_low : ℕ

abbrev pub ratchet : Text
ratchet = text "ratchet"

abbrev pub advisory : Text
advisory = text "advisory"

-- `GateResult.exit_code`
unfoldable pub exit_code : GateResult → ℕ
unfolding blocking any
exit_code r =
    if not (r.mode == ratchet) || not r.baseline_present
    then 0
    else if any blocking r.new
    then 1
    else 0

-- The keys that were observed.
abbrev pub keys : List Finding → List Text
keys = map (λ f. f.key)

-- What the loop over the findings has put where.
pub record Split : Type 0 where
  pub new : List Finding
  pub known : List Finding
  pub low : ℕ

-- One round: `known`, `new`, or one more below the threshold.
place : List Text → Finding → Split → Split
unfolding blocking contains any
place baseline f s =
    if contains baseline f.key
    then record s { known = f ∷ s.known }
    else if blocking f
    then record s { new = f ∷ s.new }
    else record s { low = s.low + 1 }

unfoldable pub split : List Text → List Finding → Split
unfolding place
split baseline [] = record { new = []; known = []; low = 0 }
split baseline (f ∷ fs) = place baseline f (split baseline fs)

-- `evaluate`
unfoldable pub evaluate : Text → List Finding → Option (List Text) → Text → GateResult
unfolding split blocking keep sorted_set contains
evaluate tool findings none mode = record {
  tool = tool;
  mode = mode;
  baseline_present = false;
  new = keep blocking findings;
  known = [];
  fixed = [];
  ignored_low = length (keep (λ f. not (blocking f)) findings);
}
evaluate tool findings (some baseline) mode =
    let s = split baseline findings in
    record {
      tool = tool;
      mode = mode;
      baseline_present = true;
      new = s.new;
      known = s.known;
      fixed = sorted_set (keep (λ k. not (contains (keys findings) k)) baseline);
      ignored_low = s.low;
    }
