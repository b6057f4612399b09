-- ===== src/Gate/Fields.antt =====
-- The readers of single fields in gate.py: `_severity_from_score`, `_line`, `_identifier`, `_rel`
-- and `_norm_ws` on a value of a report.
use security_toolchain.Prelude.{
  ℕ, ℤ, pos, ◌+◌, ◌*◌, Bool, true, false, not, ◌||◌, Option, none, some, [], ◌∷◌, ◌++◌, Text, text,
  ltb, leb, nat_beq, if◌then◌else◌, length,
}
use security_toolchain.Prelude.Result.{ok, err, ◌>>=◌}
use security_toolchain.Json.{
  Json, int, str, Py, type_error, attribute_error, value_error, overflow_error, runtime_error,
  truthy,
}
use security_toolchain.Str.{starts_with}
use security_toolchain.Gate.Host.{
  Resolved, below, elsewhere, symlink_loop, Host, Digit, no_digit, decimal, Score, nan, negative,
  whole, infinite, number, raises_value_error, raises_type_error, raises_overflow_error,
}
use security_toolchain.Gate.Finding.{Severity, low, medium, high, critical}
use security_toolchain.Gate.Whitespace.{norm_ws}

-- score >= n
unfoldable pub at_least : Score → ℕ → Bool
at_least nan n = false
at_least negative n = false
at_least (whole k) n = leb n k
at_least infinite n = true

unfoldable pub severity_from_score : Option Score → Severity
unfolding at_least
severity_from_score none = medium
severity_from_score (some score) =
    if at_least score 9
    then critical
    else if at_least score 7
    then high
    else if at_least score 4
    then medium
    else low

-- `_norm_ws(text or "", limit)`: the regular expression refuses what is no string.
unfoldable pub norm_field : ℕ → Json → Py Text
unfolding truthy norm_ws
norm_field limit (str s) = ok (norm_ws limit s)
norm_field limit v = if truthy v then err type_error else ok []

-- `_identifier`
unfoldable pub identifier : Json → Py Text
identifier (str s) = ok s
identifier _ = err type_error

-- An f-string's `{x}`.
unfoldable pub shown : Host → Json → Text
shown host (str s) = s
shown host v = host.show v

-- s[len(t):] of a text that starts with t
drop_prefix : Text → Text → Text
drop_prefix s [] = s
drop_prefix [] (b ∷ t) = []
drop_prefix (a ∷ s) (b ∷ t) = drop_prefix s t

-- s.lstrip(cs)
lstrip_of : (ℕ → Bool) → Text → Text
lstrip_of drops [] = []
lstrip_of drops (c ∷ s) = let rest = lstrip_of drops s in if drops c then rest else c ∷ s

-- The last candidate: a `RuntimeError` is not caught.
unfoldable pub last_candidate : Resolved → Py (Option Text)
last_candidate (below path) = ok (some path)
last_candidate elsewhere = ok none
last_candidate symlink_loop = err runtime_error

-- The loop over the two candidates: the first that lies below the root.
unfoldable pub below_root : (Text → Resolved) → Text → Py (Option Text)
unfolding lstrip_of last_candidate
below_root resolve uri = elim (resolve uri) [
  | below path ↦ ok (some path)
  | elsewhere ↦ last_candidate (resolve (text "/" ++ lstrip_of (λ c. nat_beq c b'/') uri))
  | symlink_loop ↦ err runtime_error
]

cleaned : Text → Text
unfolding lstrip_of
cleaned uri = lstrip_of (λ c. nat_beq c b'.' || nat_beq c b'/') uri

path_or : Text → Option Text → Text
path_or uri none = uri
path_or uri (some path) = path

unfoldable pub rel_below : Text → Option (Text → Resolved) → Py Text
unfolding below_root cleaned path_or
rel_below uri none = ok (cleaned uri)
rel_below uri (some resolve) = do found ← below_root resolve uri; ok (path_or (cleaned uri) found)

-- s.removeprefix("file://")
unfoldable pub bare_path : Text → Text
unfolding starts_with drop_prefix
bare_path s = if starts_with s (text "file://") then drop_prefix s (text "file://") else s

unfoldable pub rel_text : Option (Text → Resolved) → Text → Py Text
unfolding rel_below bare_path
rel_text root s = rel_below (bare_path s) root

-- `_rel`
unfoldable pub rel : Host → Json → Py Text
unfolding truthy rel_text
rel host (str s) = rel_text host.relative_to_root s
rel host v = if truthy v then err attribute_error else rel_text host.relative_to_root []

-- `value.isdigit()` of a text that is not empty
unfoldable pub all_digits : (ℕ → Digit) → Text → Bool
all_digits digit [] = true
all_digits digit (c ∷ s) = elim (digit c) [ no_digit ↦ false | _ ↦ all_digits digit s ]

-- The digits of `int(value)`, most significant first.
unfoldable pub int_of : (ℕ → Digit) → ℕ → Text → Py ℕ
int_of digit n [] = ok n
int_of digit n (c ∷ s) = elim (digit c) [
  | decimal d ↦ int_of digit (n * 10 + d) s
  | _ ↦ err value_error
]

-- The longest text that `int` converts, CPython's default.
abbrev pub max_digits : ℕ
max_digits = 4300

unfoldable pub line_of_text : (ℕ → Digit) → Text → Py (Option ℤ)
unfolding all_digits int_of
line_of_text digit [] = ok none
line_of_text digit (c ∷ s) =
    if not (all_digits digit (c ∷ s))
    then ok none
    else if ltb max_digits (length (c ∷ s))
    then err value_error
    else do n ← int_of digit 0 (c ∷ s); ok (some (pos n))

-- `_line`
unfoldable pub line : Host → Json → Py (Option ℤ)
unfolding line_of_text
line host (int n) = ok (some n)
line host (str s) = line_of_text host.digit s
line host _ = ok none

-- `try: score = float(x) ... except ValueError: score = None`
unfoldable pub score_of : Host → Json → Py (Option Score)
score_of host v = elim (host.to_float v) [
  | number s ↦ ok (some s)
  | raises_value_error ↦ ok none
  | raises_type_error ↦ err type_error
  | raises_overflow_error ↦ err overflow_error
]
