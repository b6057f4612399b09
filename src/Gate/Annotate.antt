-- ===== src/Gate/Annotate.antt =====
-- `_gh_escape` of gate.py and the workflow commands that `annotate` prints for new findings on Actions;
-- `show` is `str` of an integer. The plain text that it prints elsewhere is left out.
pub mod Escape
use security_toolchain.Prelude.{
  ℕ, zero, ℤ, pos, Bool, true, false, not, ◌&&◌, ◌||◌, Option, none, some, List, [], ◌∷◌, ◌++◌, map,
  Text, text, ◌==◌, nat_eq, nat_beq, if◌then◌else◌,
}
use security_toolchain.Gate.Finding.{
  Severity, low, medium, high, critical, Finding, GateResult, blocking, exit_code,
}

-- s.replace(c, t) for a single character
unfoldable pub replace : ℕ → Text → Text → Text
replace c t [] = []
replace c t (d ∷ s) = let rest = replace c t s in if nat_beq d c then t ++ rest else d ∷ rest

-- `_gh_escape`
unfoldable pub gh_escape : Text → Text
unfolding replace
gh_escape s = replace 10 (text "%0A") (replace 13 (text "%0D") (replace b'%' (text "%25") s))

unfoldable pub severity_name : Severity → Text
severity_name low = text "LOW"
severity_name medium = text "MEDIUM"
severity_name high = text "HIGH"
severity_name critical = text "CRITICAL"

-- `f",line={f.line}" if f.line else ""`
unfoldable pub line_part : (ℤ → Text) → Option ℤ → Text
line_part show none = []
line_part show (some (pos zero)) = []
line_part show (some n) = text ",line=" ++ show n

-- An f-string, by its pieces.
unfoldable pub concat : List Text → Text
concat [] = []
concat (piece ∷ pieces) = piece ++ concat pieces

-- The pieces of the command for one new finding; `fatal` is whether the result fails.
unfoldable pub command_pieces : (ℤ → Text) → Text → Bool → Finding → List Text
unfolding gh_escape severity_name line_part blocking
command_pieces show tool fatal f =
    (text "::"
      ∷ (if fatal && blocking f then text "error" else text "warning")
      ∷ text " file="
      ∷ gh_escape f.path
      ∷ line_part show f.line
      ∷ text ",title="
      ∷ gh_escape tool
      ∷ text " "
      ∷ severity_name f.severity
      ∷ text " "
      ∷ gh_escape f.rule
      ∷ text "::"
      ∷ gh_escape f.message
      ∷ [])

unfoldable pub command : (ℤ → Text) → Text → Bool → Finding → Text
unfolding command_pieces concat
command show tool fatal f = concat (command_pieces show tool fatal f)

-- The commands of the loop of `annotate`.
unfoldable pub commands : (ℤ → Text) → GateResult → List Text
unfolding command exit_code
commands show r = map (command show r.tool (not (exit_code r == 0))) r.new
