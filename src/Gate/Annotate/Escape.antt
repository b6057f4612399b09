-- ===== src/Gate/Annotate/Escape.antt =====
-- Escaped texts in workflow commands, and the runner's way back.
use security_toolchain.Prelude.{
  zero, suc, nat_eq, ◌==◌, ℕ, ℤ, pos, negsuc, ◌≡◌, refl, ◌∙◌, ap, inl, inr, Bool, true, false, not,
  ◌&&◌, ◌||◌, Option, none, some, List, [], ◌∷◌, ◌++◌, map, Text, text, nat_beq, if◌then◌else◌, any,
  any-append, All, arith, Bool-cases,
}
use security_toolchain.Gate.Finding.{
  Severity, low, medium, high, critical, Finding, GateResult, blocking, exit_code,
}
use security_toolchain.Gate.Annotate.{
  replace, gh_escape, severity_name, line_part, concat, command_pieces, command, commands,
}

-- One character, escaped.
escape_char : ℕ → Text
escape_char c =
    if nat_beq c b'%'
    then text "%25"
    else if nat_beq c 13
    then text "%0D"
    else if nat_beq c 10
    then text "%0A"
    else c ∷ []

escape_each : Text → Text
unfolding escape_char
escape_each [] = []
escape_each (c ∷ s) = escape_char c ++ escape_each s

gh_escape-each : (s : Text) → gh_escape s ≡ escape_each s
unfolding gh_escape replace escape_each escape_char
gh_escape-each [] = refl
gh_escape-each (c ∷ s) = elim (Bool-cases (nat_beq c b'%')) [
  | inl percent ↦ rw (percent, gh_escape-each s) refl
  | inr plain ↦ elim (Bool-cases (nat_beq c 13)) [
    | inl return ↦ rw (plain, return, gh_escape-each s) refl
    | inr no_return ↦ elim (Bool-cases (nat_beq c 10)) [
      | inl feed ↦ rw (plain, no_return, feed, gh_escape-each s) refl
      | inr no_feed ↦ rw (plain, no_return, no_feed, gh_escape-each s) refl
    ]
  ]
]

-- A character that ends a line of the log.
abbrev pub ends_line : ℕ → Bool
ends_line c = nat_beq c 10 || nat_beq c 13

escape_each-one_line : (s : Text) → any ends_line (escape_each s) ≡ false
unfolding escape_each escape_char any
escape_each-one_line [] = refl
escape_each-one_line (c ∷ s) =
    let rest = escape_each-one_line s in
    elim (Bool-cases (nat_beq c b'%')) [
      | inl percent ↦ rw (percent) rest
      | inr plain ↦ elim (Bool-cases (nat_beq c 13)) [
        | inl return ↦ rw (plain, return) rest
        | inr no_return ↦ elim (Bool-cases (nat_beq c 10)) [
          | inl feed ↦ rw (plain, no_return, feed) rest
          | inr no_feed ↦ rw (plain, no_return, no_feed) (rw (no_return, no_feed) rest)
        ]
      ]
    ]

gh_escape-one_line : (s : Text) → any ends_line (gh_escape s) ≡ false
gh_escape-one_line s = ap (any ends_line) (gh_escape-each s) ∙ escape_each-one_line s

append-one_line :
    (s t : Text)
    → any ends_line s ≡ false
    → any ends_line t ≡ false
    → any ends_line (s ++ t) ≡ false
append-one_line s t h k = any-append ends_line s t ∙ ground arith

severity_name-one_line : (s : Severity) → any ends_line (severity_name s) ≡ false
unfolding severity_name any
severity_name-one_line low = refl
severity_name-one_line medium = refl
severity_name-one_line high = refl
severity_name-one_line critical = refl

level-one_line : (b : Bool) → any ends_line (if b then text "error" else text "warning") ≡ false
unfolding any
level-one_line true = refl
level-one_line false = refl

line_part-one_line :
    (show : ℤ → Text)
    → ((n : ℤ) → any ends_line (show n) ≡ false)
    → (line : Option ℤ) → any ends_line (line_part show line) ≡ false
unfolding line_part any
line_part-one_line show h none = refl
line_part-one_line show h (some (pos zero)) = refl
line_part-one_line show h (some (pos (suc n))) = h (pos (suc n))
line_part-one_line show h (some (negsuc n)) = h (negsuc n)

concat-one_line :
    (pieces : List Text)
    → All (λ p. any ends_line p ≡ false) pieces
    → any ends_line (concat pieces) ≡ false
unfolding concat any
concat-one_line [] h = refl
concat-one_line (piece ∷ pieces) (h, hs) =
    append-one_line piece (concat pieces) h (concat-one_line pieces hs)

command-one_line :
    (show : ℤ → Text)
    → ((n : ℤ) → any ends_line (show n) ≡ false)
    → (tool : Text) (fatal : Bool) (f : Finding) → any ends_line (command show tool fatal f) ≡ false
unfolding command command_pieces any
command-one_line show h tool fatal f = concat-one_line (command_pieces show tool fatal f) (
  refl,
  (
    level-one_line (fatal && blocking f),
    (
      refl,
      (
        gh_escape-one_line f.path,
        (
          line_part-one_line show h f.line,
          (
            refl,
            (
              gh_escape-one_line tool,
              (
                refl,
                (
                  severity_name-one_line f.severity,
                  (refl, (gh_escape-one_line f.rule, (refl, (gh_escape-one_line f.message, tt)))),
                ),
              ),
            ),
          ),
        ),
      ),
    ),
  ),
)

All-commands :
    (show : ℤ → Text)
    → ((n : ℤ) → any ends_line (show n) ≡ false)
    → (tool : Text) (fatal : Bool) (fs : List Finding)
    → All (λ line. any ends_line line ≡ false) (map (command show tool fatal) fs)
All-commands show h tool fatal [] = tt
All-commands show h tool fatal (f ∷ fs) =
    (command-one_line show h tool fatal f, All-commands show h tool fatal fs)

-- Whatever the texts of a report are, each new finding is one line of the log: no command that annotate
-- prints has a line feed or a carriage return, given that no integer is shown with one.
pub commands-one_line :
    (show : ℤ → Text)
    → ((n : ℤ) → any ends_line (show n) ≡ false)
    → (r : GateResult) → All (λ line. any ends_line line ≡ false) (commands show r)
unfolding commands
commands-one_line show h r = All-commands show h r.tool (not (exit_code r == 0)) r.new
