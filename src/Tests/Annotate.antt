-- ===== src/Tests/Annotate.antt =====
-- A finding whose message has a line feed, and the theorem about its command.
use security_toolchain.Prelude.{ℤ, ◌≡◌, refl, false, none, [], ◌∷◌, Text, text, any, All}
use security_toolchain.Gate.Finding.{high, Finding, evaluate, ratchet}
use security_toolchain.Gate.Annotate.{commands, gh_escape}
use security_toolchain.Gate.Annotate.Escape.{ends_line, commands-one_line}

abbrev two_lines : Finding
two_lines = record {
  tool = text "trivy";
  key = text "r :: a :: m";
  severity = high;
  path = text "a\n::error::b";
  line = none;
  message = text "100%\nof it";
  rule = text "r";
  extra = [];
}

escaped : gh_escape two_lines.message ≡ text "100%25%0Aof it"
unfolding gh_escape
escaped = refl

abbrev no_number : ℤ → Text
no_number n = []

commands-one_line_example :
    All
      (λ line. any ends_line line ≡ false)
      (commands no_number (evaluate (text "trivy") (two_lines ∷ []) none ratchet))
unfolding any
commands-one_line_example =
    commands-one_line no_number (λ n. refl) (evaluate (text "trivy") (two_lines ∷ []) none ratchet)
