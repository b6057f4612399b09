-- ===== src/Gate/Baseline.antt =====
-- The baseline files of gate.py: `read_baseline`, `render_baseline` and `write_baseline`. A set
-- of keys is a list that is read by `in` and by `sorted`; the environment maps names to values.
pub mod RoundTrip
pub mod Measured
use security_toolchain.Prelude.{
  ℕ, ◌≡◌, refl, ◌∙◌, ap, ◌≢◌, Bool, true, false, not, ◌&&◌, ◌||◌, Option, none, some, List, [], ◌∷◌,
  ◌++◌, map, Text, text, ◌==◌, text_eq, text_beq, text_beq_iff, arith, if◌then◌else◌, any, keep,
  contains, All, Bool-cases, inl, inr, contains-cons, dedup, length,
}
use security_toolchain.Prelude.Sorting.{sorted_set, contains-sorted_set}
use security_toolchain.Prelude.Result.{Result, ok, err}
use security_toolchain.Str.{starts_with, join, lower}
use security_toolchain.Str.Space.{is_space}
use security_toolchain.Str.Strip.{rstrip}
use security_toolchain.Str.Lines.{splitlines, unlines, IsLine, splitlines-unlines}

-- `not line or line.startswith("#")`
unfoldable pub is_comment : Text → Bool
is_comment [] = true
is_comment (c ∷ s) = starts_with (c ∷ s) (text "#")

-- The loop over the raw lines.
unfoldable pub keys_of : List Text → List Text
unfolding is_comment rstrip
keys_of [] = []
keys_of (raw ∷ rest) =
    let line = rstrip raw in
    let keys = keys_of rest in if is_comment line then keys else line ∷ keys

-- `read_baseline`, on the text of the file if there is one.
unfoldable pub read_baseline : Option Text → Option (List Text)
unfolding keys_of is_comment rstrip is_space splitlines starts_with
read_baseline none = none
read_baseline (some content) = some (keys_of (splitlines content))

module _ (tool tool_version commit run_url : Text) where
  unfoldable pub header : List Text
  header =
      (text "# security/baseline/" ++ tool ++ text ".txt -- thyn-ai security toolchain baseline")
      ∷ (text "# tool: " ++ tool ++ text " " ++ tool_version)
      ∷ text "# MEASURED ON CI -- never from a laptop. Regenerate only through the security"
      ∷ text
          "# workflow's workflow_dispatch with measure_baseline=true; the run below is the evidence."
      ∷ (text "# commit: " ++ commit)
      ∷ (text "# run: " ++ run_url)
      ∷ text
          "# Every key here is known debt: reported, not fatal. Anything NOT listed fails the gate."
      ∷ text
          "# This file may only shrink. Remove a line when the finding is fixed; never add by hand."
      ∷ []
      ∷ []

  -- `render_baseline`
  unfoldable pub render_baseline : List Text → Text
  unfolding header sorted_set join
  render_baseline keys = join (10 ∷ []) (header ++ sorted_set keys) ++ 10 ∷ []

-- os.environ
abbrev pub Env : Type 0
Env = Text → Option Text

-- os.environ.get(name, default)
abbrev pub env_or : Env → Text → Text → Text
env_or env name default = elim (env name) [ none ↦ default | some v ↦ v ]

pub data RuntimeError : Type 0 where
  outside_github_actions : RuntimeError

unfoldable pub on_actions : Env → Bool
unfolding lower
on_actions env = lower (env_or env (text "GITHUB_ACTIONS") []) == text "true"

unfoldable pub run_url : Env → Text
run_url env =
    let repo = env_or env (text "GITHUB_REPOSITORY") [] in
    let run_id = env_or env (text "GITHUB_RUN_ID") [] in
    if not (repo == []) && not (run_id == [])
    then env_or env (text "GITHUB_SERVER_URL") (text "https://github.com")
      ++ text "/"
      ++ repo
      ++ text "/actions/runs/"
      ++ run_id
    else text "unknown"

-- `write_baseline`: the text that the baseline file of the tool holds afterwards.
unfoldable pub write_baseline : Env → Text → Text → List Text → Result RuntimeError Text
unfolding on_actions run_url render_baseline
write_baseline env tool tool_version keys =
    if not (on_actions env)
    then err outside_github_actions
    else ok (
        render_baseline tool tool_version (env_or env (text "GITHUB_SHA") (text "unknown"))
          (run_url env) keys)
