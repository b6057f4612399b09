-- ===== src/Verify.antt =====
-- `verify_repo` of verify.py, on what it reads of a repository: the pins in the pre-commit configuration
-- and those in the workflows. The regular expressions that find the pins in the texts are left out, and a
-- problem is a constructor in place of its sentence.
pub mod Complete
use security_toolchain.Prelude.{
  Bool, true, false, not, ◌&&◌, ◌||◌, Option, none, some, List, [], ◌∷◌, ◌++◌, Text, text, ◌==◌,
  text_eq, if◌then◌else◌, any, contains,
}
use security_toolchain.Changed.Sources.{is_sha}

-- A call of a workflow of the toolchain: the workflow, the ref and the tag in its comment.
pub record Call : Type 0 where
  pub name : Text
  pub ref : Text
  pub comment : Option Text

-- A pre-commit configuration: the toolchain's rev if it has one, and the hook types it installs.
pub record Config : Type 0 where
  pub rev : Option Text
  pub types : List Text

pub record Checkout : Type 0 where
  pub config : Option Config
  -- the calls in the workflow directory, if it is there
  pub workflows : Option (List Call)

pub data Problem : Type 0 where
  wrong_rev : Text → Problem
  no_pre_push : Problem
  not_a_sha no_comment wrong_comment wrong_sha wrong_ref : Call → Problem
  no_hooks no_gate : Problem

-- `if test: problems.append(problem)`
unfoldable pub report : Bool → Problem → List Problem
report test problem = if test then problem ∷ [] else []

-- The checks of the rev.
unfoldable pub rev_problems : Text → Config → List Problem
unfolding report contains any
rev_problems tag config = elim config.rev [
  | none ↦ []
  | some rev ↦
      report (not (rev == tag)) (wrong_rev rev)
      ++ report (not (contains config.types (text "pre-push"))) no_pre_push
]

unfoldable pub comment_problems : Text → Call → List Problem
unfolding report
comment_problems tag call = elim call.comment [
  | none ↦ no_comment call ∷ []
  | some comment ↦ report (not (comment == tag)) (wrong_comment call)
]

unfoldable pub has_other_comment : Option Text → Text → Bool
has_other_comment none expected = false
has_other_comment (some comment) expected = not (comment == []) && not (comment == expected)

-- The comparison with the ref that is expected; an empty one is none.
unfoldable pub expect_problems : Text → Call → List Problem
unfolding report is_sha has_other_comment
expect_problems expected call =
    if expected == []
    then []
    else if is_sha expected
    then report (not (call.ref == expected)) (wrong_sha call)
    else report (has_other_comment call.comment expected) (wrong_ref call)

-- One round of the loop over the calls.
unfoldable pub call_problems : Text → Text → Call → List Problem
unfolding report comment_problems expect_problems is_sha
call_problems tag expected call =
    report (not (is_sha call.ref)) (not_a_sha call)
    ++ (comment_problems tag call ++ expect_problems expected call)

unfoldable pub calls_problems : Text → Text → List Call → List Problem
unfolding call_problems
calls_problems tag expected [] = []
calls_problems tag expected (call ∷ calls) =
    call_problems tag expected call ++ calls_problems tag expected calls

-- GATE_WORKFLOWS
unfoldable pub is_gate : Call → Bool
is_gate call = call.name == text "security-full.yml" || call.name == text "security-smoke.yml"

unfoldable pub calls_of : Checkout → List Call
calls_of checkout = elim checkout.workflows [ none ↦ [] | some calls ↦ calls ]

unfoldable pub has_rev : Checkout → Bool
has_rev checkout = elim checkout.config [
  | none ↦ false
  | some config ↦ elim config.rev [ none ↦ false | some rev ↦ true ]
]

unfoldable pub is_there : {A : Type 0} → Option A → Bool
is_there none = false
is_there (some a) = true

unfoldable pub config_problems : Text → Option Config → List Problem
unfolding rev_problems
config_problems tag none = []
config_problems tag (some config) = rev_problems tag config

-- `verify_repo` after the lock is loaded; `tag` is `installed_tag()` and `expected` the expected ref, or
-- empty.
unfoldable pub verify_repo : Text → Text → Checkout → List Problem
unfolding config_problems calls_problems report is_gate calls_of has_rev is_there any
verify_repo tag expected checkout =
    let gated = any is_gate (calls_of checkout) in
    config_problems tag checkout.config
    ++ (calls_problems tag expected (calls_of checkout)
        ++ (report (gated && (not (has_rev checkout) && is_there checkout.config)) no_hooks
            ++ report (has_rev checkout && (not gated && is_there checkout.workflows)) no_gate))
