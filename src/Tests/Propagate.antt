-- ===== src/Tests/Propagate.antt =====
-- A configuration with a block, and an update of a repository.
use security_toolchain.Prelude.{
  ◌≡◌, refl, ap, ◌==◌, Bool, true, false, none, some, List, [], ◌∷◌, ◌++◌, Text, text, text_eq,
  nat_eq, if◌then◌else◌, contains, any, All, ℕ,
}
use security_toolchain.Prelude.Result.{Result, ok, err}
use security_toolchain.Str.Space.{is_space}
use security_toolchain.Propagate.Block.{strip_newlines, Templates, upsert_block}
use security_toolchain.Propagate.Fresh.{IsCalm, upsert_block-IsCalm}
use security_toolchain.Propagate.Workflow.{FleetError, Patterns, system_exit}
use security_toolchain.Propagate.Plan.{RepoConfig, Defaults}
use security_toolchain.Propagate.Fleet.{World, Args, Action, propagate}
use security_toolchain.Propagate.Trace.Safe.{IsSafe, propagate-IsSafe}
use security_toolchain.Propagate.Trace.DryRun.{IsLook, propagate-IsLook}
use security_toolchain.Propagate.Select.{select_repos, select_wave, main_on, main_on_status}
use security_toolchain.Propagate.Trace.Status.{IsRun}

abbrev templates : Templates
templates = record {
  pre_commit_block = λ rev overlay. rev;
  extra_hooks_python = λ rev. rev;
  pre_commit_config = λ extra block. extra ++ (text "\n\n\n\n" ++ block);
  security = λ full sha tag overlay mode. sha;
  dependabot_auto_merge = λ sha tag majors. majors;
}

abbrev old_block : Text
old_block = text "  # thyn-security-toolchain:begin\n  a\n  # thyn-security-toolchain:end\n"

new_file : upsert_block templates none (text "block\n") true (text "v1") ≡ text "v1\n\nblock\n"
unfolding upsert_block
new_file = refl

upsert_block-IsCalm_example :
    let made = upsert_block templates none (text "block\n") true (text "v1") in
    IsCalm 0 made × (body : Text) × (made ≡ body ++ text "\n") × (strip_newlines body ≡ body)
upsert_block-IsCalm_example = upsert_block-IsCalm templates (text "block\n") true (text "v1")

appended :
    upsert_block templates (some (text "x: 1\n")) (text "b\n") false []
    ≡ text "default_install_hook_types: [pre-commit, pre-push]\nx: 1\nrepos:\nb\n"
unfolding upsert_block
appended = refl

abbrev patterns : Patterns
patterns = record {
  has_uses = λ s. false;
  with_uses = λ sha tag s. s;
  has_auto_merge_uses = λ s. false;
  auto_merge_majors = λ s. none;
  on_block = λ s. none;
  first_indent = λ s. none;
  has_merge_group = λ indent body. false;
  pull_request = λ indent body. none;
  branches = λ indent nested. none;
  permissions_block = λ s. none;
}

-- Every command succeeds, but one that pushes.
abbrev world : World
world = record {
  shell = λ done command. if contains command (text "push") then none else some (text "out\n");
  files = λ done path. none;
  templates = templates;
  patterns = patterns;
  clone_of = λ name. text "/tmp/" ++ name;
  body = λ cfg tag sha. tag;
}

abbrev config : RepoConfig
config = record {
  name = text "codna";
  overlay = text "site";
  mode = none;
  workflow = none;
  python = false;
  dependabot_auto_merge = some false;
  dependabot_auto_merge_majors = false;
  sync_safe_paths = text ".github/" ∷ text ".pre-commit-config.yaml" ∷ [];
  skip_reason = none;
  wave = none;
  auto_merge = none;
}

abbrev defaults : Defaults
defaults = record {
  mode = text "advisory";
  workflow = text "full";
  ruff_rev = text "v1";
  dependabot_auto_merge = none;
  auto_merge = none;
  org = none;
}

abbrev args : Bool → Args
args dry = record {
  dry_run = dry;
  no_auto_merge = false;
  attribution = false;
  git_user = text "u";
  git_email = text "e";
  attribution_text = [];
  trailer = [];
}

abbrev failed_update : List Action
failed_update = (propagate world config defaults (text "v2") (text "c0") (args false) []).0

propagate-IsSafe_example : All (IsSafe config.sync_safe_paths) failed_update
propagate-IsSafe_example =
    propagate-IsSafe world config defaults (text "v2") (text "c0") (args false) (λ e. absurd (cc))

propagate-IsLook_example :
    All
      (IsLook world config defaults)
      (propagate world config defaults (text "v2") (text "c0") (args true) []).0
propagate-IsLook_example =
    propagate-IsLook world config defaults (text "v2") (text "c0") (args true) refl

abbrev one : ℕ
one = 1

abbrev failed_run : List Action × Result FleetError ℕ
failed_run =
    main_on world defaults (text "v2") (text "c0") (args false) (some (text "codna, ")) none
      (config ∷ [])

one_failure : failed_run.1 ≡ ok 1
unfolding main_on contains any is_space
one_failure = refl

no_such_repository :
    main_on world defaults
      (text "v2")
      (text "c0")
      (args false)
      (some (text "cohenta"))
      none
      (config ∷ [])
    ≡ ([], err system_exit)
unfolding main_on contains any is_space
no_such_repository = refl

main_on_status_example :
    (selected : List RepoConfig) × (failures : ℕ) × (select_repos
        (some (text "codna, "))
        (config ∷ [])
      ≡ ok selected)
    × IsRun world defaults
        (text "v2")
        (text "c0")
        (args false)
        []
        (select_wave none selected)
        failures
        failed_run.0
    × (one ≡ (if failures == 0 then 0 else 1))
main_on_status_example =
    (main_on_status world defaults (text "v2") (text "c0") (args false) (some (text "codna, ")) none
        (config ∷ []) 1 failed_run.0).0
      (ap (λ r. (failed_run.0, r)) one_failure)
