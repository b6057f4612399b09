-- ===== src/Propagate/Plan.antt =====
-- `plan`: the files of a repository that a release changes.
use security_toolchain.Prelude.{
  ℕ, Bool, true, ◌||◌, Option, none, some, List, [], ◌∷◌, ◌++◌, Text, text, ◌==◌, text_eq,
  if◌then◌else◌, any,
}
use security_toolchain.Prelude.Result.{Result, ok, ◌>>=◌, require}
use security_toolchain.Str.{starts_with}
use security_toolchain.Propagate.Block.{Templates, upsert_block}
use security_toolchain.Propagate.Workflow.{
  FleetError, system_exit, Patterns, upsert_workflow, upsert_auto_merge_workflow,
}

-- A repository of fleet.json; a key that may be missing is an option, and a missing list is empty.
pub record RepoConfig : Type 0 where
  pub name : Text
  pub overlay : Text
  pub mode : Option Text
  pub workflow : Option Text
  pub python : Bool
  pub dependabot_auto_merge : Option Bool
  pub dependabot_auto_merge_majors : Bool
  pub sync_safe_paths : List Text
  pub skip_reason : Option Text
  pub wave : Option ℕ
  pub auto_merge : Option Bool

-- fleet["defaults"]
pub record Defaults : Type 0 where
  pub mode : Text
  pub workflow : Text
  pub ruff_rev : Text
  pub dependabot_auto_merge : Option Bool
  pub auto_merge : Option Bool
  pub org : Option Text

-- cfg.get(key, default)
abbrev pub with_default : {A : Type 0} → Option A → A → A
with_default none d = d
with_default (some a) d = a

abbrev pub pre_commit_path : Text
pre_commit_path = text ".pre-commit-config.yaml"

abbrev pub security_path : Text
security_path = text ".github/workflows/security.yml"

abbrev pub auto_merge_path : Text
auto_merge_path = text ".github/workflows/dependabot-auto-merge.yml"

abbrev pub Change : Type 0
Change = Text × Text

-- The change of one file: none if it has this text.
unfoldable pub change_of : Text → Option Text → Text → List Change
change_of path none new = (path, new) ∷ []
change_of path (some old) new = if new == old then [] else (path, new) ∷ []

-- The test of one path against sync_safe_paths.
unfoldable pub is_safe : List Text → Text → Bool
unfolding any starts_with
is_safe safe rel = any (λ s. rel == s || starts_with rel s) safe

unfoldable pub check_paths : List Text → List Change → Result FleetError Unit
unfolding is_safe
check_paths safe [] = ok tt
check_paths safe ((rel, content) ∷ changes) = do
  _ ← require (is_safe safe rel) system_exit
  check_paths safe changes

-- No list, or an empty one, allows every path.
unfoldable pub check_safe : List Text → List Change → Result FleetError Unit
unfolding check_paths
check_safe [] changes = ok tt
check_safe (s ∷ safe) changes = check_paths (s ∷ safe) changes

unfoldable pub auto_merge_change :
    Templates
    → Patterns
    → (Text → Option Text)
    → RepoConfig
    → Defaults
    → (tag sha : Text) → List Change
unfolding change_of upsert_auto_merge_workflow
auto_merge_change templates patterns files cfg defaults tag sha =
    let wanted =
      with_default cfg.dependabot_auto_merge (with_default defaults.dependabot_auto_merge true) in
    let old = files auto_merge_path in
    let new =
      upsert_auto_merge_workflow templates patterns old sha tag cfg.dependabot_auto_merge_majors in
    if wanted then change_of auto_merge_path old new else []

-- The changes, with the new text of the security workflow.
unfoldable pub changes_of :
    Templates
    → Patterns
    → (Text → Option Text)
    → RepoConfig
    → Defaults
    → (tag sha new_wf : Text) → List Change
unfolding upsert_block change_of auto_merge_change
changes_of templates patterns files cfg defaults tag sha new_wf =
    let pc = files pre_commit_path in
    let block = templates.pre_commit_block tag cfg.overlay in
    let new_pc = upsert_block templates pc block cfg.python defaults.ruff_rev in
    change_of pre_commit_path pc new_pc
    ++ (change_of security_path (files security_path) new_wf
        ++ auto_merge_change templates patterns files cfg defaults tag sha)

-- `plan`, over the files of the clone
unfoldable pub plan :
    Templates
    → Patterns
    → (Text → Option Text)
    → RepoConfig
    → Defaults
    → (tag sha : Text) → Result FleetError (List Change)
unfolding upsert_workflow changes_of check_safe
plan templates patterns files cfg defaults tag sha = do
  let mode = with_default cfg.mode defaults.mode
  let kind = with_default cfg.workflow defaults.workflow
  new_wf ← upsert_workflow templates patterns (files security_path) kind sha tag cfg.overlay mode
  let changes = changes_of templates patterns files cfg defaults tag sha new_wf
  _ ← check_safe cfg.sync_safe_paths changes
  ok changes
