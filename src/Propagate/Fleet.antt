-- ===== src/Propagate/Fleet.antt =====
-- `propagate` and `main`: the commands that are run for each repository, in their order.
use security_toolchain.Prelude.{
  ℕ, suc, Bool, false, not, ◌&&◌, Option, none, some, List, [], ◌∷◌, ◌++◌, Text, text, ◌==◌,
  text_eq, nat_eq, if◌then◌else◌, map,
}
use security_toolchain.Prelude.Result.{Result, ok, err}
use security_toolchain.Str.{join}
use security_toolchain.Str.Strip.{strip}
use security_toolchain.Propagate.Block.{Templates}
use security_toolchain.Propagate.Workflow.{FleetError, system_exit, Patterns}
use security_toolchain.Propagate.Plan.{RepoConfig, Defaults, with_default, Change, plan}

-- What a run does to the world.
pub data Action : Type 0 where
  ran : List Text → Action
  wrote : (path content : Text) → Action

-- The world answers by what has been done, the last action first: a command with its output, if it
-- succeeds, and a path of the clone with the file that is there.
pub record World : Type 0 where
  pub shell : List Action → List Text → Option Text
  pub files : List Action → Text → Option Text
  pub templates : Templates
  pub patterns : Patterns
  -- the directory of the clone of a repository
  pub clone_of : Text → Text
  -- the text of a pull request
  pub body : RepoConfig → (tag sha : Text) → Text

-- The arguments of the command line that a repository's update reads.
pub record Args : Type 0 where
  pub dry_run : Bool
  pub no_auto_merge : Bool
  pub attribution : Bool
  pub git_user : Text
  pub git_email : Text
  pub attribution_text : Text
  pub trailer : Text

-- A step goes on from what has been done, and returns or raises.
abbrev pub Step : Type 0 → Type 0
Step A = List Action → List Action × Result FleetError A

abbrev pub after :
    {A B : Type 0}
    → List Action × Result FleetError A
    → (A → Step B)
    → List Action × Result FleetError B
after (done, ok a) next = next a done
after (done, err e) next = (done, err e)

infixl 5 ◌>>=◌
abbrev pub ◌>>=◌ : {A B : Type 0} → Step A → (A → Step B) → Step B
m >>= next = λ done. after (m done) next

abbrev pub returns : {A : Type 0} → A → Step A
returns a = λ done. (done, ok a)

-- `sh`
unfoldable pub sh : World → List Text → Step Text
unfolding strip
sh world command done = elim (world.shell done command) [
  | none ↦ (ran command ∷ done, err system_exit)
  | some out ↦ (ran command ∷ done, ok (strip out))
]

-- `sh` with check=False
unfoldable pub sh_unchecked : World → List Text → Step Unit
sh_unchecked world command done = (ran command ∷ done, ok tt)

unfoldable pub write_text : Text → Text → Step Unit
write_text path content done = (wrote path content ∷ done, ok tt)

-- The loop over the changes.
unfoldable pub write_changes : World → List Change → Step Unit
unfolding write_text sh
write_changes world [] = returns tt
write_changes world ((path, content) ∷ changes) = do
  _ ← write_text path content
  _ ← sh world (text "git" ∷ text "add" ∷ text "--" ∷ path ∷ [])
  write_changes world changes

-- `plan` on the files that are there now.
unfoldable pub plan_now : World → RepoConfig → Defaults → (tag sha : Text) → Step (List Change)
unfolding plan
plan_now world cfg defaults tag sha done =
    (done, plan world.templates world.patterns (world.files done) cfg defaults tag sha)

unfoldable pub merge_later : World → RepoConfig → Defaults → Args → Text → Step Unit
unfolding sh_unchecked
merge_later world cfg defaults args url =
    if with_default cfg.auto_merge (with_default defaults.auto_merge false)
      && not args.no_auto_merge
    then sh_unchecked world
        (text "gh" ∷ text "pr" ∷ text "merge" ∷ text "--auto" ∷ text "--squash" ∷ url ∷ [])
    else returns tt

-- From the branch to the pull request.
unfoldable pub open_pull_request :
    World → RepoConfig → Defaults → (tag sha : Text) → Args → Text → List Change → Step Text
unfolding sh write_changes merge_later
open_pull_request world cfg defaults tag sha args default_branch changes =
    let branch = text "chore/security-toolchain-" ++ tag in
    let title = text "chore(security): thyn-ai/security-toolchain " ++ tag in
    let body = world.body cfg tag sha in
    let message =
      title ++ (text "\n\n" ++ (body ++ (if args.attribution then args.trailer else []))) in
    let pr_body = body ++ (if args.attribution then args.attribution_text else []) in
    (do
      _ ← sh world (text "git" ∷ text "checkout" ∷ text "-q" ∷ text "-b" ∷ branch ∷ [])
      _ ← write_changes world changes
      _ ← sh world (text "git" ∷ text "config" ∷ text "user.name" ∷ args.git_user ∷ [])
      _ ← sh world (text "git" ∷ text "config" ∷ text "user.email" ∷ args.git_email ∷ [])
      _ ← sh world (text "git" ∷ text "commit" ∷ text "-q" ∷ text "-m" ∷ message ∷ [])
      _ ← sh world (text "git" ∷ text "push" ∷ text "-q" ∷ text "-u" ∷ text "origin" ∷ branch ∷ [])
      url ← sh world (
          text "gh"
          ∷ text "pr"
          ∷ text "create"
          ∷ text "--base"
          ∷ default_branch
          ∷ text "--head"
          ∷ branch
          ∷ text "--title"
          ∷ title
          ∷ text "--body"
          ∷ pr_body
          ∷ [])
      _ ← merge_later world cfg defaults args url
      returns (cfg.name ++ (text ": " ++ url)))

abbrev pub clone_command : World → RepoConfig → Defaults → List Text
clone_command world cfg defaults =
    let org = with_default defaults.org (text "thyn-ai") in
    text "gh"
    ∷ text "repo"
    ∷ text "clone"
    ∷ (org ++ (text "/" ++ cfg.name))
    ∷ world.clone_of cfg.name
    ∷ text "--"
    ∷ text "--depth"
    ∷ text "1"
    ∷ text "--quiet"
    ∷ []

abbrev pub branch_command : List Text
branch_command = text "git" ∷ text "rev-parse" ∷ text "--abbrev-ref" ∷ text "HEAD" ∷ []

abbrev pub paths_of : List Change → List Text
paths_of changes = map (λ change. change.0) changes

unfoldable pub apply_changes :
    World → RepoConfig → Defaults → (tag sha : Text) → Args → Text → List Change → Step Text
unfolding open_pull_request join
apply_changes world cfg defaults tag sha args default_branch [] =
    returns (cfg.name ++ (text ": already at " ++ tag))
apply_changes world cfg defaults tag sha args default_branch (change ∷ changes) =
    if args.dry_run
    then returns
        (cfg.name ++ (text ": would change " ++ join (text ", ") (paths_of (change ∷ changes))))
    else open_pull_request world cfg defaults tag sha args default_branch (change ∷ changes)

-- `propagate`
unfoldable pub propagate : World → RepoConfig → Defaults → (tag sha : Text) → Args → Step Text
unfolding sh plan_now apply_changes
propagate world cfg defaults tag sha args = do
  _ ← sh world (clone_command world cfg defaults)
  default_branch ← sh world branch_command
  changes ← plan_now world cfg defaults tag sha
  apply_changes world cfg defaults tag sha args default_branch changes

-- cfg.get("skip") is truthy.
unfoldable pub is_skipped : RepoConfig → Bool
is_skipped cfg = elim cfg.skip_reason [ none ↦ false | some why ↦ not (why == []) ]

-- One turn of the loop of `main`: a SystemExit counts as a failure, and any other exception ends it.
unfoldable pub counted : List Action × Result FleetError Text → List Action × Result FleetError ℕ
counted (done, ok line) = (done, ok 0)
counted (done, err system_exit) = (done, ok 1)
counted (done, err e) = (done, err e)

unfoldable pub update : World → Defaults → (tag sha : Text) → Args → RepoConfig → Step ℕ
unfolding is_skipped counted propagate
update world defaults tag sha args cfg done =
    if is_skipped cfg
    then (done, ok 0)
    else counted (propagate world cfg defaults tag sha args done)

-- The loop of `main`: the number of failures.
unfoldable pub update_all : World → Defaults → (tag sha : Text) → Args → List RepoConfig → Step ℕ
unfolding update
update_all world defaults tag sha args [] = returns 0
update_all world defaults tag sha args (cfg ∷ repos) = do
  failed ← update world defaults tag sha args cfg
  failures ← update_all world defaults tag sha args repos
  returns (if failed == 0 then failures else suc failures)

-- `main` on the repositories that are selected: the exit status.
unfoldable pub main_loop : World → Defaults → (tag sha : Text) → Args → List RepoConfig → Step ℕ
unfolding update_all
main_loop world defaults tag sha args repos = do
  failures ← update_all world defaults tag sha args repos
  returns (if failures == 0 then 0 else 1)
