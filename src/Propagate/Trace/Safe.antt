-- ===== src/Propagate/Trace/Safe.antt =====
-- The files that an update of a repository writes.
use security_toolchain.Prelude.{
  ◌≡◌, ◌≢◌, refl, inl, inr, ◌⊎◌, true, false, not, ◌&&◌, Option, List, [], ◌∷◌, ◌++◌, Text, text,
  All, Bool-cases, subst,
}
use security_toolchain.Prelude.Result.{
  Result, ok, err, require, bind-eq-ok, require-eq-ok, ok-injective,
}
use security_toolchain.Propagate.Workflow.{FleetError, upsert_workflow}
use security_toolchain.Propagate.Plan.{
  RepoConfig, Defaults, with_default, Change, is_safe, check_paths, check_safe, plan, changes_of,
  security_path,
}
use security_toolchain.Propagate.Fleet.{
  Action, ran, wrote, World, Args, sh, sh_unchecked, write_text, write_changes, plan_now,
  merge_later, open_pull_request, clone_command, branch_command, apply_changes, propagate,
}
use security_toolchain.Propagate.Trace.{
  Holds, Ensures, Anything, bind-Ensures, then-Ensures, returns-Ensures, sh-Ensures,
  apply_changes-dry,
}

-- A path that is written is among the safe ones.
unfoldable pub IsSafe : List Text → Action → Type 0
IsSafe safe (ran command) = Unit
IsSafe safe (wrote path content) = is_safe safe path ≡ true

check_paths-IsSafe :
    (safe : List Text) (changes : List Change) {u : Unit {0}}
    → check_paths safe changes ≡ ok u
    → All (λ change. is_safe safe change.0 ≡ true) changes
unfolding check_paths
check_paths-IsSafe safe [] h = tt
check_paths-IsSafe safe ((rel, content) ∷ changes) h =
    let (_, rest, first) = bind-eq-ok (require (is_safe safe rel) _) _ h in
    (require-eq-ok (is_safe safe rel) _ first, check_paths-IsSafe safe changes rest)

check_safe-IsSafe :
    (safe : List Text) (changes : List Change) {u : Unit {0}}
    → safe ≢ []
    → check_safe safe changes ≡ ok u
    → All (λ change. is_safe safe change.0 ≡ true) changes
unfolding check_safe
check_safe-IsSafe [] changes some_path h = absurd (some_path refl)
check_safe-IsSafe (s ∷ safe) changes some_path h = check_paths-IsSafe (s ∷ safe) changes h

Result-cases :
    {A : Type 0} (r : Result FleetError A)
    → ((e : FleetError) × (r ≡ err e)) ⊎ ((a : A) × (r ≡ ok a))
Result-cases (ok a) = inr (a, refl)
Result-cases (err e) = inl (e, refl)

plan-All :
    (world : World) (files : Text → Option Text) (cfg : RepoConfig) (defaults : Defaults)
    (tag sha : Text) (changes : List Change)
    → cfg.sync_safe_paths ≢ []
    → plan world.templates world.patterns files cfg defaults tag sha ≡ ok changes
    → All (λ change. is_safe cfg.sync_safe_paths change.0 ≡ true) changes
unfolding plan
plan-All world files cfg defaults tag sha changes some_path h =
    let (new_wf, h1, e1) =
      bind-eq-ok
        (upsert_workflow world.templates world.patterns (files security_path)
          (with_default cfg.workflow defaults.workflow) sha tag cfg.overlay
          (with_default cfg.mode defaults.mode))
        _ h in
    let (_, h2, checked) =
      bind-eq-ok
        (check_safe cfg.sync_safe_paths
          (changes_of world.templates world.patterns files cfg defaults tag sha new_wf))
        _ h1 in
    subst (λ found. All (λ change. is_safe cfg.sync_safe_paths change.0 ≡ true) found)
      (ok-injective h2)
      (check_safe-IsSafe cfg.sync_safe_paths
        (changes_of world.templates world.patterns files cfg defaults tag sha new_wf) some_path
        checked)

write_text-IsSafe :
    (safe : List Text) (path content : Text)
    → is_safe safe path ≡ true
    → Ensures (IsSafe safe) Anything (write_text path content)
unfolding write_text IsSafe
write_text-IsSafe safe path content p done h = ((p, h), tt)

plan-IsSafe :
    (world : World) (cfg : RepoConfig) (defaults : Defaults) (tag sha : Text)
    → cfg.sync_safe_paths ≢ []
    → Ensures
        (IsSafe cfg.sync_safe_paths)
        (λ changes. All (λ change. is_safe cfg.sync_safe_paths change.0 ≡ true) changes)
        (plan_now world cfg defaults tag sha)
unfolding plan_now
plan-IsSafe world cfg defaults tag sha some_path done h =
    elim (Result-cases
      (plan world.templates world.patterns (world.files done) cfg defaults tag sha)) [
        | inl (e, failed) ↦ rw (failed, Holds) (h, tt)
        | inr (changes, planned) ↦
            rw (planned, Holds)
              (h, plan-All world (world.files done) cfg defaults tag sha changes some_path planned)
      ]

write_changes-IsSafe :
    (world : World) (safe : List Text) (changes : List Change)
    → All (λ change. is_safe safe change.0 ≡ true) changes
    → Ensures (IsSafe safe) Anything (write_changes world changes)
unfolding write_changes IsSafe
write_changes-IsSafe world safe [] h = returns-Ensures (IsSafe safe) tt
write_changes-IsSafe world safe ((path, content) ∷ changes) (first, rest) =
    bind-Ensures (IsSafe safe) Anything Anything (write_text path content) _
      (write_text-IsSafe safe path content first)
      (λ _ _.
        bind-Ensures (IsSafe safe) Anything Anything
          (sh world (text "git" ∷ text "add" ∷ text "--" ∷ path ∷ [])) _
          (sh-Ensures (IsSafe safe) world (text "git" ∷ text "add" ∷ text "--" ∷ path ∷ []) tt)
          (λ _ _. write_changes-IsSafe world safe changes rest))

merge_later-IsSafe :
    (world : World) (cfg : RepoConfig) (defaults : Defaults) (args : Args) (url : Text)
    (P : Action → Type 0)
    → ((command : List Text) → P (ran command))
    → Ensures P Anything (merge_later world cfg defaults args url)
unfolding merge_later sh_unchecked
merge_later-IsSafe world cfg defaults args url P free done h =
    elim (Bool-cases (
      with_default cfg.auto_merge (with_default defaults.auto_merge false)
      && not args.no_auto_merge)) [
        | inl on ↦ rw (on) ((free _, h), tt)
        | inr off ↦ rw (off) (h, tt)
      ]

open_pull_request-IsSafe :
    (world : World) (cfg : RepoConfig) (defaults : Defaults) (tag sha : Text) (args : Args)
    (default_branch : Text) (safe : List Text) (changes : List Change)
    → All (λ change. is_safe safe change.0 ≡ true) changes
    → Ensures
        (IsSafe safe)
        Anything
        (open_pull_request world cfg defaults tag sha args default_branch changes)
unfolding open_pull_request IsSafe
open_pull_request-IsSafe world cfg defaults tag sha args default_branch safe changes all_safe =
    let P = IsSafe safe in
    let free : (command : List Text) → Ensures P Anything (sh world command) =
      λ command. sh-Ensures P world command tt in
    then-Ensures P Anything (sh world _) _ (free _) (λ _.
      then-Ensures P Anything (write_changes world changes) _
        (write_changes-IsSafe world safe changes all_safe)
        (λ _. then-Ensures P Anything (sh world _) _ (free _) (λ _.
          then-Ensures P Anything (sh world _) _ (free _) (λ _.
            then-Ensures P Anything (sh world _) _ (free _) (λ _.
              then-Ensures P Anything (sh world _) _ (free _) (λ _.
                then-Ensures P Anything (sh world _) _ (free _) (λ url.
                  then-Ensures P Anything (merge_later world cfg defaults args url) _
                    (merge_later-IsSafe world cfg defaults args url P (λ command. tt))
                    (λ _. returns-Ensures P (cfg.name ++ (text ": " ++ url))))))))))

apply_changes-IsSafe :
    (world : World) (cfg : RepoConfig) (defaults : Defaults) (tag sha : Text) (args : Args)
    (default_branch : Text) (safe : List Text) (changes : List Change)
    → All (λ change. is_safe safe change.0 ≡ true) changes
    → Ensures
        (IsSafe safe)
        Anything
        (apply_changes world cfg defaults tag sha args default_branch changes)
unfolding apply_changes
apply_changes-IsSafe world cfg defaults tag sha args default_branch safe [] h =
    returns-Ensures (IsSafe safe) (cfg.name ++ (text ": already at " ++ tag))
apply_changes-IsSafe world cfg defaults tag sha args default_branch safe (change ∷ changes) h =
    elim (Bool-cases args.dry_run) [
      | inl dry ↦
          apply_changes-dry (IsSafe safe) world cfg defaults tag sha args default_branch
            (change ∷ changes) dry
      | inr wet ↦ rw (wet) (
          open_pull_request-IsSafe world cfg defaults tag sha args default_branch safe
            (change ∷ changes) h)
    ]

-- An update of a repository whose entry lists safe paths writes only files at such paths, whatever the
-- commands answer, also when it ends with an error.
pub propagate-IsSafe :
    (world : World) (cfg : RepoConfig) (defaults : Defaults) (tag sha : Text) (args : Args)
    → cfg.sync_safe_paths ≢ []
    → All (IsSafe cfg.sync_safe_paths) (propagate world cfg defaults tag sha args []).0
unfolding propagate IsSafe
propagate-IsSafe world cfg defaults tag sha args some_path =
    let P = IsSafe cfg.sync_safe_paths in
    let free : (command : List Text) → Ensures P Anything (sh world command) =
      λ command. sh-Ensures P world command tt in
    let (safe, _) =
      then-Ensures P Anything (sh world _) _ (free (clone_command world cfg defaults))
        (λ _.
          then-Ensures P Anything (sh world branch_command) _ (free branch_command)
            (λ default_branch.
              bind-Ensures P
                (λ changes. All (λ change. is_safe cfg.sync_safe_paths change.0 ≡ true) changes)
                Anything (plan_now world cfg defaults tag sha) _
                (plan-IsSafe world cfg defaults tag sha some_path)
                (λ changes all_safe.
                  apply_changes-IsSafe world cfg defaults tag sha args default_branch
                    cfg.sync_safe_paths changes all_safe)))
        [] tt in
    safe
