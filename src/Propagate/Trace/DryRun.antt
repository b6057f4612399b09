-- ===== src/Propagate/Trace/DryRun.antt =====
-- A dry run of an update.
use security_toolchain.Prelude.{◌≡◌, refl, inl, inr, ◌⊎◌, true, [], Text, All}
use security_toolchain.Prelude.Result.{Result, ok, err}
use security_toolchain.Propagate.Workflow.{FleetError}
use security_toolchain.Propagate.Plan.{RepoConfig, Defaults, plan}
use security_toolchain.Propagate.Fleet.{
  Action, ran, World, Args, sh, plan_now, clone_command, branch_command, propagate,
}
use security_toolchain.Propagate.Trace.{
  Holds, Ensures, Anything, then-Ensures, sh-Ensures, apply_changes-dry,
}

-- The two commands of a dry run.
unfoldable pub IsLook : World → RepoConfig → Defaults → Action → Type 0
IsLook world cfg defaults action =
    (action ≡ ran (clone_command world cfg defaults)) ⊎ (action ≡ ran branch_command)

nothing_held : {A : Type 0} (r : Result FleetError A) → Holds Anything r
nothing_held (ok a) = tt
nothing_held (err e) = tt

plan_now-quiet :
    (P : Action → Type 0) (world : World) (cfg : RepoConfig) (defaults : Defaults) (tag sha : Text)
    → Ensures P Anything (plan_now world cfg defaults tag sha)
unfolding plan_now
plan_now-quiet P world cfg defaults tag sha done h =
    (h, nothing_held (plan world.templates world.patterns (world.files done) cfg defaults tag sha))

-- A dry run does nothing but clone the repository and ask for its branch: it writes no file, and it
-- neither commits nor pushes nor opens a pull request, whatever the commands answer.
pub propagate-IsLook :
    (world : World) (cfg : RepoConfig) (defaults : Defaults) (tag sha : Text) (args : Args)
    → args.dry_run ≡ true
    → All (IsLook world cfg defaults) (propagate world cfg defaults tag sha args []).0
unfolding propagate IsLook
propagate-IsLook world cfg defaults tag sha args dry =
    let P = IsLook world cfg defaults in
    let (looks, _) =
      then-Ensures P Anything (sh world _) _
        (sh-Ensures P world (clone_command world cfg defaults) (inl refl))
        (λ _.
          then-Ensures P Anything (sh world branch_command) _
            (sh-Ensures P world branch_command (inr refl))
            (λ default_branch.
              then-Ensures P Anything (plan_now world cfg defaults tag sha) _
                (plan_now-quiet P world cfg defaults tag sha)
                (λ changes.
                  apply_changes-dry P world cfg defaults tag sha args default_branch changes dry)))
        [] tt in
    looks
