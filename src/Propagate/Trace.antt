-- ===== src/Propagate/Trace.antt =====
-- What a step does to the world, on every path, errors included.
pub mod Safe
pub mod DryRun
pub mod Status
use security_toolchain.Prelude.{
  ℕ, ◌≡◌, ◌≢◌, refl, sym, ap, inl, inr, ◌⊎◌, Bool, true, false, not, ◌&&◌, Option, none, some, List,
  [], ◌∷◌, ◌++◌, Text, text, if◌then◌else◌, All, Bool-cases, Option-cases, subst,
}
use security_toolchain.Prelude.Result.{
  Result, ok, err, require, bind-eq-ok, require-eq-ok, ok-injective,
}
use security_toolchain.Str.{join}
use security_toolchain.Propagate.Workflow.{FleetError, upsert_workflow}
use security_toolchain.Propagate.Plan.{
  RepoConfig, Defaults, with_default, Change, is_safe, check_paths, check_safe, plan, changes_of,
  security_path,
}
use security_toolchain.Propagate.Fleet.{
  Action, ran, wrote, World, Args, Step, after, ◌>>=◌, returns, sh, sh_unchecked, write_text,
  write_changes, plan_now, merge_later, open_pull_request, clone_command, branch_command,
  apply_changes, propagate, paths_of,
}

-- What is returned, if anything is.
abbrev pub Holds : {A : Type 0} → (A → Type 0) → Result FleetError A → Type 0
Holds Q (ok a) = Q a
Holds Q (err e) = Unit

-- Every action stays in P, and what is returned is in Q.
abbrev pub Ensures : {A : Type 0} → (Action → Type 0) → (A → Type 0) → Step A → Type 0
Ensures P Q m = (done : List Action) → All P done → All P (m done).0 × Holds Q (m done).1

abbrev pub Anything : {A : Type 0} → A → Type 0
Anything a = Unit

module _ (P : Action → Type 0) where
  after-Ensures :
      {A B : Type 0} (Q : A → Type 0) (R : B → Type 0) (next : A → Step B)
      (mid : List Action × Result FleetError A)
      → All P mid.0
      → Holds Q mid.1
      → ((a : A) → Q a → Ensures P R (next a))
      → All P (after mid next).0 × Holds R (after mid next).1
  after-Ensures Q R next (done, ok a) h q f = f a q done h
  after-Ensures Q R next (done, err e) h q f = (h, tt)

  pub bind-Ensures :
      {A B : Type 0} (Q : A → Type 0) (R : B → Type 0) (m : Step A) (next : A → Step B)
      → Ensures P Q m
      → ((a : A) → Q a → Ensures P R (next a))
      → Ensures P R (m >>= next)
  bind-Ensures Q R m next hm f done h =
      let (h1, q) = hm done h in after-Ensures Q R next (m done) h1 q f

  pub then-Ensures :
      {A B : Type 0} (R : B → Type 0) (m : Step A) (next : A → Step B)
      → Ensures P Anything m
      → ((a : A) → Ensures P R (next a))
      → Ensures P R (m >>= next)
  then-Ensures R m next hm f = bind-Ensures Anything R m next hm (λ a _. f a)

  pub returns-Ensures : {A : Type 0} (a : A) → Ensures P Anything (returns a)
  returns-Ensures a done h = (h, tt)

  pub sh-Ensures :
      (world : World) (command : List Text)
      → P (ran command)
      → Ensures P Anything (sh world command)
  unfolding sh
  sh-Ensures world command p done h = elim (Option-cases (world.shell done command)) [
    | inl e ↦ rw (e, All, Holds) ((p, h), tt)
    | inr (out, e) ↦ rw (e, All, Holds) ((p, h), tt)
  ]

pub apply_changes-dry :
    (P : Action → Type 0) (world : World) (cfg : RepoConfig) (defaults : Defaults) (tag sha : Text)
    (args : Args) (default_branch : Text) (changes : List Change)
    → args.dry_run ≡ true
    → Ensures P Anything (apply_changes world cfg defaults tag sha args default_branch changes)
unfolding apply_changes
apply_changes-dry P world cfg defaults tag sha args default_branch [] dry =
    returns-Ensures P (cfg.name ++ (text ": already at " ++ tag))
apply_changes-dry P world cfg defaults tag sha args default_branch (change ∷ changes) dry =
    rw (dry) (
      returns-Ensures P
        (cfg.name ++ (text ": would change " ++ join (text ", ") (paths_of (change ∷ changes)))))
