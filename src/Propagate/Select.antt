-- ===== src/Propagate/Select.antt =====
-- The repositories that `main` of scripts/propagate.py selects, from `--repos` and `--wave`.
use security_toolchain.Prelude.{
  ℕ, ◌≡◌, refl, sym, ap, subst, ◌↔◌, if◌then◌else◌, Bool, false, not, Option, none, some, List, [],
  ◌∷◌, Text, ◌==◌, text_eq, nat_eq, keep, contains, map, any,
}
use security_toolchain.Prelude.Result.{Result, ok, err, ◌>>=◌, require, ok-injective}
use security_toolchain.Changed.Lists.{split_on, stripped_lines}
use security_toolchain.Propagate.Workflow.{FleetError, system_exit}
use security_toolchain.Propagate.Plan.{RepoConfig, Defaults}
use security_toolchain.Propagate.Fleet.{World, Args, Action, main_loop}
use security_toolchain.Propagate.Trace.Status.{IsRun, main_loop_iff}

-- {r.strip() for r in args.repos.split(",") if r.strip()}
unfoldable pub wanted_of : Text → List Text
unfolding split_on stripped_lines
wanted_of repos = stripped_lines (split_on b',' repos)

-- Some name is not in the fleet.
unfoldable pub has_unknown : List RepoConfig → List Text → Bool
unfolding any contains
has_unknown fleet wanted = any (λ name. not (contains (map (λ cfg. cfg.name) fleet) name)) wanted

unfoldable pub select_repos : Option Text → List RepoConfig → Result FleetError (List RepoConfig)
unfolding wanted_of has_unknown keep contains
select_repos none fleet = ok fleet
select_repos (some []) fleet = ok fleet
select_repos (some (c ∷ repos)) fleet = do
  let wanted = wanted_of (c ∷ repos)
  _ ← require (not (has_unknown fleet wanted)) system_exit
  ok (keep (λ cfg. contains wanted cfg.name) fleet)

unfoldable pub in_wave : ℕ → Option ℕ → Bool
in_wave n none = false
in_wave n (some wave) = wave == n

unfoldable pub select_wave : Option ℕ → List RepoConfig → List RepoConfig
unfolding in_wave keep
select_wave none fleet = fleet
select_wave (some n) fleet = keep (λ cfg. in_wave n cfg.wave) fleet

-- The loop over the choice, if there is one.
unfoldable pub main_selected :
    World
    → Defaults
    → (tag sha : Text) → Args
    → Option ℕ
    → Result FleetError (List RepoConfig)
    → List Action × Result FleetError ℕ
unfolding select_wave main_loop
main_selected world defaults tag sha args wave (err e) = ([], err e)
main_selected world defaults tag sha args wave (ok selected) =
    main_loop world defaults tag sha args (select_wave wave selected) []

-- What is left of `main` once the tag is resolved.
unfoldable pub main_on :
    World
    → Defaults
    → (tag sha : Text) → Args
    → Option Text
    → Option ℕ
    → List RepoConfig
    → List Action × Result FleetError ℕ
unfolding select_repos main_selected
main_on world defaults tag sha args repos wave fleet =
    main_selected world defaults tag sha args wave (select_repos repos fleet)

selected_iff :
    (world : World) (defaults : Defaults) (tag sha : Text) (args : Args) (wave : Option ℕ) (n : ℕ)
    (last : List Action) (chosen : Result FleetError (List RepoConfig))
    → (main_selected world defaults tag sha args wave chosen ≡ (last, ok n)) ↔ (
        (selected : List RepoConfig) × (failures : ℕ) × (chosen ≡ ok selected)
        × IsRun world defaults tag sha args [] (select_wave wave selected) failures last
        × (n ≡ (if failures == 0 then 0 else 1)))
unfolding main_selected
selected_iff world defaults tag sha args wave n last (err e) =
    (λ h. absurd (cc (ap (λ p. p.1) h)), λ found. absurd (cc (found.2)))
selected_iff world defaults tag sha args wave n last (ok selected) =
    let (there, back) =
      main_loop_iff world defaults tag sha args (select_wave wave selected) [] last n in
    (
      λ h. let (failures, run, status) = there h in (selected, failures, refl, run, status),
      λ (chosen, failures, e, run, status). back (
        failures,
        subst (λ l. IsRun world defaults tag sha args [] (select_wave wave l) failures last)
            (sym (ok-injective e)) run,
        status,
      ),
    )

-- main with a resolved tag, on a fleet, returns an exit status exactly if the choice by --repos
-- succeeds and its loop over the repositories that --repos and --wave select runs to the end, each
-- one that is not skipped updated in turn from where the run is, with a SystemExit of an update
-- counted as a failure and no other error. The status is then 0 if no update of the run failed, and
-- 1 otherwise.
pub main_on_status :
    (world : World) (defaults : Defaults) (tag sha : Text) (args : Args) (repos : Option Text)
    (wave : Option ℕ) (fleet : List RepoConfig) (n : ℕ) (last : List Action)
    → (main_on world defaults tag sha args repos wave fleet ≡ (last, ok n)) ↔ (
        (selected : List RepoConfig) × (failures : ℕ) × (select_repos repos fleet ≡ ok selected)
        × IsRun world defaults tag sha args [] (select_wave wave selected) failures last
        × (n ≡ (if failures == 0 then 0 else 1)))
unfolding main_on
main_on_status world defaults tag sha args repos wave fleet n last =
    selected_iff world defaults tag sha args wave n last (select_repos repos fleet)
