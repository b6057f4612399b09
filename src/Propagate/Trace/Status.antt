-- ===== src/Propagate/Trace/Status.antt =====
-- The runs of `main` over the selected repositories, as steps.
use security_toolchain.Prelude.{
  ℕ, suc, ◌≡◌, refl, subst, sym, ap, inl, inr, ◌⊎◌, ◌↔◌, ◌==◌, nat_eq, true, false, List, [], ◌∷◌,
  Text, if◌then◌else◌, Bool-cases,
}
use security_toolchain.Prelude.Result.{Result, ok, err, ok-injective}
use security_toolchain.Propagate.Workflow.{FleetError, system_exit, key_error, index_error}
use security_toolchain.Propagate.Plan.{RepoConfig, Defaults}
use security_toolchain.Propagate.Fleet.{
  Action, World, Args, Step, after, propagate, is_skipped, update, counted, update_all, main_loop,
}

-- A run that goes on from what has been done, over repositories, counts the failures and ends with
-- what has then been done: a repository with a reason to skip it is passed over, and any other one is
-- updated from where the run is, to a returned line or to a SystemExit, which is a failure.
pub data IsRun (world : World) (defaults : Defaults) (tag sha : Text) (args : Args)
    : List Action → List RepoConfig → ℕ → List Action → Type 0 where
  finished : {done : List Action} → IsRun world defaults tag sha args done [] 0 done
  skipped :
      {done last : List Action} {cfg : RepoConfig} {repos : List RepoConfig} {failures : ℕ}
      → is_skipped cfg ≡ true
      → IsRun world defaults tag sha args done repos failures last
      → IsRun world defaults tag sha args done (cfg ∷ repos) failures last
  updated :
      {done next last : List Action} {cfg : RepoConfig} {repos : List RepoConfig} {failures : ℕ}
      (line : Text)
      → is_skipped cfg ≡ false
      → propagate world cfg defaults tag sha args done ≡ (next, ok line)
      → IsRun world defaults tag sha args next repos failures last
      → IsRun world defaults tag sha args done (cfg ∷ repos) failures last
  failed :
      {done next last : List Action} {cfg : RepoConfig} {repos : List RepoConfig} {failures : ℕ}
      → is_skipped cfg ≡ false
      → propagate world cfg defaults tag sha args done ≡ (next, err system_exit)
      → IsRun world defaults tag sha args next repos failures last
      → IsRun world defaults tag sha args done (cfg ∷ repos) (suc failures) last

abbrev Ran : Type 0 → Type 0
Ran A = List Action × Result FleetError A

counted-cases :
    (p : Ran Text) {next : List Action} (n : ℕ)
    → Path (Ran ℕ) (counted p) (next, ok n)
    → ((n ≡ 0) × (line : Text) × Path (Ran Text) p (next, ok line))
      ⊎ ((n ≡ 1) × Path (Ran Text) p (next, err system_exit))
unfolding counted
counted-cases (done, ok line) n h =
    inl (sym (ok-injective (ap (λ p. p.1) h)), line, ap (λ p. (p.0, ok line)) h)
counted-cases (done, err system_exit) n h =
    inr (sym (ok-injective (ap (λ p. p.1) h)), ap (λ p. (p.0, err system_exit)) h)
counted-cases (done, err key_error) n h = absurd (cc (ap (λ p. p.1) h))
counted-cases (done, err index_error) n h = absurd (cc (ap (λ p. p.1) h))

pub after-ok :
    {A B : Type 0} (p : Ran A) (next : A → Step B) {last : List Action} {b : B}
    → after p next ≡ (last, ok b)
    → (mid : List Action) × (a : A) × (p ≡ (mid, ok a)) × (next a mid ≡ (last, ok b))
after-ok (done, ok a) next h = (done, a, refl, h)
after-ok (done, err e) next h = absurd (cc (ap (λ p. p.1) h))

module _ (world : World) (defaults : Defaults) (tag sha : Text) (args : Args) where
  IsRun-moved :
      {done last end : List Action} {repos : List RepoConfig} {n m : ℕ}
      → n ≡ m
      → last ≡ end
      → IsRun world defaults tag sha args done repos n last
      → IsRun world defaults tag sha args done repos m end
  IsRun-moved {done} {last} {end} {repos} {n} {m} e f run =
      subst (λ l. IsRun world defaults tag sha args done repos m l) f
        (subst (λ k. IsRun world defaults tag sha args done repos k last) e run)

  update-cases :
      (cfg : RepoConfig) {repos : List RepoConfig} {done next last : List Action} (n failures : ℕ)
      → update world defaults tag sha args cfg done ≡ (next, ok n)
      → IsRun world defaults tag sha args next repos failures last
      → IsRun world defaults tag sha args done
          (cfg ∷ repos)
          (if n == 0 then failures else suc failures)
          last
  unfolding update
  update-cases cfg {repos} {done} {next} {last} n failures h rest =
      elim (Bool-cases (is_skipped cfg)) [
        | inl skip ↦
            let same : Path (Ran ℕ) (done, ok 0) (next, ok n) = rw (skip) at h in
            rw (sym (ok-injective (ap (λ p. p.1) same))) (
              skipped skip (
                subst (λ d. IsRun world defaults tag sha args d repos failures last)
                  (sym (ap (λ p. p.0) same)) rest))
        | inr kept ↦
            elim (counted-cases (propagate world cfg defaults tag sha args done) n
              (rw (kept) at h)) [
                | inl (zero_failed, line, returned) ↦
                    rw (zero_failed) (updated line kept returned rest)
                | inr (one_failed, exited) ↦ rw (one_failed) (failed kept exited rest)
              ]
      ]

  pub update_all-IsRun :
      (repos : List RepoConfig) {done last : List Action} {n : ℕ}
      → update_all world defaults tag sha args repos done ≡ (last, ok n)
      → IsRun world defaults tag sha args done repos n last
  unfolding update_all
  update_all-IsRun [] {done} {last} {n} h =
      IsRun-moved (ok-injective (ap (λ p. p.1) h)) (ap (λ p. p.0) h) finished
  update_all-IsRun (cfg ∷ repos) {done} {last} {n} h =
      let (next, n1, h1, h2) = after-ok (update world defaults tag sha args cfg done) _ h in
      let (end, failures, h3, h4) =
        after-ok (update_all world defaults tag sha args repos next) _ h2 in
      IsRun-moved (ok-injective (ap (λ p. p.1) h4)) (ap (λ p. p.0) h4)
        (update-cases cfg n1 failures h1 (update_all-IsRun repos h3))

  pub IsRun-update_all :
      {done last : List Action} {repos : List RepoConfig} {n : ℕ}
      → IsRun world defaults tag sha args done repos n last
      → update_all world defaults tag sha args repos done ≡ (last, ok n)
  unfolding update_all update counted
  IsRun-update_all finished = refl
  IsRun-update_all (skipped skip rest) = rw (skip, IsRun-update_all rest) refl
  IsRun-update_all (updated line kept made rest) = rw (kept, made, IsRun-update_all rest) refl
  IsRun-update_all (failed kept made rest) = rw (kept, made, IsRun-update_all rest) refl

  -- What the loop of main does on the selected repositories.
  pub main_loop_iff :
      (repos : List RepoConfig) (done last : List Action) (n : ℕ)
      → (main_loop world defaults tag sha args repos done ≡ (last, ok n)) ↔ (
          (failures : ℕ) × IsRun world defaults tag sha args done repos failures last
          × (n ≡ (if failures == 0 then 0 else 1)))
  unfolding main_loop
  main_loop_iff repos done last n = (
    λ h.
        let (end, failures, h1, h2) =
          after-ok (update_all world defaults tag sha args repos done) _ h in
        (
          failures,
          IsRun-moved refl (ap (λ p. p.0) h2) (update_all-IsRun repos h1),
          sym (ok-injective (ap (λ p. p.1) h2)),
        ),
    λ (failures, run, status). rw (IsRun-update_all run) (ap (λ k. (last, ok k)) (sym status)),
  )
