-- ===== src/Cli/Commands/Ran.antt =====
-- What a hook command has run when it passes.
use security_toolchain.Prelude.{
  ℕ, ◌≡◌, refl, ap, subst, Bool-cases, Option-cases, Bool, false, Option, none, some, List, [], ◌∷◌,
  Text, All, keep, inl, inr, ◌⊎◌,
}
use security_toolchain.Prelude.Result.{Result, ok, err, bind-eq-ok, ok-injective}
use security_toolchain.Gate.Host.{Host}
use security_toolchain.Gate.Finding.{Finding, ratchet}
use security_toolchain.Ci.Gate.{Repo}
use security_toolchain.Ci.Run.Verdict.{tool_fails}
use security_toolchain.Hooks.Scans.{HookError, Machine, join_path}
use security_toolchain.Hooks.Ended.{Call, scan, has_nothing, HasRun, scan-HasRun}
use security_toolchain.Cli.{
  Raised, hook, main, local_gate, toolchain_error, scan_error, interrupt, other,
}
use security_toolchain.Cli.Status.{local_gate-fails}
use security_toolchain.Cli.Commands.{
  Command, gitleaks_staged, gitleaks_dir, osv_scan, trivy_config, gitleaks_push, opengrep_changed,
  opengrep_full, existing_files, gate_name, changed_call, call_of, as_cli, command_on, command,
}

abbrev HasTarget : Option Call → Type 0
HasTarget none = Unit
HasTarget (some call) = has_nothing call ≡ false

changed_call-HasTarget :
    (report overlay : Text) (scan_tests : Bool) (fs : List Text)
    → HasTarget (changed_call report overlay scan_tests fs)
unfolding changed_call has_nothing
changed_call-HasTarget report overlay scan_tests [] = tt
changed_call-HasTarget report overlay scan_tests (f ∷ fs) = refl

call_of-HasTarget :
    (is_file : Text → Bool) (root report : Text) (c : Command)
    → HasTarget (call_of is_file root report c)
unfolding call_of has_nothing
call_of-HasTarget is_file root report gitleaks_staged = refl
call_of-HasTarget is_file root report gitleaks_dir = refl
call_of-HasTarget is_file root report osv_scan = refl
call_of-HasTarget is_file root report trivy_config = refl
call_of-HasTarget is_file root report (gitleaks_push log_opts) = refl
call_of-HasTarget is_file root report (opengrep_changed overlay scan_tests fs) =
    changed_call-HasTarget report overlay scan_tests (existing_files is_file root fs)
call_of-HasTarget is_file root report (opengrep_full overlay scan_tests) = refl

-- The command is opengrep on given files, and none of them is a file.
abbrev pub HasNoFile : (Text → Bool) → (root : Text) → Command → Type 0
HasNoFile is_file root (opengrep_changed overlay scan_tests fs) =
    All (λ path. is_file (join_path root path) ≡ false) fs
HasNoFile is_file root _ = ⊥

keep-empty : (p : Text → Bool) (xs : List Text) → keep p xs ≡ [] → All (λ x. p x ≡ false) xs
unfolding keep
keep-empty p [] h = tt
keep-empty p (x ∷ xs) h = elim (Bool-cases (p x)) [
  | inl kept ↦ absurd (cc (rw (kept) at h))
  | inr dropped ↦ (dropped, keep-empty p xs (rw (dropped) at h))
]

changed_call-none :
    (report overlay : Text) (scan_tests : Bool) (fs : List Text)
    → changed_call report overlay scan_tests fs ≡ none
    → fs ≡ []
unfolding changed_call
changed_call-none report overlay scan_tests [] h = refl
changed_call-none report overlay scan_tests (f ∷ fs) h = absurd (cc)

call_of-HasNoFile :
    (is_file : Text → Bool) (root report : Text) (c : Command)
    → call_of is_file root report c ≡ none
    → HasNoFile is_file root c
unfolding call_of existing_files
call_of-HasNoFile is_file root report gitleaks_staged h = absurd (cc)
call_of-HasNoFile is_file root report gitleaks_dir h = absurd (cc)
call_of-HasNoFile is_file root report osv_scan h = absurd (cc)
call_of-HasNoFile is_file root report trivy_config h = absurd (cc)
call_of-HasNoFile is_file root report (gitleaks_push log_opts) h = absurd (cc)
call_of-HasNoFile is_file root report (opengrep_changed overlay scan_tests fs) h =
    keep-empty _ fs (changed_call-none report overlay scan_tests _ h)
call_of-HasNoFile is_file root report (opengrep_full overlay scan_tests) h = absurd (cc)

main-zero : (r : Result Raised ℕ) → main r ≡ some 0 → r ≡ ok 0
unfolding main
main-zero (ok n) h = cc
main-zero (err toolchain_error) h = absurd (cc)
main-zero (err scan_error) h = absurd (cc)
main-zero (err interrupt) h = absurd (cc)
main-zero (err other) h = absurd (cc)

as_cli-ok : (r : Result HookError (List Finding)) {fs : List Finding} → as_cli r ≡ ok fs → r ≡ ok fs
unfolding as_cli
as_cli-ok (ok gs) h = ap ok (ok-injective h)
as_cli-ok (err e) h = absurd (cc)

-- The scanner of the call has run, and its findings pass the gate.
pub record IsPassed (machine : Machine) (host : Host) (repo : Repo) (name : Text) (call : Call)
    : Type 0 where
  pub has_run : HasRun machine call
  pub findings : List Finding
  pub scanned : scan machine host call ≡ ok findings
  pub passing : tool_fails repo ratchet (name, findings) ≡ false

command_on-IsPassed :
    (machine : Machine) (host : Host) (repo : Repo) (name : Text) (call : Call)
    → has_nothing call ≡ false
    → command_on machine host repo name (some call) ≡ ok 0
    → IsPassed machine host repo name call
unfolding command_on hook
command_on-IsPassed machine host repo name call some_target h =
    let (fs, h1, e) = bind-eq-ok (as_cli (scan machine host call)) _ h in
    let scanned = as_cli-ok (scan machine host call) e in
    let verdict = local_gate-fails name repo fs in
    let zero_status : local_gate name repo fs ≡ 0 = ok-injective h1 in
    record {
      has_run = scan-HasRun machine host call some_target scanned;
      findings = fs;
      scanned = scanned;
      passing = elim (Bool-cases (tool_fails repo ratchet (name, fs))) [
        | inr passing ↦ passing
        | inl failing ↦ absurd (cc (rw (failing) at verdict))
      ];
    }

-- A hook command makes main return 0 only if it is opengrep on given files and none of them is a file
-- (a path that is not absolute is taken below the root), or if the tool of the scanner that it calls was found, was started
-- with the scanner's command and ended with a code that the run accepts, and the findings that were
-- read pass the ratchet gate.
pub command-IsPassed :
    (machine : Machine) (host : Host) (repo : Repo) (root report : Text) (c : Command)
    → main (command machine host repo root report c) ≡ some 0
    → HasNoFile machine.is_file root c
      ⊎ ((call : Call) × (call_of machine.is_file root report c ≡ some call)
          × IsPassed machine host repo (gate_name c) call)
unfolding command
command-IsPassed machine host repo root report c h =
    let ended = main-zero _ h in
    elim (Option-cases (call_of machine.is_file root report c)) [
      | inl nothing ↦ inl (call_of-HasNoFile machine.is_file root report c nothing)
      | inr (call, e) ↦ inr (
        call,
        e,
        command_on-IsPassed machine host repo (gate_name c) call
            (subst HasTarget e (call_of-HasTarget machine.is_file root report c)) (rw (e) at ended),
      )
    ]
