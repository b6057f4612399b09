-- ===== src/Cli/Status.antt =====
-- The exit status of a local hook.
use security_toolchain.Prelude.{
  ◌≡◌, refl, ◌∙◌, ap, inl, inr, true, false, some, List, Text, if◌then◌else◌, Bool-cases,
}
use security_toolchain.Prelude.Result.{Result, ok, err}
use security_toolchain.Gate.Finding.{Finding, ratchet}
use security_toolchain.Gate.Evaluate.{exit_code-evaluate}
use security_toolchain.Ci.Gate.{Repo, baseline_for, gate_findings}
use security_toolchain.Ci.Run.Verdict.{tool_fails}
use security_toolchain.Cli.{
  Raised, toolchain_error, scan_error, interrupt, other, local_gate, hook, main,
}

pub local_gate-fails :
    (tool : Text) (repo : Repo) (fs : List Finding)
    → local_gate tool repo fs ≡ (if tool_fails repo ratchet (tool, fs) then 1 else 0)
unfolding local_gate gate_findings
local_gate-fails tool repo fs = exit_code-evaluate tool fs (baseline_for repo tool ratchet) ratchet

zero_of_passing :
    (tool : Text) (repo : Repo) (fs : List Finding)
    → tool_fails repo ratchet (tool, fs) ≡ false
    → local_gate tool repo fs ≡ 0
zero_of_passing tool repo fs h = local_gate-fails tool repo fs ∙ rw (h) refl

-- On a local hook main returns 1 exactly when its scan returned findings that fail the ratchet gate:
-- neither a scan that raised nor an interrupt is taken for findings.
pub main-hook :
    (tool : Text) (repo : Repo) (scan : Result Raised (List Finding))
    → (main (hook tool repo scan) ≡ some 1
        → (fs : List Finding) × (scan ≡ ok fs) × (tool_fails repo ratchet (tool, fs) ≡ true))
      × ((fs : List Finding)
          → scan ≡ ok fs
          → tool_fails repo ratchet (tool, fs) ≡ true
          → main (hook tool repo scan) ≡ some 1)
unfolding main hook
main-hook tool repo (ok fs) = elim (Bool-cases (tool_fails repo ratchet (tool, fs))) [
  | inl failing ↦ (
    (λ h. (fs, refl, failing)),
    (λ gs e f. ap some (local_gate-fails tool repo fs ∙ rw (failing) refl)),
  )
  | inr passing ↦
      ((λ h. absurd (cc (zero_of_passing tool repo fs passing))), (λ gs e f. absurd (cc)))
]
main-hook tool repo (err toolchain_error) = ((λ h. absurd (cc)), (λ fs e f. absurd (cc)))
main-hook tool repo (err scan_error) = ((λ h. absurd (cc)), (λ fs e f. absurd (cc)))
main-hook tool repo (err interrupt) = ((λ h. absurd (cc)), (λ fs e f. absurd (cc)))
main-hook tool repo (err other) = ((λ h. absurd (cc)), (λ fs e f. absurd (cc)))
