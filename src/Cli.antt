-- ===== src/Cli.antt =====
-- cli.py: the gate of a local hook, and what `main` makes of a command's end. What a hook prints and the
-- parsing of arguments are left out; a scan is what it returns or raises.
pub mod Status
pub mod Commands
use security_toolchain.Prelude.{ℕ, Bool, true, false, Option, none, some, List, [], Text, text}
use security_toolchain.Prelude.Result.{Result, ok, err, ◌>>=◌}
use security_toolchain.Gate.Finding.{Finding, exit_code, ratchet}
use security_toolchain.Ci.Gate.{Repo, gate_findings}

-- What a command may raise: `ToolchainError` and `ScanError`, an interrupt, or any other exception.
pub data Raised : Type 0 where
  toolchain_error scan_error interrupt other : Raised

-- `_local_gate`
unfoldable pub local_gate : Text → Repo → List Finding → ℕ
unfolding gate_findings exit_code
local_gate tool repo findings = exit_code (gate_findings tool repo findings ratchet)

-- A hook command: the scan, then the gate.
unfoldable pub hook : Text → Repo → Result Raised (List Finding) → Result Raised ℕ
unfolding local_gate
hook tool repo scan = do findings ← scan; ok (local_gate tool repo findings)

-- `main`, from how the command ends; `none` is an exception that passes through.
unfoldable pub main : Result Raised ℕ → Option ℕ
main (ok status) = some status
main (err toolchain_error) = some 2
main (err scan_error) = some 2
main (err interrupt) = some 130
main (err other) = none
