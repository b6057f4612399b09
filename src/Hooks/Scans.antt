-- ===== src/Hooks/Scans.antt =====
-- The scanners of hooks.py. The machine says what it holds, what a command does, and where the tools and
-- the rules are that fetch.py provides.
use security_toolchain.Prelude.{
  ℕ, ℤ, pos, negsuc, Bool, true, false, not, ◌||◌, Option, none, some, List, [], ◌∷◌, ◌++◌, Text,
  text, ◌==◌, text_eq, nat_eq, if◌then◌else◌, contains,
}
use security_toolchain.Prelude.Result.{Result, ok, err, ◌>>=◌, require}
use security_toolchain.Str.{lower, starts_with}
use security_toolchain.Json.{Json, Py, Fields}
use security_toolchain.Gate.Host.{Host}
use security_toolchain.Gate.Finding.{Finding}
use security_toolchain.Gate.Baseline.{Env, env_or}
use security_toolchain.Gate.Reports.Shape.{ReadError, convert, report_shape}
use security_toolchain.Gate.Reports.Opengrep.{parse_opengrep_sarif}
use security_toolchain.Gate.Reports.Trivy.{parse_trivy_sarif}
use security_toolchain.Gate.Reports.Osv.{parse_osv_json}
use security_toolchain.Gate.Reports.Gitleaks.{parse_gitleaks_json}
use security_toolchain.Gate.Sarif.Demote.{demote_low_confidence_levels}
use security_toolchain.Overlay.{ScanError, resolve_overlay}
use security_toolchain.Hooks.Commands.{
  opengrep_command, gitleaks_command, osv_command, trivy_command,
}

pub data HookError : Type 0 where
  toolchain_error unknown_scope exited no_packs : HookError
  bad_overlay : ScanError → HookError
  malformed : ReadError → HookError

-- How a command ended, and the report that it leaves, if there is one.
pub record Process : Type 0 where
  pub code : ℤ
  pub report : Option Text

pub record Machine : Type 0 where
  pub path_of_tool : Text → Result HookError Text
  pub path_of_rules : Result HookError Text
  pub is_file : Text → Bool
  pub is_dir : Text → Bool
  -- the rules of the repository's own, sorted
  pub local_rules : List Text
  pub overlays : Fields
  pub env : Env
  pub offline : Bool
  pub execute : List (Text × Text) → Text → List Text → Process
  pub loads : Text → Py Json
  pub dumps : Json → Text
  pub data_dir : Text

-- A return code that is among the expected ones; a signal's is negative.
unfoldable pub expects : List ℕ → ℤ → Bool
unfolding contains
expects codes (pos n) = contains codes n
expects codes (negsuc n) = false

-- `_run`
unfoldable pub run :
    Machine → List ℕ → List (Text × Text) → Text → List Text → Result HookError Process
unfolding expects
run machine codes variables exe command =
    let process = machine.execute variables exe command in
    if expects codes process.code then ok process else err exited

unfoldable pub malformed_as : {A : Type 0} → Result ReadError A → Result HookError A
malformed_as (ok a) = ok a
malformed_as (err e) = err (malformed e)

-- root / name, which is name itself where that is absolute
unfoldable pub join_path : Text → Text → Text
unfolding starts_with
join_path root name = if starts_with name (text "/") then name else root ++ (text "/" ++ name)

-- `gitleaks_config` of repo.py
unfoldable pub gitleaks_config : Machine → Text → Text
unfolding join_path
gitleaks_config machine root =
    let own = join_path root (text ".gitleaks.toml") in
    if machine.is_file own then own else join_path machine.data_dir (text "gitleaks.toml")

unfoldable pub command_or : Option (List Text) → Result HookError (List Text)
command_or none = err unknown_scope
command_or (some command) = ok command

unfoldable pub gitleaks_findings :
    Host → (Text → Py Json) → Option Text → Result HookError (List Finding)
unfolding malformed_as convert parse_gitleaks_json
gitleaks_findings host loads none = ok []
gitleaks_findings host loads (some content) =
    malformed_as (convert (parse_gitleaks_json host loads content))

-- `gitleaks`
unfoldable pub gitleaks :
    Machine → Host → Text → Text → Text → Option Text → Result HookError (List Finding)
unfolding command_or gitleaks_command gitleaks_config run gitleaks_findings
gitleaks machine host root scope report log_opts = do
  exe ← machine.path_of_tool (text "gitleaks")
  command ←
      command_or
        (gitleaks_command machine.env (gitleaks_config machine root) root report scope log_opts)
  process ← run machine (0 ∷ 1 ∷ []) [] exe command
  gitleaks_findings host machine.loads process.report

unfoldable pub overlay_or :
    Result ScanError (List Text × List Text) → Result HookError (List Text × List Text)
overlay_or (ok found) = ok found
overlay_or (err e) = err (bad_overlay e)

-- The packs that the bundle has.
unfoldable pub present_packs : Machine → Text → List Text → List Text
unfolding join_path
present_packs machine bundle [] = []
present_packs machine bundle (pack ∷ packs) =
    let rest = present_packs machine bundle packs in
    if machine.is_dir (join_path bundle pack) then join_path bundle pack ∷ rest else rest

-- `opengrep_configs`
unfoldable pub opengrep_configs : Machine → Text → Result HookError (List Text × List Text)
unfolding overlay_or resolve_overlay present_packs
opengrep_configs machine overlay = do
  (packs, excludes) ← overlay_or (resolve_overlay machine.overlays overlay)
  bundle ← machine.path_of_rules
  ok (present_packs machine bundle packs ++ machine.local_rules, excludes)

-- The text of the report after `demote_low_confidence_levels`, which writes it only if it counts any.
demoted_text : Machine → Text → Json × ℕ → Text
demoted_text machine content (after, count) =
    if count == 0 then content else machine.dumps after ++ text "\n"

unfoldable pub opengrep_findings : Machine → Host → Option Text → Result HookError (List Finding)
unfolding malformed_as report_shape demote_low_confidence_levels demoted_text parse_opengrep_sarif
opengrep_findings machine host none = ok []
opengrep_findings machine host (some content) = do
  demoted ← malformed_as (report_shape (demote_low_confidence_levels host) (machine.loads content))
  malformed_as (
      report_shape (parse_opengrep_sarif host)
        (machine.loads (demoted_text machine content demoted)))

unfoldable pub no_target : Option (List Text) → Bool
no_target (some []) = true
no_target _ = false

unfoldable pub is_empty : List Text → Bool
is_empty [] = true
is_empty (x ∷ xs) = false

-- `opengrep`
unfoldable pub opengrep :
    Machine → Host → Text → Option (List Text) → Text → Bool → Result HookError (List Finding)
unfolding no_target opengrep_configs opengrep_command run opengrep_findings is_empty
opengrep machine host overlay targets report scan_tests = if no_target targets then ok [] else (do
  exe ← machine.path_of_tool (text "opengrep")
  (configs, rules) ← opengrep_configs machine overlay
  _ ← require (not (is_empty configs)) no_packs
  process ←
      run machine (0 ∷ 1 ∷ []) [] exe (opengrep_command report scan_tests configs rules targets)
  opengrep_findings machine host process.report)

-- A file of the repository, if it is there.
unfoldable pub optional_file : Machine → Text → Option Text
optional_file machine path = if machine.is_file path then some path else none

unfoldable pub osv_offline : Machine → Bool
unfolding lower
osv_offline machine =
    let wish = lower (env_or machine.env (text "THYN_SEC_OSV_OFFLINE") []) in
    machine.offline || (wish == text "1" || (wish == text "true" || wish == text "yes"))

-- OSV_EXIT_NO_PACKAGES
abbrev pub osv_exit_no_packages : ℕ
osv_exit_no_packages = 128

unfoldable pub osv_findings : Machine → Host → Process → Result HookError (List Finding)
unfolding expects malformed_as report_shape parse_osv_json
osv_findings machine host process =
    if expects (osv_exit_no_packages ∷ []) process.code then ok [] else elim process.report [
      | none ↦ ok []
      | some content ↦ malformed_as (report_shape (parse_osv_json host) (machine.loads content))
    ]

-- `osv`
unfoldable pub osv : Machine → Host → Text → Text → Result HookError (List Finding)
unfolding osv_command optional_file join_path osv_offline run osv_findings
osv machine host root report = do
  exe ← machine.path_of_tool (text "osv-scanner")
  process ← run machine (0 ∷ 1 ∷ osv_exit_no_packages ∷ []) [] exe (
      osv_command root report (optional_file machine (join_path root (text "osv-scanner.toml")))
        (osv_offline machine))
  osv_findings machine host process

unfoldable pub trivy_findings : Machine → Host → Option Text → Result HookError (List Finding)
unfolding malformed_as report_shape parse_trivy_sarif
trivy_findings machine host none = ok []
trivy_findings machine host (some content) =
    malformed_as (report_shape (parse_trivy_sarif host) (machine.loads content))

-- `trivy`
unfoldable pub trivy : Machine → Host → Text → Text → Result HookError (List Finding)
unfolding trivy_command optional_file join_path run trivy_findings
trivy machine host root report = do
  exe ← machine.path_of_tool (text "trivy")
  process ←
      run machine (0 ∷ [])
        (if machine.offline then (text "TRIVY_SKIP_CHECK_UPDATE", text "true") ∷ [] else []) exe
        (trivy_command root report (optional_file machine (join_path root (text ".trivyignore")))
          (optional_file machine (join_path root (text "trivy.yaml"))))
  trivy_findings machine host process.report

-- `actionlint`: the exit code.
unfoldable pub actionlint : Machine → List Text → Result HookError ℤ
actionlint machine [] = ok (pos 0)
actionlint machine (f ∷ fs) = do
  exe ← machine.path_of_tool (text "actionlint")
  ok (machine.execute [] exe (f ∷ fs)).code
